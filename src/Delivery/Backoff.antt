-- ===== src/Delivery/Backoff.antt =====
-- The bounds of the delivery worker's retry delay.
use reddotrelay.Prelude.{
  ℕ, zero, suc, ◌*◌, ◌/◌, ◌^◌, ◌%◌, ◌-◌, leb→le, ◌≤◌, ◌<◌, ◌≡◌, min, arith, leb, Bool-cases, inl,
  inr, true,
}
use native.Mathlib.Nat.{pow-suc}
use reddotrelay.Delivery.{Options, backoff, backoff_rounds, valid_options}

pow_pos : (n : ℕ) → 1 ≤ 2 ^ n
pow_pos zero = omega arith
pow_pos (suc n) = rw pow-suc (omega (arith, pow_pos n))

shift : (delay n : ℕ) → delay * 2 ^ suc n ≡ delay * 2 * 2 ^ n
shift delay n = rw pow-suc (omega arith)

grows : (delay n : ℕ) → delay ≤ delay * 2 ^ n
grows delay n = grind (arith, pow_pos n)

backoff_rounds-min :
    (o : Options) (n delay : ℕ)
    → o.max_backoff % 2 ≡ 0
    → backoff_rounds o n delay ≡ min (delay * 2 ^ n) o.max_backoff
unfolding backoff_rounds
backoff_rounds-min o zero delay h = omega arith
backoff_rounds-min o (suc n) delay h = elim (Bool-cases (leb (o.max_backoff / 2) delay)) [
  | inl e ↦ rw (e, shift delay n) (omega (arith, h, leb→le _ _ e, grows (delay * 2) n))
  | inr e ↦ rw (e, shift delay n) (backoff_rounds-min o n (delay * 2) h)
]

-- When the maximum is even, the delay after an attempt is the base delay doubled once for every
-- attempt before that one, and at most the maximum.
pub backoff-min :
    (o : Options) (attempts : ℕ)
    → o.max_backoff % 2 ≡ 0
    → backoff o attempts ≡ min (o.retry_backoff * 2 ^ (attempts - 1)) o.max_backoff
unfolding backoff
backoff-min o attempts h = backoff_rounds-min o (attempts - 1) o.retry_backoff h

backoff_rounds-bounds :
    (o : Options) (n delay : ℕ)
    → delay ≤ o.max_backoff
    → (delay ≤ backoff_rounds o n delay) × (backoff_rounds o n delay ≤ o.max_backoff)
unfolding backoff_rounds
backoff_rounds-bounds o zero delay h = (omega arith, omega arith)
backoff_rounds-bounds o (suc n) delay h = elim (Bool-cases (leb (o.max_backoff / 2) delay)) [
  | inl e ↦ rw e (h, omega arith)
  | inr e ↦ rw e (weaken (backoff_rounds-bounds o n (delay * 2) (ground arith)))
]
  where
    weaken : {r : ℕ} → (delay * 2 ≤ r) × (r ≤ o.max_backoff) → (delay ≤ r) × (r ≤ o.max_backoff)
    weaken (a, b) = (omega (arith, a), b)

-- With options that the constructor accepts, a retry is never scheduled earlier than the base
-- delay, which is positive, nor later than the maximum.
pub backoff-bounds :
    (o : Options) (attempts : ℕ)
    → valid_options o ≡ true
    → (0 < backoff o attempts)
      × (o.retry_backoff ≤ backoff o attempts)
      × (backoff o attempts ≤ o.max_backoff)
unfolding backoff valid_options
backoff-bounds o attempts h =
    positive (ground arith) (backoff_rounds-bounds o (attempts - 1) o.retry_backoff (ground arith))
  where
    positive :
        {r : ℕ}
        → 0 < o.retry_backoff
        → (o.retry_backoff ≤ r) × (r ≤ o.max_backoff)
        → (0 < r) × (o.retry_backoff ≤ r) × (r ≤ o.max_backoff)
    positive p (a, b) = (omega (arith, p, a), a, b)
