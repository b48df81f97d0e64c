-- ===== src/Scanner/Retry/Delay.antt =====
-- The closed form of the retry delay.
use reddotrelay.Prelude.{
  ℕ, zero, suc, ◌*◌, ◌/◌, ◌^◌, leb→le, ◌≤◌, ◌≡◌, min, arith, leb, Bool-cases, inl, inr,
}
use native.Mathlib.Nat.{pow-suc}
use reddotrelay.Scanner.Retry.{max_rpc_backoff, doubled_delay, rpc_retry_delay}

pow_pos : (n : ℕ) → 1 ≤ 2 ^ n
pow_pos zero = omega arith
pow_pos (suc n) = rw pow-suc (omega (arith, pow_pos n))

shift : (delay n : ℕ) → delay * 2 ^ suc n ≡ delay * 2 * 2 ^ n
shift delay n = rw pow-suc (omega arith)

grows : (delay n : ℕ) → delay ≤ delay * 2 ^ n
grows delay n = grind (arith, pow_pos n)

doubled_delay-min : (n delay : ℕ) → doubled_delay n delay ≡ min (delay * 2 ^ n) max_rpc_backoff
unfolding doubled_delay
doubled_delay-min zero delay = omega arith
doubled_delay-min (suc n) delay = elim (Bool-cases (leb (max_rpc_backoff / 2) delay)) [
  | inl e ↦ rw (e, shift delay n) (omega (arith, leb→le _ _ e, grows (delay * 2) n))
  | inr e ↦ rw (e, shift delay n) (doubled_delay-min n (delay * 2))
]

-- The delay before attempt `n + 1` is the base doubled `n` times, and at most 30 seconds.
pub rpc_retry_delay-min : (base n : ℕ) → rpc_retry_delay base n ≡ min (base * 2 ^ n) max_rpc_backoff
unfolding rpc_retry_delay
rpc_retry_delay-min base n = elim (Bool-cases (leb max_rpc_backoff base)) [
  | inl e ↦ rw e (omega (arith, leb→le _ _ e, grows base n))
  | inr e ↦ rw e (doubled_delay-min n base)
]
