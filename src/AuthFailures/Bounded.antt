-- ===== src/AuthFailures/Bounded.antt =====
-- The table of failures does not outgrow its maximum.
use reddotrelay.Prelude.{
  ℕ, ◌+◌, ◌<◌, ◌≤◌, ◌≡◌, Bool, true, false, not, ◌||◌, List, [], ◌∷◌, ltb, leb, if◌then◌else◌,
  find?, any, select, length, length-select-le, arith, Bool-cases, inl, inr, Option-cases,
}
use reddotrelay.AuthFailures.{
  Failure, failure_maximum, has_key, delete_expired, oldest, evict_oldest, count_failure,
  record_failure,
}
use reddotrelay.AuthFailures.Blocks.{
  length-delete_expired, count_failure-known, count_failure-new, length-map,
}

length-select-less :
    (p : Failure → Bool) (fs : List Failure)
    → any p fs ≡ true
    → length (select (λ f. not (p f)) fs) < length fs
length-select-less p [] h = cc
length-select-less p (f ∷ fs) h = elim (Bool-cases (p f)) [
  | inl e ↦ let l = length-select-le (λ f. not (p f)) fs in ground (arith, l)
  | inr e ↦ let i = length-select-less p fs (ground arith) in ground (arith, i)
]

-- The entry that is evicted is one of the map.
any-oldest :
    (best : Failure) (fs : List Failure)
    → (has_key (oldest best fs).key best || any (has_key (oldest best fs).key) fs) ≡ true
unfolding oldest
any-oldest best [] = ground arith
any-oldest best (f ∷ fs) =
    step (ltb f.first_seen best.first_seen)
      (oldest (if ltb f.first_seen best.first_seen then f else best) fs).key
      (any-oldest (if ltb f.first_seen best.first_seen then f else best) fs)
  where
    step :
        (c : Bool) (k : ℕ)
        → (has_key k (if c then f else best) || any (has_key k) fs) ≡ true
        → (has_key k best || (has_key k f || any (has_key k) fs)) ≡ true
    step true k h = ground arith
    step false k h = ground arith

length-evict_oldest : (fs : List Failure) → 0 < length fs → length (evict_oldest fs) < length fs
unfolding evict_oldest
length-evict_oldest [] h = absurd (omega (arith, h))
length-evict_oldest (f ∷ fs) h =
    length-select-less (has_key (oldest f fs).key) (f ∷ fs) (any-oldest f fs)

length-count_failure :
    (key now : ℕ) (fs : List Failure) → length (count_failure key now fs) ≤ length fs + 1
length-count_failure key now fs = elim (Option-cases (find? (has_key key) fs)) [
  | inl e ↦ rw (count_failure-new key now fs e) (omega arith)
  | inr (f, e) ↦ rw (count_failure-known key now fs f e) (
      let m = length-map (λ g. if has_key key g then record g { count = g.count + 1 } else g) fs in
      omega (arith, m))
]

-- Counting a failure leaves the table within its maximum.
pub record_failure-bounded :
    (key now : ℕ) (fs : List Failure)
    → length fs ≤ failure_maximum
    → length (record_failure key now fs) ≤ failure_maximum
unfolding record_failure
record_failure-bounded key now fs l =
    elim (Bool-cases (leb failure_maximum (length (delete_expired now fs)))) [
      | inl e ↦
          let c = length-count_failure key now (evict_oldest (delete_expired now fs)) in
          let v = length-evict_oldest (delete_expired now fs) (ground arith) in
          let d = length-delete_expired now fs in rw e (omega (arith, c, v, d, l))
      | inr e ↦
          let c = length-count_failure key now (delete_expired now fs) in
          let d : length (delete_expired now fs) < failure_maximum = ground arith in
          rw e (omega (arith, c, d))
    ]
