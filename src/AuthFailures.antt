-- ===== src/AuthFailures.antt =====
-- cmd/reddotrelay/ui_session.go: `authFailureLimiter`, which slows down the guessing of passwords.
--
-- A key, a SHA-256 digest, is a number. The map is an association list; the order in which Go walks it is
-- the list's.
pub mod Blocks
pub mod Bounded
pub mod Tests
use reddotrelay.Prelude.{
  ℕ, ◌+◌, ◌-◌, ◌*◌, Bool, true, false, not, List, [], ◌∷◌, Option, none, some, ◌==◌, ltb, leb,
  if◌then◌else◌, find?, select, map, length,
}

-- An entry of the map.
pub record Failure : Type 0 where
  pub key : ℕ
  pub count : ℕ
  pub first_seen : ℕ

abbrev pub failure_limit : ℕ
failure_limit = 5

-- 15 minutes, in nanoseconds
abbrev pub failure_window : ℕ
failure_window = 900000000000

abbrev pub failure_maximum : ℕ
failure_maximum = 2048

abbrev pub has_key : ℕ → Failure → Bool
has_key key f = key == f.key

-- `deleteExpiredLocked`
pub delete_expired : ℕ → List Failure → List Failure
delete_expired now failures = select (λ f. ltb now (f.first_seen + failure_window)) failures

-- The loop of `evictOldestLocked`.
pub oldest : Failure → List Failure → Failure
oldest best [] = best
oldest best (f ∷ failures) =
    let next = if ltb f.first_seen best.first_seen then f else best in oldest next failures

-- `evictOldestLocked`
pub evict_oldest : List Failure → List Failure
evict_oldest [] = []
evict_oldest (f ∷ failures) =
    let evicted = oldest f failures in select (λ g. not (has_key evicted.key g)) (f ∷ failures)

-- `retryAfter`: the time to wait, and the map.
pub retry_after : ℕ → ℕ → List Failure → ℕ × List Failure
retry_after key now failures =
    let kept = delete_expired now failures in
    (
      elim (find? (has_key key) kept) [
        | none ↦ 0
        | some f ↦ if ltb f.count failure_limit then 0 else f.first_seen + failure_window - now
      ],
      kept,
    )

-- The last lines of `record`.
pub count_failure : ℕ → ℕ → List Failure → List Failure
count_failure key now failures = elim (find? (has_key key) failures) [
  | none ↦ record { key = key; count = 1; first_seen = now } ∷ failures
  | some f ↦ map (λ g. if has_key key g then record g { count = g.count + 1 } else g) failures
]

-- `record`
pub record_failure : ℕ → ℕ → List Failure → List Failure
record_failure key now failures =
    let kept = delete_expired now failures in
    count_failure key now (if leb failure_maximum (length kept) then evict_oldest kept else kept)

-- `reset`
pub reset : ℕ → List Failure → List Failure
reset key failures = select (λ f. not (has_key key f)) failures
