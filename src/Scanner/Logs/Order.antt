-- ===== src/Scanner/Logs/Order.antt =====
-- The order of the deduplicated logs, and where they come from.
use reddotrelay.Prelude.{
  ℕ, ◌<◌, ◌≤◌, ◌⊎◌, true, false, ◌≡◌, List, [], ◌∷◌, Option-cases, Result, ok, err, Bool-cases, inl,
  inr, arith, All, All-sort, map, sort, insert_sorted, find?, if◌then◌else◌, if-elim,
}
use reddotrelay.Core.{RawLog, same_id}
use reddotrelay.Scanner.Types.{Hex, Log, ScanError}
use reddotrelay.Scanner.Logs.{raw_log, distinct_logs, deduplicate, log_before, log_id, same_rpc_log}

-- No log comes before the one in front of it, by the test of the sort.
Sorted : List RawLog → Type 0
Sorted [] = Unit
Sorted (a ∷ []) = Unit
Sorted (a ∷ b ∷ rest) = (log_before b a ≡ false) × Sorted (b ∷ rest)

asymmetric : (a b : RawLog) → log_before a b ≡ true → log_before b a ≡ false
asymmetric a b h = ground arith

insert_sorted-Sorted :
    (a : RawLog) (xs : List RawLog) → Sorted xs → Sorted (insert_sorted log_before a xs)
unfolding Sorted
insert_sorted-Sorted a [] h = tt
insert_sorted-Sorted a (x ∷ []) h = elim (Bool-cases (log_before x a)) [
  | inl e ↦ rw e (asymmetric x a e, tt)
  | inr e ↦ rw e (e, tt)
]
insert_sorted-Sorted a (x ∷ y ∷ ys) h = elim (Bool-cases (log_before x a)) [
  | inl e ↦ rw e (after e (insert_sorted-Sorted a (y ∷ ys) h.1))
  | inr e ↦ rw e (e, h)
]
  where
    after :
        log_before x a ≡ true
        → Sorted (if log_before y a then y ∷ insert_sorted log_before a ys else a ∷ y ∷ ys)
        → Sorted (x ∷ (if log_before y a then y ∷ insert_sorted log_before a ys else a ∷ y ∷ ys))
    after e i = elim (Bool-cases (log_before y a)) [
      | inl k ↦ rw k (h.0, rw k at i)
      | inr k ↦ rw k (asymmetric x a e, rw k at i)
    ]

sort-Sorted : (xs : List RawLog) → Sorted (sort log_before xs)
unfolding Sorted
sort-Sorted [] = tt
sort-Sorted (x ∷ xs) = insert_sorted-Sorted x (sort log_before xs) (sort-Sorted xs)

-- A log is not after another: its block is lower or, in one block, its index is not higher.
abbrev NotAfter : RawLog → RawLog → Type 0
NotAfter a b =
    (a.block_number < b.block_number)
    ⊎ ((a.block_number ≡ b.block_number) × (a.log_index ≤ b.log_index))

-- No log is after the next.
pub InOrder : List RawLog → Type 0
InOrder [] = Unit
InOrder (a ∷ []) = Unit
InOrder (a ∷ b ∷ rest) = NotAfter a b × InOrder (b ∷ rest)

Sorted-InOrder : (xs : List RawLog) → Sorted xs → InOrder xs
unfolding Sorted InOrder
Sorted-InOrder [] h = tt
Sorted-InOrder (a ∷ []) h = tt
Sorted-InOrder (a ∷ b ∷ rest) h = (not_after h.0, Sorted-InOrder (b ∷ rest) h.1)
  where
    not_after : log_before b a ≡ false → NotAfter a b
    not_after e = ground arith

pub sort-InOrder : (xs : List RawLog) → InOrder (sort log_before xs)
sort-InOrder xs = Sorted-InOrder (sort log_before xs) (sort-Sorted xs)

-- Of a result that is not an error.
abbrev pub OnLogs : {A : Type 0} → (A → Type 0) → Result ScanError A → Type 0
OnLogs P (ok a) = P a
OnLogs P (err e) = Unit

module _ (hex : Hex) (chain : ℕ) where
  pub distinct_logs-All :
      (P : Log → Type 0) (seen logs : List Log)
      → All P logs
      → OnLogs (All P) (distinct_logs hex chain seen logs)
  unfolding distinct_logs
  distinct_logs-All P seen [] h = tt
  distinct_logs-All P seen (l ∷ ls) h =
      elim (Option-cases (find? (λ s. same_id (log_id hex chain l) (log_id hex chain s)) seen)) [
        | inl e ↦
            rw (e, OnLogs)
              (kept (distinct_logs hex chain (l ∷ seen) ls) (distinct_logs-All P (l ∷ seen) ls h.1))
        | inr (previous, e) ↦
            rw (e, OnLogs)
              (if-elim (OnLogs (All P)) (same_rpc_log previous l) (distinct_logs-All P seen ls h.1)
                tt)
      ]
    where
      kept :
          (r : Result ScanError (List Log))
          → OnLogs (All P) r
          → OnLogs (All P) (elim r as (λ _. Result ScanError (List Log)) [
            | ok rest ↦ ok (l ∷ rest)
            | err e ↦ err e
          ])
      kept (ok rest) q = (h.0, q)
      kept (err e) q = tt

  pub All-raw :
      (P : RawLog → Type 0) (logs : List Log)
      → All (λ l. P (raw_log hex chain l)) logs
      → All P (map (raw_log hex chain) logs)
  All-raw P [] h = tt
  All-raw P (l ∷ ls) h = (h.0, All-raw P ls h.1)

  -- The logs that `deduplicate` returns are ordered by block and index, and whatever holds of the
  -- records of all given logs holds of each of them: none is made up.
  pub deduplicate_lem :
      (P : RawLog → Type 0) (logs : List Log)
      → All (λ l. P (raw_log hex chain l)) logs
      → OnLogs (λ raws. InOrder raws × All P raws) (deduplicate hex chain logs)
  unfolding deduplicate
  deduplicate_lem P logs h =
      sorted (distinct_logs hex chain [] logs)
        (distinct_logs-All (λ l. P (raw_log hex chain l)) [] logs h)
    where
      sorted :
          (r : Result ScanError (List Log))
          → OnLogs (All (λ l. P (raw_log hex chain l))) r
          → OnLogs
              (λ raws. InOrder raws × All P raws)
              (elim r as (λ _. Result ScanError (List RawLog)) [
                | ok kept ↦ ok (sort log_before (map (raw_log hex chain) kept))
                | err e ↦ err e
              ])
      sorted (ok kept) q =
          (sort-InOrder (map (raw_log hex chain) kept), All-sort log_before P _ (All-raw P kept q))
      sorted (err e) q = tt
