-- ===== src/Scanner/Logs/Distinct.antt =====
-- What deduplication makes of a list of logs: each of them once.
use reddotrelay.Prelude.{
  ℕ, ◌≡◌, refl, sym, Bool, true, false, List, [], ◌∷◌, Option-cases, none, some, Result, ok, err,
  Bool-cases, inl, inr, ◌⊎◌, arith, All, All-In, All-map, All-insert_sorted, All-sort, In, In-map,
  In-sort, find?-In, map, sort, insert_sorted, find?, list_eq, ◌==◌,
}
use reddotrelay.Core.{RawLog, same_id, same_id_iff}
use reddotrelay.Scanner.Types.{Hex, Log, ScanError}
use reddotrelay.Scanner.Logs.{raw_log, distinct_logs, deduplicate, log_before, log_id, same_rpc_log}
use reddotrelay.Scanner.Logs.Order.{InOrder, sort-InOrder, OnLogs, distinct_logs-All, All-raw}

-- Two logs of a chain are different entries: not of one transaction and index.
abbrev pub Differ : RawLog → RawLog → Type 0
Differ a b = a.transaction_hash ≡ b.transaction_hash → a.log_index ≡ b.log_index → ⊥

Differ-sym : (a b : RawLog) → Differ a b → Differ b a
Differ-sym a b d t i = d (sym t) (sym i)

abbrev pub Distinct : List RawLog → Type 0
Distinct [] = Unit
Distinct (a ∷ rest) = All (Differ a) rest × Distinct rest

insert_sorted-Distinct :
    (before : RawLog → RawLog → Bool) (a : RawLog) (xs : List RawLog)
    → All (Differ a) xs
    → Distinct xs
    → Distinct (insert_sorted before a xs)
insert_sorted-Distinct before a [] h d = (tt, tt)
insert_sorted-Distinct before a (x ∷ xs) h d = elim (Bool-cases (before x a)) [
  | inr e ↦ rw e (h, d)
  | inl e ↦ rw e (
    All-insert_sorted before (Differ x) a xs (Differ-sym a x h.0) d.0,
    insert_sorted-Distinct before a xs h.1 d.1,
  )
]

sort-Distinct :
    (before : RawLog → RawLog → Bool) (xs : List RawLog) → Distinct xs → Distinct (sort before xs)
sort-Distinct before [] d = tt
sort-Distinct before (x ∷ xs) d =
    insert_sorted-Distinct before x (sort before xs) (All-sort before (Differ x) xs d.0)
      (sort-Distinct before xs d.1)

list_eq-eq : (xs ys : List ℕ) → list_eq ◌==◌ xs ys ≡ true → xs ≡ ys
list_eq-eq [] [] h = refl
list_eq-eq [] (y ∷ ys) h = cc
list_eq-eq (x ∷ xs) [] h = cc
list_eq-eq (x ∷ xs) (y ∷ ys) h = ground (arith, list_eq-eq xs ys)

module _ (hex : Hex) (chain : ℕ) where
  same_rpc_log-raw :
      (a b : Log) → same_rpc_log a b ≡ true → raw_log hex chain a ≡ raw_log hex chain b
  unfolding same_rpc_log raw_log
  same_rpc_log-raw a b h =
      let parts : (a.address ≡ b.address)
          × (list_eq ◌==◌ a.topics b.topics ≡ true)
          × (list_eq ◌==◌ a.content b.content ≡ true)
          × (a.block_number ≡ b.block_number)
          × (a.tx_hash ≡ b.tx_hash)
          × (a.block_hash ≡ b.block_hash)
          × (a.index ≡ b.index) =
        ground arith in
      let (e1, t, c, e2, e3, e4, e5) = parts in
      let e6 = list_eq-eq a.topics b.topics t in
      let e7 = list_eq-eq a.content b.content c in rw (e1, e2, e3, e4, e5, e6, e7) refl

  -- Of the logs that the loop keeps of `logs`, after those of `seen`.
  record Kept (seen logs kept : List Log) : Type 0 where
    distinct : Distinct (map (raw_log hex chain) kept)
    fresh : All (λ r. All (λ s. Differ r (raw_log hex chain s)) seen) (map (raw_log hex chain) kept)
    complete :
        All
          (λ l.
            In (raw_log hex chain l) (map (raw_log hex chain) kept)
            ⊎ In (raw_log hex chain l) (map (raw_log hex chain) seen))
          logs

  -- A log that is not found has another entry than each.
  not_found-Differ :
      (l : Log) (seen : List Log)
      → find? (λ s. same_id (log_id hex chain l) (log_id hex chain s)) seen ≡ none
      → All (λ s. Differ (raw_log hex chain l) (raw_log hex chain s)) seen
  unfolding raw_log log_id
  not_found-Differ l [] h = tt
  not_found-Differ l (s ∷ seen) h =
      elim (Bool-cases (same_id (log_id hex chain l) (log_id hex chain s))) [
        | inl e ↦ absurd (found (rw e at h))
        | inr e ↦ (
          λ t i.
              absurd
                (differ e ((same_id_iff (log_id hex chain l) (log_id hex chain s)).1 (one t i))),
          not_found-Differ l seen (rw e at h),
        )
      ]
    where
      found : some s ≡ none → ⊥
      found e = cc

      differ : {b : Bool} → b ≡ false → b ≡ true → ⊥
      differ e e' = cc

      one :
          hex.hash_hex l.tx_hash ≡ hex.hash_hex s.tx_hash
          → l.index ≡ s.index
          → log_id hex chain l ≡ log_id hex chain s
      one t i = rw (t, i) refl

  distinct_logs-Kept :
      (seen logs : List Log) → OnLogs (Kept seen logs) (distinct_logs hex chain seen logs)
  unfolding distinct_logs
  distinct_logs-Kept seen [] = record { distinct = tt; fresh = tt; complete = tt }
  distinct_logs-Kept seen (l ∷ ls) =
      elim (Option-cases (find? (λ s. same_id (log_id hex chain l) (log_id hex chain s)) seen)) [
        | inl e ↦
            rw (e, OnLogs)
              (kept (not_found-Differ l seen e) (distinct_logs hex chain (l ∷ seen) ls)
                (distinct_logs-Kept (l ∷ seen) ls))
        | inr (p, e) ↦ elim (Bool-cases (same_rpc_log p l)) [
          | inr n ↦ rw (e, n, OnLogs) tt
          | inl y ↦
              rw (e, y, OnLogs)
                (again p (find?-In _ seen p e) y (distinct_logs hex chain seen ls)
                  (distinct_logs-Kept seen ls))
        ]
      ]
    where
      again :
          (p : Log)
          → In p seen
          → same_rpc_log p l ≡ true
          → (r : Result ScanError (List Log)) → OnLogs (Kept seen ls) r
          → OnLogs (Kept seen (l ∷ ls)) r
      again p m y (err x) k = tt
      again p m y (ok rest) k = record {
        distinct = k.distinct;
        fresh = k.fresh;
        complete = (
          rw (sym (same_rpc_log-raw p l y)) (inr (In-map (raw_log hex chain) p seen m)),
          k.complete,
        );
      }

      kept :
          All (λ s. Differ (raw_log hex chain l) (raw_log hex chain s)) seen
          → (r : Result ScanError (List Log)) → OnLogs (Kept (l ∷ seen) ls) r
          → OnLogs (Kept seen (l ∷ ls)) (elim r as (λ _. Result ScanError (List Log)) [
            | ok rest ↦ ok (l ∷ rest)
            | err e ↦ err e
          ])
      kept n (err x) k = tt
      kept n (ok rest) k = record {
        distinct = (
          All-map _ _ (λ r h. Differ-sym r (raw_log hex chain l) h.0) (map (raw_log hex chain) rest)
              k.fresh,
          k.distinct,
        );
        fresh = (n, All-map _ _ (λ r h. h.1) (map (raw_log hex chain) rest) k.fresh);
        complete = (inl (inl refl), All-map _ _ (λ x. one_of (raw_log hex chain x)) ls k.complete);
      }
        where
          one_of :
              (r : RawLog)
              → In r (map (raw_log hex chain) rest) ⊎ In r (map (raw_log hex chain) (l ∷ seen))
              → In r (map (raw_log hex chain) (l ∷ rest)) ⊎ In r (map (raw_log hex chain) seen)
          one_of r (inl m) = inl (inr m)
          one_of r (inr (inl e)) = inl (inl e)
          one_of r (inr (inr m)) = inr m

  -- The records of a list of logs, in order, each once.
  pub record IsDeduplicated (logs : List Log) (raws : List RawLog) : Type 0 where
    pub in_order : InOrder raws
    pub distinct : Distinct raws
    pub of_logs : All (λ r. (l : Log) × In l logs × (r ≡ raw_log hex chain l)) raws
    pub complete : All (λ l. In (raw_log hex chain l) raws) logs

  -- The records that `deduplicate` returns are ordered by block and index, no two are of one transaction
  -- and index, each is that of a given log, and the record of every given log is among them.
  pub deduplicate-IsDeduplicated :
      (logs : List Log) → OnLogs (IsDeduplicated logs) (deduplicate hex chain logs)
  unfolding deduplicate
  deduplicate-IsDeduplicated logs =
      sorted (distinct_logs hex chain [] logs) (distinct_logs-Kept [] logs)
        (distinct_logs-All hex chain (λ l. In l logs) [] logs (All-In _ logs λ l m. m))
    where
      kept_one :
          (kept : List Log) (l : Log)
          → In (raw_log hex chain l) (map (raw_log hex chain) kept) ⊎ ⊥
          → In (raw_log hex chain l) (sort log_before (map (raw_log hex chain) kept))
      kept_one kept l (inl m) = In-sort log_before _ _ m
      kept_one kept l (inr x) = absurd x

      sorted :
          (r : Result ScanError (List Log))
          → OnLogs (Kept [] logs) r
          → OnLogs (All (λ l. In l logs)) r
          → OnLogs (IsDeduplicated logs) (elim r as (λ _. Result ScanError (List RawLog)) [
            | ok kept ↦ ok (sort log_before (map (raw_log hex chain) kept))
            | err e ↦ err e
          ])
      sorted (err e) k q = tt
      sorted (ok kept) k q = record {
        in_order = sort-InOrder (map (raw_log hex chain) kept);
        distinct = sort-Distinct log_before (map (raw_log hex chain) kept) k.distinct;
        of_logs = All-sort log_before _ _ (
            All-raw hex chain (λ r. (l : Log) × In l logs × (r ≡ raw_log hex chain l)) kept
              (All-map _ _ (λ l m. (l, m, refl)) kept q));
        complete = All-map _ _ (kept_one kept) logs k.complete;
      }
