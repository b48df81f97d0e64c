-- ===== src/Scanner/Logs.antt =====
-- internal/scanner/scanner.go: `matchesFilter`, `sameRPCLog` and `deduplicate`.
pub mod Order
pub mod Distinct
use reddotrelay.Prelude.{
  ℕ, Bool, true, false, ◌&&◌, ◌||◌, List, [], ◌∷◌, none, some, Result, ok, err, ◌==◌, ltb,
  if◌then◌else◌, any, find?, list_eq, sort, map,
}
use reddotrelay.Core.{EventId, RawLog, same_id}
use reddotrelay.Scanner.Types.{Hash, Log, Hex, Query, ScanError, conflicting_logs}

-- `slices.Contains`
abbrev pub contains : List ℕ → ℕ → Bool
contains xs a = any (λ x. x == a) xs

-- Whether a list is empty.
abbrev pub is_empty : {A : Type 0} → List A → Bool
is_empty [] = true
is_empty (x ∷ xs) = false

-- The loop of `matchesFilter` over the positions of the query's topics.
pub matches_topics : List (List Hash) → List Hash → Bool
matches_topics [] topics = true
matches_topics (accepted ∷ rest) [] = is_empty accepted && matches_topics rest []
matches_topics (accepted ∷ rest) (t ∷ topics) =
    (is_empty accepted || contains accepted t) && matches_topics rest topics

-- `matchesFilter`
pub matches_filter : Log → Query → Bool
matches_filter l q =
    (is_empty q.addresses || contains q.addresses l.address) && matches_topics q.topics l.topics

abbrev bool_eq : Bool → Bool → Bool
bool_eq true b = b
bool_eq false true = false
bool_eq false false = true

-- `sameRPCLog`
pub same_rpc_log : Log → Log → Bool
same_rpc_log a b =
    a.address == b.address
    && list_eq ◌==◌ a.topics b.topics
    && list_eq ◌==◌ a.content b.content
    && a.block_number == b.block_number
    && a.tx_hash == b.tx_hash
    && a.tx_index == b.tx_index
    && a.block_hash == b.block_hash
    && a.index == b.index
    && bool_eq a.removed b.removed

module _ (hex : Hex) (chain : ℕ) where
  pub log_id : Log → EventId
  log_id l = record {
    chain_id = chain;
    transaction_hash = hex.hash_hex l.tx_hash;
    log_index = l.index;
  }

  -- The loop of `deduplicate`; `seen` are the logs met so far.
  pub distinct_logs : List Log → List Log → Result ScanError (List Log)
  distinct_logs seen [] = ok []
  distinct_logs seen (l ∷ ls) = elim (find? (λ s. same_id (log_id l) (log_id s)) seen) [
    | some previous ↦
        if same_rpc_log previous l then distinct_logs seen ls else err conflicting_logs
    | none ↦ elim (distinct_logs (l ∷ seen) ls) [ ok rest ↦ ok (l ∷ rest) | err e ↦ err e ]
  ]

  unfoldable pub raw_log : Log → RawLog
  raw_log l = record {
    chain_id = chain;
    block_number = l.block_number;
    block_hash = hex.hash_hex l.block_hash;
    transaction_hash = hex.hash_hex l.tx_hash;
    log_index = l.index;
    address = hex.address_hex l.address;
    topics = map hex.hash_hex l.topics;
    content = l.content;
  }

-- The order of `sort.Slice`.
abbrev pub log_before : RawLog → RawLog → Bool
log_before a b =
    if ltb a.block_number b.block_number
    then true
    else if a.block_number == b.block_number
    then ltb a.log_index b.log_index
    else false

-- `deduplicate`
pub deduplicate : Hex → ℕ → List Log → Result ScanError (List RawLog)
unfolding distinct_logs raw_log
deduplicate hex chain logs = elim (distinct_logs hex chain [] logs) [
  | ok kept ↦ ok (sort log_before (map (raw_log hex chain) kept))
  | err e ↦ err e
]
