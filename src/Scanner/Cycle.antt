-- ===== src/Scanner/Cycle.antt =====
-- internal/scanner/scanner.go: `NewWithObserver`'s checks, `resumeBlock` and `ScanOnce`.
pub mod Plan
pub mod Tests
use reddotrelay.Prelude.{
  ℕ, zero, suc, ◌+◌, ◌-◌, ◌%◌, Bool, true, false, not, ◌&&◌, ◌||◌, List, [], ◌∷◌, Option, none,
  some, String, Result, ok, err, ◌==◌, str_eq, ltb, leb, if◌then◌else◌,
}
use reddotrelay.Core.{Checkpoint, CanonicalBlock, RawLog}
use reddotrelay.Store.Db.{StoreError, checkpoint_not_found}
use reddotrelay.Scanner.Types.{
  Hash, Hex, Header, Rpc, Options, Checkpoints, History, Processor, Io, ScanError, pure, raise,
  raise_if, ◌>>=◌, ◌>>◌, store_failed, resume_overflow, latest_invalid, uint64_mod,
}
use reddotrelay.Scanner.Retry.{header_by_number, block_hash_by_number, verify_chain_id}
use reddotrelay.Scanner.Verify.{Batch, fetch_verified_batch}

-- The checks of `NewWithObserver` on the options.
pub valid_options : Options → Bool
valid_options o =
    not (o.chain_id == 0 || o.batch_size == 0)
    && not (
        o.retry_attempts == 0
        || ltb 30 o.retry_attempts
        || o.retry_backoff == 0
        || o.rpc_timeout == 0
        || o.poll_interval == 0)

-- `errors.Is(err, core.ErrCheckpointNotFound)`
pub is_missing : StoreError → Bool
is_missing checkpoint_not_found = true
is_missing e = false

pub is_not_found : ScanError → Bool
unfolding is_missing
is_not_found (store_failed cause) = is_missing cause
is_not_found e = false

-- The end of a batch: `from + BatchSize - 1` in 64-bit arithmetic, cut at the confirmed head.
pub batch_end : ℕ → ℕ → ℕ → ℕ
batch_end size from head =
    let to = (from + size + uint64_mod - 1) % uint64_mod in
    if ltb to from || ltb head to then head else to

-- The batches of `ScanOnce`'s loop, so many at most.
pub plan_batches : ℕ → ℕ → ℕ → ℕ → List (ℕ × ℕ)
plan_batches zero size from head = []
plan_batches (suc fuel) size from head =
    let to = batch_end size from head in
    let rest = plan_batches fuel size (to + 1) head in
    if to == head then (from, to) ∷ [] else (from, to) ∷ rest

module _ {S : Type 0} (hex : Hex) (rpc : Rpc S) (checkpoints : Checkpoints S)
    (processor : Processor S) (options : Options) where
  -- The loop of `resumeBlock` over the canonical history, newest block first.
  pub find_ancestor : History S → ℕ → List CanonicalBlock → Io S (Option ℕ)
  find_ancestor history latest [] = pure none
  find_ancestor history latest (b ∷ bs) = elim (ltb latest b.number) [
    | true ↦ find_ancestor history latest bs
    | false ↦ block_hash_by_number rpc options b.number >>= λ canonical.
        elim (str_eq (hex.hash_hex canonical) b.hash) [
          | true ↦
              history.rewind_canonical options.chain_id (b.number + 1) b.hash
              >> pure (some (b.number + 1))
          | false ↦ find_ancestor history latest bs
        ]
  ]

  -- The precise recovery, where the store keeps a history.
  pub recover : ℕ → Io S (Option ℕ)
  recover latest = elim checkpoints.history [
    | none ↦ pure none
    | some history ↦
        history.canonical_blocks options.chain_id ((options.reorg_depth + 1) % uint64_mod)
        >>= λ blocks. find_ancestor history latest blocks
  ]

  -- The conservative recovery: everything from the configured start is scanned again.
  pub reset : Option ℕ → Io S ℕ
  reset (some next) = pure next
  reset none =
      checkpoints.reset_from options.chain_id options.start_block >> pure options.start_block

  -- `resumeBlock` once a checkpoint is there.
  pub resume_from : ℕ → Checkpoint → Io S ℕ
  resume_from latest c = elim (ltb latest c.block_number) [
    | true ↦ pure ((latest + 1) % uint64_mod)
    | false ↦
        header_by_number rpc options (some c.block_number)
        >> (block_hash_by_number rpc options c.block_number >>= λ hash.
            elim (str_eq (hex.hash_hex hash) c.block_hash) [
              | true ↦
                  raise_if (c.block_number == uint64_mod - 1) resume_overflow
                  >> pure (c.block_number + 1)
              | false ↦ recover latest >>= reset
            ])
  ]

  -- `resumeBlock`
  pub resume_block : ℕ → Io S ℕ
  resume_block latest s = elim (checkpoints.checkpoint options.chain_id s).0 [
    | ok c ↦ resume_from latest c (checkpoints.checkpoint options.chain_id s).1
    | err e ↦
        if is_not_found e
        then (ok options.start_block, (checkpoints.checkpoint options.chain_id s).1)
        else (err e, (checkpoints.checkpoint options.chain_id s).1)
  ]

  -- The loop of `ScanOnce` over its batches.
  pub scan_batches : List (ℕ × ℕ) → String → Io S (Unit {0})
  scan_batches [] expected_parent = pure tt
  scan_batches ((from, to) ∷ batches) expected_parent =
      fetch_verified_batch hex rpc options from to expected_parent >>= λ batch.
      processor.process batch.logs batch.blocks batch.checkpoint
        ((options.reorg_depth + 1) % uint64_mod)
      >> scan_batches batches batch.checkpoint.block_hash

  -- The parent that the first batch must descend from, if it does not begin at the start block.
  pub expected_parent_of : ℕ → Io S String
  expected_parent_of next = elim (ltb options.start_block next) [
    | true ↦ checkpoints.checkpoint options.chain_id >>= λ c. pure c.block_hash
    | false ↦ pure ""
  ]

  -- `ScanOnce` up to the confirmed head.
  pub scan_to : ℕ → ℕ → Io S (Unit {0})
  scan_to head next = elim (ltb head next) [
    | true ↦ pure tt
    | false ↦ expected_parent_of next >>= λ expected_parent.
        scan_batches (plan_batches (head + 1 - next) options.batch_size next head) expected_parent
  ]

  pub latest_number : Header → Io S ℕ
  latest_number header = elim header.number [
    | none ↦ raise latest_invalid
    | some n ↦ if ltb n uint64_mod then pure n else raise latest_invalid
  ]

  -- `ScanOnce`
  pub scan_once : Io S (Unit {0})
  scan_once =
      verify_chain_id rpc options
      >> (header_by_number rpc options none >>= λ header. latest_number header >>= λ latest.
          elim (ltb latest options.confirmations) [
            | true ↦ pure tt
            | false ↦ resume_block latest >>= λ next. scan_to (latest - options.confirmations) next
          ])
