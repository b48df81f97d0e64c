-- ===== src/Store/History.antt =====
-- internal/store/sqlite/store.go: `Checkpoint`, `CanonicalBlocks`, `Rewind`, `RewindCanonical` and
-- `ResetFrom`, by which the scanner resumes and recovers from a reorganisation.
pub mod Keys
pub mod Recovery
pub mod Tests
use reddotrelay.Prelude.{
  ℕ, ◌-◌, Bool, not, ◌&&◌, ◌||◌, List, [], ◌∷◌, none, some, Result, ok, err, ◌==◌, ltb, leb,
  if◌then◌else◌, find?, any, select, map, take, sort, String,
}
use reddotrelay.Core.{Event, Delivery, Checkpoint, CanonicalBlock}
use reddotrelay.Store.Db.{
  Db, Tx, StoreError, out_of_range, checkpoint_not_found, bad_limit, raise_if, ensure, modify,
  commit, ◌>>=◌, ◌>>◌, valid_uint64, has_id,
}
use reddotrelay.Store.Events.{on_chain}

-- A delivery whose event is not deleted.
unfoldable pub survives : (Event → Bool) → List Event → Delivery → Bool
survives p es d = not (any (λ e. has_id d.event_id e && p e) es)

-- DELETE FROM events; the foreign key's ON DELETE CASCADE takes their deliveries.
unfoldable pub delete_events : (Event → Bool) → Db → Db
delete_events p db = record db {
  events = select (λ e. not (p e)) db.events;
  deliveries = select (survives p db.events) db.deliveries;
}

-- DELETE FROM canonical_blocks WHERE chain_id = ? AND block_number >= ?
pub delete_blocks_from : ℕ → ℕ → Db → Db
delete_blocks_from chain from db = record db {
  canonical_blocks =
      select (λ b. not (chain == b.chain_id && leb from b.number)) db.canonical_blocks;
}

abbrev pub in_chain_from : ℕ → ℕ → Event → Bool
in_chain_from chain from e = chain == e.id.chain_id && leb from e.block_number

-- `Checkpoint`
pub checkpoint : ℕ → Db → Result StoreError Checkpoint
checkpoint chain db =
    if not (valid_uint64 (chain ∷ []))
    then err out_of_range
    else elim (find? (on_chain chain) db.checkpoints) [
      | none ↦ err checkpoint_not_found
      | some c ↦ ok c
    ]

-- UPDATE checkpoints SET block_number = ?, block_hash = ? WHERE chain_id = ?
pub move_checkpoint : Checkpoint → Db → Db
move_checkpoint c db = record db {
  checkpoints = map (λ o. if on_chain c.chain_id o then c else o) db.checkpoints;
}

-- DELETE FROM checkpoints WHERE chain_id = ?
pub drop_checkpoint : ℕ → Db → Db
drop_checkpoint chain db = record db {
  checkpoints = select (λ o. not (on_chain chain o)) db.checkpoints;
}

-- `RowsAffected` of the two statements above is 1 exactly if there is a row.
pub has_checkpoint : ℕ → Db → Bool
has_checkpoint chain db = any (on_chain chain) db.checkpoints

abbrev pub above : Checkpoint → Event → Bool
above c e = c.chain_id == e.id.chain_id && ltb c.block_number e.block_number

-- `Rewind`
pub rewind : Checkpoint → Db → Result StoreError (Unit {0}) × Db
rewind c = commit (
    raise_if (not (valid_uint64 (c.chain_id ∷ c.block_number ∷ []))) out_of_range
    >> (modify (delete_events (above c))
        >> (ensure (has_checkpoint c.chain_id) checkpoint_not_found >> modify (move_checkpoint c))))

-- `ResetFrom`
pub reset_from : ℕ → ℕ → Db → Result StoreError (Unit {0}) × Db
reset_from chain block = commit (
    raise_if (not (valid_uint64 (chain ∷ block ∷ []))) out_of_range
    >> (modify (delete_events (in_chain_from chain block))
        >> (modify (delete_blocks_from chain block)
            >> (ensure (has_checkpoint chain) checkpoint_not_found
                >> modify (drop_checkpoint chain)))))

-- `RewindCanonical`: a bound argument past the integer range of the database is refused.
pub rewind_canonical : ℕ → ℕ → String → Db → Result StoreError (Unit {0}) × Db
rewind_canonical chain from ancestor_hash = commit (
    raise_if (not (valid_uint64 (chain ∷ from ∷ []))) out_of_range
    >> (modify (delete_events (in_chain_from chain from))
        >> (modify (delete_blocks_from chain from)
            >> modify (
                if from == 0
                then drop_checkpoint chain
                else move_checkpoint (record {
                  chain_id = chain;
                  block_number = from - 1;
                  block_hash = ancestor_hash;
                })))))

-- ORDER BY block_number DESC
abbrev pub newer_block : CanonicalBlock → CanonicalBlock → Bool
newer_block a b = ltb b.number a.number

-- `CanonicalBlocks`
pub canonical_blocks : ℕ → ℕ → Db → Result StoreError (List CanonicalBlock)
canonical_blocks chain limit db =
    if limit == 0 || ltb 100000 limit
    then err bad_limit
    else if not (valid_uint64 (chain ∷ []))
    then err out_of_range
    else ok (take limit (sort newer_block (select (λ b. chain == b.chain_id) db.canonical_blocks)))
