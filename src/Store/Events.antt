-- ===== src/Store/Events.antt =====
-- internal/store/sqlite/store.go: `insertEvent`, `insertDelivery` and `saveBatch`, and
-- `Checkpoint`, `Rewind`, `ResetFrom`, `CanonicalBlocks` and `RewindCanonical`.
pub mod Keys
pub mod Position
pub mod Idempotent
pub mod Progress
pub mod Owned
pub mod Stored
pub mod Tests
use reddotrelay.Prelude.{
  ℕ, ◌+◌, ◌-◌, Bool, true, false, not, ◌&&◌, ◌||◌, List, [], ◌∷◌, none, some, Result, ok, err, ◌==◌,
  str_eq, leb, ltb, if◌then◌else◌, find?, any, select, list_eq, map,
}
use reddotrelay.Core.{Event, EventId, Delivery, pending, Checkpoint, CanonicalBlock, same_id}
use reddotrelay.Store.Db.{
  Db, Tx, StoreError, out_of_range, transaction_hash_required, delivery_fields_required,
  event_conflict, event_not_in_batch, invalid_canonical_block, constraint, pure, raise, raise_if,
  modify, commit, ◌>>=◌, ◌>>◌, valid_uint64, same_delivery, has_id,
}

-- The fields that `insertEvent` compares with a stored row: all but the identity and `observed_at`.
unfoldable pub same_content : Event → Event → Bool
same_content a b =
    a.block_number == b.block_number
    && str_eq a.block_hash b.block_hash
    && str_eq a.address b.address
    && str_eq a.name b.name
    && str_eq a.signature b.signature
    && list_eq str_eq a.raw_topics b.raw_topics
    && list_eq ◌==◌ a.raw_data b.raw_data
    && list_eq ◌==◌ a.decoded_payload b.decoded_payload

-- `insertEvent`: true if the row is new; a row of that identity must have the same content.
unfoldable pub insert_event : Event → Tx Bool
insert_event e db =
    if not (valid_uint64 (e.id.chain_id ∷ e.id.log_index ∷ e.block_number ∷ []))
    then err out_of_range
    else if str_eq e.id.transaction_hash ""
    then err transaction_hash_required
    else elim (find? (has_id e.id) db.events) [
      | none ↦ ok (true, record db { events = e ∷ db.events })
      | some stored ↦ if same_content stored e then ok (false, db) else err event_conflict
    ]

-- The row that `insertDelivery` writes.
pub new_delivery : Delivery → Delivery
new_delivery d = record {
  event_id = d.event_id;
  destination = d.destination;
  authentication = d.authentication;
  status = pending;
  attempts = 0;
  total_attempts = 0;
  lease_token = "";
  next_attempt = d.next_attempt;
  last_attempt_at = none;
  last_status_code = none;
  last_error = "";
  delivered_at = none;
}

-- `insertDelivery`: a row of that key is left alone; the foreign key wants the event's row.
unfoldable pub insert_delivery : Delivery → Tx (Unit {0})
insert_delivery d db =
    if not (valid_uint64 (d.event_id.chain_id ∷ d.event_id.log_index ∷ []))
    then err out_of_range
    else if str_eq d.event_id.transaction_hash "" || str_eq d.destination ""
    then err delivery_fields_required
    else if any (same_delivery d.event_id d.destination) db.deliveries
    then ok (tt, db)
    else if any (has_id d.event_id) db.events
    then ok (tt, record db { deliveries = new_delivery d ∷ db.deliveries })
    else err constraint

-- The first loop of `saveBatch`, over `events`: the identities that were inserted.
pub insert_events : List Event → List EventId → Tx (List EventId)
insert_events [] inserted = pure inserted
insert_events (e ∷ es) inserted =
    insert_event e >>= λ is_new. insert_events es (if is_new then e.id ∷ inserted else inserted)

-- The second loop, over `deliveries`.
pub insert_deliveries : List EventId → List EventId → List Delivery → Tx (Unit {0})
insert_deliveries batch inserted [] = pure tt
insert_deliveries batch inserted (d ∷ ds) =
    (if not (any (same_id d.event_id) batch)
      then raise event_not_in_batch
      else if any (same_id d.event_id) inserted
      then insert_delivery d
      else pure tt)
    >> insert_deliveries batch inserted ds

abbrev pub at_block : ℕ → ℕ → CanonicalBlock → Bool
at_block chain number b = chain == b.chain_id && number == b.number

-- Another row of the chain with the same hash.
unfoldable pub clashes : CanonicalBlock → CanonicalBlock → Bool
clashes b c = b.chain_id == c.chain_id && str_eq b.hash c.hash && not (b.number == c.number)

pub replace_block : CanonicalBlock → List CanonicalBlock → List CanonicalBlock
replace_block b bs = b ∷ select (λ c. not (at_block b.chain_id b.number c)) bs

-- The upsert of one row of `canonical_blocks`, whose hash is unique in its chain.
unfoldable pub upsert_block : CanonicalBlock → Tx (Unit {0})
upsert_block b db =
    if any (clashes b) db.canonical_blocks
    then err constraint
    else ok (tt, record db { canonical_blocks = replace_block b db.canonical_blocks })

-- The third loop, over `blocks`.
pub save_blocks : ℕ → List CanonicalBlock → Tx (Unit {0})
save_blocks chain [] = pure tt
save_blocks chain (b ∷ bs) =
    raise_if (not (b.chain_id == chain) || str_eq b.hash "" || str_eq b.parent_hash "")
      invalid_canonical_block
    >> (raise_if (not (valid_uint64 (b.number ∷ []))) out_of_range
        >> (upsert_block b >> save_blocks chain bs))

abbrev pub on_chain : ℕ → Checkpoint → Bool
on_chain chain c = chain == c.chain_id

pub replace_checkpoint : Checkpoint → List Checkpoint → List Checkpoint
replace_checkpoint c cs = c ∷ select (λ o. not (on_chain c.chain_id o)) cs

-- The upsert of a checkpoint, `WHERE excluded.block_number >= checkpoints.block_number`.
pub advance_checkpoint : Checkpoint → List Checkpoint → List Checkpoint
advance_checkpoint c cs = elim (find? (on_chain c.chain_id) cs) [
  | none ↦ c ∷ cs
  | some old ↦ if leb old.block_number c.block_number then replace_checkpoint c cs else cs
]

-- A row of the chain below the retained depth.
pub is_expired : Checkpoint → ℕ → CanonicalBlock → Bool
is_expired c retain b = c.chain_id == b.chain_id && ltb b.number (c.block_number + 1 - retain)

-- The last statement of `saveBatch`: history below the retained depth is dropped.
pub prune_history : Checkpoint → ℕ → List CanonicalBlock → List CanonicalBlock
prune_history c retain bs =
    if ltb 0 retain && ltb retain (c.block_number + 1)
    then select (λ b. not (is_expired c retain b)) bs
    else bs

-- The last two statements of `saveBatch`.
pub save_position : Checkpoint → ℕ → Db → Db
save_position c retain db = record db {
  checkpoints = advance_checkpoint c db.checkpoints;
  canonical_blocks = prune_history c retain db.canonical_blocks;
}

-- The body of `saveBatch`.
pub save_batch_tx :
    List Event → List Delivery → List CanonicalBlock → Checkpoint → ℕ → Tx (Unit {0})
save_batch_tx events deliveries blocks checkpoint retain =
    raise_if (not (valid_uint64 (checkpoint.chain_id ∷ checkpoint.block_number ∷ []))) out_of_range
    >> (insert_events events [] >>= λ inserted.
        insert_deliveries (map (λ e. e.id) events) inserted deliveries
        >> (save_blocks checkpoint.chain_id blocks >> modify (save_position checkpoint retain)))

-- `SaveCanonicalBatch` and, with no blocks and `retain` 0, `SaveEventsAndCheckpoint`.
pub save_batch :
    List Event
    → List Delivery
    → List CanonicalBlock
    → Checkpoint
    → ℕ
    → Db
    → Result StoreError (Unit {0}) × Db
save_batch events deliveries blocks checkpoint retain =
    commit (save_batch_tx events deliveries blocks checkpoint retain)
