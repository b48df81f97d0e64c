-- ===== src/Store/Events/Keys.antt =====
-- The inserts of a batch keep the keys of the tables.
use reddotrelay.Prelude.{
  ℕ, Bool, true, false, not, ◌≡◌, refl, inl, inr, List, [], ◌∷◌, none, leb, if◌then◌else◌, find?,
  any, All, Unique, arith, Option-cases, if-elim, Unique-select, any-select-not,
}
use reddotrelay.Core.{Event, EventId, Delivery, Checkpoint, CanonicalBlock, same_id}
use reddotrelay.Store.Db.{
  Db, Keeps, Keeps-bind, Keeps-commit, Keeps-raise_if, Keeps-pure, Keeps-modify, out_of_range,
  invalid_canonical_block, raise, pure, event_not_in_batch, has_id,
}
use reddotrelay.Store.Events.{
  insert_event, insert_events, insert_deliveries, insert_delivery, at_block, on_chain, new_delivery,
  upsert_block, replace_block, replace_checkpoint, advance_checkpoint, save_position, prune_history,
  save_blocks, save_batch, save_batch_tx,
}
use reddotrelay.Store.Invariant.{IsValid, has_event}

-- A search by `find?` that fails.
find?-none {ℓ} : {A : Type ℓ} (p : A → Bool) (xs : List A) → find? p xs ≡ none → any p xs ≡ false
find?-none p [] h = refl
find?-none p (x ∷ xs) h = ground (arith, find?-none p xs)

owned-cons :
    (e : Event) (events : List Event) (ds : List Delivery)
    → All (λ d. has_event events d ≡ true) ds
    → All (λ d. has_event (e ∷ events) d ≡ true) ds
owned-cons e events [] h = tt
owned-cons e events (d ∷ ds) h = (ground arith, owned-cons e events ds h.1)

pub insert_event-Keeps : (e : Event) → Keeps IsValid (insert_event e)
unfolding insert_event
insert_event-Keeps e = record {
  keeps = λ db v. ground (
    arith,
    find?-none (has_id e.id) db.events,
    owned-cons e db.events db.deliveries v.deliveries_owned,
  );
}

pub insert_delivery-Keeps : (d : Delivery) → Keeps IsValid (insert_delivery d)
unfolding insert_delivery new_delivery
insert_delivery-Keeps d = record { keeps = λ db v. ground arith }

insert_events-Keeps : (es : List Event) (ids : List EventId) → Keeps IsValid (insert_events es ids)
unfolding insert_events
insert_events-Keeps [] ids = Keeps-pure ids
insert_events-Keeps (e ∷ es) ids =
    Keeps-bind (insert_event-Keeps e)
      (λ is_new. insert_events-Keeps es (if is_new then e.id ∷ ids else ids))

insert_deliveries-Keeps :
    (batch inserted : List EventId) (ds : List Delivery)
    → Keeps IsValid (insert_deliveries batch inserted ds)
unfolding insert_deliveries
insert_deliveries-Keeps batch inserted [] = Keeps-pure tt
insert_deliveries-Keeps batch inserted (d ∷ ds) =
    Keeps-bind first (λ _. insert_deliveries-Keeps batch inserted ds)
  where
    first : Keeps IsValid (
        if not (any (same_id d.event_id) batch)
        then raise event_not_in_batch
        else if any (same_id d.event_id) inserted
        then insert_delivery d
        else pure tt)
    first = record { keeps = λ db v. ground (arith, (insert_delivery-Keeps d).keeps db v) }

replace_block-Unique :
    (b : CanonicalBlock) (bs : List CanonicalBlock)
    → Unique (λ (x y : CanonicalBlock). at_block x.chain_id x.number y) bs
    → Unique (λ (x y : CanonicalBlock). at_block x.chain_id x.number y) (replace_block b bs)
unfolding replace_block
replace_block-Unique b bs u =
    (any-select-not (at_block b.chain_id b.number) bs, Unique-select _ _ bs u)

pub upsert_block-Keeps : (b : CanonicalBlock) → Keeps IsValid (upsert_block b)
unfolding upsert_block
upsert_block-Keeps b = record {
  keeps = λ db v. ground (arith, replace_block-Unique b db.canonical_blocks v.blocks_unique);
}

save_blocks-Keeps : (chain : ℕ) (bs : List CanonicalBlock) → Keeps IsValid (save_blocks chain bs)
unfolding save_blocks
save_blocks-Keeps chain [] = Keeps-pure tt
save_blocks-Keeps chain (b ∷ bs) = Keeps-bind (Keeps-raise_if _ invalid_canonical_block) λ _.
    Keeps-bind (Keeps-raise_if _ out_of_range)
      λ _. Keeps-bind (upsert_block-Keeps b) λ _. save_blocks-Keeps chain bs

pub replace_checkpoint-Unique :
    (c : Checkpoint) (cs : List Checkpoint)
    → Unique (λ (x y : Checkpoint). on_chain x.chain_id y) cs
    → Unique (λ (x y : Checkpoint). on_chain x.chain_id y) (replace_checkpoint c cs)
unfolding replace_checkpoint
replace_checkpoint-Unique c cs u = (any-select-not (on_chain c.chain_id) cs, Unique-select _ _ cs u)

advance_checkpoint-Unique :
    (c : Checkpoint) (cs : List Checkpoint)
    → Unique (λ (x y : Checkpoint). on_chain x.chain_id y) cs
    → Unique (λ (x y : Checkpoint). on_chain x.chain_id y) (advance_checkpoint c cs)
unfolding advance_checkpoint
advance_checkpoint-Unique c cs u = elim (Option-cases (find? (on_chain c.chain_id) cs)) [
  | inl e ↦ rw (e, advance_checkpoint) (find?-none (on_chain c.chain_id) cs e, u)
  | inr (old, e) ↦
      rw (e, advance_checkpoint)
        (if-elim (Unique (λ (x y : Checkpoint). on_chain x.chain_id y))
          (leb old.block_number c.block_number) (replace_checkpoint-Unique c cs u) u)
]

prune_history-Unique :
    (c : Checkpoint) (retain : ℕ) (bs : List CanonicalBlock)
    → Unique (λ (x y : CanonicalBlock). at_block x.chain_id x.number y) bs
    → Unique (λ (x y : CanonicalBlock). at_block x.chain_id x.number y) (prune_history c retain bs)
unfolding prune_history
prune_history-Unique c retain bs u =
    if-elim (Unique (λ (x y : CanonicalBlock). at_block x.chain_id x.number y)) _
      (Unique-select _ _ bs u) u

save_position-IsValid :
    (c : Checkpoint) (retain : ℕ) (db : Db) → IsValid db → IsValid (save_position c retain db)
unfolding save_position
save_position-IsValid c retain db v = ground (
  arith,
  advance_checkpoint-Unique c db.checkpoints v.checkpoints_unique,
  prune_history-Unique c retain db.canonical_blocks v.blocks_unique,
)

-- Whether it commits or rolls back, saving a batch keeps the keys of all tables unique and every
-- delivery with its event.
pub save_batch-IsValid :
    (events : List Event) (deliveries : List Delivery) (blocks : List CanonicalBlock)
    (c : Checkpoint) (retain : ℕ) (db : Db)
    → IsValid db
    → IsValid (save_batch events deliveries blocks c retain db).1
unfolding save_batch save_batch_tx
save_batch-IsValid events deliveries blocks c retain = Keeps-commit _ (
    Keeps-bind (Keeps-raise_if _ out_of_range) λ _.
      Keeps-bind (insert_events-Keeps events []) λ inserted.
        Keeps-bind (insert_deliveries-Keeps _ inserted deliveries) λ _.
          Keeps-bind (save_blocks-Keeps c.chain_id blocks)
            λ _. Keeps-modify _ (save_position-IsValid c retain))
