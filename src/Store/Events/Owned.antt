-- ===== src/Store/Events/Owned.antt =====
-- A batch whose deliveries are its events' is not refused for a delivery without an event.
use reddotrelay.Prelude.{
  ℕ, ◌≡◌, refl, Bool, true, false, not, ◌||◌, List, [], ◌∷◌, Result, ok, err, map, any, All, arith,
  if◌then◌else◌, str_eq, ◌==◌,
}
use reddotrelay.Core.{Event, EventId, Delivery, Checkpoint, CanonicalBlock, same_id}
use reddotrelay.Store.Db.{
  Db, Tx, StoreError, event_not_in_batch, out_of_range, invalid_canonical_block, raise_if,
  valid_uint64, commit, ◌>>=◌, ◌>>◌, modify, pure,
}
use reddotrelay.Store.Events.{
  insert_event, insert_events, insert_delivery, insert_deliveries, upsert_block, save_blocks,
  save_position, save_batch_tx, save_batch,
}

-- The error that a delivery without an event gives.
unfoldable pub is_orphan : StoreError → Bool
is_orphan event_not_in_batch = true
is_orphan e = false

-- Of a result that is an error, it is another one.
abbrev pub NoOrphan : {A : Type 0} → Result StoreError A → Type 0
NoOrphan (ok a) = Unit
NoOrphan (err e) = is_orphan e ≡ false

NoOrphan-bind :
    {A B : Type 0} (m : Tx A) (f : A → Tx B) (db : Db)
    → NoOrphan (m db)
    → ((a : A) (db' : Db) → NoOrphan (f a db'))
    → NoOrphan ((m >>= f) db)
NoOrphan-bind {A} {B} m f db h k = go (m db) h
  where
    go :
        (r : Result StoreError (A × Db))
        → NoOrphan r
        → NoOrphan
            (elim r as (λ _. Result StoreError (B × Db)) [ ok (a, db') ↦ f a db' | err e ↦ err e ])
    go (ok (a, db')) h = k a db'
    go (err e) h = h

NoOrphan-raise_if :
    (c : Bool) (e : StoreError) (db : Db) → is_orphan e ≡ false → NoOrphan (raise_if c e db)
unfolding raise_if
NoOrphan-raise_if true e db h = h
NoOrphan-raise_if false e db h = tt

insert_event-NoOrphan : (e : Event) (db : Db) → NoOrphan (insert_event e db)
unfolding insert_event is_orphan
insert_event-NoOrphan e db = ground arith

insert_delivery-NoOrphan : (d : Delivery) (db : Db) → NoOrphan (insert_delivery d db)
unfolding insert_delivery is_orphan
insert_delivery-NoOrphan d db = ground arith

upsert_block-NoOrphan : (b : CanonicalBlock) (db : Db) → NoOrphan (upsert_block b db)
unfolding upsert_block is_orphan
upsert_block-NoOrphan b db = ground arith

insert_events-NoOrphan :
    (es : List Event) (inserted : List EventId) (db : Db) → NoOrphan (insert_events es inserted db)
unfolding insert_events
insert_events-NoOrphan [] inserted db = tt
insert_events-NoOrphan (e ∷ es) inserted db =
    NoOrphan-bind (insert_event e) _ db (insert_event-NoOrphan e db)
      λ is_new db'. insert_events-NoOrphan es (if is_new then e.id ∷ inserted else inserted) db'

insert_deliveries-NoOrphan :
    (batch inserted : List EventId) (ds : List Delivery) (db : Db)
    → All (λ d. any (same_id d.event_id) batch ≡ true) ds
    → NoOrphan (insert_deliveries batch inserted ds db)
unfolding insert_deliveries
insert_deliveries-NoOrphan batch inserted [] db h = tt
insert_deliveries-NoOrphan batch inserted (d ∷ ds) db h =
    NoOrphan-bind
      (if not (any (same_id d.event_id) batch)
        then (λ x. err event_not_in_batch)
        else if any (same_id d.event_id) inserted
        then insert_delivery d
        else pure tt)
      (λ _. insert_deliveries batch inserted ds) db
      (one (any (same_id d.event_id) batch) (any (same_id d.event_id) inserted) h.0)
      λ _ db'. insert_deliveries-NoOrphan batch inserted ds db' h.1
  where
    one :
        (found is_new : Bool)
        → found ≡ true
        → NoOrphan (
            (if not found
                then (λ x. err event_not_in_batch)
                else if is_new
                then insert_delivery d
                else pure tt)
              db)
    one true true f = insert_delivery-NoOrphan d db
    one true false f = tt
    one false is_new f = cc

save_blocks-NoOrphan :
    (chain : ℕ) (bs : List CanonicalBlock) (db : Db) → NoOrphan (save_blocks chain bs db)
unfolding save_blocks is_orphan
save_blocks-NoOrphan chain [] db = tt
save_blocks-NoOrphan chain (b ∷ bs) db =
    NoOrphan-bind
      (raise_if (not (b.chain_id == chain) || str_eq b.hash "" || str_eq b.parent_hash "")
        invalid_canonical_block)
      (λ _.
        raise_if (not (valid_uint64 (b.number ∷ []))) out_of_range
        >> (upsert_block b >> save_blocks chain bs))
      db
      (NoOrphan-raise_if (not (b.chain_id == chain) || str_eq b.hash "" || str_eq b.parent_hash "")
        invalid_canonical_block db refl)
      λ _ x.
        NoOrphan-bind (raise_if (not (valid_uint64 (b.number ∷ []))) out_of_range)
          (λ _. upsert_block b >> save_blocks chain bs) x
          (NoOrphan-raise_if (not (valid_uint64 (b.number ∷ []))) out_of_range x refl)
          λ _ y.
            NoOrphan-bind (upsert_block b) (λ _. save_blocks chain bs) y (upsert_block-NoOrphan b y)
              λ _ z. save_blocks-NoOrphan chain bs z

pub save_batch-NoOrphan :
    (es : List Event) (ds : List Delivery) (bs : List CanonicalBlock) (c : Checkpoint) (retain : ℕ)
    (db : Db)
    → All (λ d. any (same_id d.event_id) (map (λ e. e.id) es) ≡ true) ds
    → NoOrphan (save_batch es ds bs c retain db).0
unfolding save_batch save_batch_tx is_orphan
save_batch-NoOrphan es ds bs c retain db h = committed (save_batch_tx es ds bs c retain) (
    NoOrphan-bind (raise_if (not (valid_uint64 (c.chain_id ∷ c.block_number ∷ []))) out_of_range) _
      db
      (NoOrphan-raise_if (not (valid_uint64 (c.chain_id ∷ c.block_number ∷ []))) out_of_range db
        refl)
      λ _ x. NoOrphan-bind (insert_events es []) _ x (insert_events-NoOrphan es [] x) λ inserted y.
        NoOrphan-bind (insert_deliveries (map (λ e. e.id) es) inserted ds) _ y
          (insert_deliveries-NoOrphan (map (λ e. e.id) es) inserted ds y h)
          λ _ z.
            NoOrphan-bind (save_blocks c.chain_id bs) (λ _. modify (save_position c retain)) z
              (save_blocks-NoOrphan c.chain_id bs z) λ _ w. tt)
  where
    committed : (m : Tx (Unit {0})) → NoOrphan (m db) → NoOrphan (commit m db).0
    committed m h = go (m db) h
      where
        go :
            (r : Result StoreError (Unit {0} × Db))
            → NoOrphan r
            → NoOrphan
                (elim r as (λ _. Result StoreError (Unit {0}) × Db) [
                  | ok (a, db') ↦ (ok a, db')
                  | err e ↦ (err e, db)
                ]).0
        go (ok (a, db')) h = tt
        go (err e) h = h

-- A refused batch leaves the tables as they were.
abbrev pub OnRefused : {A : Type 0} → (Db → Type 0) → Result StoreError A × Db → Type 0
OnRefused P (ok a, db) = Unit
OnRefused P (err e, db) = P db

pub save_batch-rolls_back :
    (es : List Event) (ds : List Delivery) (bs : List CanonicalBlock) (c : Checkpoint) (retain : ℕ)
    (db : Db)
    → OnRefused (λ db'. db' ≡ db) (save_batch es ds bs c retain db)
unfolding save_batch
save_batch-rolls_back es ds bs c retain db = go (save_batch_tx es ds bs c retain db)
  where
    go :
        (r : Result StoreError (Unit {0} × Db))
        → OnRefused
            (λ db'. db' ≡ db)
            (elim r as (λ _. Result StoreError (Unit {0}) × Db) [
              | ok (a, db') ↦ (ok a, db')
              | err e ↦ (err e, db)
            ])
    go (ok (a, db')) = tt
    go (err e) = refl
