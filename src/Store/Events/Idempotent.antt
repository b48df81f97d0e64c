-- ===== src/Store/Events/Idempotent.antt =====
-- A batch that is saved again creates nothing: an event that is stored is recognised.
use reddotrelay.Prelude.{
  ℕ, Bool, true, false, not, ◌||◌, ◌≡◌, refl, sym, subst, List, [], ◌∷◌, if◌then◌else◌, ok, ◌==◌,
  ==-refl, none, some, any, find?, map, list_eq, arith, Bool-cases, Option-cases, inl, inr, All,
  str_eq, eq_refl,
}
use reddotrelay.Core.{Event, EventId, Delivery, Checkpoint, CanonicalBlock, same_id, same_id_iff}
use reddotrelay.Store.Db.{
  Db, Holds, Holds-bind, Holds-and, valid_uint64, has_id, raise_if, event_not_in_batch, raise, pure,
  ◌>>=◌, ◌>>◌, Keeps, Keeps-bind, Keeps-raise_if, Keeps-pure, out_of_range, invalid_canonical_block,
  OnOk, OnOk-ok, Keeps-commit, Holds-map, Reached-of_Holds, commit-OnOk, Reached, modify,
}
use reddotrelay.Store.Events.{
  insert_event, insert_events, insert_deliveries, insert_delivery, same_content, save_batch,
  save_batch_tx, save_blocks, save_position, upsert_block,
}

list_eq_refl :
    {A : Type 0} (eq : A → A → Bool)
    → ((a : A) → eq a a ≡ true)
    → (xs : List A) → list_eq eq xs xs ≡ true
list_eq_refl eq h [] = refl
list_eq_refl eq h (x ∷ xs) = ground (arith, h x, list_eq_refl eq h xs)

same_content_refl : (e : Event) → same_content e e ≡ true
unfolding same_content
same_content_refl e = rw (
  ==-refl e.block_number,
  eq_refl e.block_hash,
  eq_refl e.address,
  eq_refl e.name,
  eq_refl e.signature,
  list_eq_refl str_eq eq_refl e.raw_topics,
  list_eq_refl ◌==◌ ==-refl e.raw_data,
  list_eq_refl ◌==◌ ==-refl e.decoded_payload,
)

-- An event with a stored row of its content: `insertEvent` would find it there.
pub record IsStored (events : List Event) (e : Event) : Type 0 where
  pub in_range : valid_uint64 (e.id.chain_id ∷ e.id.log_index ∷ e.block_number ∷ []) ≡ true
  pub has_hash : str_eq e.id.transaction_hash "" ≡ false
  pub stored : Event
  pub at_id : find? (has_id e.id) events ≡ some stored
  pub content : same_content stored e ≡ true

-- A stored event is not inserted again.
pub insert_event-stored :
    (e : Event) (db : Db) → IsStored db.events e → insert_event e db ≡ ok (false, db)
unfolding insert_event
insert_event-stored e db s = rw (s.in_range, s.has_hash, s.at_id, s.content)

-- A new row of another identity hides none.
find?-cons_new :
    (id : EventId) (e s : Event) (events : List Event)
    → find? (has_id id) events ≡ some s
    → find? (has_id e.id) events ≡ none
    → find? (has_id id) (e ∷ events) ≡ some s
find?-cons_new id e s events h n = elim (Bool-cases (has_id id e)) [
  | inr other ↦ rw other h
  | inl same ↦ absurd (
      clash (
        subst (λ (k : EventId). find? (has_id k) events ≡ some s) ((same_id_iff id e.id).0 same) h))
]
  where
    clash : find? (has_id e.id) events ≡ some s → ⊥
    clash h' = ground arith

-- Inserting an event stores it, and keeps what was stored.
insert_event-stores :
    (e : Event) (db : Db) → Holds (λ b db'. IsStored db'.events e) (insert_event e db)
unfolding insert_event
insert_event-stores e db =
    elim (Bool-cases (valid_uint64 (e.id.chain_id ∷ e.id.log_index ∷ e.block_number ∷ []))) [
      | inr v ↦ rw v tt
      | inl v ↦ elim (Bool-cases (str_eq e.id.transaction_hash "")) [
        | inl h ↦ rw (v, h) tt
        | inr h ↦ elim (Option-cases (find? (has_id e.id) db.events)) [
          | inl new ↦
              rw (v, h, new)
                (record {
                  in_range = v;
                  has_hash = h;
                  stored = e;
                  at_id = rw ((same_id_iff e.id e.id).1 refl);
                  content = same_content_refl e;
                })
          | inr (s, old) ↦ elim (Bool-cases (same_content s e)) [
            | inl c ↦
                rw (v, h, old, c)
                  (record { in_range = v; has_hash = h; stored = s; at_id = old; content = c })
            | inr c ↦ rw (v, h, old, c) tt
          ]
        ]
      ]
    ]

insert_event-keeps :
    (e x : Event) (db : Db)
    → IsStored db.events x
    → Holds (λ b db'. IsStored db'.events x) (insert_event e db)
unfolding insert_event
insert_event-keeps e x db s =
    elim (Bool-cases (valid_uint64 (e.id.chain_id ∷ e.id.log_index ∷ e.block_number ∷ []))) [
      | inr v ↦ rw v tt
      | inl v ↦ elim (Bool-cases (str_eq e.id.transaction_hash "")) [
        | inl h ↦ rw (v, h) tt
        | inr h ↦ elim (Option-cases (find? (has_id e.id) db.events)) [
          | inl new ↦
              rw (v, h, new)
                (record {
                  in_range = s.in_range;
                  has_hash = s.has_hash;
                  stored = s.stored;
                  at_id = find?-cons_new x.id e s.stored db.events s.at_id new;
                  content = s.content;
                })
          | inr (o, old) ↦ elim (Bool-cases (same_content o e)) [
            | inl c ↦ rw (v, h, old, c) s
            | inr c ↦ rw (v, h, old, c) tt
          ]
        ]
      ]
    ]

pub insert_events-stores :
    (es : List Event) (ids : List EventId) (db : Db)
    → Holds (λ _ db'. All (IsStored db'.events) es) (insert_events es ids db)
unfolding insert_events
insert_events-stores [] ids db = tt
insert_events-stores (e ∷ es) ids db =
    Holds-bind (λ b db'. IsStored db'.events e) _ (insert_event e) _ db (insert_event-stores e db)
      λ b db' s.
        Holds-and (λ _ db''. IsStored db''.events e) (λ _ db''. All (IsStored db''.events) es)
          (insert_events es (if b then e.id ∷ ids else ids) db')
          (insert_events-keeps es (if b then e.id ∷ ids else ids) e db' s)
          (insert_events-stores es (if b then e.id ∷ ids else ids) db')
  where
    insert_events-keeps :
        (es : List Event) (ids : List EventId) (x : Event) (db : Db)
        → IsStored db.events x
        → Holds (λ _ db'. IsStored db'.events x) (insert_events es ids db)
    insert_events-keeps [] ids x db s = s
    insert_events-keeps (e ∷ es) ids x db s =
        Holds-bind (λ b db'. IsStored db'.events x) _ (insert_event e) _ db
          (insert_event-keeps e x db s)
          λ b db' s'. insert_events-keeps es (if b then e.id ∷ ids else ids) x db' s'

-- A batch whose events are stored inserts none.
insert_events-stored :
    (es : List Event) (ids : List EventId) (db : Db)
    → All (IsStored db.events) es
    → insert_events es ids db ≡ ok (ids, db)
unfolding insert_events
insert_events-stored [] ids db s = refl
insert_events-stored (e ∷ es) ids db s =
    rw (insert_event-stored e db s.0, ◌>>=◌) (insert_events-stored es ids db s.1)

-- With no event inserted, no delivery is.
insert_deliveries-none :
    (batch : List EventId) (ds : List Delivery) (db : Db)
    → Holds (λ _ db'. db' ≡ db) (insert_deliveries batch [] ds db)
unfolding insert_deliveries
insert_deliveries-none batch [] db = refl
insert_deliveries-none batch (d ∷ ds) db = elim (Bool-cases (any (same_id d.event_id) batch)) [
  | inl e ↦ rw e (insert_deliveries-none batch ds db)
  | inr e ↦ rw e tt
]

-- What the last statements of a batch leave alone.
module _ (P : List Event → List Delivery → Type 0) where
  upsert_block-rows :
      (b : CanonicalBlock) → Keeps (λ db. P db.events db.deliveries) (upsert_block b)
  unfolding upsert_block
  upsert_block-rows b = record { keeps = λ db p. ground arith }

  pub save_blocks-rows :
      (chain : ℕ) (bs : List CanonicalBlock)
      → Keeps (λ db. P db.events db.deliveries) (save_blocks chain bs)
  unfolding save_blocks
  save_blocks-rows chain [] = Keeps-pure tt
  save_blocks-rows chain (b ∷ bs) =
      Keeps-bind
        (Keeps-raise_if (not (b.chain_id == chain) || str_eq b.hash "" || str_eq b.parent_hash "")
          invalid_canonical_block)
        λ _.
          Keeps-bind (Keeps-raise_if (not (valid_uint64 (b.number ∷ []))) out_of_range)
            λ _. Keeps-bind (upsert_block-rows b) λ _. save_blocks-rows chain bs

  pub save_position-rows :
      (c : Checkpoint) (retain : ℕ)
      → Keeps (λ db. P db.events db.deliveries) (modify (save_position c retain))
  unfolding save_position
  save_position-rows c retain = record { keeps = λ db p. p }

insert_delivery-events :
    (P : List Event → Type 0) (d : Delivery) → Keeps (λ db. P db.events) (insert_delivery d)
unfolding insert_delivery
insert_delivery-events P d = record { keeps = λ db p. ground arith }

pub insert_deliveries-events :
    (P : List Event → Type 0) (batch inserted : List EventId) (ds : List Delivery)
    → Keeps (λ db. P db.events) (insert_deliveries batch inserted ds)
unfolding insert_deliveries
insert_deliveries-events P batch inserted [] = Keeps-pure tt
insert_deliveries-events P batch inserted (d ∷ ds) =
    Keeps-bind first (λ _. insert_deliveries-events P batch inserted ds)
  where
    first :
        Keeps
          (λ db. P db.events)
          (if not (any (same_id d.event_id) batch)
            then raise event_not_in_batch
            else if any (same_id d.event_id) inserted
            then insert_delivery d
            else pure tt)
    first = record { keeps = λ db v. ground (arith, (insert_delivery-events P d).keeps db v) }

-- After a batch has been saved, each of its events is stored.
save_batch-stores :
    (es : List Event) (ds : List Delivery) (bs : List CanonicalBlock) (c : Checkpoint) (retain : ℕ)
    (db : Db)
    → OnOk (λ _ db'. All (IsStored db'.events) es) (save_batch es ds bs c retain db)
unfolding save_batch save_batch_tx
save_batch-stores es ds bs c retain db =
    commit-OnOk (λ _ db'. All (IsStored db'.events) es) (save_batch_tx es ds bs c retain) db
      (Holds-bind (λ _ _. Unit {0}) (λ _ db'. All (IsStored db'.events) es)
        (raise_if refused out_of_range) _ db
        ((Keeps-raise_if {P = λ _. Unit {0}} refused out_of_range).keeps db tt)
        λ _ db₁ _.
          Holds-bind (λ _ db'. All (IsStored db'.events) es) (λ _ db'. All (IsStored db'.events) es)
            (insert_events es []) _ db₁ (insert_events-stores es [] db₁)
            λ inserted db₂ s.
              (Keeps-bind
                  (insert_deliveries-events (λ x. All (IsStored x) es) (map (λ e. e.id) es) inserted
                    ds)
                  λ _.
                    Keeps-bind (save_blocks-rows (λ x _. All (IsStored x) es) c.chain_id bs)
                      λ _. save_position-rows (λ x _. All (IsStored x) es) c retain).keeps
                db₂ s)
  where
    refused : Bool
    refused = not (valid_uint64 (c.chain_id ∷ c.block_number ∷ []))

-- A batch of stored events leaves the events and deliveries as they are, however it ends.
save_batch-stored :
    (es : List Event) (ds : List Delivery) (bs : List CanonicalBlock) (c : Checkpoint) (retain : ℕ)
    (db : Db)
    → All (IsStored db.events) es
    → let db' = (save_batch es ds bs c retain db).1 in
      (db'.events ≡ db.events) × (db'.deliveries ≡ db.deliveries)
unfolding save_batch save_batch_tx
save_batch-stored es ds bs c retain db s =
    Keeps-commit (save_batch_tx es ds bs c retain) body db (refl, refl)
  where
    P : Db → Type 0
    P x = (x.events ≡ db.events) × (x.deliveries ≡ db.deliveries)

    stored_in : (x : Db) → P x → All (IsStored x.events) es
    stored_in x p = subst (λ (y : List Event). All (IsStored y) es) (sym p.0) s

    last :
        (inserted : List EventId) (x : Db)
        → P x
        → inserted ≡ []
        → Reached P (
            (insert_deliveries (map (λ e. e.id) es) inserted ds
                >> (save_blocks c.chain_id bs >> modify (save_position c retain)))
              x)
    last inserted x p n = rw n (
        Reached-of_Holds P _ (
          Holds-bind (λ _ y. P y) (λ _ y. P y) (insert_deliveries (map (λ e. e.id) es) [] ds) _ x
            (Holds-map (λ _ y. y ≡ x) (λ _ y. P y) _ (λ a y e. subst P (sym e) p)
              (insert_deliveries-none (map (λ e. e.id) es) ds x))
            λ _ y q.
              (Keeps-bind
                  (save_blocks-rows (λ a b. (a ≡ db.events) × (b ≡ db.deliveries)) c.chain_id bs)
                  λ _.
                    save_position-rows (λ a b. (a ≡ db.events) × (b ≡ db.deliveries)) c
                      retain).keeps
                y q))

    body : Keeps P (save_batch_tx es ds bs c retain)
    body =
        Keeps-bind
          (Keeps-raise_if (not (valid_uint64 (c.chain_id ∷ c.block_number ∷ []))) out_of_range)
          λ _. record {
            keeps =
                λ x p. rw (insert_events-stored es [] x (stored_in x p), ◌>>=◌) (last [] x p refl);
          }

-- Exactly-once creation. Once a batch has been saved, saving its events and deliveries again, with
-- any blocks, checkpoint and retention, creates no event and no delivery and changes none.
pub save_batch_again :
    (es : List Event) (ds : List Delivery) (bs bs' : List CanonicalBlock) (c c' : Checkpoint)
    (retain retain' : ℕ) (db : Db)
    → (save_batch es ds bs c retain db).0 ≡ ok tt
    → let db' = (save_batch es ds bs c retain db).1 in
      let db'' = (save_batch es ds bs' c' retain' db').1 in
      (db''.events ≡ db'.events) × (db''.deliveries ≡ db'.deliveries)
save_batch_again es ds bs bs' c c' retain retain' db h =
    save_batch-stored es ds bs' c' retain' _
      (OnOk-ok _ (save_batch es ds bs c retain db) tt (save_batch-stores es ds bs c retain db) h)
