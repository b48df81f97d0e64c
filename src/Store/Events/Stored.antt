-- ===== src/Store/Events/Stored.antt =====
-- What is in the tables after a batch has been saved: its events and the deliveries of the new ones.
use reddotrelay.Prelude.{
  ℕ, ◌≡◌, refl, Bool, true, false, not, List, [], ◌∷◌, Option-cases, map, any, any-In, find?,
  find?-In, find?-eq-true, All, arith, Bool-cases, inl, inr, ◌⊎◌, if◌then◌else◌, str_eq, eq_refl,
}
use reddotrelay.Core.{Event, EventId, Delivery, Checkpoint, CanonicalBlock, same_id, same_id_iff}
use reddotrelay.Store.Db.{
  Db, Holds, Holds-bind, Holds-and, Holds-map, Keeps-bind, Keeps-raise_if, OnOk, commit-OnOk,
  valid_uint64, has_id, same_delivery, raise_if, out_of_range,
}
use reddotrelay.Store.Events.{
  same_content, new_delivery, insert_event, insert_events, insert_deliveries, insert_delivery,
  save_batch, save_batch_tx,
}
use reddotrelay.Store.Events.Idempotent.{
  IsStored, insert_events-stores, insert_deliveries-events, save_blocks-rows, save_position-rows,
}

-- Every event of the table is one of the inserted or an old one.
Tracked : List Event → List EventId → Db → Type 0
Tracked old inserted db =
    (id : EventId)
    → any (has_id id) db.events ≡ true
    → (any (same_id id) inserted ≡ true) ⊎ (any (has_id id) old ≡ true)

insert_event-Tracked :
    (old : List Event) (inserted : List EventId) (e : Event) (db : Db)
    → Tracked old inserted db
    → Holds
        (λ is_new db'. Tracked old (if is_new then e.id ∷ inserted else inserted) db')
        (insert_event e db)
unfolding insert_event Tracked
insert_event-Tracked old inserted e db t =
    elim (Bool-cases (valid_uint64 (e.id.chain_id ∷ e.id.log_index ∷ e.block_number ∷ []))) [
      | inr v ↦ rw v tt
      | inl v ↦ elim (Bool-cases (str_eq e.id.transaction_hash "")) [
        | inl h ↦ rw (v, h) tt
        | inr h ↦ elim (Option-cases (find? (has_id e.id) db.events)) [
          | inl new ↦ rw (v, h, new) (λ id p. grown id (Bool-cases (has_id id e)) p)
          | inr (s, old') ↦ elim (Bool-cases (same_content s e)) [
            | inl c ↦ rw (v, h, old', c) t
            | inr c ↦ rw (v, h, old', c) tt
          ]
        ]
      ]
    ]
  where
    grown :
        (id : EventId)
        → (has_id id e ≡ true) ⊎ (has_id id e ≡ false)
        → any (has_id id) (e ∷ db.events) ≡ true
        → (any (same_id id) (e.id ∷ inserted) ≡ true) ⊎ (any (has_id id) old ≡ true)
    grown id (inl i) p = inl (rw i refl)
    grown id (inr i) p = elim (t id (rw i at p)) [ inl m ↦ inl (rw i m) | inr m ↦ inr m ]

insert_events-Tracked :
    (old : List Event) (es : List Event) (inserted : List EventId) (db : Db)
    → Tracked old inserted db
    → Holds (λ inserted' db'. Tracked old inserted' db') (insert_events es inserted db)
unfolding insert_events
insert_events-Tracked old [] inserted db t = t
insert_events-Tracked old (e ∷ es) inserted db t =
    Holds-bind (λ is_new db'. Tracked old (if is_new then e.id ∷ inserted else inserted) db')
      (λ inserted' db'. Tracked old inserted' db') (insert_event e) _ db
      (insert_event-Tracked old inserted e db t)
      λ is_new db' t'.
        insert_events-Tracked old es (if is_new then e.id ∷ inserted else inserted) db' t'

-- A delivery has its row, or its event is an old one.
abbrev pub Sent : List Event → List Delivery → Delivery → Type 0
Sent old rows d =
    (any (has_id d.event_id) old ≡ true)
    ⊎ (any (same_delivery d.event_id d.destination) rows ≡ true)

same_delivery_refl : (d : Delivery) → same_delivery d.event_id d.destination d ≡ true
unfolding same_delivery
same_delivery_refl d = rw ((same_id_iff d.event_id d.event_id).1 refl, eq_refl d.destination) refl

insert_delivery-sends :
    (d : Delivery) (db : Db)
    → Holds
        (λ _ db'. any (same_delivery d.event_id d.destination) db'.deliveries ≡ true)
        (insert_delivery d db)
unfolding insert_delivery new_delivery same_delivery
insert_delivery-sends d db = ground (arith, same_delivery_refl d)

insert_delivery-keeps :
    (q : Delivery → Bool) (d : Delivery) (db : Db)
    → any q db.deliveries ≡ true
    → Holds (λ _ db'. any q db'.deliveries ≡ true) (insert_delivery d db)
unfolding insert_delivery
insert_delivery-keeps q d db h = ground arith

insert_deliveries-keeps :
    (q : Delivery → Bool) (batch inserted : List EventId) (ds : List Delivery) (db : Db)
    → any q db.deliveries ≡ true
    → Holds (λ _ db'. any q db'.deliveries ≡ true) (insert_deliveries batch inserted ds db)
unfolding insert_deliveries
insert_deliveries-keeps q batch inserted [] db h = h
insert_deliveries-keeps q batch inserted (d ∷ ds) db h =
    elim (Bool-cases (any (same_id d.event_id) batch)) [
      | inr e ↦ rw e tt
      | inl e ↦ elim (Bool-cases (any (same_id d.event_id) inserted)) [
        | inr n ↦ rw (e, n) (insert_deliveries-keeps q batch inserted ds db h)
        | inl n ↦
            rw (e, n)
              (Holds-bind (λ _ db'. any q db'.deliveries ≡ true) _ (insert_delivery d) _ db
                (insert_delivery-keeps q d db h)
                λ _ db' h'. insert_deliveries-keeps q batch inserted ds db' h')
      ]
    ]

insert_deliveries-sends :
    (old : List Event) (batch inserted : List EventId) (ds : List Delivery) (db : Db)
    → ((id : EventId)
        → any (same_id id) batch ≡ true
        → (any (same_id id) inserted ≡ true) ⊎ (any (has_id id) old ≡ true))
    → Holds (λ _ db'. All (Sent old db'.deliveries) ds) (insert_deliveries batch inserted ds db)
unfolding insert_deliveries
insert_deliveries-sends old batch inserted [] db k = tt
insert_deliveries-sends old batch inserted (d ∷ ds) db k =
    elim (Bool-cases (any (same_id d.event_id) batch)) [
      | inr e ↦ rw e tt
      | inl e ↦ elim (Bool-cases (any (same_id d.event_id) inserted)) [
        | inr n ↦
            rw (e, n)
              (Holds-map (λ _ db'. All (Sent old db'.deliveries) ds) _ _
                (λ a db' s. (inl (was_old n (k d.event_id e)), s))
                (insert_deliveries-sends old batch inserted ds db k))
        | inl n ↦
            rw (e, n)
              (Holds-bind
                (λ _ db'. any (same_delivery d.event_id d.destination) db'.deliveries ≡ true) _
                (insert_delivery d) _ db (insert_delivery-sends d db)
                λ _ db' h.
                  Holds-and (λ _ db''. Sent old db''.deliveries d)
                    (λ _ db''. All (Sent old db''.deliveries) ds)
                    (insert_deliveries batch inserted ds db')
                    (Holds-map
                      (λ _ db''.
                        any (same_delivery d.event_id d.destination) db''.deliveries ≡ true)
                      _ _ (λ a db'' h'. inr h') (insert_deliveries-keeps _ batch inserted ds db' h))
                    (insert_deliveries-sends old batch inserted ds db' k))
      ]
    ]
  where
    was_old :
        any (same_id d.event_id) inserted ≡ false
        → (any (same_id d.event_id) inserted ≡ true) ⊎ (any (has_id d.event_id) old ≡ true)
        → any (has_id d.event_id) old ≡ true
    was_old n (inl m) = ground arith
    was_old n (inr m) = m

-- The identities of stored events are in the table.
stored-has_id :
    (events es : List Event) (id : EventId)
    → All (IsStored events) es
    → any (same_id id) (map (λ e. e.id) es) ≡ true
    → any (has_id id) events ≡ true
stored-has_id events [] id s h = cc
stored-has_id events (e ∷ es) id s h = elim (Bool-cases (same_id id e.id)) [
  | inr i ↦ stored-has_id events es id s.1 (rw i at h)
  | inl i ↦ rw ((same_id_iff id e.id).0 i) (
      any-In (has_id e.id) s.0.stored events (find?-In (has_id e.id) events s.0.stored s.0.at_id)
        (find?-eq-true (has_id e.id) events s.0.stored s.0.at_id))
]

-- After a batch has been saved, each of its events is stored, and each of its deliveries has its row,
-- unless the event of it was there before.
pub save_batch-Stored :
    (es : List Event) (ds : List Delivery) (bs : List CanonicalBlock) (c : Checkpoint) (retain : ℕ)
    (db : Db)
    → OnOk
        (λ _ db'. All (IsStored db'.events) es × All (Sent db.events db'.deliveries) ds)
        (save_batch es ds bs c retain db)
unfolding save_batch save_batch_tx Tracked
save_batch-Stored es ds bs c retain db =
    commit-OnOk (λ _ x. Q x.events x.deliveries) (save_batch_tx es ds bs c retain) db
      (Holds-bind (λ _ x. Tracked db.events [] x) (λ _ x. Q x.events x.deliveries)
        (raise_if refused out_of_range) _ db
        ((Keeps-raise_if {P = Tracked db.events []} refused out_of_range).keeps db λ id h. inr h)
        λ _ x t.
          Holds-bind (λ inserted y. Tracked db.events inserted y × All (IsStored y.events) es)
            (λ _ y. Q y.events y.deliveries) (insert_events es []) _ x
            (Holds-and (λ inserted y. Tracked db.events inserted y)
              (λ _ y. All (IsStored y.events) es) (insert_events es [] x)
              (insert_events-Tracked db.events es [] x t) (insert_events-stores es [] x))
            λ inserted y s.
              Holds-bind (λ _ z. Q z.events z.deliveries) (λ _ z. Q z.events z.deliveries)
                (insert_deliveries (map (λ e. e.id) es) inserted ds) _ y
                (Holds-and (λ _ z. All (IsStored z.events) es)
                  (λ _ z. All (Sent db.events z.deliveries) ds)
                  (insert_deliveries (map (λ e. e.id) es) inserted ds y)
                  ((insert_deliveries-events (λ es'. All (IsStored es') es) (map (λ e. e.id) es)
                      inserted ds).keeps
                    y s.1)
                  (insert_deliveries-sends db.events (map (λ e. e.id) es) inserted ds y
                    λ id m. s.0 id (stored-has_id y.events es id s.1 m)))
                λ _ z q.
                  (Keeps-bind (save_blocks-rows Q c.chain_id bs)
                      λ _. save_position-rows Q c retain).keeps
                    z q)
  where
    refused : Bool
    refused = not (valid_uint64 (c.chain_id ∷ c.block_number ∷ []))

    Q : List Event → List Delivery → Type 0
    Q es' rows = All (IsStored es') es × All (Sent db.events rows) ds
