-- ===== src/Store/Outbox/Transitions.antt =====
-- The transitions of a leased delivery.
use reddotrelay.Prelude.{
  ℕ, Bool, true, false, ◌≡◌, refl, ap, List, [], ◌∷◌, String, Result, ok, err, str_eq,
  if◌then◌else◌, any, select, map, length, arith, inl, inr, Bool-cases, All, sym, eq_iff, ◌⊎◌,
}
use reddotrelay.Core.{EventId, Delivery, DeliveryStatus, pending, delivered, dead}
use reddotrelay.Store.Db.{
  Db, StoreError, not_found, valid_uint64, out_of_range, lease_token_required, same_delivery,
  same_delivery-eq,
}
use reddotrelay.Store.Outbox.{
  is_pending, update_rows, rows_affected, transition, holds_lease, delivered_row, retry_row,
  dead_row, mark_delivery_delivered, schedule_delivery_retry, mark_delivery_dead,
}

-- An update that matches no row changes nothing.
map_none :
    (p : Delivery → Bool) (f : Delivery → Delivery) (ds : List Delivery)
    → any p ds ≡ false
    → map (λ d. if p d then f d else d) ds ≡ ds
map_none p f [] h = refl
map_none p f (d ∷ ds) h = ground (arith, map_none p f ds)

select_none :
    (p : Delivery → Bool) (ds : List Delivery) → any p ds ≡ false → length (select p ds) ≡ 0
select_none p [] h = refl
select_none p (d ∷ ds) h = ground (arith, select_none p ds)

-- With a lease that no pending row holds, a transition reports that nothing was found and changes
-- nothing.
pub transition_stale :
    (id : EventId) (destination token : String) (f : Delivery → Delivery) (db : Db)
    → valid_uint64 (id.chain_id ∷ id.log_index ∷ []) ≡ true
    → str_eq token "" ≡ false
    → any (holds_lease id destination token) db.deliveries ≡ false
    → transition id destination token f db ≡ (err not_found, db)
unfolding transition
transition_stale id destination token f db v t h =
    rw (v, t, select_none (holds_lease id destination token) db.deliveries h)
      (ap (λ ds. (err not_found, record db { deliveries = ds }))
        (map_none (holds_lease id destination token) f db.deliveries h))

-- What the three transitions write: the lease is given up, or the row is not pending any more.
Releases : (Delivery → Delivery) → Type 0
Releases f = (d : Delivery) → (f d).lease_token ≡ ""

released :
    (id : EventId) (destination token : String) (f : Delivery → Delivery) (ds : List Delivery)
    → Releases f
    → str_eq token "" ≡ false
    → any
        (holds_lease id destination token)
        (map (λ d. if holds_lease id destination token d then f d else d) ds)
      ≡ false
unfolding holds_lease Releases
released id destination token f [] r t = refl
released id destination token f (d ∷ ds) r t =
    elim (Bool-cases (holds_lease id destination token d)) [
      | inl e ↦ rw e (ground (arith, r d, released id destination token f ds r t))
      | inr e ↦ rw e (ground (arith, released id destination token f ds r t))
    ]

-- The three row updates of the transitions.
pub data Outcome : Type 0 where
  succeeded : ℕ → ℕ → Outcome
  rescheduled : ℕ → String → ℕ → Outcome
  given_up : String → ℕ → Outcome

-- The transition that records an outcome: `MarkDeliveryDelivered`, `ScheduleDeliveryRetry` or
-- `MarkDeliveryDead`.
unfoldable pub record_outcome :
    Outcome → EventId → String → String → Db → Result StoreError (Unit {0}) × Db
record_outcome (succeeded at code) id destination token =
    mark_delivery_delivered id destination token at code
record_outcome (rescheduled next message code) id destination token =
    schedule_delivery_retry id destination token next message code
record_outcome (given_up message code) id destination token =
    mark_delivery_dead id destination token message code

unfoldable pub outcome_row : Outcome → Delivery → Delivery
outcome_row (succeeded at code) = delivered_row at code
outcome_row (rescheduled next message code) = retry_row next message code
outcome_row (given_up message code) = dead_row message code

pub record_outcome_lem :
    (o : Outcome) (id : EventId) (destination token : String) (db : Db)
    → record_outcome o id destination token db ≡ transition id destination token (outcome_row o) db
unfolding record_outcome outcome_row mark_delivery_delivered schedule_delivery_retry
    mark_delivery_dead
record_outcome_lem (succeeded at code) id destination token db = refl
record_outcome_lem (rescheduled next message code) id destination token db = refl
record_outcome_lem (given_up message code) id destination token db = refl

outcome_row-Releases : (o : Outcome) → Releases (outcome_row o)
unfolding Releases outcome_row delivered_row retry_row dead_row
outcome_row-Releases (succeeded at code) d = refl
outcome_row-Releases (rescheduled next message code) d = refl
outcome_row-Releases (given_up message code) d = refl

transition_ok :
    (id : EventId) (destination token : String) (f : Delivery → Delivery) (db : Db)
    → (transition id destination token f db).0 ≡ ok tt
    → (valid_uint64 (id.chain_id ∷ id.log_index ∷ []) ≡ true)
      × (str_eq token "" ≡ false)
      × (rows_affected (holds_lease id destination token) db ≡ 1)
      × ((transition id destination token f db).1
          ≡ update_rows (holds_lease id destination token) f db)
unfolding transition
transition_ok id destination token f db h = elim (Bool-cases (str_eq token "")) [
  | inl e ↦ absurd (impossible e)
  | inr e ↦ elim (Bool-cases (valid_uint64 (id.chain_id ∷ id.log_index ∷ []))) [
    | inl e' ↦ ground arith
    | inr e' ↦ ground arith
  ]
]
  where
    impossible : str_eq token "" ≡ true → ⊥
    impossible e = ground arith

transition_once :
    (id : EventId) (destination token : String) (f g : Delivery → Delivery) (db : Db)
    → Releases f
    → (transition id destination token f db).0 ≡ ok tt
    → let db' = (transition id destination token f db).1 in
      transition id destination token g db' ≡ (err not_found, db')
transition_once id destination token f g db r h =
    let (v, t, n, e) = transition_ok id destination token f db h in
    rw e (
      transition_stale id destination token g _ v t
        (released id destination token f db.deliveries r t))

-- A lease is good for one outcome: once one has been recorded under it, any other, and the same
-- again, is refused with `ErrNotFound` and changes nothing.
pub record_outcome_once :
    (o o' : Outcome) (id : EventId) (destination token : String) (db : Db)
    → (record_outcome o id destination token db).0 ≡ ok tt
    → let db' = (record_outcome o id destination token db).1 in
      record_outcome o' id destination token db' ≡ (err not_found, db')
record_outcome_once o o' id destination token db h =
    rw
      (
        record_outcome_lem o id destination token db,
        record_outcome_lem o' id destination token
            (transition id destination token (outcome_row o) db).1,
      )
      (transition_once id destination token (outcome_row o) (outcome_row o') db
        (outcome_row-Releases o) (rw (record_outcome_lem o id destination token db) at h))

-- The delivery that a lease is for: it is pending, and holds the lease's token.
abbrev pub IsHolder : EventId → String → String → Delivery → Type 0
IsHolder id destination token d =
    (d.event_id ≡ id)
    × (d.destination ≡ destination)
    × (d.lease_token ≡ token)
    × (d.status ≡ pending)

is_pending-status : (d : Delivery) → is_pending d ≡ true → d.status ≡ pending
unfolding is_pending
is_pending-status d = go d.status
  where
    go :
        (s : DeliveryStatus)
        → (elim s as (λ _. Bool) [ pending ↦ true | delivered ↦ false | dead ↦ false ]) ≡ true
        → s ≡ pending
    go pending h = refl
    go delivered h = cc
    go dead h = cc

holds_lease-IsHolder :
    (id : EventId) (destination token : String) (d : Delivery)
    → holds_lease id destination token d ≡ true
    → IsHolder id destination token d
unfolding holds_lease
holds_lease-IsHolder id destination token d h =
    let k : (same_delivery id destination d ≡ true)
        × (str_eq token d.lease_token ≡ true)
        × (is_pending d ≡ true) =
      ground arith in
    let (i, l) = same_delivery-eq id destination d k.0 in
    (sym i, sym l, sym ((eq_iff token d.lease_token).0 k.1), is_pending-status d k.2)

no_lease :
    (id : EventId) (destination token : String) (ds : List Delivery)
    → All (λ d. IsHolder id destination token d → ⊥) ds
    → any (holds_lease id destination token) ds ≡ false
no_lease id destination token [] h = refl
no_lease id destination token (d ∷ ds) h = elim (Bool-cases (holds_lease id destination token d)) [
  | inl e ↦ absurd (h.0 (holds_lease-IsHolder id destination token d e))
  | inr e ↦ rw e (no_lease id destination token ds h.1)
]

-- Where no pending delivery of the identity and destination holds the token, no outcome can be
-- recorded under it: each of the three transitions returns an error, and the tables are as they were.
pub record_outcome-refused :
    (o : Outcome) (id : EventId) (destination token : String) (db : Db)
    → All (λ d. IsHolder id destination token d → ⊥) db.deliveries
    → (e : StoreError) × (record_outcome o id destination token db ≡ (err e, db))
unfolding transition
record_outcome-refused o id destination token db h =
    rw (record_outcome_lem o id destination token db) (
      go (Bool-cases (valid_uint64 (id.chain_id ∷ id.log_index ∷ [])))
        (Bool-cases (str_eq token "")))
  where
    Refused : Type 0
    Refused = (e : StoreError) × (transition id destination token (outcome_row o) db ≡ (err e, db))

    go :
        (valid_uint64 (id.chain_id ∷ id.log_index ∷ []) ≡ true)
          ⊎ (valid_uint64 (id.chain_id ∷ id.log_index ∷ []) ≡ false)
        → (str_eq token "" ≡ true) ⊎ (str_eq token "" ≡ false)
        → Refused
    go (inr v) t = (out_of_range, rw v refl)
    go (inl v) (inl t) = (lease_token_required, rw (v, t) refl)
    go (inl v) (inr t) = (
      not_found,
      transition_stale id destination token (outcome_row o) db v t
          (no_lease id destination token db.deliveries h),
    )
