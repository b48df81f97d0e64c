-- ===== src/Store/Outbox/Claims.antt =====
-- What a claim hands out: leased rows, each to one claimant for the length of the lease.
pub mod Exclusive
use reddotrelay.Prelude.{
  ℕ, ◌+◌, ◌≤◌, ◌<◌, Bool, true, false, not, ◌&&◌, ◌≡◌, refl, sym, ◌∙◌, ap, List, [], ◌∷◌, ◌++◌,
  String, Option, none, some, Result, ok, err, ◌==◌, if◌then◌else◌, any, select, map, length, arith,
  find?, Bool-cases, inl, inr, if-elim, All, All-append, Unique, str_eq, leb, Option-cases, eq_iff,
  length-take-le, any-weaken, length-select_none, any-map, subst,
}
use reddotrelay.Core.{
  EventId, Event, Delivery, DeliveryStatus, pending, delivered, dead, OutboxItem, same_id,
}
use reddotrelay.Store.Db.{
  Db, Tx, StoreError, Reached, Holds, Holds-bind, same_delivery, same_delivery-eq, has_id,
  not_found,
}
use reddotrelay.Store.Invariant.{IsValid, same_key}
use reddotrelay.Store.Outbox.{
  update_rows, rows_affected, claimable, lease_row, is_pending, is_due, due_keys, claim_one,
  claim_keys, claim_due_deliveries, load_outbox_item,
}

-- No row of the key is due.
abbrev pub NoneDue : EventId → String → ℕ → Db → Type 0
NoneDue id destination now db =
    any (λ d. same_delivery id destination d && is_due now d) db.deliveries ≡ false

leased_not_due :
    (now lease t : ℕ) (token : String) (d : Delivery)
    → t < now + lease
    → is_due t (lease_row now lease token d) ≡ false
unfolding is_due lease_row is_pending
leased_not_due now lease t token d h = ground arith

-- A claim leaves what is not due not due, up to the end of its own leases.
pub update-NoneDue :
    (id : EventId) (destination : String) (t now lease : ℕ) (key : Delivery) (token : String)
    (ds : List Delivery)
    → t < now + lease
    → any (λ d. same_delivery id destination d && is_due t d) ds ≡ false
    → any
        (λ d. same_delivery id destination d && is_due t d)
        (map (λ d. if claimable now key d then lease_row now lease token d else d) ds)
      ≡ false
update-NoneDue id destination t now lease key token [] h k = refl
update-NoneDue id destination t now lease key token (d ∷ ds) h k =
    elim (Bool-cases (claimable now key d)) [
      | inl e ↦ rw e (
          ground (
            arith,
            leased_not_due now lease t token d h,
            update-NoneDue id destination t now lease key token ds h,
          ))
      | inr e ↦ rw e (ground (arith, update-NoneDue id destination t now lease key token ds h))
    ]

-- A row of a key that was leased at `now`.
pub record IsLeased (now lease : ℕ) (key d : Delivery) : Type 0 where
  pub until : d.next_attempt ≡ now + lease
  pub attempted : d.last_attempt_at ≡ some now
  pub still_pending : is_pending d ≡ true
  pub of_event : d.event_id ≡ key.event_id
  pub of_destination : d.destination ≡ key.destination

lease_row-IsLeased :
    (now lease : ℕ) (token : String) (key d : Delivery)
    → same_delivery key.event_id key.destination d ≡ true
    → is_due now d ≡ true
    → IsLeased now lease key (lease_row now lease token d)
unfolding lease_row is_due is_pending
lease_row-IsLeased now lease token key d s h =
    ground (arith, same_delivery-eq key.event_id key.destination d)

no_others :
    (id : EventId) (destination : String) (x : Delivery) (xs : List Delivery)
    → same_delivery id destination x ≡ true
    → any (same_key x) xs ≡ false
    → any (same_delivery id destination) xs ≡ false
no_others id destination x xs s h = let e = same_delivery-eq id destination x s in rw (e.0, e.1) h

leased_key :
    (now lease : ℕ) (token : String) (key : Delivery) (id : EventId) (destination : String)
    (x : Delivery)
    → same_delivery id destination (if claimable now key x then lease_row now lease token x else x)
      ≡ same_delivery id destination x
unfolding lease_row same_delivery
leased_key now lease token key id destination x = ground arith

-- One row of the key was claimed: it is what the join finds, and no row of the key is due until
-- the lease ends.
claimed_row :
    (now lease t : ℕ) (token : String) (key : Delivery) (ds : List Delivery) (d : Delivery)
    → t < now + lease
    → Unique same_key ds
    → length (select (claimable now key) ds) ≡ 1
    → find?
        (same_delivery key.event_id key.destination)
        (map (λ x. if claimable now key x then lease_row now lease token x else x) ds)
      ≡ some d
    → IsLeased now lease key d
      × (any
            (λ x. same_delivery key.event_id key.destination x && is_due t x)
            (map (λ x. if claimable now key x then lease_row now lease token x else x) ds)
          ≡ false)
claimed_row now lease t token key [] d lt u n f = cc
claimed_row now lease t token key (x ∷ xs) d lt u n f =
    elim (Bool-cases (same_delivery key.event_id key.destination x)) [
      | inr other ↦
          let skip : claimable now key x ≡ false = ground arith in
          let rest =
            claimed_row now lease t token key xs d lt u.1 (rw skip at n) (rw (skip, other) at f) in
          (rest.0, rw (skip, other) rest.1)
      | inl s ↦
          let others = no_others key.event_id key.destination x xs s u.0 in
          let none_claimed =
            any-weaken (same_delivery key.event_id key.destination) (is_due now) xs others in
          elim (Bool-cases (is_due now x)) [
            | inr not_due ↦
                absurd (ground (arith, length-select_none (claimable now key) xs none_claimed))
            | inl due ↦
                let hit : claimable now key x ≡ true = ground arith in
                let k = leased_key now lease token key key.event_id key.destination in
                let e : lease_row now lease token x ≡ d = ground (arith, k x) in
                let after =
                  any-weaken (same_delivery key.event_id key.destination) (is_due t) _
                    (any-map (same_delivery key.event_id key.destination) _ k xs ∙ others) in
                (
                  subst (IsLeased now lease key) e (lease_row-IsLeased now lease token key x s due),
                  rw hit (ground (arith, leased_not_due now lease t token x lt, after)),
                )
          ]
    ]

-- A claimed item: its row is pending and leased until `now + lease`, and no row of its key is due
-- at `t`.
pub record Claimed (now lease t : ℕ) (db : Db) (item : OutboxItem) : Type 0 where
  pub leased : (key : Delivery) × IsLeased now lease key item.delivery
  pub exclusive : NoneDue item.delivery.event_id item.delivery.destination t db

pub claim_one-Claimed :
    (now lease t : ℕ) (token : String) (key : Delivery) (db : Db)
    → t < now + lease
    → IsValid db
    → Holds
        (λ items db'. All (Claimed now lease t db') items × (length items ≤ 1))
        (claim_one now lease key token db)
unfolding claim_one load_outbox_item
claim_one-Claimed now lease t token key db lt v =
    elim (Bool-cases (rows_affected (claimable now key) db == 1)) [
      | inr no_row ↦ rw no_row (tt, omega arith)
      | inl one_row ↦
          rw one_row
            (found (find? (same_delivery key.event_id key.destination) db'.deliveries) refl one_row)
    ]
  where
    db' : Db
    db' = update_rows (claimable now key) (lease_row now lease token) db

    found :
        (o : Option Delivery)
        → find? (same_delivery key.event_id key.destination) db'.deliveries ≡ o
        → (rows_affected (claimable now key) db == 1) ≡ true
        → Holds
            (λ items db'. All (Claimed now lease t db') items × (length items ≤ 1))
            (elim (load_outbox_item key.event_id key.destination db')
              as (λ _. Result StoreError (List OutboxItem × Db)) [
                | none ↦ err not_found
                | some item ↦ ok (item ∷ [], db')
              ])
    found none e n = rw (e, load_outbox_item) tt
    found (some d) e n = elim (Option-cases (find? (has_id key.event_id) db.events)) [
      | inl gone ↦ rw (e, gone, load_outbox_item) tt
      | inr (event, there) ↦
          let r =
            claimed_row now lease t token key db.deliveries d lt v.deliveries_unique (ground arith)
              e in
          rw (e, there, load_outbox_item)
            (
              (
                record {
                  leased = (key, r.0);
                  exclusive = rw (r.0.of_event, r.0.of_destination) r.1;
                },
                tt,
              ),
              omega arith,
            )
    ]

-- Of a key none of whose rows is due, nothing is claimed.
abbrev pub Avoids : EventId → String → List OutboxItem → Type 0
Avoids id destination items =
    All (λ (i : OutboxItem). same_delivery id destination i.delivery ≡ false) items

found_key :
    (now lease : ℕ) (token : String) (key d : Delivery) (ds : List Delivery)
    → find?
        (same_delivery key.event_id key.destination)
        (map (λ x. if claimable now key x then lease_row now lease token x else x) ds)
      ≡ some d
    → same_delivery key.event_id key.destination d ≡ true
found_key now lease token key d [] f = cc
found_key now lease token key d (x ∷ xs) f =
    elim (Bool-cases (
      same_delivery key.event_id key.destination
        (if claimable now key x then lease_row now lease token x else x))) [
          | inl e ↦
              subst (λ (y : Delivery). same_delivery key.event_id key.destination y ≡ true)
                (ground arith) e
          | inr e ↦ found_key now lease token key d xs (rw e at f)
        ]

pub claim_one-Avoids :
    (id : EventId) (destination : String) (now lease : ℕ) (token : String) (key : Delivery)
    (db : Db)
    → NoneDue id destination now db
    → Holds (λ items db'. Avoids id destination items) (claim_one now lease key token db)
unfolding claim_one load_outbox_item
claim_one-Avoids id destination now lease token key db h =
    elim (Bool-cases (rows_affected (claimable now key) db == 1)) [
      | inr no_row ↦ rw no_row tt
      | inl one_row ↦
          rw one_row
            (found (find? (same_delivery key.event_id key.destination) db'.deliveries) refl one_row)
    ]
  where
    db' : Db
    db' = update_rows (claimable now key) (lease_row now lease token) db

    clash :
        (d : Delivery)
        → find? (same_delivery key.event_id key.destination) db'.deliveries ≡ some d
        → (rows_affected (claimable now key) db == 1) ≡ true
        → same_delivery id destination d ≡ true
        → ⊥
    clash d e n s =
        let a = same_delivery-eq id destination d s in
        let b =
          same_delivery-eq key.event_id key.destination d
            (found_key now lease token key d db.deliveries e) in
        let none_of_key =
          subst (λ (k : EventId). NoneDue k key.destination now db) (a.0 ∙ sym b.0)
            (subst (λ (s : String). NoneDue id s now db) (a.1 ∙ sym b.1) h) in
        ground (arith, length-select_none (claimable now key) db.deliveries none_of_key)

    found :
        (o : Option Delivery)
        → find? (same_delivery key.event_id key.destination) db'.deliveries ≡ o
        → (rows_affected (claimable now key) db == 1) ≡ true
        → Holds
            (λ items db'. Avoids id destination items)
            (elim (load_outbox_item key.event_id key.destination db')
              as (λ _. Result StoreError (List OutboxItem × Db)) [
                | none ↦ err not_found
                | some item ↦ ok (item ∷ [], db')
              ])
    found none e n = rw (e, load_outbox_item) tt
    found (some d) e n = elim (Option-cases (find? (has_id key.event_id) db.events)) [
      | inl gone ↦ rw (e, gone, load_outbox_item) tt
      | inr (event, there) ↦
          rw (e, there, load_outbox_item)
            (elim (Bool-cases (same_delivery id destination d)) [
              | inl s ↦ absurd (clash d e n s)
              | inr other ↦ (other, tt)
            ])
    ]
