-- ===== src/Store/Backfill/Batch/Effects.antt =====
-- What a backfill batch does to the other tables.
use reddotrelay.Prelude.{
  OnDone, OnDone-map, ℕ, suc, ◌+◌, ◌≤◌, ◌≡◌, refl, ap, if◌then◌else◌, ◌∙◌, Bool, true, false, List,
  [], ◌∷◌, Result, ok, err, Bool-cases, inl, inr, arith, length,
}
use reddotrelay.Core.{Event, Delivery, same_id}
use reddotrelay.Store.Db.{Db, StoreError, Reached, Holds}
use reddotrelay.Store.Invariant.{IsValid}
use reddotrelay.Store.Events.{insert_event, insert_delivery}
use reddotrelay.Store.Events.Position.{
  SamePosition, insert_event-SamePosition, insert_delivery-SamePosition,
}
use reddotrelay.Store.Events.Keys.{insert_event-Keeps, insert_delivery-Keeps}
use reddotrelay.Store.Backfill.{JobError, store_failed}
use reddotrelay.Store.Backfill.Batch.{
  Counts, conflicts_with_history, insert_own, save_new_event, save_found,
}

-- The tables are valid still, and the position of the live scan is where it was.
abbrev pub Beside : Db → Db → Type 0
Beside old new = IsValid new × SamePosition old new

pub Beside-trans : (a b c : Db) → Beside a b → Beside b c → Beside a c
Beside-trans a b c h k = (k.0, (k.1.0 ∙ h.1.0, k.1.1 ∙ h.1.1))

-- The invariants of an insert, together.
both :
    {A : Type 0} (P Q : Db → Type 0) (r : Result StoreError (A × Db))
    → Reached P r
    → Reached Q r
    → Reached (λ db. P db × Q db) r
both P Q (ok (a, db)) p q = (p, q)
both P Q (err e) p q = tt

-- The rows that an inserted event adds: one if it is new.
insert_event-rows :
    (e : Event) (db : Db)
    → Holds
        (λ is_new db'.
          (length db'.events ≡ (if is_new then suc (length db.events) else length db.events))
          × (db'.deliveries ≡ db.deliveries))
        (insert_event e db)
unfolding insert_event
insert_event-rows e db = ground arith

-- The rows that an inserted delivery adds: one at most.
abbrev OneMore : Db → Db → Type 0
OneMore db db' =
    (length db'.events ≡ length db.events)
    × (length db.deliveries ≤ length db'.deliveries)
    × (length db'.deliveries ≤ suc (length db.deliveries))

insert_delivery-rows : (d : Delivery) (db : Db) → Reached (OneMore db) (insert_delivery d db)
unfolding insert_delivery
insert_delivery-rows d db = ground arith

-- The loop over one event's deliveries: it adds no more rows than it counts, and no event.
abbrev Owned : ℕ → Db → ℕ × Db → Type 0
Owned n db (n', db') =
    Beside db db'
    × (length db'.events ≡ length db.events)
    × (length db.deliveries ≤ length db'.deliveries)
    × (length db'.deliveries + n ≤ length db.deliveries + n')

insert_own-Owned :
    (e : Event) (ds : List Delivery) (n : ℕ) (db : Db)
    → IsValid db
    → OnDone (Owned n db) (insert_own e ds n db)
unfolding insert_own
insert_own-Owned e [] n db v = ((v, (refl, refl)), refl, omega arith, omega arith)
insert_own-Owned e (d ∷ ds) n db v = elim (Bool-cases (same_id d.event_id e.id)) [
  | inr s ↦ rw (s, insert_own) (insert_own-Owned e ds n db v)
  | inl s ↦
      rw (s, insert_own)
        (go (insert_delivery d db)
          (both IsValid (SamePosition db) _ ((insert_delivery-Keeps d).keeps db v)
            (insert_delivery-SamePosition d db))
          (insert_delivery-rows d db) λ db' v'. insert_own-Owned e ds (n + 1) db' v')
]
  where
    go :
        (r : Result StoreError (Unit {0} × Db))
        → Reached (λ db'. IsValid db' × SamePosition db db') r
        → Reached (OneMore db) r
        → ((db' : Db) → IsValid db' → OnDone (Owned (n + 1) db') (insert_own e ds (n + 1) db'))
        → OnDone (Owned n db) (elim r as (λ _. Result JobError (ℕ × Db)) [
          | err x ↦ err (store_failed x)
          | ok (u, db') ↦ insert_own e ds (n + 1) db'
        ])
    go (err x) h m k = tt
    go (ok (u, db')) h m k =
        OnDone-map (Owned (n + 1) db') (Owned n db) _
          (λ r b. (
            Beside-trans db db' r.1 h b.0,
            omega (arith, b.1, m.0),
            omega (arith, b.2, m.1),
            omega (arith, b.3, m.2),
          ))
          (k db' h.0)

-- What the counters say of so many events more: each is created or a duplicate, the rows of events have
-- grown by those that are created, and those of deliveries by no more than are counted.
abbrev pub Counted : ℕ → Counts → Counts → Db → Db → Type 0
Counted n c c' db db' =
    (c'.created + c'.duplicates ≡ c.created + c.duplicates + n)
    × (length db'.events + c.created ≡ length db.events + c'.created)
    × (length db.deliveries ≤ length db'.deliveries)
    × (length db'.deliveries + c.created_deliveries ≤ length db.deliveries + c'.created_deliveries)

save_new_event-Beside :
    (e : Event) (ds : List Delivery) (c : Counts) (db : Db)
    → IsValid db
    → OnDone
        (λ (r : Counts × Db). Counted 1 c r.0 db r.1 × Beside db r.1)
        (save_new_event e ds c db)
unfolding save_new_event
save_new_event-Beside e ds c db v =
    go (insert_event e db)
      (both IsValid (SamePosition db) _ ((insert_event-Keeps e).keeps db v)
        (insert_event-SamePosition e db))
      (insert_event-rows e db)
  where
    own :
        (db' : Db)
        → Beside db db'
        → length db'.events ≡ suc (length db.events)
        → db'.deliveries ≡ db.deliveries
        → (r : Result JobError (ℕ × Db)) → OnDone (Owned c.created_deliveries db') r
        → OnDone
            (λ (r : Counts × Db). Counted 1 c r.0 db r.1 × Beside db r.1)
            (elim r as (λ _. Result JobError (Counts × Db)) [
              | err x ↦ err x
              | ok (n, db'') ↦
                  ok (record c { created = c.created + 1; created_deliveries = n }, db'')
            ])
    own db' b m q (err x) h = tt
    own db' b m q (ok (n, db'')) h =
        let q' = ap length q in
        (
          (omega arith, omega (arith, h.1, m), omega (arith, h.2, q'), omega (arith, h.3, q')),
          Beside-trans db db' db'' b h.0,
        )

    go :
        (r : Result StoreError (Bool × Db))
        → Reached (λ db'. IsValid db' × SamePosition db db') r
        → Holds
            (λ is_new db'.
              (length db'.events ≡ (if is_new then suc (length db.events) else length db.events))
              × (db'.deliveries ≡ db.deliveries))
            r
        → OnDone
            (λ (r : Counts × Db). Counted 1 c r.0 db r.1 × Beside db r.1)
            (elim r as (λ _. Result JobError (Counts × Db)) [
              | err x ↦ err (store_failed x)
              | ok (false, db') ↦ ok (record c { duplicates = c.duplicates + 1 }, db')
              | ok (true, db') ↦
                  elim (insert_own e ds c.created_deliveries db')
                    as (λ _. Result JobError (Counts × Db)) [
                      | err x ↦ err x
                      | ok (n, db'') ↦
                          ok (record c { created = c.created + 1; created_deliveries = n }, db'')
                    ]
            ])
    go (err x) h m = tt
    go (ok (false, db')) h m =
        let q = ap length m.1 in
        ((omega arith, omega (arith, m.0), omega (arith, q), omega (arith, q)), h)
    go (ok (true, db')) h m =
        own db' h m.0 m.1 (insert_own e ds c.created_deliveries db')
          (insert_own-Owned e ds c.created_deliveries db' h.0)

-- Every event of the batch is counted once, and the position of the live scan is left alone.
pub save_found-Beside :
    (es : List Event) (ds : List Delivery) (c : Counts) (db : Db)
    → IsValid db
    → OnDone
        (λ (r : Counts × Db). Counted (length es) c r.0 db r.1 × Beside db r.1)
        (save_found es ds c db)
unfolding save_found
save_found-Beside [] ds c db v =
    ((omega arith, omega arith, omega arith, omega arith), (v, (refl, refl)))
save_found-Beside (e ∷ es) ds c db v = elim (Bool-cases (conflicts_with_history e db)) [
  | inl s ↦ rw (s, save_found) tt
  | inr s ↦
      rw (s, save_found)
        (go (save_new_event e ds c db) (save_new_event-Beside e ds c db v)
          λ c' db' v'. save_found-Beside es ds c' db' v')
]
  where
    go :
        (r : Result JobError (Counts × Db))
        → OnDone (λ (r : Counts × Db). Counted 1 c r.0 db r.1 × Beside db r.1) r
        → ((c' : Counts) (db' : Db)
            → IsValid db'
            → OnDone
                (λ (r : Counts × Db). Counted (length es) c' r.0 db' r.1 × Beside db' r.1)
                (save_found es ds c' db'))
        → OnDone
            (λ (r : Counts × Db). Counted (suc (length es)) c r.0 db r.1 × Beside db r.1)
            (elim r as (λ _. Result JobError (Counts × Db)) [
              | err x ↦ err x
              | ok (c', db') ↦ save_found es ds c' db'
            ])
    go (err x) h k = tt
    go (ok (c', db')) h k =
        OnDone-map (λ (r : Counts × Db). Counted (length es) c' r.0 db' r.1 × Beside db' r.1)
          (λ (r : Counts × Db). Counted (suc (length es)) c r.0 db r.1 × Beside db r.1) _
          (λ r b. (
            (
              omega (arith, h.0.0, b.0.0),
              omega (arith, h.0.1, b.0.1),
              omega (arith, h.0.2, b.0.2),
              omega (arith, h.0.3, b.0.3),
            ),
            Beside-trans db db' r.1 h.1 b.1,
          ))
          (k c' db' h.1.0)
