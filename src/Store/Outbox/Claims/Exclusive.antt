-- ===== src/Store/Outbox/Claims/Exclusive.antt =====
-- Two claims within a lease never hand out the same delivery.
use reddotrelay.Prelude.{
  ℕ, ◌+◌, ◌≤◌, ◌<◌, false, ◌≡◌, sort, select, List, [], ◌∷◌, String, Result, ok, err, ◌==◌, length,
  length-append, arith, All, All-append, All-map, length-take-le, Bool-cases, inl, inr, refl,
}
use reddotrelay.Core.{Delivery, EventId, OutboxItem}
use reddotrelay.Store.Db.{Db, StoreError, Holds, Holds-bind, Holds-and, OnOk, commit-OnOk, raise_if}
use reddotrelay.Store.Invariant.{IsValid}
use reddotrelay.Store.Outbox.{
  claim_keys, claim_one, claim_due_deliveries, due_keys, update_rows, claimable, lease_row,
  due_before, is_due,
}
use reddotrelay.Store.Outbox.Keys.{claim_one-Keeps, claim_keys-Keeps, update_rows-IsValid}
use reddotrelay.Store.Outbox.Claims.{
  Claimed, claim_one-Claimed, claim_one-Avoids, update-NoneDue, NoneDue, Avoids,
}

leases-IsValid :
    (now lease : ℕ) (key : Delivery) (token : String) (db : Db)
    → IsValid db
    → IsValid (update_rows (claimable now key) (lease_row now lease token) db)
unfolding lease_row
leases-IsValid now lease key token =
    update_rows-IsValid (claimable now key) (lease_row now lease token)
      (record { event_id = λ d. refl; destination = λ d. refl })

-- The keys of these items are not due at `t`.
abbrev Exclusive : ℕ → List OutboxItem → Db → Type 0
Exclusive t items db =
    All (λ (i : OutboxItem). NoneDue i.delivery.event_id i.delivery.destination t db) items

leases-Exclusive :
    (now lease t : ℕ) (items : List OutboxItem)
    → t < now + lease
    → (key : Delivery) (token : String) (db : Db) → Exclusive t items db
    → Exclusive t items (update_rows (claimable now key) (lease_row now lease token) db)
leases-Exclusive now lease t [] lt key token db h = tt
leases-Exclusive now lease t (i ∷ items) lt key token db h = (
  update-NoneDue i.delivery.event_id i.delivery.destination t now lease key token db.deliveries lt
      h.0,
  leases-Exclusive now lease t items lt key token db h.1,
)

claim_keys-Claimed :
    (now lease t : ℕ) (tokens : List String) (keys : List Delivery) (db : Db)
    → t < now + lease
    → IsValid db
    → Holds
        (λ items db'. All (Claimed now lease t db') items × (length items ≤ length keys))
        (claim_keys now lease tokens keys db)
unfolding claim_keys
claim_keys-Claimed now lease t tokens [] db lt v = (tt, omega arith)
claim_keys-Claimed now lease t [] (key ∷ keys) db lt v = tt
claim_keys-Claimed now lease t (token ∷ tokens) (key ∷ keys) db lt v =
    Holds-bind
      (λ items db'. (All (Claimed now lease t db') items × (length items ≤ 1)) × IsValid db') _
      (claim_one now lease key token) _ db
      (Holds-and _ (λ _ db'. IsValid db') (claim_one now lease key token db)
        (claim_one-Claimed now lease t token key db lt v)
        ((claim_one-Keeps IsValid now lease (leases-IsValid now lease) key token).keeps db v))
      λ claimed db' h.
        Holds-bind
          (λ rest db''.
            (All (Claimed now lease t db'') rest × (length rest ≤ length keys))
            × Exclusive t claimed db'')
          _ (claim_keys now lease tokens keys) _ db'
          (Holds-and _ (λ _ db''. Exclusive t claimed db'') (claim_keys now lease tokens keys db')
            (claim_keys-Claimed now lease t tokens keys db' lt h.1)
            ((claim_keys-Keeps (Exclusive t claimed) now lease
                (leases-Exclusive now lease t claimed lt) tokens keys).keeps
              db' (All-map _ _ (λ i (c : Claimed now lease t db' i). c.exclusive) claimed h.0.0)))
          λ rest db'' k. (
            All-append _ claimed rest (still db' db'' claimed h.0.0 k.1) k.0.0,
            omega (arith, length-append claimed rest, h.0.1, k.0.1),
          )
  where
    still :
        (a b : Db) (items : List OutboxItem)
        → All (Claimed now lease t a) items
        → Exclusive t items b
        → All (Claimed now lease t b) items
    still a b [] c e = tt
    still a b (i ∷ items) c e =
        (record { leased = c.0.leased; exclusive = e.0 }, still a b items c.1 e.1)

claim_keys-Avoids :
    (id : EventId) (destination : String) (now lease : ℕ) (tokens : List String)
    (keys : List Delivery) (db : Db)
    → now < now + lease
    → NoneDue id destination now db
    → Holds (λ items db'. Avoids id destination items) (claim_keys now lease tokens keys db)
unfolding claim_keys
claim_keys-Avoids id destination now lease tokens [] db lt h = tt
claim_keys-Avoids id destination now lease [] (key ∷ keys) db lt h = tt
claim_keys-Avoids id destination now lease (token ∷ tokens) (key ∷ keys) db lt h =
    Holds-bind (λ items db'. Avoids id destination items × NoneDue id destination now db') _
      (claim_one now lease key token) _ db
      (Holds-and _ (λ _ db'. NoneDue id destination now db') (claim_one now lease key token db)
        (claim_one-Avoids id destination now lease token key db h)
        ((claim_one-Keeps (NoneDue id destination now) now lease
            (λ key token db. update-NoneDue id destination now now lease key token db.deliveries lt)
            key token).keeps
          db h))
      λ claimed db' k.
        Holds-bind (λ rest db''. Avoids id destination rest) _ (claim_keys now lease tokens keys) _
          db' (claim_keys-Avoids id destination now lease tokens keys db' lt k.1)
          λ rest db'' r. All-append _ claimed rest k.0 r

-- Past its two guards a claim is its loop over the keys.
claim_OnOk :
    (Q : List OutboxItem → Db → Type 0) (now lease limit : ℕ) (tokens : List String) (db : Db)
    → ((lease == 0) ≡ false → Holds Q (claim_keys now lease tokens (due_keys now limit db) db))
    → OnOk Q (claim_due_deliveries now lease limit tokens db)
unfolding claim_due_deliveries raise_if
claim_OnOk Q now lease limit tokens db h = elim (Bool-cases (limit == 0)) [
  | inl e ↦ rw e tt
  | inr e ↦ rw e (elim (Bool-cases (lease == 0)) [
    | inl e' ↦ rw e' tt
    | inr e' ↦ rw e' (commit-OnOk Q (claim_keys now lease tokens (due_keys now limit db)) db (h e'))
  ])
]

-- A successful claim returns at most `limit` items. Each item's row is pending, carries this
-- attempt's time, and is leased until `now + lease`; and at every time before the end of the lease
-- no row of an item's key is due.
pub claim_due_deliveries-Claimed :
    (now lease limit t : ℕ) (tokens : List String) (db : Db)
    → t < now + lease
    → IsValid db
    → OnOk
        (λ items db'. All (Claimed now lease t db') items × (length items ≤ limit))
        (claim_due_deliveries now lease limit tokens db)
unfolding due_keys
claim_due_deliveries-Claimed now lease limit t tokens db lt v =
    claim_OnOk (λ items db'. All (Claimed now lease t db') items × (length items ≤ limit)) now lease
      limit tokens db
      λ _.
        bounded (claim_keys now lease tokens (due_keys now limit db) db)
          (claim_keys-Claimed now lease t tokens (due_keys now limit db) db lt v)
  where
    bounded :
        (r : Result StoreError (List OutboxItem × Db))
        → Holds
            (λ items db'.
              All (Claimed now lease t db') items × (length items ≤ length (due_keys now limit db)))
            r
        → Holds (λ items db'. All (Claimed now lease t db') items × (length items ≤ limit)) r
    bounded (ok (items, db')) h = (
      h.0,
      omega
          (arith, h.1, length-take-le limit (sort due_before (select (is_due now) db.deliveries))),
    )
    bounded (err e) h = tt

-- A later claim, made before a lease ends, hands out none of the deliveries whose keys are not due.
claim-Avoids :
    (id : EventId) (destination : String) (now lease limit : ℕ) (tokens : List String) (db : Db)
    → NoneDue id destination now db
    → OnOk
        (λ items db'. Avoids id destination items)
        (claim_due_deliveries now lease limit tokens db)
claim-Avoids id destination now lease limit tokens db h =
    claim_OnOk (λ items db'. Avoids id destination items) now lease limit tokens db
      λ positive.
        claim_keys-Avoids id destination now lease tokens (due_keys now limit db) db (ground arith)
          h

-- No two claims hand out one delivery while a lease lasts: if a claim at `now` succeeds, a second
-- claim before `now + lease`, with any lease, limit and tokens, returns none of its deliveries.
pub claims_exclusive :
    (now lease limit now' lease' limit' : ℕ) (tokens tokens' : List String) (db : Db)
    → now' < now + lease
    → IsValid db
    → OnOk
        (λ items db'.
          OnOk
            (λ items' db''.
              All
                (λ (i : OutboxItem). Avoids i.delivery.event_id i.delivery.destination items')
                items)
            (claim_due_deliveries now' lease' limit' tokens' db'))
        (claim_due_deliveries now lease limit tokens db)
claims_exclusive now lease limit now' lease' limit' tokens tokens' db lt v =
    first (claim_due_deliveries now lease limit tokens db)
      (claim_due_deliveries-Claimed now lease limit now' tokens db lt v)
  where
    each :
        (db' : Db) (r : Result StoreError (List OutboxItem) × Db) (items : List OutboxItem)
        → All (Claimed now lease now' db') items
        → ((i : OutboxItem)
            → NoneDue i.delivery.event_id i.delivery.destination now' db'
            → OnOk (λ items' db''. Avoids i.delivery.event_id i.delivery.destination items') r)
        → OnOk
            (λ items' db''.
              All
                (λ (i : OutboxItem). Avoids i.delivery.event_id i.delivery.destination items')
                items)
            r
    each db' (err e, db'') items h f = tt
    each db' (ok items', db'') items h f =
        All-map _ _ (λ i (c : Claimed now lease now' db' i). f i c.exclusive) items h

    first :
        (r : Result StoreError (List OutboxItem) × Db)
        → OnOk (λ items db'. All (Claimed now lease now' db') items × (length items ≤ limit)) r
        → OnOk
            (λ items db'.
              OnOk
                (λ items' db''.
                  All
                    (λ (i : OutboxItem). Avoids i.delivery.event_id i.delivery.destination items')
                    items)
                (claim_due_deliveries now' lease' limit' tokens' db'))
            r
    first (err e, db') h = tt
    first (ok items, db') h =
        each db' (claim_due_deliveries now' lease' limit' tokens' db') items h.0 (λ i none.
          claim-Avoids i.delivery.event_id i.delivery.destination now' lease' limit' tokens' db'
            none)
