-- ===== src/Store/Outbox/Keys.antt =====
-- The statements of the outbox change no key, so they keep the keys of the tables.
use reddotrelay.Prelude.{
  ℕ, Bool, true, ◌≡◌, refl, List, [], ◌∷◌, ◌++◌, String, if◌then◌else◌, if-elim, map, All, arith,
  Unique-map, Result, ok, err, ◌==◌, Option, none, some, not, str_eq,
}
use reddotrelay.Core.{Event, EventId, Delivery, OutboxItem}
use reddotrelay.Store.Db.{
  Db, Keeps, Keeps-bind, Keeps-commit, Keeps-raise_if, Keeps-pure, Reached, same_delivery,
  bad_limit, bad_lease, StoreError, not_found, valid_uint64,
}
use reddotrelay.Store.Invariant.{IsValid, same_key, has_event}
use reddotrelay.Store.Outbox.{
  update_rows, rows_affected, lease_row, claim_one, claim_keys, claim_due_deliveries, claimable,
  due_keys, transition, holds_lease,
}

-- An update of rows that leaves their keys alone.
pub record KeepsKey (f : Delivery → Delivery) : Type 0 where
  pub event_id : (d : Delivery) → (f d).event_id ≡ d.event_id
  pub destination : (d : Delivery) → (f d).destination ≡ d.destination

when : (Delivery → Bool) → (Delivery → Delivery) → Delivery → Delivery
when p f d = if p d then f d else d

when-KeepsKey : (p : Delivery → Bool) (f : Delivery → Delivery) → KeepsKey f → KeepsKey (when p f)
unfolding when
when-KeepsKey p f k = record {
  event_id = λ d. ground (arith, k.event_id d);
  destination = λ d. ground (arith, k.destination d);
}

owned-map :
    (f : Delivery → Delivery)
    → KeepsKey f
    → (es : List Event) (ds : List Delivery) → All (λ d. has_event es d ≡ true) ds
    → All (λ d. has_event es d ≡ true) (map f ds)
owned-map f k es [] h = tt
owned-map f k es (d ∷ ds) h = (rw (k.event_id d) h.0, owned-map f k es ds h.1)

pub update_rows-IsValid :
    (p : Delivery → Bool) (f : Delivery → Delivery)
    → KeepsKey f
    → (db : Db) → IsValid db
    → IsValid (update_rows p f db)
unfolding when same_delivery
update_rows-IsValid p f k db v = record {
  events_unique = v.events_unique;
  deliveries_unique =
      Unique-map same_key (when p f) (λ a b. rw (w.event_id a, w.destination a))
        (λ a b. rw (w.event_id b, w.destination b)) db.deliveries v.deliveries_unique;
  deliveries_owned = owned-map (when p f) w db.events db.deliveries v.deliveries_owned;
  checkpoints_unique = v.checkpoints_unique;
  blocks_unique = v.blocks_unique;
}
  where
    w : KeepsKey (when p f)
    w = when-KeepsKey p f k

-- What every lease of a row keeps, a claim keeps.
module _ (P : Db → Type 0) (now lease : ℕ)
    (leased : (key : Delivery) (token : String) (db : Db)
      → P db
      → P (update_rows (claimable now key) (lease_row now lease token) db)) where
  pub claim_one-Keeps : (key : Delivery) (token : String) → Keeps P (claim_one now lease key token)
  unfolding claim_one
  claim_one-Keeps key token = record {
    keeps = λ db v.
        let w = leased key token db v in
        if-elim (Reached P) (rows_affected (claimable now key) db == 1) (found _ _ w) w;
  }
    where
      found :
          (o : Option OutboxItem) (db : Db)
          → P db
          → Reached P (elim o as (λ _. Result StoreError (List OutboxItem × Db)) [
            | none ↦ err not_found
            | some item ↦ ok (item ∷ [], db)
          ])
      found none db v = tt
      found (some item) db v = v

  pub claim_keys-Keeps :
      (tokens : List String) (keys : List Delivery) → Keeps P (claim_keys now lease tokens keys)
  unfolding claim_keys
  claim_keys-Keeps tokens [] = Keeps-pure []
  claim_keys-Keeps [] (key ∷ keys) = record { keeps = λ db v. tt }
  claim_keys-Keeps (token ∷ tokens) (key ∷ keys) =
      Keeps-bind (claim_one-Keeps key token)
        λ claimed. Keeps-bind (claim_keys-Keeps tokens keys) λ rest. Keeps-pure (claimed ++ rest)

  pub claim_due_deliveries-keeps :
      (limit : ℕ) (tokens : List String) (db : Db)
      → P db
      → P (claim_due_deliveries now lease limit tokens db).1
  unfolding claim_due_deliveries
  claim_due_deliveries-keeps limit tokens = Keeps-commit _ (
      Keeps-bind (Keeps-raise_if (limit == 0) bad_limit) λ _.
        Keeps-bind (Keeps-raise_if (lease == 0) bad_lease) λ _. record {
          keeps = λ db v. (claim_keys-Keeps tokens (due_keys now limit db)).keeps db v;
        })

-- Claiming due deliveries keeps the keys of all tables and every delivery with its event.
pub claim_due_deliveries-IsValid :
    (now lease limit : ℕ) (tokens : List String) (db : Db)
    → IsValid db
    → IsValid (claim_due_deliveries now lease limit tokens db).1
unfolding lease_row
claim_due_deliveries-IsValid now lease = claim_due_deliveries-keeps IsValid now lease λ key token.
    update_rows-IsValid (claimable now key) (lease_row now lease token)
      (record { event_id = λ d. refl; destination = λ d. refl })

pub transition-IsValid :
    (id : EventId) (destination token : String) (f : Delivery → Delivery)
    → KeepsKey f
    → (db : Db) → IsValid db
    → IsValid (transition id destination token f db).1
unfolding transition
transition-IsValid id destination token f k db v =
    if-elim P (not (valid_uint64 (id.chain_id ∷ id.log_index ∷ []))) v (
      if-elim P (str_eq token "") v
        (if-elim P (rows_affected (holds_lease id destination token) db == 1) w w))
  where
    P : Result StoreError (Unit {0}) × Db → Type 0
    P r = IsValid r.1

    w : IsValid (update_rows (holds_lease id destination token) f db)
    w = update_rows-IsValid (holds_lease id destination token) f k db v
