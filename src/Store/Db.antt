-- ===== src/Store/Db.antt =====
-- The tables of internal/store/sqlite/store.go and its transactions.
--
-- A table is a list of rows. A transaction either commits or leaves the database as it was.
use reddotrelay.Prelude.{
  ℕ, ◌^◌, ◌-◌, Bool, true, false, ◌&&◌, List, [], ◌∷◌, String, Result, ok, err, str_eq, leb,
  if◌then◌else◌, if-elim, ◌≡◌, arith, eq_iff, subst,
}
use reddotrelay.Core.{Event, EventId, Delivery, Checkpoint, CanonicalBlock, same_id, same_id_iff}

pub record Db : Type 0 where
  pub events : List Event
  pub deliveries : List Delivery
  pub checkpoints : List Checkpoint
  pub canonical_blocks : List CanonicalBlock

abbrev pub empty_db : Db
empty_db = record { events = []; deliveries = []; checkpoints = []; canonical_blocks = [] }

-- The errors of the operations, and `constraint` for a statement that the schema refuses.
pub data StoreError : Type 0 where
  out_of_range transaction_hash_required delivery_fields_required event_conflict : StoreError
  event_not_in_batch invalid_canonical_block checkpoint_not_found not_found : StoreError
  bad_limit bad_lease lease_token_required guid_required no_token constraint : StoreError

-- What runs inside a transaction.
abbrev pub Tx : Type 0 → Type 0
Tx A = Db → Result StoreError (A × Db)

abbrev pub pure : {A : Type 0} → A → Tx A
pure a db = ok (a, db)

abbrev pub raise : {A : Type 0} → StoreError → Tx A
raise e db = err e

infixl 5 ◌>>=◌ ◌>>◌
abbrev pub ◌>>=◌ : {A B : Type 0} → Tx A → (A → Tx B) → Tx B
◌>>=◌ m f db = elim (m db) [ ok (a, db') ↦ f a db' | err e ↦ err e ]

abbrev pub ◌>>◌ : {A B : Type 0} → Tx A → Tx B → Tx B
m >> k = m >>= λ _. k

unfoldable pub raise_if : Bool → StoreError → Tx (Unit {0})
raise_if c e = if c then raise e else pure tt

-- A test of `RowsAffected`, on the rows as they stand.
unfoldable pub ensure : (Db → Bool) → StoreError → Tx (Unit {0})
ensure p e db = if p db then ok (tt, db) else err e

abbrev pub modify : (Db → Db) → Tx (Unit {0})
modify f db = ok (tt, f db)

-- BEGIN, the statements, and COMMIT; an error rolls back.
abbrev pub commit : {A : Type 0} → Tx A → Db → Result StoreError A × Db
commit m db = elim (m db) [ ok (a, db') ↦ (ok a, db') | err e ↦ (err e, db) ]

abbrev pub max_int64 : ℕ
max_int64 = 2 ^ 63 - 1

-- `validUint64`
unfoldable pub valid_uint64 : List ℕ → Bool
valid_uint64 [] = true
valid_uint64 (v ∷ vs) = leb v max_int64 && valid_uint64 vs

-- The primary key of `deliveries`.
unfoldable pub same_delivery : EventId → String → Delivery → Bool
same_delivery id destination d = same_id id d.event_id && str_eq destination d.destination

pub same_delivery-eq :
    (id : EventId) (destination : String) (d : Delivery)
    → same_delivery id destination d ≡ true
    → (id ≡ d.event_id) × (destination ≡ d.destination)
unfolding same_delivery
same_delivery-eq id destination d h =
    ground (arith, same_id_iff id d.event_id, eq_iff destination d.destination)

abbrev pub has_id : EventId → Event → Bool
has_id id e = same_id id e.id

-- What a transaction's body has reached: nothing is said where it raised.
abbrev pub Reached : {A : Type 0} → (Db → Type 0) → Result StoreError (A × Db) → Type 0
Reached P (ok (a, db)) = P db
Reached P (err e) = Unit

-- A transaction's body keeps an invariant.
pub record Keeps {A : Type 0} (P : Db → Type 0) (m : Tx A) : Type 0 where
  pub keeps : (db : Db) → P db → Reached P (m db)

module _ {A : Type 0} {P : Db → Type 0} where
  pub Keeps-bind :
      {B : Type 0} {m : Tx A} {f : A → Tx B}
      → Keeps P m
      → ((a : A) → Keeps P (f a))
      → Keeps P (m >>= f)
  Keeps-bind {m = m} {f = f} hm hf = record { keeps = λ db p. go (m db) (hm.keeps db p) }
    where
      go :
          (r : Result StoreError (A × Db))
          → Reached P r
          → Reached P (elim r [ ok (a, db') ↦ f a db' | err e ↦ err e ])
      go (ok (a, db')) q = (hf a).keeps db' q
      go (err e) q = tt

  -- Committed or rolled back, the invariant holds.
  pub Keeps-commit : (m : Tx A) → Keeps P m → (db : Db) → P db → P (commit m db).1
  Keeps-commit m hm db p = go (m db) (hm.keeps db p)
    where
      go :
          (r : Result StoreError (A × Db))
          → Reached P r
          → P
              (elim r as (λ _. Result StoreError A × Db) [
                | ok (a, db') ↦ (ok a, db')
                | err e ↦ (err e, db)
              ]).1
      go (ok (a, db')) q = q
      go (err e) q = p

pub Keeps-raise_if : {P : Db → Type 0} (c : Bool) (e : StoreError) → Keeps P (raise_if c e)
unfolding raise_if
Keeps-raise_if true e = record { keeps = λ db p. tt }
Keeps-raise_if false e = record { keeps = λ db p. p }

pub Keeps-pure : {A : Type 0} {P : Db → Type 0} (a : A) → Keeps P (pure a)
Keeps-pure a = record { keeps = λ db p. p }

pub Keeps-modify :
    {P : Db → Type 0} (f : Db → Db) → ((db : Db) → P db → P (f db)) → Keeps P (modify f)
Keeps-modify f h = record { keeps = h }

pub Keeps-ensure : {P : Db → Type 0} (p : Db → Bool) (e : StoreError) → Keeps P (ensure p e)
unfolding ensure
Keeps-ensure {P} p e = record {
  keeps = λ db v. if-elim (Reached P) (p db) {x = ok (tt, db)} {y = err e} v tt;
}

-- What a transaction's body has returned and reached.
abbrev pub Holds : {A : Type 0} → (A → Db → Type 0) → Result StoreError (A × Db) → Type 0
Holds Q (ok (a, db)) = Q a db
Holds Q (err e) = Unit

pub Holds-bind :
    {A B : Type 0} (Q : A → Db → Type 0) (R : B → Db → Type 0) (m : Tx A) (f : A → Tx B) (db : Db)
    → Holds Q (m db)
    → ((a : A) (db' : Db) → Q a db' → Holds R (f a db'))
    → Holds R ((m >>= f) db)
Holds-bind {A} {B} Q R m f db h k = go (m db) h
  where
    go :
        (r : Result StoreError (A × Db))
        → Holds Q r
        → Holds R (elim r [ ok (a, db') ↦ f a db' | err e ↦ err e ])
    go (ok (a, db')) q = k a db' q
    go (err e) q = tt

pub Holds-and :
    {A : Type 0} (Q R : A → Db → Type 0) (r : Result StoreError (A × Db))
    → Holds Q r
    → Holds R r
    → Holds (λ a db. Q a db × R a db) r
Holds-and Q R (ok (a, db)) q s = (q, s)
Holds-and Q R (err e) q s = tt

-- What a transaction that commits returns, and the database then.
abbrev pub OnOk : {A : Type 0} → (A → Db → Type 0) → Result StoreError A × Db → Type 0
OnOk Q (ok a, db) = Q a db
OnOk Q (err e, db) = Unit

pub commit-OnOk :
    {A : Type 0} (Q : A → Db → Type 0) (m : Tx A) (db : Db) → Holds Q (m db) → OnOk Q (commit m db)
commit-OnOk {A} Q m db h = go (m db) h
  where
    go :
        (r : Result StoreError (A × Db))
        → Holds Q r
        → OnOk Q (elim r as (λ _. Result StoreError A × Db) [
          | ok (a, db') ↦ (ok a, db')
          | err e ↦ (err e, db)
        ])
    go (ok (a, db')) h = h
    go (err e) h = tt

pub OnOk-ok :
    {A : Type 0} (Q : A → Db → Type 0) (r : Result StoreError A × Db) (a : A)
    → OnOk Q r
    → r.0 ≡ ok a
    → Q a r.1
OnOk-ok Q (ok x, db) a h e = subst (λ y. Q y db) (ground arith) h
OnOk-ok Q (err x, db) a h e = cc

module _ {A : Type 0} where
  pub Holds-map :
      (Q R : A → Db → Type 0) (r : Result StoreError (A × Db))
      → ((a : A) (db : Db) → Q a db → R a db)
      → Holds Q r
      → Holds R r
  Holds-map Q R (ok (a, db)) f h = f a db h
  Holds-map Q R (err e) f h = tt

  pub Reached-of_Holds :
      (P : Db → Type 0) (r : Result StoreError (A × Db)) → Holds (λ _ db. P db) r → Reached P r
  Reached-of_Holds P (ok (a, db)) h = h
  Reached-of_Holds P (err e) h = tt
