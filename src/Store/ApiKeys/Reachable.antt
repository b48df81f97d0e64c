-- ===== src/Store/ApiKeys/Reachable.antt =====
-- The operations on the keys as steps, and the keys that no run of them brings back.
use reddotrelay.Prelude.{
  ℕ, ◌≡◌, refl, subst, Bool, true, false, not, ◌||◌, List, [], ◌∷◌, Option, none, some, String,
  Result, ok, err, ◌==◌, str_eq, eq_iff, arith, Bool-cases, inl, inr, any, select, length,
  if◌then◌else◌, OnDone,
}
use reddotrelay.Core.{Principal, valid_role}
use reddotrelay.Store.ApiKeys.{
  ApiKey, NewKey, KeyError, has_key_id, is_revoked, is_active_key, key_collides, principal_of_key,
  write_active, set_api_key_role, record_use, authenticate_api_key, last_match, validate_api_key,
  inserted_key, create_api_key, revoke_api_key, active_api_key_principal, invalid_key,
  key_not_found, hash_required, constraint_failed,
}
use reddotrelay.Store.ApiKeys.Revoked.{
  IsRevoked, any-revoked, any-has_update, any-one, find?-inactive, write_active-IsRevoked,
  authenticate_api_key-active,
}

-- A row that may be inserted has another identifier than those that are there.
apart :
    (id : String) (new : ApiKey) (keys : List ApiKey)
    → any (key_collides new) keys ≡ false
    → any (has_key_id id) keys ≡ true
    → str_eq id new.id ≡ false
unfolding key_collides
apart id new [] n p = cc
apart id new (x ∷ keys) n p =
    ground (arith, apart id new keys, eq_iff id x.id, eq_iff id new.id, eq_iff new.id x.id)

inserted-IsRevoked :
    (id : String) (new : ApiKey) (keys : List ApiKey)
    → any (key_collides new) keys ≡ false
    → IsRevoked id keys
    → IsRevoked id (new ∷ keys)
inserted-IsRevoked id new keys n v =
    let a = apart id new keys n v.present in
    record { present = ground (arith, v.present); inactive = ground (arith, a, v.inactive) }

module _ (valid_config_id : String → Bool) where
  create_api_key-IsRevoked :
      (id : String) (k : NewKey) (hash : List ℕ) (keys : List ApiKey)
      → IsRevoked id keys
      → OnDone (IsRevoked id) (create_api_key valid_config_id k hash keys)
  unfolding create_api_key
  create_api_key-IsRevoked id k hash keys v = go (validate_api_key valid_config_id k)
    where
      new : ApiKey
      new = inserted_key valid_config_id k hash

      go :
          (bad : Option KeyError)
          → OnDone (IsRevoked id) (elim bad as (λ _. Result KeyError (List ApiKey)) [
            | some e ↦ err e
            | none ↦
                if not (any (λ b. not (b == 0)) hash)
                then err hash_required
                else if any (key_collides new) keys || not (length hash == 32)
                then err constraint_failed
                else ok (new ∷ keys)
          ])
      go (some e) = tt
      go none = elim (Bool-cases (any (λ b. not (b == 0)) hash)) [
        | inr z ↦ rw z tt
        | inl z ↦ elim (Bool-cases (any (key_collides new) keys || not (length hash == 32))) [
          | inl c ↦ rw (z, c) tt
          | inr c ↦ rw (z, c) (inserted-IsRevoked id new keys (ground arith) v)
        ]
      ]

  -- One call that succeeds; `seen` is the table as it was when the keys were read.
  pub data Step : List ApiKey → List ApiKey → Type 0 where
    creates :
        {a b : List ApiKey} (k : NewKey) (hash : List ℕ)
        → create_api_key valid_config_id k hash a ≡ ok b
        → Step a b
    revokes :
        {a b : List ApiKey} (id : String) (now : ℕ)
        → revoke_api_key valid_config_id id now a ≡ ok b
        → Step a b
    changes_role :
        {a b : List ApiKey} (id role : String) → set_api_key_role id role a ≡ ok b → Step a b
    authenticates :
        {a b : List ApiKey} (presented : Option (List ℕ)) (now : ℕ) (seen : List ApiKey)
        (p : Principal)
        → authenticate_api_key presented now seen a ≡ ok (p, b)
        → Step a b

  pub data Reach : List ApiKey → List ApiKey → Type 0 where
    here : {a : List ApiKey} → Reach a a
    after : {a b c : List ApiKey} → Step a b → Reach b c → Reach a c

  revoke_api_key-IsRevoked :
      (id other : String) (now : ℕ) (keys : List ApiKey)
      → IsRevoked id keys
      → OnDone (IsRevoked id) (revoke_api_key valid_config_id other now keys)
  unfolding revoke_api_key
  revoke_api_key-IsRevoked id other now keys v = elim (Bool-cases (valid_config_id other)) [
    | inr e ↦ rw e tt
    | inl e ↦ rw e (
        write_active-IsRevoked id key_not_found other (λ k. record k { revoked_at = some now })
          (λ k. refl) keys v)
  ]

  set_api_key_role-IsRevoked :
      (id other role : String) (keys : List ApiKey)
      → IsRevoked id keys
      → OnDone (IsRevoked id) (set_api_key_role other role keys)
  unfolding set_api_key_role
  set_api_key_role-IsRevoked id other role keys v = elim (Bool-cases (valid_role role)) [
    | inr e ↦ rw e tt
    | inl e ↦ rw e (
        write_active-IsRevoked id key_not_found other (λ k. record k { role = role }) (λ k. refl)
          keys v)
  ]

  authenticate_api_key-IsRevoked :
      (id : String) (presented : Option (List ℕ)) (now : ℕ) (seen keys : List ApiKey)
      → IsRevoked id keys
      → OnDone
          (λ (r : Principal × List ApiKey). IsRevoked id r.1)
          (authenticate_api_key presented now seen keys)
  unfolding authenticate_api_key record_use
  authenticate_api_key-IsRevoked id none now seen keys v = tt
  authenticate_api_key-IsRevoked id (some hash) now seen keys v =
      go (last_match hash (select (λ k. not (is_revoked k)) seen) none)
    where
      written :
          (k : ApiKey) (r : Result KeyError (List ApiKey))
          → OnDone (IsRevoked id) r
          → OnDone
              (λ (r : Principal × List ApiKey). IsRevoked id r.1)
              (elim r as (λ _. Result KeyError (Principal × List ApiKey)) [
                | err e ↦ err e
                | ok keys' ↦ ok (principal_of_key k, keys')
              ])
      written k (err e) d = tt
      written k (ok keys') d = d

      go :
          (o : Option ApiKey)
          → OnDone
              (λ (r : Principal × List ApiKey). IsRevoked id r.1)
              (elim o as (λ _. Result KeyError (Principal × List ApiKey)) [
                | none ↦ err invalid_key
                | some k ↦
                    elim (write_active invalid_key k.id
                        (λ k. record k { last_used_at = some now })
                        keys)
                      as (λ _. Result KeyError (Principal × List ApiKey)) [
                        | err e ↦ err e
                        | ok keys' ↦ ok (principal_of_key k, keys')
                      ]
              ])
      go none = tt
      go (some k) = written k _ (
          write_active-IsRevoked id invalid_key k.id (λ k. record k { last_used_at = some now })
            (λ k. refl) keys v)

  Step-IsRevoked : (id : String) {a b : List ApiKey} → Step a b → IsRevoked id a → IsRevoked id b
  Step-IsRevoked id {a} (creates k hash e) v =
      subst (OnDone (IsRevoked id)) e (create_api_key-IsRevoked id k hash a v)
  Step-IsRevoked id {a} (revokes other now e) v =
      subst (OnDone (IsRevoked id)) e (revoke_api_key-IsRevoked id other now a v)
  Step-IsRevoked id {a} (changes_role other role e) v =
      subst (OnDone (IsRevoked id)) e (set_api_key_role-IsRevoked id other role a v)
  Step-IsRevoked id {a} (authenticates presented now seen p e) v =
      subst (OnDone (λ (r : Principal × List ApiKey). IsRevoked id r.1)) e
        (authenticate_api_key-IsRevoked id presented now seen a v)

  Reach-IsRevoked : (id : String) {a b : List ApiKey} → Reach a b → IsRevoked id a → IsRevoked id b
  Reach-IsRevoked id here v = v
  Reach-IsRevoked id (after s r) v = Reach-IsRevoked id r (Step-IsRevoked id s v)

  revoke_api_key-IsRevoked_now :
      (id : String) (now : ℕ) (keys : List ApiKey)
      → OnDone (IsRevoked id) (revoke_api_key valid_config_id id now keys)
  unfolding revoke_api_key write_active
  revoke_api_key-IsRevoked_now id now keys = elim (Bool-cases (valid_config_id id)) [
    | inr e ↦ rw e tt
    | inl e ↦ elim (Bool-cases (length (select (is_active_key id) keys) == 1)) [
      | inr n ↦ rw (e, n) tt
      | inl n ↦
          rw (e, n)
            (record {
              present =
                  rw
                    (any-has_update id (is_active_key id) (λ k. record k { revoked_at = some now })
                      (λ k. refl) keys)
                    (any-one id keys (ground arith));
              inactive = any-revoked id now keys;
            })
    ]
  ]

  -- Once a key has been revoked, and whatever sequence of key operations succeeds then, it is no
  -- active principal, and no secret authenticates as it, not even where the keys were read before the
  -- revocation.
  pub revoke_api_key-final :
      (id : String) (now : ℕ) (keys revoked : List ApiKey) {later : List ApiKey}
      → revoke_api_key valid_config_id id now keys ≡ ok revoked
      → Reach revoked later
      → (active_api_key_principal valid_config_id id later ≡ err invalid_key)
        × ((presented : Option (List ℕ)) (at : ℕ) (seen : List ApiKey)
            → OnDone
                (λ (r : Principal × List ApiKey). str_eq id r.0.id ≡ false)
                (authenticate_api_key presented at seen later))
  unfolding active_api_key_principal
  revoke_api_key-final id now keys revoked {later} e r =
      let v =
        Reach-IsRevoked id r
          (subst (OnDone (IsRevoked id)) e (revoke_api_key-IsRevoked_now id now keys)) in
      (
        refused v,
        λ presented at seen. authenticate_api_key-active id presented at seen later v.inactive,
      )
    where
      refused :
          IsRevoked id later → active_api_key_principal valid_config_id id later ≡ err invalid_key
      refused v = elim (Bool-cases (valid_config_id id)) [
        | inr n ↦ rw n refl
        | inl n ↦ rw (n, find?-inactive id later v.inactive) refl
      ]
