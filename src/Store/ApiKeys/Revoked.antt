-- ===== src/Store/ApiKeys/Revoked.antt =====
-- A revoked key stays revoked, and does not authenticate.
use reddotrelay.Prelude.{
  ℕ, ◌≡◌, refl, subst, Bool, true, false, not, List, [], ◌∷◌, Option, none, some, String, Result,
  ok, err, ◌==◌, str_eq, eq_iff, arith, Bool-cases, inl, inr, find?, any, select, length, OnDone,
}
use reddotrelay.Core.{Principal}
use reddotrelay.Store.ApiKeys.{
  ApiKey, KeyError, has_key_id, is_revoked, is_active_key, update_keys, principal_of_key,
  last_match, write_active, record_use, authenticate_api_key, invalid_key,
}

-- The identifier has a row, and no active one.
pub record IsRevoked (id : String) (keys : List ApiKey) : Type 0 where
  pub present : any (has_key_id id) keys ≡ true
  pub inactive : any (is_active_key id) keys ≡ false

pub any-has_update :
    (id : String) (p : ApiKey → Bool) (f : ApiKey → ApiKey)
    → ((k : ApiKey) → (f k).id ≡ k.id)
    → (keys : List ApiKey) → any (has_key_id id) (update_keys p f keys) ≡ any (has_key_id id) keys
any-has_update id p f h [] = refl
any-has_update id p f h (k ∷ keys) = ground (arith, h k, any-has_update id p f h keys)

-- No update of active rows makes a row active.
any-active_update :
    (id other : String) (f : ApiKey → ApiKey)
    → ((k : ApiKey) → (f k).id ≡ k.id)
    → (keys : List ApiKey) → any (is_active_key id) keys ≡ false
    → any (is_active_key id) (update_keys (is_active_key other) f keys) ≡ false
any-active_update id other f h [] n = refl
any-active_update id other f h (k ∷ keys) n =
    ground (arith, h k, any-active_update id other f h keys, eq_iff id k.id, eq_iff other k.id)

-- Revoking makes the active row of an identifier inactive.
pub any-revoked :
    (id : String) (now : ℕ) (keys : List ApiKey)
    → any
        (is_active_key id)
        (update_keys (is_active_key id) (λ k. record k { revoked_at = some now }) keys)
      ≡ false
unfolding is_revoked
any-revoked id now [] = refl
any-revoked id now (k ∷ keys) = ground (arith, any-revoked id now keys)

pub any-one :
    (id : String) (keys : List ApiKey)
    → length (select (is_active_key id) keys) ≡ 1
    → any (has_key_id id) keys ≡ true
any-one id [] l = absurd (omega (arith, l))
any-one id (k ∷ keys) l = ground (arith, any-one id keys)

none_active :
    (id : String) (keys : List ApiKey)
    → any (is_active_key id) keys ≡ false
    → length (select (is_active_key id) keys) ≡ 0
none_active id [] n = refl
none_active id (k ∷ keys) n = ground (arith, none_active id keys)

pub find?-inactive :
    (id : String) (keys : List ApiKey)
    → any (is_active_key id) keys ≡ false
    → find? (is_active_key id) keys ≡ none
find?-inactive id [] n = refl
find?-inactive id (k ∷ keys) n = ground (arith, find?-inactive id keys)

pub write_active-IsRevoked :
    (id : String) (e : KeyError) (other : String) (f : ApiKey → ApiKey)
    → ((k : ApiKey) → (f k).id ≡ k.id)
    → (keys : List ApiKey) → IsRevoked id keys
    → OnDone (IsRevoked id) (write_active e other f keys)
unfolding write_active
write_active-IsRevoked id e other f h keys v =
    elim (Bool-cases (length (select (is_active_key other) keys) == 1)) [
      | inr n ↦ rw n tt
      | inl n ↦ rw n (record {
        present = rw (any-has_update id (is_active_key other) f h keys) v.present;
        inactive = any-active_update id other f h keys v.inactive;
      })
    ]

-- A row that is not active cannot be written.
write_active-inactive :
    (e : KeyError) (id : String) (f : ApiKey → ApiKey) (keys : List ApiKey)
    → any (is_active_key id) keys ≡ false
    → write_active e id f keys ≡ err e
unfolding write_active
write_active-inactive e id f keys n = rw (none_active id keys n) refl

-- Whatever was read before, the use of a key is recorded for an active row only.
pub authenticate_api_key-active :
    (id : String) (presented : Option (List ℕ)) (now : ℕ) (seen keys : List ApiKey)
    → any (is_active_key id) keys ≡ false
    → OnDone
        (λ (r : Principal × List ApiKey). str_eq id r.0.id ≡ false)
        (authenticate_api_key presented now seen keys)
unfolding authenticate_api_key record_use principal_of_key
authenticate_api_key-active id none now seen keys n = tt
authenticate_api_key-active id (some hash) now seen keys n =
    go (last_match hash (select (λ k. not (is_revoked k)) seen) none)
  where
    same : (k : ApiKey) → str_eq id k.id ≡ true → any (is_active_key k.id) keys ≡ false
    same k e = subst (λ x. any (is_active_key x) keys ≡ false) (ground (arith, eq_iff id k.id)) n

    written :
        (k : ApiKey) (r : Result KeyError (List ApiKey))
        → str_eq id k.id ≡ false
        → OnDone
            (λ (r : Principal × List ApiKey). str_eq id r.0.id ≡ false)
            (elim r as (λ _. Result KeyError (Principal × List ApiKey)) [
              | err e ↦ err e
              | ok keys' ↦ ok (principal_of_key k, keys')
            ])
    written k (err e) d = tt
    written k (ok keys') d = d

    go :
        (o : Option ApiKey)
        → OnDone
            (λ (r : Principal × List ApiKey). str_eq id r.0.id ≡ false)
            (elim o as (λ _. Result KeyError (Principal × List ApiKey)) [
              | none ↦ err invalid_key
              | some k ↦
                  elim (write_active invalid_key k.id
                      (λ k. record k { last_used_at = some now })
                      keys)
                    as (λ _. Result KeyError (Principal × List ApiKey)) [
                      | err e ↦ err e
                      | ok keys' ↦ ok (principal_of_key k, keys')
                    ]
            ])
    go none = tt
    go (some k) = elim (Bool-cases (str_eq id k.id)) [
      | inr d ↦
          written k (write_active invalid_key k.id (λ k. record k { last_used_at = some now }) keys)
            d
      | inl e ↦
          rw
            (write_active-inactive invalid_key k.id (λ k. record k { last_used_at = some now }) keys
              (same k e))
            tt
    ]
