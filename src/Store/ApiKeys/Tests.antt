-- ===== src/Store/ApiKeys/Tests.antt =====
-- Two keys, one of which is revoked.
use reddotrelay.Prelude.{
  ℕ, ◌≡◌, refl, Bool, true, false, str_eq, List, [], ◌∷◌, Option, none, some, String, ok, err,
  OnDone,
}
use reddotrelay.Core.{Principal, valid_role}
use reddotrelay.Store.ApiKeys.{
  ApiKey, invalid_key, is_revoked, write_active, revoke_api_key, set_api_key_role,
  active_api_key_principal, authenticate_api_key,
}
use reddotrelay.Store.ApiKeys.Reachable.{here, after, changes_role, revoke_api_key-final}

abbrev first_key : ApiKey
first_key = record {
  id = "k1";
  name = "deploy";
  role = "admin";
  secret_hash = 1 ∷ [];
  secret_prefix = "rdr_1";
  created_at = 1;
  last_used_at = none;
  revoked_at = none;
}

abbrev second_key : ApiKey
second_key = record first_key {
  id = "k2";
  name = "watch";
  secret_hash = 2 ∷ [];
  secret_prefix = "rdr_2";
}

abbrev revoked_keys : List ApiKey
revoked_keys = record first_key { revoked_at = some 9 } ∷ second_key ∷ []

abbrev any_id : String → Bool
any_id id = true

revoke : revoke_api_key any_id "k1" 9 (first_key ∷ second_key ∷ []) ≡ ok revoked_keys
unfolding revoke_api_key write_active is_revoked
revoke = refl

demote :
    set_api_key_role "k2" "read-only" revoked_keys
    ≡ ok (record first_key { revoked_at = some 9 } ∷ record second_key { role = "read-only" } ∷ [])
unfolding set_api_key_role write_active is_revoked valid_role
demote = refl

revoke_api_key-final_example :
    (active_api_key_principal any_id "k1"
        (record first_key { revoked_at = some 9 } ∷ record second_key { role = "read-only" } ∷ [])
      ≡ err invalid_key)
    × ((presented : Option (List ℕ)) (at : ℕ) (seen : List ApiKey)
        → OnDone
            (λ (r : Principal × List ApiKey). str_eq "k1" r.0.id ≡ false)
            (authenticate_api_key presented at seen (
              record first_key { revoked_at = some 9 }
              ∷ record second_key { role = "read-only" }
              ∷ [])))
revoke_api_key-final_example =
    revoke_api_key-final any_id "k1" 9 (first_key ∷ second_key ∷ []) revoked_keys revoke
      (after (changes_role "k2" "read-only" demote) here)
