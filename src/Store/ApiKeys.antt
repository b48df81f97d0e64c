-- ===== src/Store/ApiKeys.antt =====
-- internal/store/sqlite/apikey.go: the keys of the management API.
--
-- `validConfigID`, which asks the uuid package, is a parameter, and what `auth.HashAPIKeySecret` gives
-- is an argument. A time that `IsZero` is `none`.
pub mod Revoked
pub mod Reachable
pub mod Tests
use reddotrelay.Prelude.{
  ℕ, Bool, true, false, not, ◌&&◌, ◌||◌, List, [], ◌∷◌, Option, none, some, String, Result, ok, err,
  ◌==◌, str_eq, list_eq, ltb, if◌then◌else◌, find?, any, select, map, length, sort, trim_space,
}
use reddotrelay.Core.{Principal, valid_role}

-- A row of `api_keys`.
pub record ApiKey : Type 0 where
  pub id : String
  pub name : String
  pub role : String
  pub secret_hash : List ℕ
  pub secret_prefix : String
  pub created_at : ℕ
  pub last_used_at : Option ℕ
  pub revoked_at : Option ℕ

-- `core.APIKey`, as far as `CreateAPIKey` reads it.
pub record NewKey : Type 0 where
  pub id : String
  pub name : String
  pub role : String
  pub prefix : String
  pub created_at : Option ℕ

pub data KeyError : Type 0 where
  bad_id name_required bad_role prefix_required created_at_required hash_required constraint_failed
        key_not_found invalid_key :
      KeyError

abbrev pub has_key_id : String → ApiKey → Bool
has_key_id id k = str_eq id k.id

unfoldable pub is_revoked : ApiKey → Bool
is_revoked k = elim k.revoked_at [ none ↦ false | some at ↦ true ]

-- id = ? AND revoked_at IS NULL
abbrev pub is_active_key : String → ApiKey → Bool
is_active_key id k = has_key_id id k && not (is_revoked k)

-- What the keys of the table forbid of two rows.
pub key_collides : ApiKey → ApiKey → Bool
key_collides a b =
    str_eq a.id b.id || str_eq a.name b.name || list_eq ◌==◌ a.secret_hash b.secret_hash

abbrev pub update_keys : (ApiKey → Bool) → (ApiKey → ApiKey) → List ApiKey → List ApiKey
update_keys p f keys = map (λ k. if p k then f k else k) keys

-- `ORDER BY created_at, id`
pub api_key_before : (String → String → Bool) → ApiKey → ApiKey → Bool
api_key_before before a b =
    ltb a.created_at b.created_at || (a.created_at == b.created_at && before a.id b.id)

-- `APIKeys`, with SQLite's order of the identifiers.
pub api_keys : (String → String → Bool) → List ApiKey → List ApiKey
api_keys before keys = sort (api_key_before before) keys

pub principal_of_key : ApiKey → Principal
principal_of_key k = record { id = k.id; name = k.name; role = k.role }

-- The last row of that hash, as the loop of `AuthenticateAPIKey` finds it.
pub last_match : List ℕ → List ApiKey → Option ApiKey → Option ApiKey
last_match hash [] found = found
last_match hash (k ∷ keys) found =
    last_match hash keys (if list_eq ◌==◌ k.secret_hash hash then some k else found)

-- An UPDATE of the active row of an identifier that wants one row.
unfoldable pub write_active :
    KeyError → String → (ApiKey → ApiKey) → List ApiKey → Result KeyError (List ApiKey)
write_active e id f keys =
    if length (select (is_active_key id) keys) == 1
    then ok (update_keys (is_active_key id) f keys)
    else err e

-- `SetAPIKeyRole`
unfoldable pub set_api_key_role : String → String → List ApiKey → Result KeyError (List ApiKey)
set_api_key_role id role keys =
    if not (valid_role role)
    then err bad_role
    else write_active key_not_found id (λ k. record k { role = role }) keys

-- The rest of `AuthenticateAPIKey` with the row that matched.
pub record_use : ℕ → ApiKey → List ApiKey → Result KeyError (Principal × List ApiKey)
record_use now k keys =
    elim (write_active invalid_key k.id (λ k. record k { last_used_at = some now }) keys) [
      | err e ↦ err e
      | ok keys' ↦ ok (principal_of_key k, keys')
    ]

-- `AuthenticateAPIKey`: the rows are read as they were in `seen`, before the use is recorded.
pub authenticate_api_key :
    Option (List ℕ) → ℕ → List ApiKey → List ApiKey → Result KeyError (Principal × List ApiKey)
authenticate_api_key presented now seen keys = elim presented [
  | none ↦ err invalid_key
  | some hash ↦ elim (last_match hash (select (λ k. not (is_revoked k)) seen) none) [
    | none ↦ err invalid_key
    | some k ↦ record_use now k keys
  ]
]

module _ (valid_config_id : String → Bool) where
  -- `validateAPIKey`
  pub validate_api_key : NewKey → Option KeyError
  validate_api_key k =
      if not (valid_config_id k.id)
      then some bad_id
      else if str_eq (trim_space k.name) ""
      then some name_required
      else if not (valid_role k.role)
      then some bad_role
      else if str_eq k.prefix ""
      then some prefix_required
      else elim k.created_at [ none ↦ some created_at_required | some at ↦ none ]

  pub inserted_key : NewKey → List ℕ → ApiKey
  inserted_key k hash = record {
    id = k.id;
    name = k.name;
    role = k.role;
    secret_hash = hash;
    secret_prefix = k.prefix;
    created_at = elim k.created_at [ none ↦ 0 | some at ↦ at ];
    last_used_at = none;
    revoked_at = none;
  }

  -- `CreateAPIKey`
  pub create_api_key : NewKey → List ℕ → List ApiKey → Result KeyError (List ApiKey)
  create_api_key k hash keys = elim (validate_api_key k) [
    | some e ↦ err e
    | none ↦
        if not (any (λ b. not (b == 0)) hash)
        then err hash_required
        else if any (key_collides (inserted_key k hash)) keys || not (length hash == 32)
        then err constraint_failed
        else ok (inserted_key k hash ∷ keys)
  ]

  -- `RevokeAPIKey`
  unfoldable pub revoke_api_key : String → ℕ → List ApiKey → Result KeyError (List ApiKey)
  revoke_api_key id now keys =
      if not (valid_config_id id)
      then err bad_id
      else write_active key_not_found id (λ k. record k { revoked_at = some now }) keys

  -- `ActiveAPIKeyPrincipal`
  pub active_api_key_principal : String → List ApiKey → Result KeyError Principal
  active_api_key_principal id keys =
      if not (valid_config_id id) then err invalid_key else elim (find? (is_active_key id) keys) [
        | none ↦ err invalid_key
        | some k ↦ ok (principal_of_key k)
      ]
