-- ===== src/Store/Users.antt =====
-- internal/store/sqlite/user.go: the accounts of the management interface.
--
-- bcrypt is a parameter: the hash that it makes for a password, where it makes one, is an argument
-- of an operation, and so is its comparison. So is the identifier that is made for a new row.
pub mod Admins
pub mod Kept
pub mod Reachable
pub mod Logins
pub mod Tests
use reddotrelay.Prelude.{
  ℕ, Bool, true, false, not, ◌&&◌, ◌||◌, List, [], ◌∷◌, Option, none, some, String, len, Result, ok,
  err, ◌==◌, leb, ltb, str_eq, if◌then◌else◌, find?, any, select, map, length, trim_space,
  no_case_eq, sort,
}
use reddotrelay.Core.{Principal, valid_role}

-- A row of `users`.
pub record User : Type 0 where
  pub id : String
  pub username : String
  pub password_hash : String
  pub role : String
  pub enabled : Bool
  pub created_at : ℕ
  pub updated_at : ℕ
  pub last_login_at : Option ℕ

pub data UserError : Type 0 where
  invalid_credentials setup_complete bad_username short_password unsupported_role not_hashed
        constraint_failed last_admin_disabled last_admin_demoted user_not_found :
      UserError

abbrev pub has_user_id : String → User → Bool
has_user_id id u = str_eq id u.id

-- UNIQUE COLLATE NOCASE
abbrev pub has_username : String → User → Bool
has_username name u = no_case_eq name u.username

-- What the keys of the table forbid of two rows.
unfoldable pub collides : User → User → Bool
collides a b = str_eq a.id b.id || no_case_eq a.username b.username

-- role='admin' AND enabled=1
unfoldable pub is_enabled_admin : User → Bool
is_enabled_admin u = str_eq u.role "admin" && u.enabled

unfoldable pub count_enabled_admins : List User → ℕ
count_enabled_admins users = length (select is_enabled_admin users)

-- `HasUsers`
pub has_users : List User → Bool
has_users users = ltb 0 (length users)

-- An INSERT INTO users
unfoldable pub insert_user : User → List User → Result UserError (List User)
insert_user u users =
    if any (collides u) users || not (valid_role u.role)
    then err constraint_failed
    else ok (u ∷ users)

-- The checks that both operations make of a new name and password.
unfoldable pub check_credentials : String → String → Option UserError
check_credentials username password =
    if ltb (len username) 3 || ltb 64 (len username)
    then some bad_username
    else if ltb (len password) 12
    then some short_password
    else none

unfoldable pub new_user : String → String → String → String → ℕ → User
new_user id username hash role now = record {
  id = id;
  username = username;
  password_hash = hash;
  role = role;
  enabled = true;
  created_at = now;
  updated_at = now;
  last_login_at = none;
}

-- `CreateInitialAdmin`, in one transaction.
pub create_initial_admin :
    String
    → String
    → String
    → Option String
    → ℕ
    → List User
    → Result UserError (Principal × List User)
create_initial_admin id name password hash now users =
    let username = trim_space name in
    elim (check_credentials username password) [
      | some e ↦ err e
      | none ↦ elim hash [
        | none ↦ err not_hashed
        | some h ↦
            if not (length users == 0)
            then err setup_complete
            else elim (insert_user (new_user id username h "admin" now) users) [
              | err e ↦ err e
              | ok users' ↦ ok (record { id = id; name = username; role = "admin" }, users')
            ]
      ]
    ]

-- `CreateUser`
unfoldable pub create_user :
    String
    → String
    → String
    → String
    → Option String
    → ℕ
    → List User
    → Result UserError (User × List User)
create_user id name password role hash now users =
    let username = trim_space name in
    elim (check_credentials username password) [
      | some e ↦ err e
      | none ↦ if not (valid_role role) then err unsupported_role else elim hash [
        | none ↦ err not_hashed
        | some h ↦ elim (insert_user (new_user id username h role now) users) [
          | err e ↦ err e
          | ok users' ↦ ok (new_user id username h role now, users')
        ]
      ]
    ]

pub principal_of : User → Principal
principal_of u = record { id = u.id; name = u.username; role = u.role }

abbrev pub update_user : String → (User → User) → List User → List User
update_user id f users = map (λ u. if has_user_id id u then f u else u) users

-- An UPDATE by identifier that wants one row.
unfoldable pub write_user : String → (User → User) → List User → Result UserError (List User)
write_user id f users =
    if length (select (has_user_id id) users) == 1
    then ok (update_user id f users)
    else err user_not_found

-- `AuthenticateUser`, with bcrypt's comparison of a hash with a password.
pub authenticate_user :
    (String → String → Bool)
    → String
    → String
    → ℕ
    → List User
    → Result UserError (Principal × List User)
authenticate_user matches name password now users =
    elim (find? (has_username (trim_space name)) users) [
      | none ↦ err invalid_credentials
      | some u ↦
          if not u.enabled || not (matches u.password_hash password)
          then err invalid_credentials
          else ok
              (principal_of u, update_user u.id (λ u. record u { last_login_at = some now }) users)
    ]

-- `ActiveUserPrincipal`
pub active_user_principal : String → List User → Result UserError Principal
active_user_principal id users = elim (find? (λ u. has_user_id id u && u.enabled) users) [
  | none ↦ err invalid_credentials
  | some u ↦ ok (principal_of u)
]

-- What `SetUserEnabled` reads before it disables a user.
unfoldable pub may_disable : String → List User → Option UserError
may_disable id users = elim (find? (has_user_id id) users) [
  | none ↦ some user_not_found
  | some u ↦
      if str_eq u.role "admin" && leb (count_enabled_admins users) 1
      then some last_admin_disabled
      else none
]

-- What it writes.
unfoldable pub write_enabled : String → Bool → ℕ → List User → Result UserError (List User)
write_enabled id enabled now = write_user id (λ u. record u { enabled = enabled; updated_at = now })

-- `SetUserEnabled`, where nothing comes between its statements.
unfoldable pub set_user_enabled : String → Bool → ℕ → List User → Result UserError (List User)
set_user_enabled id true now users = write_enabled id true now users
set_user_enabled id false now users = elim (may_disable id users) [
  | some e ↦ err e
  | none ↦ write_enabled id false now users
]

-- `ResetUserPassword`
pub reset_user_password :
    String → String → Option String → ℕ → List User → Result UserError (List User)
reset_user_password id password hash now users =
    if ltb (len password) 12 then err short_password else elim hash [
      | none ↦ err not_hashed
      | some h ↦ write_user id (λ u. record u { password_hash = h; updated_at = now }) users
    ]

-- The rest of `SetUserRole` with the row that was read.
pub change_role : String → String → ℕ → User → List User → Result UserError (List User)
change_role id role now u users =
    if str_eq u.role role
    then ok users
    else if is_enabled_admin u && leb (count_enabled_admins users) 1
    then err last_admin_demoted
    else write_user id (λ u. record u { role = role; updated_at = now }) users

-- `SetUserRole`, where nothing comes between its statements.
pub set_user_role : String → String → ℕ → List User → Result UserError (List User)
set_user_role id role now users =
    if not (valid_role role) then err unsupported_role else elim (find? (has_user_id id) users) [
      | none ↦ err user_not_found
      | some u ↦ change_role id role now u users
    ]
