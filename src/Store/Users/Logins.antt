-- ===== src/Store/Users/Logins.antt =====
-- Who can log in: a user that was created, and nobody who has been disabled.
use reddotrelay.Prelude.{
  OnDone, ℕ, ◌≡◌, refl, subst, Bool, true, false, not, ◌&&◌, ◌||◌, List, [], ◌∷◌, Option, none,
  some, String, Result, ok, err, ◌==◌, str_eq, arith, Bool-cases, inl, inr, find?, any, select,
  length, trim_space, no_case_eq_refl, All, if◌then◌else◌,
}
use reddotrelay.Core.{Principal, valid_role}
use reddotrelay.Store.Users.{
  User, UserError, has_user_id, has_username, collides, insert_user, check_credentials, new_user,
  create_user, update_user, write_user, principal_of, authenticate_user, active_user_principal,
  may_disable, write_enabled, set_user_enabled, user_not_found, invalid_credentials,
  unsupported_role, constraint_failed,
}

-- Of a row of that identifier: it is disabled.
Off : String → User → Type 0
Off id u = has_user_id id u ≡ true → u.enabled ≡ false

update-Off :
    (id : String) (now : ℕ) (users : List User)
    → All (Off id) (update_user id (λ u. record u { enabled = false; updated_at = now }) users)
unfolding Off
update-Off id now [] = tt
update-Off id now (u ∷ users) = (ground arith, update-Off id now users)

set_user_enabled-Off :
    (id : String) (now : ℕ) (users : List User)
    → OnDone (All (Off id)) (set_user_enabled id false now users)
unfolding set_user_enabled write_enabled write_user
set_user_enabled-Off id now users = go (may_disable id users)
  where
    go :
        (o : Option UserError)
        → OnDone (All (Off id)) (elim o as (λ _. Result UserError (List User)) [
          | some e ↦ err e
          | none ↦
              if length (select (has_user_id id) users) == 1
              then ok (update_user id (λ u. record u { enabled = false; updated_at = now }) users)
              else err user_not_found
        ])
    go (some e) = tt
    go none = elim (Bool-cases (length (select (has_user_id id) users) == 1)) [
      | inl e ↦ rw e (update-Off id now users)
      | inr e ↦ rw e tt
    ]

-- No row of that identifier is enabled.
find?-Off :
    (id : String) (users : List User)
    → All (Off id) users
    → find? (λ u. has_user_id id u && u.enabled) users ≡ none
unfolding Off
find?-Off id [] h = refl
find?-Off id (u ∷ users) h = ground (arith, h.0, find?-Off id users h.1)

found-Off :
    (id name : String) (users : List User) (u : User)
    → All (Off id) users
    → find? (has_username name) users ≡ some u
    → Off id u
found-Off id name [] u h e = cc
found-Off id name (x ∷ users) u h e = elim (Bool-cases (has_username name x)) [
  | inl n ↦ subst (Off id) (some_eq (rw n at e)) h.0
  | inr n ↦ found-Off id name users u h.1 (rw n at e)
]
  where
    some_eq : {x y : User} → some x ≡ some y → x ≡ y
    some_eq e = cc

authenticate_user-Off :
    (id : String) (matches : String → String → Bool) (name password : String) (now : ℕ)
    (users : List User)
    → All (Off id) users
    → OnDone
        (λ (r : Principal × List User). str_eq id r.0.id ≡ false)
        (authenticate_user matches name password now users)
unfolding authenticate_user Off principal_of
authenticate_user-Off id matches name password now users h =
    go (find? (has_username (trim_space name)) users)
      λ u e. found-Off id (trim_space name) users u h e
  where
    go :
        (o : Option User)
        → ((u : User) → o ≡ some u → Off id u)
        → OnDone
            (λ (r : Principal × List User). str_eq id r.0.id ≡ false)
            (elim o as (λ _. Result UserError (Principal × List User)) [
              | none ↦ err invalid_credentials
              | some u ↦
                  if not u.enabled || not (matches u.password_hash password)
                  then err invalid_credentials
                  else ok (
                    principal_of u,
                    update_user u.id (λ u. record u { last_login_at = some now }) users,
                  )
            ])
    go none k = tt
    go (some u) k = elim (Bool-cases (not u.enabled || not (matches u.password_hash password))) [
      | inl e ↦ rw e tt
      | inr e ↦ rw e (let off = k u refl in ground (arith, off))
    ]

-- Once a user has been disabled, no principal of that identifier is active, and no name and password
-- authenticate as that user.
pub set_user_enabled-ends_access :
    (id : String) (now : ℕ) (users : List User)
    → OnDone
        (λ users'.
          (active_user_principal id users' ≡ err invalid_credentials)
          × ((matches : String → String → Bool) (name password : String) (later : ℕ)
              → OnDone
                  (λ (r : Principal × List User). str_eq id r.0.id ≡ false)
                  (authenticate_user matches name password later users')))
        (set_user_enabled id false now users)
unfolding active_user_principal
set_user_enabled-ends_access id now users =
    go (set_user_enabled id false now users) (set_user_enabled-Off id now users)
  where
    go :
        (r : Result UserError (List User))
        → OnDone (All (Off id)) r
        → OnDone
            (λ users'.
              ((elim (find? (λ u. has_user_id id u && u.enabled) users')
                  as (λ _. Result UserError Principal) [
                    | none ↦ err invalid_credentials
                    | some u ↦ ok (principal_of u)
                  ])
                ≡ err invalid_credentials)
              × ((matches : String → String → Bool) (name password : String) (later : ℕ)
                  → OnDone
                      (λ (r : Principal × List User). str_eq id r.0.id ≡ false)
                      (authenticate_user matches name password later users')))
            r
    go (err e) h = tt
    go (ok users') h = (
      rw (find?-Off id users' h) refl,
      λ matches name password later. authenticate_user-Off id matches name password later users' h,
    )

-- What is created is the new row, in front of the others.
create_user-new :
    (id name password role h : String) (now : ℕ) (users : List User)
    → OnDone
        (λ (r : User × List User).
          (r.0 ≡ new_user id (trim_space name) h role now)
          × (r.1 ≡ new_user id (trim_space name) h role now ∷ users))
        (create_user id name password role (some h) now users)
unfolding create_user insert_user
create_user-new id name password role h now users =
    go (check_credentials (trim_space name) password)
  where
    u : User
    u = new_user id (trim_space name) h role now

    go :
        (bad : Option UserError)
        → OnDone
            (λ (r : User × List User). (r.0 ≡ u) × (r.1 ≡ u ∷ users))
            (elim bad as (λ _. Result UserError (User × List User)) [
              | some e ↦ err e
              | none ↦
                  if not (valid_role role)
                  then err unsupported_role
                  else elim (if any (collides u) users || not (valid_role u.role)
                        then err constraint_failed
                        else ok (u ∷ users))
                      as (λ _. Result UserError (User × List User)) [
                        | err e ↦ err e
                        | ok users' ↦ ok (u, users')
                      ]
            ])
    go (some e) = tt
    go none = elim (Bool-cases (valid_role role)) [
      | inr v ↦ rw v tt
      | inl v ↦ elim (Bool-cases (any (collides u) users || not (valid_role u.role))) [
        | inl c ↦ rw (v, c) tt
        | inr c ↦ rw (v, c) (refl, refl)
      ]
    ]

authenticate_user-new :
    (matches : String → String → Bool) (id name password role h : String) (now later : ℕ)
    (users : List User)
    → matches h password ≡ true
    → (let u = new_user id (trim_space name) h role now in
        authenticate_user matches name password later (u ∷ users)
        ≡ ok (
          principal_of u,
          update_user u.id (λ u. record u { last_login_at = some later }) (u ∷ users),
        ))
unfolding authenticate_user new_user
authenticate_user-new matches id name password role h now later users m =
    rw (found, authenticate_user) (rw m refl)
  where
    found :
        find? (has_username (trim_space name)) (new_user id (trim_space name) h role now ∷ users)
        ≡ some (new_user id (trim_space name) h role now)
    found = rw (no_case_eq_refl (trim_space name)) refl

-- A user who has been created logs in with the name and the password given, if bcrypt's comparison accepts
-- the hash that it made of the password; the principal is the user's, and the login is recorded.
pub create_user-authenticates :
    (matches : String → String → Bool) (id name password role h : String) (now later : ℕ)
    (users : List User) (u : User) (users' : List User)
    → create_user id name password role (some h) now users ≡ ok (u, users')
    → matches h password ≡ true
    → authenticate_user matches name password later users'
      ≡ ok (principal_of u, update_user u.id (λ u. record u { last_login_at = some later }) users')
create_user-authenticates matches id name password role h now later users u users' e m =
    let (is_new, in_front) =
      subst
        (OnDone (λ (r : User × List User).
          (r.0 ≡ new_user id (trim_space name) h role now)
          × (r.1 ≡ new_user id (trim_space name) h role now ∷ users)))
        e (create_user-new id name password role h now users) in
    rw (is_new, in_front) (authenticate_user-new matches id name password role h now later users m)
