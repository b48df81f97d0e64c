-- ===== src/Store/Users/Kept.antt =====
-- The operations on the accounts keep the keys and an administrator.
use reddotrelay.Prelude.{
  OnDone, ℕ, ◌≡◌, refl, Bool, true, false, not, ◌&&◌, ◌||◌, List, Option, none, some, String,
  Result, ok, err, ◌==◌, leb, str_eq, arith, Bool-cases, inl, inr, find?, length, len, ltb,
  trim_space, if◌then◌else◌,
}
use reddotrelay.Core.{Principal, valid_role}
use reddotrelay.Store.Users.{
  User, UserError, has_user_id, has_username, is_enabled_admin, count_enabled_admins, insert_user,
  check_credentials, new_user, create_initial_admin, create_user, update_user, write_user,
  authenticate_user, may_disable, write_enabled, set_user_enabled, reset_user_password, change_role,
  set_user_role, user_not_found, not_hashed, invalid_credentials, unsupported_role, principal_of,
  last_admin_disabled,
}
use reddotrelay.Store.Users.Admins.{
  Keeps, KeepsUser, update_user-IsKeyed, write_user-Keeps, keeps_admin, keeps_another, keeps_other,
  insert_user-Keeps, write_enabled-KeepsUser,
}

pub set_user_enabled-Keeps :
    (id : String) (enabled : Bool) (now : ℕ) (users : List User)
    → OnDone (Keeps users) (set_user_enabled id enabled now users)
unfolding set_user_enabled write_enabled may_disable is_enabled_admin
set_user_enabled-Keeps id true now users =
    write_user-Keeps id _ users (write_enabled-KeepsUser true now) λ l.
      keeps_admin id (λ u. record u { enabled = true; updated_at = now }) users λ u h. ground arith
set_user_enabled-Keeps id false now users = go (find? (has_user_id id) users) λ u e. e
  where
    off : User → User
    off u = record u { enabled = false; updated_at = now }

    go :
        (o : Option User)
        → ((u : User) → o ≡ some u → find? (has_user_id id) users ≡ some u)
        → OnDone
            (Keeps users)
            (elim (elim o as (λ _. Option UserError) [
              | none ↦ some user_not_found
              | some u ↦
                  if str_eq u.role "admin" && leb (count_enabled_admins users) 1
                  then some last_admin_disabled
                  else none
            ])
              as (λ _. Result UserError (List User)) [
                | some e ↦ err e
                | none ↦ write_user id (λ u. record u { enabled = false; updated_at = now }) users
              ])
    go none k = tt
    go (some u) k = elim (Bool-cases (str_eq u.role "admin")) [
      | inr r ↦ rw r (
          write_user-Keeps id off users (write_enabled-KeepsUser false now)
            λ l. keeps_other id off users u l (k u refl) (ground arith))
      | inl r ↦ elim (Bool-cases (leb (count_enabled_admins users) 1)) [
        | inl c ↦ rw (r, c) tt
        | inr c ↦
            rw (r, c)
              (write_user-Keeps id off users (write_enabled-KeepsUser false now)
                λ l h. keeps_another id off users l c)
      ]
    ]

pub reset_user_password-Keeps :
    (id password : String) (hash : Option String) (now : ℕ) (users : List User)
    → OnDone (Keeps users) (reset_user_password id password hash now users)
unfolding reset_user_password is_enabled_admin
reset_user_password-Keeps id password hash now users = elim (Bool-cases (ltb (len password) 12)) [
  | inl e ↦ rw e tt
  | inr e ↦ rw e (go hash)
]
  where
    go :
        (hash : Option String)
        → OnDone (Keeps users) (elim hash as (λ _. Result UserError (List User)) [
          | none ↦ err not_hashed
          | some h ↦ write_user id (λ u. record u { password_hash = h; updated_at = now }) users
        ])
    go none = tt
    go (some h) =
        write_user-Keeps id _ users
          (record { id = λ u. refl; username = λ u. refl; role = λ u h. h })
          λ l. keeps_admin id (λ u. record u { password_hash = h; updated_at = now }) users λ u a. a

change_role-Keeps :
    (id role : String) (now : ℕ) (u : User) (users : List User)
    → valid_role role ≡ true
    → find? (has_user_id id) users ≡ some u
    → OnDone (Keeps users) (change_role id role now u users)
unfolding change_role
change_role-Keeps id role now u users v e = elim (Bool-cases (str_eq u.role role)) [
  | inl s ↦ rw s ((λ h. h), λ h. h)
  | inr s ↦ elim (Bool-cases (is_enabled_admin u)) [
    | inr a ↦ rw (s, a) (write_user-Keeps id given users k λ l. keeps_other id given users u l e a)
    | inl a ↦ elim (Bool-cases (leb (count_enabled_admins users) 1)) [
      | inl c ↦ rw (s, a, c) tt
      | inr c ↦
          rw (s, a, c) (write_user-Keeps id given users k λ l h. keeps_another id given users l c)
    ]
  ]
]
  where
    given : User → User
    given u = record u { role = role; updated_at = now }

    k : KeepsUser given
    k = record { id = λ u. refl; username = λ u. refl; role = λ u h. v }

pub set_user_role-Keeps :
    (id role : String) (now : ℕ) (users : List User)
    → OnDone (Keeps users) (set_user_role id role now users)
unfolding set_user_role
set_user_role-Keeps id role now users = elim (Bool-cases (valid_role role)) [
  | inr v ↦ rw v tt
  | inl v ↦ rw v (go v (find? (has_user_id id) users) λ u e. e)
]
  where
    go :
        valid_role role ≡ true
        → (o : Option User) → ((u : User) → o ≡ some u → find? (has_user_id id) users ≡ some u)
        → OnDone (Keeps users) (elim o as (λ _. Result UserError (List User)) [
          | none ↦ err user_not_found
          | some u ↦ change_role id role now u users
        ])
    go v none k = tt
    go v (some u) k = change_role-Keeps id role now u users v (k u refl)

pub authenticate_user-Keeps :
    (matches : String → String → Bool) (name password : String) (now : ℕ) (users : List User)
    → OnDone
        (λ (r : Principal × List User). Keeps users r.1)
        (authenticate_user matches name password now users)
unfolding authenticate_user is_enabled_admin
authenticate_user-Keeps matches name password now users =
    go (find? (has_username (trim_space name)) users)
  where
    seen : User → User
    seen u = record u { last_login_at = some now }

    go :
        (o : Option User)
        → OnDone
            (λ (r : Principal × List User). Keeps users r.1)
            (elim o as (λ _. Result UserError (Principal × List User)) [
              | none ↦ err invalid_credentials
              | some u ↦
                  if not u.enabled || not (matches u.password_hash password)
                  then err invalid_credentials
                  else ok (
                    principal_of u,
                    update_user u.id (λ u. record u { last_login_at = some now }) users,
                  )
            ])
    go none = tt
    go (some u) = elim (Bool-cases (not u.enabled || not (matches u.password_hash password))) [
      | inl e ↦ rw e tt
      | inr e ↦ rw e (
        update_user-IsKeyed u.id seen
            (record { id = λ u. refl; username = λ u. refl; role = λ u h. h }) users,
        keeps_admin u.id seen users λ u a. a,
      )
    ]

saved-Keeps :
    {A : Type 0} (a : A) (users : List User) (r : Result UserError (List User))
    → OnDone (Keeps users) r
    → OnDone
        (λ (r : A × List User). Keeps users r.1)
        (elim r as (λ _. Result UserError (A × List User)) [
          | err e ↦ err e
          | ok users' ↦ ok (a, users')
        ])
saved-Keeps a users (ok users') h = h
saved-Keeps a users (err e) h = tt

-- The two operations that check a name and a password, and then have a hash or not.
checked-Keeps :
    {A : Type 0} (users : List User) (bad : Option UserError) (hash : Option String)
    (next : String → Result UserError (A × List User))
    → ((h : String) → OnDone (λ (r : A × List User). Keeps users r.1) (next h))
    → OnDone
        (λ (r : A × List User). Keeps users r.1)
        (elim bad as (λ _. Result UserError (A × List User)) [
          | some e ↦ err e
          | none ↦ elim hash as (λ _. Result UserError (A × List User)) [
            | none ↦ err not_hashed
            | some h ↦ next h
          ]
        ])
checked-Keeps users (some e) hash next k = tt
checked-Keeps users none none next k = tt
checked-Keeps users none (some h) next k = k h

pub create_initial_admin-Keeps :
    (id name password : String) (hash : Option String) (now : ℕ) (users : List User)
    → OnDone
        (λ (r : Principal × List User). Keeps users r.1)
        (create_initial_admin id name password hash now users)
unfolding create_initial_admin
create_initial_admin-Keeps id name password hash now users =
    checked-Keeps users (check_credentials (trim_space name) password) hash _ λ h.
      elim (Bool-cases (length users == 0)) [
        | inr z ↦ rw z tt
        | inl z ↦ rw z (
            saved-Keeps _ users _
              (insert_user-Keeps (new_user id (trim_space name) h "admin" now) users))
      ]

pub create_user-Keeps :
    (id name password role : String) (hash : Option String) (now : ℕ) (users : List User)
    → OnDone
        (λ (r : User × List User). Keeps users r.1)
        (create_user id name password role hash now users)
unfolding create_user
create_user-Keeps id name password role hash now users =
    go (check_credentials (trim_space name) password)
  where
    go :
        (bad : Option UserError)
        → OnDone
            (λ (r : User × List User). Keeps users r.1)
            (elim bad as (λ _. Result UserError (User × List User)) [
              | some e ↦ err e
              | none ↦
                  if not (valid_role role)
                  then err unsupported_role
                  else elim hash as (λ _. Result UserError (User × List User)) [
                    | none ↦ err not_hashed
                    | some h ↦
                        elim (insert_user (new_user id (trim_space name) h role now) users)
                          as (λ _. Result UserError (User × List User)) [
                            | err e ↦ err e
                            | ok users' ↦ ok (new_user id (trim_space name) h role now, users')
                          ]
                  ]
            ])
    go (some e) = tt
    go none = elim (Bool-cases (valid_role role)) [
      | inr v ↦ rw v tt
      | inl v ↦ rw v (
          checked-Keeps users none hash _ λ h.
            saved-Keeps _ users _
              (insert_user-Keeps (new_user id (trim_space name) h role now) users))
    ]
