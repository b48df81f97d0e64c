-- ===== src/Store/Users/Admins.antt =====
-- An enabled administrator is left, whatever succeeds.
use reddotrelay.Prelude.{
  OnDone, ℕ, ◌+◌, ◌≤◌, ◌≡◌, refl, Bool, true, false, not, ◌&&◌, ◌||◌, List, [], ◌∷◌, some, String,
  ◌==◌, leb, arith, Bool-cases, inl, inr, find?, any, select, map, length, Unique, Unique-map, All,
  if◌then◌else◌,
}
use reddotrelay.Core.{valid_role}
use reddotrelay.Store.Users.{
  User, has_user_id, collides, is_enabled_admin, count_enabled_admins, insert_user, update_user,
  write_user,
}

-- The rows that an update can take away from a filter are those that it updates.
length-select_update :
    (p q : User → Bool) (f : User → User) (xs : List User)
    → length (select p xs)
      ≤ length (select p (map (λ x. if q x then f x else x) xs))
        + length (select (λ x. q x && p x) xs)
length-select_update p q f [] = omega arith
length-select_update p q f (x ∷ xs) = let i = length-select_update p q f xs in ground (arith, i)

-- One that does not take a row away leaves as many.
length-select_keeps :
    (p q : User → Bool) (f : User → User)
    → ((x : User) → p x ≡ true → p (f x) ≡ true)
    → (xs : List User)
    → length (select p xs) ≤ length (select p (map (λ x. if q x then f x else x) xs))
length-select_keeps p q f k [] = omega arith
length-select_keeps p q f k (x ∷ xs) =
    let i = length-select_keeps p q f k xs in ground (arith, i, k x)

length-select_both :
    (p q : User → Bool) (xs : List User)
    → length (select (λ x. q x && p x) xs) ≤ length (select q xs)
length-select_both p q [] = omega arith
length-select_both p q (x ∷ xs) = let i = length-select_both p q xs in ground (arith, i)

-- Where one row is updated, and it is not of the filter, the filter's rows are not updated.
one_found :
    (p q : User → Bool) (xs : List User) (u : User)
    → length (select q xs) ≡ 1
    → find? q xs ≡ some u
    → p u ≡ false
    → length (select (λ x. q x && p x) xs) ≡ 0
one_found p q [] u l e n = cc
one_found p q (x ∷ xs) u l e n = elim (Bool-cases (q x)) [
  | inl h ↦ let b = length-select_both p q xs in ground (arith, b)
  | inr h ↦ let i = one_found p q xs u (ground arith) (ground arith) n in ground (arith, i)
]

-- The keys of the table, and its CHECK of the roles.
pub record IsKeyed (users : List User) : Type 0 where
  pub unique : Unique collides users
  pub roles : All (λ u. valid_role u.role ≡ true) users

abbrev pub HasAdmin : List User → Type 0
HasAdmin users = 1 ≤ count_enabled_admins users

-- The operation keeps the keys, and an administrator.
abbrev pub Keeps : List User → List User → Type 0
Keeps old new = (IsKeyed old → IsKeyed new) × (HasAdmin old → HasAdmin new)

-- An update that keeps the identifier and the name, and writes a valid role.
pub record KeepsUser (f : User → User) : Type 0 where
  pub id : (u : User) → (f u).id ≡ u.id
  pub username : (u : User) → (f u).username ≡ u.username
  pub role : (u : User) → valid_role u.role ≡ true → valid_role (f u).role ≡ true

pub update_user-IsKeyed :
    (id : String) (f : User → User)
    → KeepsUser f
    → (users : List User) → IsKeyed users
    → IsKeyed (update_user id f users)
unfolding collides
update_user-IsKeyed id f k users v = record {
  unique =
      Unique-map collides (λ u. if has_user_id id u then f u else u)
        (λ a b. ground (arith, k.id a, k.username a)) (λ a b. ground (arith, k.id b, k.username b))
        users v.unique;
  roles = go users v.roles;
}
  where
    go :
        (users : List User)
        → All (λ u. valid_role u.role ≡ true) users
        → All (λ u. valid_role u.role ≡ true) (update_user id f users)
    go [] h = tt
    go (u ∷ users) h = (
      elim (Bool-cases (has_user_id id u)) [ inl e ↦ rw e (k.role u h.0) | inr e ↦ rw e h.0 ],
      go users h.1,
    )

pub write_user-Keeps :
    (id : String) (f : User → User) (users : List User)
    → KeepsUser f
    → (length (select (has_user_id id) users) ≡ 1
        → HasAdmin users
        → HasAdmin (update_user id f users))
    → OnDone (Keeps users) (write_user id f users)
unfolding write_user
write_user-Keeps id f users k h = elim (Bool-cases (length (select (has_user_id id) users) == 1)) [
  | inl e ↦ rw e (update_user-IsKeyed id f k users, h (ground arith))
  | inr e ↦ rw e tt
]

module _ (id : String) (f : User → User) (users : List User) where
  -- The count is kept where the update takes no administrator away,
  pub keeps_admin :
      ((u : User) → is_enabled_admin u ≡ true → is_enabled_admin (f u) ≡ true)
      → HasAdmin users
      → HasAdmin (update_user id f users)
  unfolding count_enabled_admins
  keeps_admin k h =
      let m = length-select_keeps is_enabled_admin (has_user_id id) f k users in omega (arith, h, m)

  -- where there is another one,
  pub keeps_another :
      length (select (has_user_id id) users) ≡ 1
      → leb (count_enabled_admins users) 1 ≡ false
      → HasAdmin (update_user id f users)
  unfolding count_enabled_admins
  keeps_another l h =
      let m = length-select_update is_enabled_admin (has_user_id id) f users in
      let b = length-select_both is_enabled_admin (has_user_id id) users in ground (arith, m, b)

  -- and where the row that is updated is not one.
  pub keeps_other :
      (u : User)
      → length (select (has_user_id id) users) ≡ 1
      → find? (has_user_id id) users ≡ some u
      → is_enabled_admin u ≡ false
      → HasAdmin users
      → HasAdmin (update_user id f users)
  unfolding count_enabled_admins
  keeps_other u l e n h =
      let m = length-select_update is_enabled_admin (has_user_id id) f users in
      let z = one_found is_enabled_admin (has_user_id id) users u l e n in omega (arith, m, z, h)

pub insert_user-Keeps : (u : User) (users : List User) → OnDone (Keeps users) (insert_user u users)
unfolding insert_user count_enabled_admins
insert_user-Keeps u users = elim (Bool-cases (any (collides u) users || not (valid_role u.role))) [
  | inl e ↦ rw e tt
  | inr e ↦ rw e (
    (λ v. record { unique = (ground arith, v.unique); roles = (ground arith, v.roles) }),
    λ h. ground arith,
  )
]

pub write_enabled-KeepsUser :
    (enabled : Bool) (now : ℕ) → KeepsUser (λ u. record u { enabled = enabled; updated_at = now })
write_enabled-KeepsUser enabled now = record {
  id = λ u. refl;
  username = λ u. refl;
  role = λ u h. h;
}
