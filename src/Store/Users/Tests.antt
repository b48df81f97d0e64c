-- ===== src/Store/Users/Tests.antt =====
-- Two administrators, and their accounts.
use reddotrelay.Prelude.{
  OnDone, ℕ, ◌≡◌, refl, Bool, false, str_eq, List, [], ◌∷◌, none, some, String, ok, err, arith,
  trim_space, trim_left, trim_right, before_trimmed, is_space, no_case_eq, folded,
}
use reddotrelay.Core.{Principal, valid_role}
use reddotrelay.Store.Users.{
  User, invalid_credentials, collides, create_user, check_credentials, insert_user, new_user,
  set_user_enabled, may_disable, write_enabled, write_user, count_enabled_admins, is_enabled_admin,
  active_user_principal, authenticate_user, principal_of, update_user, last_admin_disabled,
}
use reddotrelay.Store.Users.Admins.{IsKeyed, HasAdmin}
use reddotrelay.Store.Users.Reachable.{Reach, here, after, creates, enables, Reach-keeps_admin}
use reddotrelay.Store.Users.Logins.{set_user_enabled-ends_access, create_user-authenticates}

abbrev pub alice : User
alice = new_user "u1" "alice" "h1" "admin" 5

abbrev bob : User
bob = new_user "u2" "bob" "h2" "admin" 6

abbrev off : User → User
off u = record u { enabled = false; updated_at = 9 }

add_bob :
    create_user "u2" " bob" "long password" "admin" (some "h2") 6 (alice ∷ [])
    ≡ ok (bob, bob ∷ alice ∷ [])
unfolding create_user check_credentials insert_user new_user collides valid_role trim_space
    trim_left trim_right before_trimmed is_space no_case_eq folded
add_bob = refl

disable_alice : set_user_enabled "u1" false 9 (bob ∷ alice ∷ []) ≡ ok (bob ∷ off alice ∷ [])
unfolding set_user_enabled may_disable write_enabled write_user count_enabled_admins
    is_enabled_admin new_user
disable_alice = refl

run : Reach (alice ∷ []) (bob ∷ off alice ∷ [])
run =
    after (creates "u2" " bob" "long password" "admin" (some "h2") 6 bob add_bob)
      (after (enables "u1" false 9 disable_alice) here)

alice-IsKeyed : IsKeyed (alice ∷ [])
unfolding valid_role new_user
alice-IsKeyed = record { unique = (refl, tt); roles = (refl, tt) }

alice-HasAdmin : HasAdmin (alice ∷ [])
unfolding count_enabled_admins is_enabled_admin new_user
alice-HasAdmin = omega arith

Reach-keeps_admin_example : IsKeyed (bob ∷ off alice ∷ []) × HasAdmin (bob ∷ off alice ∷ [])
Reach-keeps_admin_example = Reach-keeps_admin run alice-IsKeyed alice-HasAdmin

set_user_enabled-ends_access_example :
    OnDone
      (λ users'.
        (active_user_principal "u1" users' ≡ err invalid_credentials)
        × ((matches : String → String → Bool) (name password : String) (later : ℕ)
            → OnDone
                (λ (r : Principal × List User). str_eq "u1" r.0.id ≡ false)
                (authenticate_user matches name password later users')))
      (set_user_enabled "u1" false 9 (bob ∷ alice ∷ []))
set_user_enabled-ends_access_example = set_user_enabled-ends_access "u1" 9 (bob ∷ alice ∷ [])

create_user-authenticates_example :
    authenticate_user (λ h p. str_eq h "h2") " bob" "long password" 7 (bob ∷ alice ∷ [])
    ≡ ok (
      principal_of bob,
      update_user bob.id (λ u. record u { last_login_at = some 7 }) (bob ∷ alice ∷ []),
    )
create_user-authenticates_example =
    create_user-authenticates (λ h p. str_eq h "h2") "u2" " bob" "long password" "admin" "h2" 6 7
      (alice ∷ []) bob (bob ∷ alice ∷ []) add_bob refl

-- Where two calls both make their checks first, both write, and no enabled administrator is left.
first_check : may_disable "u1" (bob ∷ alice ∷ []) ≡ none
unfolding may_disable count_enabled_admins is_enabled_admin new_user
first_check = refl

second_check : may_disable "u2" (bob ∷ alice ∷ []) ≡ none
unfolding may_disable count_enabled_admins is_enabled_admin new_user
second_check = refl

second_write : write_enabled "u2" false 9 (bob ∷ off alice ∷ []) ≡ ok (off bob ∷ off alice ∷ [])
unfolding write_enabled write_user new_user
second_write = refl

nobody_left : count_enabled_admins (off bob ∷ off alice ∷ []) ≡ 0
unfolding count_enabled_admins is_enabled_admin new_user
nobody_left = refl

-- An administrator who is disabled already cannot be disabled again where one other is left.
disabled_again : set_user_enabled "u1" false 9 (bob ∷ off alice ∷ []) ≡ err last_admin_disabled
unfolding set_user_enabled may_disable count_enabled_admins is_enabled_admin new_user
disabled_again = refl
