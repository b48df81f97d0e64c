-- ===== src/Store/Users/Reachable.antt =====
-- The operations on the accounts as steps, and what every run of them keeps.
use reddotrelay.Prelude.{OnDone, ℕ, ◌≡◌, subst, Bool, List, Option, String, ok}
use reddotrelay.Core.{Principal}
use reddotrelay.Store.Users.{
  User, create_initial_admin, create_user, authenticate_user, set_user_enabled, reset_user_password,
  set_user_role,
}
use reddotrelay.Store.Users.Admins.{IsKeyed, HasAdmin, Keeps}
use reddotrelay.Store.Users.Kept.{
  create_initial_admin-Keeps, create_user-Keeps, authenticate_user-Keeps, set_user_enabled-Keeps,
  reset_user_password-Keeps, set_user_role-Keeps,
}

-- One call that succeeds; one that fails leaves the table as it was.
pub data Step : List User → List User → Type 0 where
  sets_up :
      {a b : List User} (id name password : String) (hash : Option String) (now : ℕ) (p : Principal)
      → create_initial_admin id name password hash now a ≡ ok (p, b)
      → Step a b
  creates :
      {a b : List User} (id name password role : String) (hash : Option String) (now : ℕ) (u : User)
      → create_user id name password role hash now a ≡ ok (u, b)
      → Step a b
  logs_in :
      {a b : List User} (matches : String → String → Bool) (name password : String) (now : ℕ)
      (p : Principal)
      → authenticate_user matches name password now a ≡ ok (p, b)
      → Step a b
  enables :
      {a b : List User} (id : String) (enabled : Bool) (now : ℕ)
      → set_user_enabled id enabled now a ≡ ok b
      → Step a b
  resets :
      {a b : List User} (id password : String) (hash : Option String) (now : ℕ)
      → reset_user_password id password hash now a ≡ ok b
      → Step a b
  changes_role :
      {a b : List User} (id role : String) (now : ℕ) → set_user_role id role now a ≡ ok b → Step a b

pub data Reach : List User → List User → Type 0 where
  here : {a : List User} → Reach a a
  after : {a b c : List User} → Step a b → Reach b c → Reach a c

Step-Keeps : {a b : List User} → Step a b → Keeps a b
Step-Keeps {a} (sets_up id name password hash now p e) =
    subst (OnDone (λ (r : Principal × List User). Keeps a r.1)) e
      (create_initial_admin-Keeps id name password hash now a)
Step-Keeps {a} (creates id name password role hash now u e) =
    subst (OnDone (λ (r : User × List User). Keeps a r.1)) e
      (create_user-Keeps id name password role hash now a)
Step-Keeps {a} (logs_in matches name password now p e) =
    subst (OnDone (λ (r : Principal × List User). Keeps a r.1)) e
      (authenticate_user-Keeps matches name password now a)
Step-Keeps {a} (enables id enabled now e) =
    subst (OnDone (Keeps a)) e (set_user_enabled-Keeps id enabled now a)
Step-Keeps {a} (resets id password hash now e) =
    subst (OnDone (Keeps a)) e (reset_user_password-Keeps id password hash now a)
Step-Keeps {a} (changes_role id role now e) =
    subst (OnDone (Keeps a)) e (set_user_role-Keeps id role now a)

-- Whatever sequence of account operations succeeds, one after the other, the identifiers and the names
-- stay unique and the roles valid, where they were; and where there was an enabled administrator,
-- there is one.
pub Reach-keeps_admin :
    {a b : List User} → Reach a b → IsKeyed a → HasAdmin a → IsKeyed b × HasAdmin b
Reach-keeps_admin here v h = (v, h)
Reach-keeps_admin (after s r) v h = let (k, l) = Step-Keeps s in Reach-keeps_admin r (k v) (l h)
