-- ===== src/UiSessions/Live.antt =====
-- Who a session's token authenticates, and that a logout ends it.
use reddotrelay.Prelude.{
  ℕ, ◌+◌, ◌<◌, ◌≡◌, ◌∙◌, refl, false, List, [], ◌∷◌, Option, none, some, Result, ok, err, ◌==◌,
  list_eq, if◌then◌else◌, arith, Bool-cases, inl, inr,
}
use reddotrelay.Core.{Principal}
use reddotrelay.Store.Users.{User, UserError, active_user_principal}
use reddotrelay.Store.Sessions.{Session, ui_session, delete_ui_session}
use reddotrelay.Store.Sessions.View.{delete_ui_session-view, list_eq_refl}
use reddotrelay.UiSessions.{
  UiSession, Manager, idle_ttl, absolute_ttl, is_expired_session, session_in, forget, find_session,
  renew, authenticate, destroy,
}

live_times :
    (s : UiSession) (now : ℕ)
    → is_expired_session s now ≡ false
    → (now < s.created_at + absolute_ttl) × (now < s.last_seen + idle_ttl)
unfolding is_expired_session
live_times s now x = (ground arith, ground arith)

-- Of a session that is given out: it continues one that had not expired, for a principal who is active.
pub record IsLive (hash : List ℕ) (now : ℕ) (users : List User) (m : Manager) (s : UiSession)
    : Type 0 where
  pub before : UiSession
  pub found : find_session hash m ≡ some before
  pub not_too_old : now < s.created_at + absolute_ttl
  pub not_idle : now < before.last_seen + idle_ttl
  pub active : active_user_principal before.principal.id users ≡ ok s.principal
  pub same_start : s.created_at ≡ before.created_at
  pub same_csrf : s.csrf_token ≡ before.csrf_token

-- Of a result that is a session.
abbrev pub OnSession : (UiSession → Type 0) → Option UiSession × Manager → Type 0
OnSession P (none, m) = Unit
OnSession P (some s, m) = P s

-- A token gives a session only where there was one that is younger than eight hours, was seen within
-- the last half hour, and belongs to a user who is enabled; the new session keeps its start and its CSRF
-- token, and its principal is that user, as the account stands now.
pub authenticate-IsLive :
    (hash : List ℕ) (now : ℕ) (users : List User) (m : Manager)
    → OnSession (IsLive hash now users m) (authenticate hash now users m)
unfolding authenticate renew
authenticate-IsLive hash now users m = go (find_session hash m) λ s e. e
  where
    principal_read :
        (s : UiSession) (r : Result UserError Principal)
        → find_session hash m ≡ some s
        → is_expired_session s now ≡ false
        → ((p : Principal) → r ≡ ok p → active_user_principal s.principal.id users ≡ ok p)
        → OnSession (IsLive hash now users m) (elim r as (λ _. Option UiSession × Manager) [
          | err e ↦ (none, record m { in_memory = forget hash m.in_memory })
          | ok principal ↦ renew hash now s principal m
        ])
    principal_read s (err e) f x k = tt
    principal_read s (ok p) f x k =
        let (old, idle) = live_times s now x in
        record {
          before = s;
          found = f;
          not_too_old = old;
          not_idle = idle;
          active = k p refl;
          same_start = refl;
          same_csrf = refl;
        }

    go :
        (o : Option UiSession)
        → ((s : UiSession) → o ≡ some s → find_session hash m ≡ some s)
        → OnSession (IsLive hash now users m) (elim o as (λ _. Option UiSession × Manager) [
          | none ↦ (none, m)
          | some s ↦
              if is_expired_session s now
              then (none, record m { in_memory = forget hash m.in_memory })
              else elim (active_user_principal s.principal.id users)
                  as (λ _. Option UiSession × Manager) [
                    | err e ↦ (none, record m { in_memory = forget hash m.in_memory })
                    | ok principal ↦ renew hash now s principal m
                  ]
        ])
    go none k = tt
    go (some s) k = elim (Bool-cases (is_expired_session s now)) [
      | inl x ↦ rw x tt
      | inr x ↦
          rw x (principal_read s (active_user_principal s.principal.id users) (k s refl) x λ p e. e)
    ]

session_in-forget :
    (hash : List ℕ) (m : List (List ℕ × UiSession)) → session_in hash (forget hash m) ≡ none
unfolding forget
session_in-forget hash [] = refl
session_in-forget hash ((k, s) ∷ m) = elim (Bool-cases (list_eq ◌==◌ hash k)) [
  | inl e ↦ rw e (session_in-forget hash m)
  | inr e ↦ rw e (rw e (session_in-forget hash m))
]

ui_session-delete :
    (hash : List ℕ) (stored : List Session) → ui_session hash (delete_ui_session hash stored) ≡ none
ui_session-delete hash stored =
    delete_ui_session-view hash stored hash ∙ rw (list_eq_refl hash) refl

find_session-destroy : (hash : List ℕ) (m : Manager) → find_session hash (destroy hash m) ≡ none
unfolding find_session destroy
find_session-destroy hash m =
    rw (find_session, destroy, session_in-forget hash m.in_memory, ui_session-delete hash m.stored)
      refl

-- After a logout the token gives no session, neither from the memory nor from the store.
pub authenticate-destroy :
    (hash : List ℕ) (now : ℕ) (users : List User) (m : Manager)
    → (authenticate hash now users (destroy hash m)).0 ≡ none
unfolding authenticate
authenticate-destroy hash now users m = rw (authenticate, find_session-destroy hash m) refl
