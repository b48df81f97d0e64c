-- ===== src/UiSessions.antt =====
-- cmd/reddotrelay/ui_session.go: `authenticate`, `destroy` and `expired` of `uiSessionManager`, with the
-- stored sessions and the accounts. Nothing comes between their statements here.
--
-- The hash of the token is given; the map of the sessions in memory is an association list.
-- A loaded session is put in the memory first; every branch that follows replaces or removes it, so
-- only what it ends as is written here. The second look at the memory finds what the first one left.
pub mod Live
pub mod Tests
use reddotrelay.Prelude.{
  ℕ, ◌+◌, Bool, true, false, not, ◌||◌, List, [], ◌∷◌, Option, none, some, String, Result, ok, err,
  ◌==◌, list_eq, leb, if◌then◌else◌, select,
}
use reddotrelay.Core.{Principal}
use reddotrelay.Store.Users.{User, active_user_principal}
use reddotrelay.Store.Sessions.{Session, save_ui_session, ui_session, delete_ui_session}

-- `uiSession`
pub record UiSession : Type 0 where
  pub principal : Principal
  pub csrf_token : String
  pub created_at : ℕ
  pub last_seen : ℕ

-- 30 minutes and 8 hours, in nanoseconds
abbrev pub idle_ttl : ℕ
idle_ttl = 1800000000000

abbrev pub absolute_ttl : ℕ
absolute_ttl = 28800000000000

-- The sessions in memory, and those of the store.
pub record Manager : Type 0 where
  pub in_memory : List (List ℕ × UiSession)
  pub stored : List Session

-- `expired`
pub is_expired_session : UiSession → ℕ → Bool
is_expired_session s now = leb (s.created_at + absolute_ttl) now || leb (s.last_seen + idle_ttl) now

abbrev pub session_in : List ℕ → List (List ℕ × UiSession) → Option UiSession
session_in hash [] = none
session_in hash ((k, s) ∷ m) = if list_eq ◌==◌ hash k then some s else session_in hash m

pub forget : List ℕ → List (List ℕ × UiSession) → List (List ℕ × UiSession)
forget hash m = select (λ e. not (list_eq ◌==◌ hash e.0)) m

-- A session that is loaded; its principal is read later.
pub loaded_session : Session → UiSession
loaded_session r = record {
  principal = record { id = r.principal_id; name = ""; role = "" };
  csrf_token = r.csrf_token;
  created_at = r.created_at;
  last_seen = r.last_seen;
}

-- The session in memory or, if there is none, the stored one.
pub find_session : List ℕ → Manager → Option UiSession
find_session hash m = elim (session_in hash m.in_memory) [
  | some s ↦ some s
  | none ↦ elim (ui_session hash m.stored) [ none ↦ none | some r ↦ some (loaded_session r) ]
]

pub stored_session : List ℕ → UiSession → Session
stored_session hash s = record {
  token_hash = hash;
  principal_id = s.principal.id;
  csrf_token = s.csrf_token;
  created_at = s.created_at;
  last_seen = s.last_seen;
}

-- What `authenticate` does once the principal is known.
pub renew : List ℕ → ℕ → UiSession → Principal → Manager → Option UiSession × Manager
renew hash now s principal m =
    let current : UiSession = record s { principal = principal; last_seen = now } in
    (
      some current,
      record {
        in_memory = (hash, current) ∷ forget hash m.in_memory;
        stored = save_ui_session (stored_session hash current) m.stored;
      },
    )

-- `authenticate`: the session, if the token is good, and the sessions afterwards.
pub authenticate : List ℕ → ℕ → List User → Manager → Option UiSession × Manager
authenticate hash now users m = elim (find_session hash m) as (λ _. Option UiSession × Manager) [
  | none ↦ (none, m)
  | some s ↦
      if is_expired_session s now
      then (none, record m { in_memory = forget hash m.in_memory })
      else elim (active_user_principal s.principal.id users) as (λ _. Option UiSession × Manager) [
        | err e ↦ (none, record m { in_memory = forget hash m.in_memory })
        | ok principal ↦ renew hash now s principal m
      ]
]

-- `destroy`
pub destroy : List ℕ → Manager → Manager
destroy hash m = record {
  in_memory = forget hash m.in_memory;
  stored = delete_ui_session hash m.stored;
}
