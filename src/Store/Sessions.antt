-- ===== src/Store/Sessions.antt =====
-- internal/store/sqlite/session.go: the sessions of the user interface. Every row is a user's.
pub mod View
pub mod Tests
use reddotrelay.Prelude.{
  ℕ, Bool, true, false, not, ◌||◌, List, [], ◌∷◌, Option, none, some, String, ◌==◌, list_eq, ltb,
  if◌then◌else◌, find?, any, select, map,
}

-- `core.UISessionRecord`, a row of `ui_sessions`.
pub record Session : Type 0 where
  pub token_hash : List ℕ
  pub principal_id : String
  pub csrf_token : String
  pub created_at : ℕ
  pub last_seen : ℕ

abbrev pub has_token : List ℕ → Session → Bool
has_token hash s = list_eq ◌==◌ hash s.token_hash

-- `SaveUISession`: of a row that is there, only the time changes.
pub save_ui_session : Session → List Session → List Session
save_ui_session r sessions =
    if any (has_token r.token_hash) sessions
    then map (λ s. if has_token r.token_hash s then record s { last_seen = r.last_seen } else s)
        sessions
    else r ∷ sessions

-- `UISession`
pub ui_session : List ℕ → List Session → Option Session
ui_session hash sessions = find? (has_token hash) sessions

-- `DeleteUISession`
pub delete_ui_session : List ℕ → List Session → List Session
delete_ui_session hash sessions = select (λ s. not (has_token hash s)) sessions

-- last_seen<? OR created_at<?
pub is_stale : ℕ → ℕ → Session → Bool
is_stale idle absolute s = ltb s.last_seen idle || ltb s.created_at absolute

-- `DeleteExpiredUISessions`
pub delete_expired_ui_sessions : ℕ → ℕ → List Session → List Session
delete_expired_ui_sessions idle absolute sessions =
    select (λ s. not (is_stale idle absolute s)) sessions
