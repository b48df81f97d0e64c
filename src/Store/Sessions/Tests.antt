-- ===== src/Store/Sessions/Tests.antt =====
-- One session.
use reddotrelay.Prelude.{refl, [], ◌∷◌}
use reddotrelay.Store.Sessions.{Session}
use reddotrelay.Store.Sessions.View.{Refines, sessions-Refines}

abbrev pub session : Session
session = record {
  token_hash = 1 ∷ 2 ∷ [];
  principal_id = "u1";
  csrf_token = "c";
  created_at = 5;
  last_seen = 5;
}

sessions-Refines_example : Refines (session ∷ record session { token_hash = 3 ∷ [] } ∷ [])
sessions-Refines_example =
    sessions-Refines (session ∷ record session { token_hash = 3 ∷ [] } ∷ []) (refl, (refl, tt))
