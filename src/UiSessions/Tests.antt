-- ===== src/UiSessions/Tests.antt =====
-- The session of a user who is enabled.
use reddotrelay.Prelude.{◌≡◌, [], ◌∷◌, none}
use reddotrelay.Store.Users.Tests.{alice}
use reddotrelay.Store.Sessions.Tests.{session}
use reddotrelay.UiSessions.{Manager, authenticate, destroy}
use reddotrelay.UiSessions.Live.{OnSession, IsLive, authenticate-IsLive, authenticate-destroy}

abbrev restarted : Manager
restarted = record { in_memory = []; stored = session ∷ [] }

authenticate-IsLive_example :
    OnSession
      (IsLive (1 ∷ 2 ∷ []) 9 (alice ∷ []) restarted)
      (authenticate (1 ∷ 2 ∷ []) 9 (alice ∷ []) restarted)
authenticate-IsLive_example = authenticate-IsLive (1 ∷ 2 ∷ []) 9 (alice ∷ []) restarted

authenticate-destroy_example :
    (authenticate (1 ∷ 2 ∷ []) 9 (alice ∷ []) (destroy (1 ∷ 2 ∷ []) restarted)).0 ≡ none
authenticate-destroy_example = authenticate-destroy (1 ∷ 2 ∷ []) 9 (alice ∷ []) restarted
