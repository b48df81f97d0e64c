-- ===== src/Store/History/Tests.antt =====
-- A rewind and a reset of the database with one event.
use reddotrelay.Prelude.{[], ◌∷◌, ◌≡◌, refl, ok, none, some, true, find?}
use reddotrelay.Core.{Checkpoint}
use reddotrelay.Store.Db.{valid_uint64}
use reddotrelay.Store.Events.{on_chain}
use reddotrelay.Store.Events.Tests.{hook}
use reddotrelay.Store.Outbox.Tests.{holding}
use reddotrelay.Store.History.{reset_from, rewind_canonical, has_checkpoint}
use reddotrelay.Store.History.Recovery.{ForgetsFrom, rewind_canonical_lem, reset_from_lem}

abbrev at_6 : Checkpoint
at_6 = record { chain_id = 1; block_number = 6; block_hash = "0xb6" }

in_range : valid_uint64 (1 ∷ 7 ∷ []) ≡ true
unfolding valid_uint64
in_range = refl

rewind_canonical_lem_example :
    let (r, db') = rewind_canonical 1 7 "0xb6" (holding hook) in
    (r ≡ ok tt)
    × ForgetsFrom 1 7 (holding hook) db'
    × (find? (on_chain 1) db'.checkpoints ≡ some at_6)
rewind_canonical_lem_example = rewind_canonical_lem 1 7 "0xb6" (holding hook) in_range

known : has_checkpoint 1 (holding hook) ≡ true
unfolding has_checkpoint
known = refl

reset_from_lem_example :
    let (r, db') = reset_from 1 7 (holding hook) in
    (r ≡ ok tt) × ForgetsFrom 1 7 (holding hook) db' × (find? (on_chain 1) db'.checkpoints ≡ none)
reset_from_lem_example = reset_from_lem 1 7 (holding hook) in_range known
