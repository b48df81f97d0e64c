-- ===== src/Store/Tests.antt =====
-- A first batch, its claim, and a rewind.
use reddotrelay.Prelude.{[], ◌∷◌}
use reddotrelay.Store.Db.{empty_db}
use reddotrelay.Store.Invariant.{IsValid}
use reddotrelay.Store.Events.{save_batch}
use reddotrelay.Store.Events.Tests.{transfer, hook, block_7, at_7}
use reddotrelay.Store.History.{rewind_canonical}
use reddotrelay.Store.Outbox.{claim_due_deliveries}
use reddotrelay.Store.Outbox.Final.{claims}
use reddotrelay.Store.Reachable.{
  here, after, saves, rewinds_canonical, delivers, reached_tables-IsValid,
}

reached_tables-IsValid_example :
    let saved = (save_batch (transfer ∷ []) (hook ∷ []) (block_7 ∷ []) at_7 10 empty_db).1 in
    let claimed = (claim_due_deliveries 10 30 5 ("t1" ∷ []) saved).1 in
    IsValid (rewind_canonical 1 7 "0xb6" claimed).1
reached_tables-IsValid_example = reached_tables-IsValid (
    after (saves (transfer ∷ []) (hook ∷ []) (block_7 ∷ []) at_7 10 empty_db) (
      after
        (delivers (
          claims 10 30 5 ("t1" ∷ [])
            (save_batch (transfer ∷ []) (hook ∷ []) (block_7 ∷ []) at_7 10 empty_db).1))
        (after
          (rewinds_canonical 1 7 "0xb6"
            (claim_due_deliveries 10 30 5 ("t1" ∷ [])
              (save_batch (transfer ∷ []) (hook ∷ []) (block_7 ∷ []) at_7 10 empty_db).1).1)
          here)))
