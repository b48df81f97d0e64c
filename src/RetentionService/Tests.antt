-- ===== src/RetentionService/Tests.antt =====
-- A run that nobody interferes with, on the database whose one delivery has been delivered.
use reddotrelay.Prelude.{ℕ, ◌≡◌, ◌≤◌, refl, arith, some, ok, false}
use reddotrelay.Store.Db.{Db}
use reddotrelay.Store.Outbox.Tests.{holding, delivered_hook}
use reddotrelay.Store.Invariant.{IsValid}
use reddotrelay.Core.{same_id}
use reddotrelay.Store.Retention.{count_delivered_before}
use reddotrelay.RetentionService.{Meanwhile, Report, prune, new_service}
use reddotrelay.RetentionService.Ends.{IsQuiet, most, remaining, prune-ends}

abbrev alone : Meanwhile
alone = record { others = λ n db. db; cancels = λ n. false }

alone-IsQuiet : (maximum : ℕ) → IsQuiet alone maximum
alone-IsQuiet maximum = record { valid = λ n db v. v; no_events = λ n db e. omega arith }

after_delivery : IsValid (holding delivered_hook)
unfolding same_id
after_delivery = record {
  events_unique = (refl, tt);
  deliveries_unique = (refl, tt);
  deliveries_owned = (refl, tt);
  checkpoints_unique = (refl, tt);
  blocks_unique = (refl, tt);
}

prune-ends_example :
    (report : Report) × (db' : Db) × (prune alone 25 10 0 0 2 new_service (holding delivered_hook)
      ≡ ok (some (report, record { running = false; last = some report }, db')))
    × (report.deleted ≤ most 0 0 (holding delivered_hook))
    × (report.eligible ≡ count_delivered_before 25 (holding delivered_hook))
unfolding remaining
prune-ends_example =
    prune-ends alone 25 10 0 0 (alone-IsQuiet 0) 2 new_service (holding delivered_hook)
      (omega arith) refl after_delivery (omega arith)
