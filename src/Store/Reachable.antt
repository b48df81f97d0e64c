-- ===== src/Store/Reachable.antt =====
-- Every operation on the four tables as a step, and the tables that any run of them can reach.
use reddotrelay.Prelude.{ℕ, ◌≡◌, false, List, String, ◌==◌}
use reddotrelay.Core.{Event, Delivery, CanonicalBlock, Checkpoint}
use reddotrelay.Store.Db.{Db, empty_db}
use reddotrelay.Store.Invariant.{IsValid, empty_db-IsValid}
use reddotrelay.Store.Events.{save_batch}
use reddotrelay.Store.Events.Keys.{save_batch-IsValid}
use reddotrelay.Store.History.{rewind, reset_from, rewind_canonical}
use reddotrelay.Store.History.Keys.{rewind-IsValid, reset_from-IsValid, rewind_canonical-IsValid}
use reddotrelay.Store.Outbox.Final.{Step as OutboxStep}
use reddotrelay.Store.Outbox.Reachable.{Step-IsValid as outbox_step-IsValid}
use reddotrelay.Store.Retention.{prune_delivered_before}
use reddotrelay.Store.Retention.Bounds.{prune-Pruned}

-- One call, whether it commits or rolls back.
pub data Step : Db → Db → Type 0 where
  saves :
      (events : List Event) (deliveries : List Delivery) (blocks : List CanonicalBlock)
      (c : Checkpoint) (retain : ℕ) (db : Db)
      → Step db (save_batch events deliveries blocks c retain db).1
  rewinds : (c : Checkpoint) (db : Db) → Step db (rewind c db).1
  resets : (chain block : ℕ) (db : Db) → Step db (reset_from chain block db).1
  rewinds_canonical :
      (chain from : ℕ) (hash : String) (db : Db) → Step db (rewind_canonical chain from hash db).1
  prunes :
      (cutoff limit : ℕ) (db : Db)
      → (limit == 0) ≡ false
      → Step db (prune_delivered_before cutoff limit db).1
  delivers : {a b : Db} → OutboxStep a b → Step a b

pub data Reach : Db → Db → Type 0 where
  here : {a : Db} → Reach a a
  after : {a b c : Db} → Step a b → Reach b c → Reach a c

Step-IsValid : {a b : Db} → Step a b → IsValid a → IsValid b
Step-IsValid (saves events deliveries blocks c retain db) v =
    save_batch-IsValid events deliveries blocks c retain db v
Step-IsValid (rewinds c db) v = rewind-IsValid c db v
Step-IsValid (resets chain block db) v = reset_from-IsValid chain block db v
Step-IsValid (rewinds_canonical chain from hash db) v =
    rewind_canonical-IsValid chain from hash db v
Step-IsValid (prunes cutoff limit db n) v = (prune-Pruned cutoff limit db n v).2.valid
Step-IsValid (delivers s) v = outbox_step-IsValid s v

runs-IsValid : {a b : Db} → Reach a b → IsValid a → IsValid b
runs-IsValid here v = v
runs-IsValid (after s r) v = runs-IsValid r (Step-IsValid s v)

-- Whatever batches are saved, rewound, reset, leased, delivered, requeued and pruned, in whatever order,
-- and whether they commit or roll back: the tables that are reached from an empty database have
-- unique keys, and every delivery has its event.
pub reached_tables-IsValid : {db : Db} → Reach empty_db db → IsValid db
reached_tables-IsValid r = runs-IsValid r empty_db-IsValid
