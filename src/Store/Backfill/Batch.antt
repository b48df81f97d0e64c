-- ===== src/Store/Backfill/Batch.antt =====
-- internal/store/sqlite/backfill.go: `SaveBackfillBatch`.
pub mod Effects
pub mod Progress
use reddotrelay.Prelude.{
  ℕ, ◌+◌, Bool, true, false, not, List, [], ◌∷◌, Option, none, some, String, Result, ok, err, ◌==◌,
  str_eq, if◌then◌else◌, find?, select, length,
}
use reddotrelay.Core.{Event, Delivery, same_id}
use reddotrelay.Store.Db.{Db, StoreError, valid_uint64}
use reddotrelay.Store.Events.{insert_event, insert_delivery, at_block}
use reddotrelay.Store.Backfill.{
  Job, JobState, JobError, Tables, running, completed, store_failed, conflicting_history, bad_state,
  number_out_of_range, in_state, update_jobs, insert_backfill_audit, engine,
}

-- The three counters that `SaveBackfillBatch` returns.
pub record Counts : Type 0 where
  pub created : ℕ
  pub created_deliveries : ℕ
  pub duplicates : ℕ

abbrev pub no_counts : Counts
no_counts = record { created = 0; created_deliveries = 0; duplicates = 0 }

-- Whether the canonical history has another block at the event's number.
unfoldable pub conflicts_with_history : Event → Db → Bool
conflicts_with_history e db =
    elim (find? (at_block e.id.chain_id e.block_number) db.canonical_blocks) [
      | none ↦ false
      | some b ↦ not (str_eq b.hash e.block_hash)
    ]

-- The inner loop, over the deliveries of one event, with the number that has been inserted.
pub insert_own : Event → List Delivery → ℕ → Db → Result JobError (ℕ × Db)
insert_own e [] n db = ok (n, db)
insert_own e (d ∷ ds) n db = elim (same_id d.event_id e.id) [
  | false ↦ insert_own e ds n db
  | true ↦ elim (insert_delivery d db) [
    | err x ↦ err (store_failed x)
    | ok (u, db') ↦ insert_own e ds (n + 1) db'
  ]
]

-- One event that does not conflict.
unfoldable pub save_new_event : Event → List Delivery → Counts → Db → Result JobError (Counts × Db)
save_new_event e ds c db = elim (insert_event e db) [
  | err x ↦ err (store_failed x)
  | ok (false, db') ↦ ok (record c { duplicates = c.duplicates + 1 }, db')
  | ok (true, db') ↦ elim (insert_own e ds c.created_deliveries db') [
    | err x ↦ err x
    | ok (n, db'') ↦ ok (record c { created = c.created + 1; created_deliveries = n }, db'')
  ]
]

-- The loop over the events.
unfoldable pub save_found : List Event → List Delivery → Counts → Db → Result JobError (Counts × Db)
save_found [] ds c db = ok (c, db)
save_found (e ∷ es) ds c db = elim (conflicts_with_history e db) [
  | true ↦ err conflicting_history
  | false ↦ elim (save_new_event e ds c db) [
    | err x ↦ err x
    | ok (c', db') ↦ save_found es ds c' db'
  ]
]

-- What the UPDATE of the job does; `next` is 0 when the job is done.
unfoldable pub progressed_row : ℕ → ℕ → ℕ → Counts → ℕ → Job → Job
progressed_row next processed discovered c now j = record j {
  next_block = if next == 0 then j.to_block + 1 else next;
  processed_blocks = j.processed_blocks + processed;
  discovered_events = j.discovered_events + discovered;
  created_events = j.created_events + c.created;
  created_deliveries = j.created_deliveries + c.created_deliveries;
  duplicates = j.duplicates + c.duplicates;
  state = if next == 0 then completed else running;
  updated_at = now;
  completed_at = if next == 0 then some now else none;
}

-- The statements after the loop.
unfoldable pub record_progress :
    String → ℕ → ℕ → ℕ → ℕ → Counts → Tables → Result JobError (Counts × Tables)
record_progress id next processed discovered now c t =
    if not (valid_uint64 (next ∷ processed ∷ discovered ∷ []))
    then err number_out_of_range
    else if not (length (select (in_state id running) t.jobs) == 1)
    then err bad_state
    else (let t' = record t {
      jobs =
          update_jobs (in_state id running) (progressed_row next processed discovered c now) t.jobs;
    } in
        if next == 0
        then elim (insert_backfill_audit id engine "completed" now t') [
          | err x ↦ err x
          | ok t'' ↦ ok (c, t'')
        ]
        else ok (c, t'))

-- `SaveBackfillBatch`: an error leaves the tables as they were.
unfoldable pub save_backfill_batch :
    String → List Event → List Delivery → ℕ → ℕ → ℕ → ℕ → Tables → Result JobError (Counts × Tables)
save_backfill_batch id events deliveries next processed discovered now t =
    elim (save_found events deliveries no_counts t.db) [
      | err x ↦ err x
      | ok (c, db) ↦ record_progress id next processed discovered now c (record t { db = db })
    ]
