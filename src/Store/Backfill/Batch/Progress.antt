-- ===== src/Store/Backfill/Batch/Progress.antt =====
-- What the statements after the loop of a backfill batch do.
use reddotrelay.Prelude.{
  false, In, In-map, subst, eq_refl, if◌then◌else◌, OnDone, ℕ, ◌+◌, ◌≡◌, refl, List, [], ◌∷◌,
  String, Result, ok, err, ◌==◌, Bool-cases, inl, inr, length, select,
}
use reddotrelay.Core.{Event, Delivery}
use reddotrelay.Store.Db.{Db, valid_uint64}
use reddotrelay.Store.Invariant.{IsValid}
use reddotrelay.Store.Backfill.{
  Job, Tables, JobError, running, completed, same_state, in_state, update_jobs, engine,
}
use reddotrelay.Store.Backfill.Jobs.{KeepsJob}
use reddotrelay.Store.Backfill.Effects.{audited, Leaves}
use reddotrelay.Store.Backfill.Batch.{
  Counts, no_counts, save_found, save_backfill_batch, record_progress, progressed_row,
}
use reddotrelay.Store.Backfill.Batch.Effects.{Beside, Counted, save_found-Beside}

module _ (P : Counts → List Job → Db → Type 0) where
  -- Of the counters and the tables that a batch of so many events ends with.
  abbrev Done : ℕ → Db → Counts × Tables → Type 0
  Done n old (c, t) = Counted n no_counts c old t.db × P c t.jobs t.db

  record_progress-Done :
      (n : ℕ) (id : String) (next processed discovered now : ℕ) (c : Counts) (old : Db) (t : Tables)
      → Counted n no_counts c old t.db
      → P c
          (update_jobs
            (in_state id running)
            (progressed_row next processed discovered c now)
            t.jobs)
          t.db
      → OnDone (Done n old) (record_progress id next processed discovered now c t)
  unfolding record_progress
  record_progress-Done n id next processed discovered now c old t m h =
      elim (Bool-cases (valid_uint64 (next ∷ processed ∷ discovered ∷ []))) [
        | inr e ↦ rw e tt
        | inl e ↦ elim (Bool-cases (length (select (in_state id running) t.jobs) == 1)) [
          | inr s ↦ rw (e, s) tt
          | inl s ↦ elim (Bool-cases (next == 0)) [
            | inr z ↦ rw (e, s, z) (m, h)
            | inl z ↦
                rw (e, s, z)
                  (go _ (
                    audited (λ jobs db. Counted n no_counts c old db × P c jobs db) id engine
                      "completed" now
                      (record t {
                        jobs =
                            update_jobs (in_state id running)
                              (progressed_row next processed discovered c now) t.jobs;
                      })
                      (m, h)))
          ]
        ]
      ]
    where
      go :
          (r : Result JobError Tables)
          → Leaves (λ jobs db. Counted n no_counts c old db × P c jobs db) r
          → OnDone (Done n old) (elim r as (λ _. Result JobError (Counts × Tables)) [
            | err x ↦ err x
            | ok t' ↦ ok (c, t')
          ])
      go (err x) q = tt
      go (ok t') q = q

  pub save_backfill_batch-Leaves :
      (id : String) (es : List Event) (ds : List Delivery) (next processed discovered now : ℕ)
      (t : Tables)
      → IsValid t.db
      → ((c : Counts) (db : Db)
          → Counted (length es) no_counts c t.db db
          → Beside t.db db
          → P c
              (update_jobs
                (in_state id running)
                (progressed_row next processed discovered c now)
                t.jobs)
              db)
      → OnDone
          (λ (r : Counts × Tables).
            Counted (length es) no_counts r.0 t.db r.1.db × P r.0 r.1.jobs r.1.db)
          (save_backfill_batch id es ds next processed discovered now t)
  unfolding save_backfill_batch
  save_backfill_batch-Leaves id es ds next processed discovered now t v h =
      go (save_found es ds no_counts t.db) (save_found-Beside es ds no_counts t.db v)
    where
      go :
          (r : Result JobError (Counts × Db))
          → OnDone
              (λ (r : Counts × Db). Counted (length es) no_counts r.0 t.db r.1 × Beside t.db r.1)
              r
          → OnDone (Done (length es) t.db) (elim r as (λ _. Result JobError (Counts × Tables)) [
            | err x ↦ err x
            | ok (c, db) ↦ record_progress id next processed discovered now c (record t { db = db })
          ])
      go (err x) q = tt
      go (ok (c, db)) q =
          record_progress-Done (length es) id next processed discovered now c t.db
            (record t { db = db }) q.0 (h c db q.0 q.1)

pub progressed_row-KeepsJob :
    (next processed discovered : ℕ) (c : Counts) (now : ℕ)
    → KeepsJob (progressed_row next processed discovered c now)
unfolding progressed_row
progressed_row-KeepsJob next processed discovered c now = record {
  id = λ j. refl;
  listener_id = λ j. refl;
}

-- What a saved batch with these counts makes of the row of its job: each total grows by its count, and
-- the job goes on at `next`, or is completed where that is 0.
pub record IsProgress (c : Counts) (next processed discovered : ℕ) (j j' : Job) : Type 0 where
  pub same_job : j'.id ≡ j.id
  pub created : j'.created_events ≡ j.created_events + c.created
  pub deliveries : j'.created_deliveries ≡ j.created_deliveries + c.created_deliveries
  pub duplicates : j'.duplicates ≡ j.duplicates + c.duplicates
  pub blocks : j'.processed_blocks ≡ j.processed_blocks + processed
  pub events : j'.discovered_events ≡ j.discovered_events + discovered
  pub goes_on : (next == 0) ≡ false → (j'.state ≡ running) × (j'.next_block ≡ next)
  pub ends : next ≡ 0 → (j'.state ≡ completed) × (j'.next_block ≡ j.to_block + 1)

-- Of the rows of jobs, before and after.
abbrev pub Progressed : String → ℕ → ℕ → ℕ → Counts → List Job → List Job → Type 0
Progressed id next processed discovered c jobs jobs' =
    (j : Job)
    → In j jobs
    → j.id ≡ id
    → j.state ≡ running
    → (j' : Job) × In j' jobs' × IsProgress c next processed discovered j j'

progressed_row-IsProgress :
    (next processed discovered now : ℕ) (c : Counts) (j : Job)
    → IsProgress c next processed discovered j (progressed_row next processed discovered c now j)
unfolding progressed_row
progressed_row-IsProgress next processed discovered now c j = record {
  same_job = refl;
  created = refl;
  deliveries = refl;
  duplicates = refl;
  blocks = refl;
  events = refl;
  goes_on = λ z. rw z (refl, refl);
  ends = λ z. rw z (refl, refl);
}

update_jobs-Progressed :
    (id : String) (next processed discovered now : ℕ) (c : Counts) (jobs : List Job)
    → Progressed id next processed discovered c jobs
        (update_jobs (in_state id running) (progressed_row next processed discovered c now) jobs)
unfolding same_state
update_jobs-Progressed id next processed discovered now c jobs j i e s = (
  progressed_row next processed discovered c now j,
  subst (λ (x : Job). In x (update_jobs (in_state id running) row jobs)) found
      (In-map (λ x. if in_state id running x then row x else x) j jobs i),
  progressed_row-IsProgress next processed discovered now c j,
)
  where
    row : Job → Job
    row = progressed_row next processed discovered c now

    found : (if in_state id running j then row j else j) ≡ row j
    found = rw (e, s, eq_refl id) refl

-- Of a batch that is saved: the events that were created, which are as many as the rows of events that
-- were inserted, and those that were there already are as many as the events given; no more
-- deliveries were inserted than are counted. In the running job's row each total has grown by its
-- count, and the job has gone on to the next block or, where none is given, is completed. The
-- tables stay valid, where they were, and neither a checkpoint nor a canonical block changes.
pub save_backfill_batch-Counted :
    (id : String) (es : List Event) (ds : List Delivery) (next processed discovered now : ℕ)
    (t : Tables)
    → IsValid t.db
    → OnDone
        (λ (r : Counts × Tables).
          Counted (length es) no_counts r.0 t.db r.1.db
          × (Beside t.db r.1.db × Progressed id next processed discovered r.0 t.jobs r.1.jobs))
        (save_backfill_batch id es ds next processed discovered now t)
save_backfill_batch-Counted id es ds next processed discovered now t v =
    save_backfill_batch-Leaves
      (λ c jobs db. Beside t.db db × Progressed id next processed discovered c t.jobs jobs) id es ds
      next processed discovered now t v
      λ c db m b. (b, update_jobs-Progressed id next processed discovered now c t.jobs)
