-- ===== src/Store/Backfill/Reachable.antt =====
-- The backfill operations as steps on the tables, and what every run of them keeps.
use reddotrelay.Prelude.{
  OnDone, ℕ, ◌≡◌, refl, subst, true, false, ◌&&◌, ◌||◌, List, ◌∷◌, String, eq_iff, ok, arith, any,
  All-In, In, Unique, Unique-eq, Bool-cases, inl, inr,
}
use reddotrelay.Core.{Event, Delivery, Principal}
use reddotrelay.Store.Db.{Db}
use reddotrelay.Store.Invariant.{IsValid}
use reddotrelay.Store.Backfill.{
  Job, JobState, Tables, queued, running, paused, completed, failed, cancelled, same_state,
  is_active, new_job, may_move, moved_row, in_state, update_jobs, is_rival, claimed_row,
  is_claimable, failed_row, has_job_id, competes, create_backfill, transition_backfill,
  claim_backfill, fail_backfill,
}
use reddotrelay.Store.Backfill.Jobs.{
  IsKeyed, KeepsJob, same_job, update_jobs-down, update_jobs-alone,
}
use reddotrelay.Store.Backfill.Effects.{
  create_backfill-Leaves, transition_backfill-Leaves, claim_backfill-Leaves, fail_backfill-Leaves,
}
use reddotrelay.Store.Backfill.Batch.{save_backfill_batch, progressed_row, Counts}
use reddotrelay.Store.Backfill.Batch.Progress.{progressed_row-KeepsJob, save_backfill_batch-Leaves}
use reddotrelay.Store.Backfill.Batch.Effects.{Beside, Beside-trans}

-- One call that succeeds; one that fails leaves the tables as they were.
pub data Step : Tables → Tables → Type 0 where
  creates :
      {t t' : Tables} (job : Job) (actor : Principal) (now : ℕ)
      → create_backfill job actor now t ≡ ok t'
      → Step t t'
  moves :
      {t t' : Tables} (id : String) (to : JobState) (actor : Principal) (now : ℕ) (seen : Tables)
      → transition_backfill id to actor now seen t ≡ ok t'
      → Step t t'
  claims : {t t' : Tables} (now : ℕ) (j : Job) → claim_backfill now t ≡ ok (j, t') → Step t t'
  saves :
      {t t' : Tables} (id : String) (es : List Event) (ds : List Delivery)
      (next processed discovered now : ℕ) (c : Counts)
      → save_backfill_batch id es ds next processed discovered now t ≡ ok (c, t')
      → Step t t'
  fails :
      {t t' : Tables} (id : String) (summary : List ℕ) (now : ℕ)
      → fail_backfill id summary now t ≡ ok t'
      → Step t t'

pub data Reach : Tables → Tables → Type 0 where
  stays : {t : Tables} → Reach t t
  after : {a b c : Tables} → Step a b → Reach b c → Reach a c

-- What a property of the jobs and the other tables needs to hold after a step.
pub record Kept (P : List Job → Db → Type 0) (t : Tables) : Type 0 where
  pub valid : IsValid t.db
  pub create :
      (j : Job) (now : ℕ)
      → any (has_job_id j.id) t.jobs ≡ false
      → any (competes (new_job j now)) t.jobs ≡ false
      → P (new_job j now ∷ t.jobs) t.db
  pub move :
      (id : String) (from to : JobState) (now : ℕ)
      → may_move from to ≡ true
      → (is_active to && any (λ j. in_state id from j && any (is_rival j) t.jobs) t.jobs) ≡ false
      → P (update_jobs (in_state id from) (moved_row to now) t.jobs) t.db
  pub claim :
      (j : Job) (now : ℕ)
      → In j t.jobs
      → is_claimable j ≡ true
      → P (update_jobs (has_job_id j.id) (claimed_row now) t.jobs) t.db
  pub progress :
      (id : String) (next processed discovered now : ℕ) (c : Counts) (db : Db)
      → Beside t.db db
      → P
          (update_jobs
            (in_state id running)
            (progressed_row next processed discovered c now)
            t.jobs)
          db
  pub fail :
      (id : String) (summary : List ℕ) (now : ℕ)
      → P (update_jobs (in_state id running) (failed_row summary now) t.jobs) t.db

pub Step-Kept :
    (P : List Job → Db → Type 0) {t t' : Tables} → Kept P t → Step t t' → P t'.jobs t'.db
Step-Kept P {t} k (creates job actor now e) =
    subst (OnDone (λ (t : Tables). P t.jobs t.db)) e
      (create_backfill-Leaves P job actor now t (k.create job now))
Step-Kept P {t} k (moves id to actor now seen e) =
    subst (OnDone (λ (t : Tables). P t.jobs t.db)) e
      (transition_backfill-Leaves P id to actor now seen t λ from m r. k.move id from to now m r)
Step-Kept P {t} k (claims now j e) =
    subst (OnDone (λ (r : Job × Tables). P r.1.jobs r.1.db)) e
      (claim_backfill-Leaves P now t λ j i c. k.claim j now i c)
Step-Kept P {t} k (saves id es ds next processed discovered now c e) =
    (subst (OnDone (λ (r : Counts × Tables). _ × P r.1.jobs r.1.db)) e (
      save_backfill_batch-Leaves (λ _. P) id es ds next processed discovered now t k.valid
        λ c db n b. k.progress id next processed discovered now c db b)).1
Step-Kept P {t} k (fails id summary now e) =
    subst (OnDone (λ (t : Tables). P t.jobs t.db)) e
      (fail_backfill-Leaves P id summary now t (k.fail id summary now))

pub moved_row-KeepsJob : (to : JobState) (now : ℕ) → KeepsJob (moved_row to now)
unfolding moved_row
moved_row-KeepsJob to now = record { id = λ j. refl; listener_id = λ j. refl }

pub claimed_row-KeepsJob : (now : ℕ) → KeepsJob (claimed_row now)
unfolding claimed_row
claimed_row-KeepsJob now = record { id = λ j. refl; listener_id = λ j. refl }

pub failed_row-KeepsJob : (summary : List ℕ) (now : ℕ) → KeepsJob (failed_row summary now)
unfolding failed_row
failed_row-KeepsJob summary now = record { id = λ j. refl; listener_id = λ j. refl }

-- A row of a state that is active is active.
in_state-active :
    (id : String) (s : JobState) (j : Job)
    → is_active s ≡ true
    → in_state id s j ≡ true
    → is_active j.state ≡ true
unfolding is_active same_state
in_state-active id s j a h = go s j.state a (ground arith)
  where
    go : (s s' : JobState) → is_active s ≡ true → same_state s s' ≡ true → is_active s' ≡ true
    go queued s' a h = ground arith
    go running s' a h = ground arith
    go paused s' a h = ground arith
    go completed s' a h = ground arith
    go failed s' a h = ground arith
    go cancelled s' a h = ground arith

claimable-active :
    (s : JobState) → (same_state s queued || same_state s running) ≡ true → is_active s ≡ true
unfolding is_active same_state
claimable-active s h = ground arith

same_job-sym : (a b : Job) → same_job a b ≡ same_job b a
same_job-sym a b = ground (arith, eq_iff a.id b.id, eq_iff b.id a.id)

-- Two rows with one identifier are one row.
pub same_row :
    (id : String) (jobs : List Job) (a b : Job)
    → Unique same_job jobs
    → In a jobs
    → In b jobs
    → has_job_id id a ≡ true
    → has_job_id id b ≡ true
    → a ≡ b
same_row id jobs a b u i j ha hb =
    Unique-eq same_job same_job-sym jobs a b u i j
      (ground (arith, eq_iff id a.id, eq_iff id b.id, eq_iff a.id b.id))

-- The jobs keep their keys, and the other tables stay valid with the scan where it is.
abbrev pub Sound : Db → List Job → Db → Type 0
Sound base jobs db = IsKeyed jobs × Beside base db

module _ (base : Db) (t : Tables) (s : Sound base t.jobs t.db) where
  keyed : IsKeyed t.jobs
  keyed = s.0

  move-Sound :
      (id : String) (from to : JobState) (now : ℕ)
      → (is_active to && any (λ j. in_state id from j && any (is_rival j) t.jobs) t.jobs) ≡ false
      → IsKeyed (update_jobs (in_state id from) (moved_row to now) t.jobs)
  unfolding moved_row
  move-Sound id from to now r = elim (Bool-cases (is_active to)) [
    | inl a ↦
        update_jobs-alone (in_state id from) (moved_row to now) (moved_row-KeepsJob to now)
          (λ x y hx hy. ground (arith, eq_iff id x.id, eq_iff id y.id, eq_iff x.id y.id)) t.jobs
          (ground arith) s.0
    | inr a ↦
        update_jobs-down (in_state id from) (moved_row to now) (moved_row-KeepsJob to now) t.jobs
          (All-In _ t.jobs λ j i h q. absurd (ground arith)) s.0
  ]

  pub Sound-Kept : Kept (Sound base) t
  unfolding is_claimable is_active new_job
  Sound-Kept = record {
    valid = s.1.0;
    create = λ j now a c.
        (record { ids_unique = (a, s.0.ids_unique); one_active = (c, s.0.one_active) }, s.1);
    move = λ id from to now m r. (move-Sound id from to now r, s.1);
    claim = λ j now i c. (
      update_jobs-down (has_job_id j.id) (claimed_row now) (claimed_row-KeepsJob now) t.jobs
          (All-In _ t.jobs λ x ix h q.
            rw (same_row j.id t.jobs x j s.0.ids_unique ix i h (ground (arith, eq_iff j.id j.id)))
              (claimable-active j.state c))
          s.0,
      s.1,
    );
    progress = λ id next processed discovered now c db b. (
      update_jobs-down (in_state id running) _
          (progressed_row-KeepsJob next processed discovered c now) t.jobs
          (All-In _ t.jobs λ j i h q. in_state-active id running j refl h) s.0,
      Beside-trans base t.db db s.1 b,
    );
    fail = λ id summary now. (
      update_jobs-down (in_state id running) _ (failed_row-KeepsJob summary now) t.jobs
          (All-In _ t.jobs λ j i h q. in_state-active id running j refl h) s.0,
      s.1,
    );
  }

Reach-Sound :
    (base : Db) {t t' : Tables} → Reach t t' → Sound base t.jobs t.db → Sound base t'.jobs t'.db
Reach-Sound base stays s = s
Reach-Sound base (after {a} st r) s =
    Reach-Sound base r (Step-Kept (Sound base) (Sound-Kept base a s) st)

-- Whatever sequence of backfill operations succeeds, the identifiers of the jobs stay unique, every
-- listener has at most one active job, the other tables stay valid, and neither a checkpoint nor a
-- canonical block changes. The state that a transition reads before its transaction is arbitrary.
pub Reach-IsKeyed :
    {t t' : Tables}
    → Reach t t'
    → IsKeyed t.jobs
    → IsValid t.db
    → IsKeyed t'.jobs × Beside t.db t'.db
Reach-IsKeyed {t} r k v = Reach-Sound t.db r (k, (v, (refl, refl)))
