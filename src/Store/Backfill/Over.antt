-- ===== src/Store/Backfill/Over.antt =====
-- The jobs that are over, along every run of the backfill operations.
use reddotrelay.Prelude.{
  ℕ, ◌≡◌, refl, subst, ap, Bool, true, false, ◌||◌, List, ◌∷◌, some, String, str_eq, eq_iff, arith,
  any, find?, find?-update, find?-In, find?-eq-true, In, any-In, Unique, Bool-cases, inl, inr,
}
use reddotrelay.Store.Db.{Db}
use reddotrelay.Store.Invariant.{IsValid}
use reddotrelay.Store.Backfill.{
  Job, JobState, Tables, queued, running, completed, cancelled, same_state, new_job, may_move,
  in_state, update_jobs, is_claimable, has_job_id,
}
use reddotrelay.Store.Backfill.Jobs.{IsKeyed, KeepsJob, same_job}
use reddotrelay.Store.Backfill.Batch.Progress.{progressed_row-KeepsJob}
use reddotrelay.Store.Backfill.Reachable.{
  Reach, stays, after, Kept, Step-Kept, Sound, Sound-Kept, moved_row-KeepsJob, claimed_row-KeepsJob,
  failed_row-KeepsJob, same_row,
}

-- A job that is over.
abbrev pub is_over : Job → Bool
is_over j = same_state j.state completed || same_state j.state cancelled

module _ (id : String) (d : Job) (over : is_over d ≡ true) where
  Stays : List Job → Type 0
  Stays jobs = find? (has_job_id id) jobs ≡ some d

  not_moved :
      (x : String) (from to : JobState) → may_move from to ≡ true → in_state x from d ≡ false
  unfolding may_move same_state
  not_moved x from to m = ground arith

  not_running : (x : String) → in_state x running d ≡ false
  unfolding same_state
  not_running x = ground arith

  exclusive :
      (s : JobState)
      → (same_state s completed || same_state s cancelled) ≡ true
      → (same_state s queued || same_state s running) ≡ true
      → ⊥
  unfolding same_state
  exclusive s o c = ground arith

  clash : (j : Job) → j ≡ d → is_claimable j ≡ true → ⊥
  unfolding is_claimable
  clash j e c = exclusive d.state over (subst (λ x. is_claimable x ≡ true) e c)

  -- A job that can be claimed is another one.
  not_claimed :
      (jobs : List Job) (j : Job)
      → Unique same_job jobs
      → Stays jobs
      → In j jobs
      → is_claimable j ≡ true
      → has_job_id j.id d ≡ false
  unfolding is_claimable same_state Stays
  not_claimed jobs j u h i c = elim (Bool-cases (has_job_id j.id d)) [
    | inr e ↦ e
    | inl e ↦ absurd (
        clash j
          (same_row j.id jobs j d u i (find?-In (has_job_id id) jobs d h)
            (ground (arith, eq_iff j.id j.id)) e)
          c)
  ]

  module _ (base : Db) (t : Tables) (s : Sound base t.jobs t.db) (h : Stays t.jobs) where
    update_jobs-Stays :
        (p : Job → Bool) (f : Job → Job) → KeepsJob f → p d ≡ false → Stays (update_jobs p f t.jobs)
    unfolding Stays
    update_jobs-Stays p f k n =
        find?-update (has_job_id id) p f t.jobs d (λ x. ap (str_eq id) (k.id x)) h n

    not_created :
        (j : Job) (now : ℕ) → any (has_job_id j.id) t.jobs ≡ false → Stays (new_job j now ∷ t.jobs)
    unfolding Stays new_job
    not_created j now a = elim (Bool-cases (has_job_id id j)) [
      | inr e ↦ rw e h
      | inl e ↦ absurd (
          ground (
            arith,
            any-In (has_job_id j.id) d t.jobs (find?-In (has_job_id id) t.jobs d h),
            find?-eq-true (has_job_id id) t.jobs d h,
            eq_iff id j.id,
            eq_iff id d.id,
            eq_iff j.id d.id,
          ))
    ]

    Final-Kept : Kept (λ jobs db. Sound base jobs db × Stays jobs) t
    unfolding Stays new_job
    Final-Kept = record {
      valid = s.1.0;
      create = λ j now a c. ((Sound-Kept base t s).create j now a c, not_created j now a);
      move = λ x from to now m r. (
        (Sound-Kept base t s).move x from to now m r,
        update_jobs-Stays (in_state x from) _ (moved_row-KeepsJob to now) (not_moved x from to m),
      );
      claim = λ j now i c. (
        (Sound-Kept base t s).claim j now i c,
        update_jobs-Stays (has_job_id j.id) _ (claimed_row-KeepsJob now)
            (not_claimed t.jobs j s.0.ids_unique h i c),
      );
      progress = λ x next processed discovered now c db b. (
        (Sound-Kept base t s).progress x next processed discovered now c db b,
        update_jobs-Stays (in_state x running) _
            (progressed_row-KeepsJob next processed discovered c now) (not_running x),
      );
      fail = λ x summary now. (
        (Sound-Kept base t s).fail x summary now,
        update_jobs-Stays (in_state x running) _ (failed_row-KeepsJob summary now) (not_running x),
      );
    }

  Reach-Stays :
      (base : Db) {t t' : Tables}
      → Reach t t'
      → Sound base t.jobs t.db
      → Stays t.jobs
      → Stays t'.jobs
  Reach-Stays base stays s h = h
  Reach-Stays base (after {a} st r) s h =
      let (s', h') =
        Step-Kept (λ jobs db. Sound base jobs db × Stays jobs) (Final-Kept base a s h) st in
      Reach-Stays base r s' h'

  -- A job that is completed or cancelled stays as it is, row for row, whatever sequence of backfill
  -- operations succeeds, where the identifiers of the jobs are unique and the tables are valid.
  pub Reach-keeps_over :
      {t t' : Tables}
      → Reach t t'
      → IsKeyed t.jobs
      → IsValid t.db
      → find? (has_job_id id) t.jobs ≡ some d
      → find? (has_job_id id) t'.jobs ≡ some d
  unfolding Stays
  Reach-keeps_over {t} r k v h = Reach-Stays t.db r (k, (v, (refl, refl))) h
