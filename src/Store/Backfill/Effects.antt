-- ===== src/Store/Backfill/Effects.antt =====
-- What each operation does to the jobs and to the other tables, on every result that is not an error.
use reddotrelay.Prelude.{
  OnDone, ℕ, ◌≡◌, refl, subst, Bool, true, false, ◌&&◌, ◌||◌, List, [], ◌∷◌, Option, none, some,
  String, Result, ok, err, str_eq, ◌==◌, arith, any, select, sort, find?, length, All, All-sort,
  All-select, All-select_self, All-In, In, Bool-cases, inl, inr, if◌then◌else◌,
}
use reddotrelay.Store.Db.{Db, valid_uint64}
use reddotrelay.Core.{Principal}
use reddotrelay.Store.Backfill.{
  Job, JobState, Tables, JobError, job_not_found, bad_state, queued, running, insert_backfill_audit,
  create_backfill, new_job, has_job_id, competes, may_move, moved_row, in_state, update_jobs,
  is_rival, move_job, transition_backfill, is_claimable, claim_before, first, claimed_row,
  claim_job, claim_backfill, fail_backfill, failed_row, is_active, state_name, engine, same_state,
}

All-select-In :
    (q : Job → Bool) (jobs : List Job) → All (λ j. In j jobs × (q j ≡ true)) (select q jobs)
All-select-In q jobs =
    go (select q jobs) (All-select (λ j. In j jobs) q jobs (All-In (λ j. In j jobs) jobs λ j i. i))
      (All-select_self q jobs)
  where
    go :
        (js : List Job)
        → All (λ j. In j jobs) js
        → All (λ j. q j ≡ true) js
        → All (λ j. In j jobs × (q j ≡ true)) js
    go [] a b = tt
    go (j ∷ js) a b = ((a.0, b.0), go js a.1 b.1)

keeps_db :
    (id : String) (now : ℕ) (t : Tables)
    → OnDone (λ (t' : Tables). t'.db ≡ t.db) (insert_backfill_audit id engine "running" now t)
unfolding insert_backfill_audit
keeps_db id now t = refl

first-All : (P : Job → Type 0) (jobs : List Job) (j : Job) → All P jobs → first jobs ≡ some j → P j
unfolding first
first-All P [] j h e = cc
first-All P (x ∷ jobs) j h e = subst P (some_eq e) h.0
  where
    some_eq : some x ≡ some j → x ≡ j
    some_eq e = cc

module _ (P : List Job → Db → Type 0) where
  -- A property of the jobs and of the tables that the store had before.
  abbrev pub Leaves : Result JobError Tables → Type 0
  Leaves = OnDone (λ (t : Tables). P t.jobs t.db)

  pub audited :
      (id : String) (actor : Principal) (action : String) (now : ℕ) (t : Tables)
      → P t.jobs t.db
      → Leaves (insert_backfill_audit id actor action now t)
  unfolding insert_backfill_audit
  audited id actor action now t h = elim (Bool-cases (str_eq actor.role "admin")) [
    | inl e ↦ rw e h
    | inr e ↦ rw e tt
  ]

  pub create_backfill-Leaves :
      (job : Job) (actor : Principal) (now : ℕ) (t : Tables)
      → (any (has_job_id job.id) t.jobs ≡ false
          → any (competes (new_job job now)) t.jobs ≡ false
          → P (new_job job now ∷ t.jobs) t.db)
      → Leaves (create_backfill job actor now t)
  unfolding create_backfill
  create_backfill-Leaves job actor now t h =
      elim (Bool-cases
        (valid_uint64 (job.chain_id ∷ job.from_block ∷ job.to_block ∷ job.config_revision ∷ []))) [
          | inr e ↦ rw e tt
          | inl e ↦
              elim (Bool-cases
                (any (has_job_id job.id) t.jobs || any (competes (new_job job now)) t.jobs)) [
                  | inl c ↦ rw (e, c) tt
                  | inr c ↦
                      rw (e, c)
                        (audited job.id actor "create" now
                          (record t { jobs = new_job job now ∷ t.jobs })
                          (h (ground arith) (ground arith)))
                ]
        ]

  move_job-Leaves :
      (id : String) (from to : JobState) (actor : Principal) (now : ℕ) (t : Tables)
      → ((is_active to && any (λ j. in_state id from j && any (is_rival j) t.jobs) t.jobs) ≡ false
          → P (update_jobs (in_state id from) (moved_row to now) t.jobs) t.db)
      → Leaves (move_job id from to actor now t)
  unfolding move_job
  move_job-Leaves id from to actor now t h =
      elim (Bool-cases
        (is_active to && any (λ j. in_state id from j && any (is_rival j) t.jobs) t.jobs)) [
          | inl e ↦ rw e tt
          | inr e ↦ elim (Bool-cases (length (select (in_state id from) t.jobs) == 1)) [
            | inr c ↦ rw (e, c) tt
            | inl c ↦
                rw (e, c)
                  (audited id actor (state_name to) now
                    (record t { jobs = update_jobs (in_state id from) (moved_row to now) t.jobs })
                    (h e))
          ]
        ]

  pub transition_backfill-Leaves :
      (id : String) (to : JobState) (actor : Principal) (now : ℕ) (seen t : Tables)
      → ((from : JobState)
          → may_move from to ≡ true
          → (is_active to && any (λ j. in_state id from j && any (is_rival j) t.jobs) t.jobs)
            ≡ false
          → P (update_jobs (in_state id from) (moved_row to now) t.jobs) t.db)
      → Leaves (transition_backfill id to actor now seen t)
  unfolding transition_backfill
  transition_backfill-Leaves id to actor now seen t h = go (find? (has_job_id id) seen.jobs)
    where
      go :
          (o : Option Job)
          → Leaves (elim o as (λ _. Result JobError Tables) [
            | none ↦ err job_not_found
            | some j ↦
                if may_move j.state to then move_job id j.state to actor now t else err bad_state
          ])
      go none = tt
      go (some j) = elim (Bool-cases (may_move j.state to)) [
        | inl m ↦ rw m (move_job-Leaves id j.state to actor now t (h j.state m))
        | inr m ↦ rw m tt
      ]

  pub claim_backfill-Leaves :
      (now : ℕ) (t : Tables)
      → ((j : Job)
          → In j t.jobs
          → is_claimable j ≡ true
          → P (update_jobs (has_job_id j.id) (claimed_row now) t.jobs) t.db)
      → OnDone (λ (r : Job × Tables). P r.1.jobs r.1.db) (claim_backfill now t)
  unfolding claim_backfill claim_job
  claim_backfill-Leaves now t h = go (first (sort claim_before (select is_claimable t.jobs))) chosen
    where
      Chosen : Job → Type 0
      Chosen j = In j t.jobs × (is_claimable j ≡ true)

      chosen :
          (j : Job) → first (sort claim_before (select is_claimable t.jobs)) ≡ some j → Chosen j
      chosen j e =
          first-All Chosen _ j (All-sort claim_before Chosen _ (All-select-In is_claimable t.jobs))
            e

      start :
          (j : Job) (q : Bool)
          → OnDone
              (λ (t' : Tables). t'.db ≡ t.db)
              (if q then insert_backfill_audit j.id engine "running" now t else ok t)
      start j true = keeps_db j.id now t
      start j false = refl

      with_audit :
          (j : Job) (r : Result JobError Tables)
          → OnDone (λ (t' : Tables). t'.db ≡ t.db) r
          → P (update_jobs (has_job_id j.id) (claimed_row now) t.jobs) t.db
          → OnDone
              (λ (r : Job × Tables). P r.1.jobs r.1.db)
              (elim r as (λ _. Result JobError (Job × Tables)) [
                | err e ↦ err e
                | ok t' ↦ ok (
                  record j { state = running },
                  record t' { jobs = update_jobs (has_job_id j.id) (claimed_row now) t.jobs },
                )
              ])
      with_audit j (err e) q p = tt
      with_audit j (ok t') q p = rw q p

      go :
          (o : Option Job)
          → ((j : Job) → o ≡ some j → Chosen j)
          → OnDone
              (λ (r : Job × Tables). P r.1.jobs r.1.db)
              (elim o as (λ _. Result JobError (Job × Tables)) [
                | none ↦ err job_not_found
                | some j ↦ claim_job now j t
              ])
      go none c = tt
      go (some j) c =
          with_audit j
            (if same_state j.state queued
              then insert_backfill_audit j.id engine "running" now t
              else ok t)
            (start j (same_state j.state queued)) (h j (c j refl).0 (c j refl).1)

  pub fail_backfill-Leaves :
      (id : String) (summary : List ℕ) (now : ℕ) (t : Tables)
      → P (update_jobs (in_state id running) (failed_row summary now) t.jobs) t.db
      → Leaves (fail_backfill id summary now t)
  unfolding fail_backfill
  fail_backfill-Leaves id summary now t h =
      elim (Bool-cases (length (select (in_state id running) t.jobs) == 1)) [
        | inr e ↦ rw e h
        | inl e ↦ rw e (
            audited id engine "failed" now
              (record t {
                jobs = update_jobs (in_state id running) (failed_row summary now) t.jobs;
              })
              h)
      ]
