-- ===== src/Store/Backfill.antt =====
-- internal/store/sqlite/backfill.go: the jobs that scan past blocks again for missing events.
pub mod Batch
pub mod Jobs
pub mod Effects
pub mod Reachable
pub mod Over
pub mod Tests
use reddotrelay.Prelude.{
  ℕ, ◌+◌, Bool, true, false, not, ◌&&◌, ◌||◌, List, [], ◌∷◌, Option, none, some, String, Result, ok,
  err, ◌==◌, str_eq, leb, ltb, if◌then◌else◌, find?, any, select, map, length, sort, take,
}
use reddotrelay.Core.{Event, Delivery, Principal, same_id}
use reddotrelay.Store.Db.{Db, StoreError, valid_uint64}
use reddotrelay.Store.Events.{insert_event, insert_delivery, at_block}

-- `core.BackfillState`
pub data JobState : Type 0 where
  queued running paused completed failed cancelled : JobState

pub same_state : JobState → JobState → Bool
same_state queued queued = true
same_state running running = true
same_state paused paused = true
same_state completed completed = true
same_state failed failed = true
same_state cancelled cancelled = true
same_state a b = false

-- state IN ('queued','running','paused')
pub is_active : JobState → Bool
is_active queued = true
is_active running = true
is_active paused = true
is_active s = false

-- `core.BackfillJob`; `mode` is always "backfill-missing".
pub record Job : Type 0 where
  pub id : String
  pub listener_id : String
  pub chain_id : ℕ
  pub from_block : ℕ
  pub to_block : ℕ
  pub next_block : ℕ
  pub contract_ids : List String
  pub event_ids : List String
  pub config_revision : ℕ
  pub snapshot : List ℕ
  pub destinations : List String
  pub state : JobState
  pub processed_blocks : ℕ
  pub discovered_events : ℕ
  pub created_events : ℕ
  pub created_deliveries : ℕ
  pub duplicates : ℕ
  pub failure_summary : List ℕ
  pub created_at : ℕ
  pub updated_at : ℕ
  pub started_at : Option ℕ
  pub completed_at : Option ℕ

abbrev pub engine : Principal
engine = record { id = "system"; name = "Engine"; role = "admin" }

-- A row of `backfill_audit`, without its random identifier.
pub record AuditRow : Type 0 where
  pub job_id : String
  pub actor : Principal
  pub action : String
  pub at : ℕ

-- The tables `backfill_jobs` and `backfill_audit` beside the others.
pub record Tables : Type 0 where
  pub db : Db
  pub jobs : List Job
  pub audit : List AuditRow

pub data JobError : Type 0 where
  job_not_found active_backfill bad_state conflicting_history bad_actor number_out_of_range :
      JobError
  store_failed : StoreError → JobError

abbrev pub has_job_id : String → Job → Bool
has_job_id id j = str_eq id j.id

-- What the index `backfill_one_active_listener_idx` forbids of two rows.
pub competes : Job → Job → Bool
competes a b = str_eq a.listener_id b.listener_id && is_active a.state && is_active b.state

-- `insertBackfillAudit`, whose table wants an administrator.
pub insert_backfill_audit : String → Principal → String → ℕ → Tables → Result JobError Tables
insert_backfill_audit job_id actor action now t =
    if str_eq actor.role "admin"
    then ok (record t {
      audit = record { job_id = job_id; actor = actor; action = action; at = now } ∷ t.audit;
    })
    else err bad_actor

-- The row that `CreateBackfill` inserts.
pub new_job : Job → ℕ → Job
new_job job now = record job {
  next_block = job.from_block;
  state = queued;
  processed_blocks = 0;
  discovered_events = 0;
  created_events = 0;
  created_deliveries = 0;
  duplicates = 0;
  failure_summary = [];
  created_at = now;
  updated_at = now;
  started_at = none;
  completed_at = none;
}

-- `CreateBackfill`
pub create_backfill : Job → Principal → ℕ → Tables → Result JobError Tables
create_backfill job actor now t =
    if not (valid_uint64 (job.chain_id ∷ job.from_block ∷ job.to_block ∷ job.config_revision ∷ []))
    then err number_out_of_range
    else if any (has_job_id job.id) t.jobs || any (competes (new_job job now)) t.jobs
    then err active_backfill
    else insert_backfill_audit job.id actor "create" now
        (record t { jobs = new_job job now ∷ t.jobs })

-- The moves that `TransitionBackfill` allows.
pub may_move : JobState → JobState → Bool
may_move from paused = same_state from queued || same_state from running
may_move from queued = same_state from paused || same_state from failed
may_move from cancelled =
    same_state from queued
    || same_state from running
    || same_state from paused
    || same_state from failed
may_move from to = false

pub state_name : JobState → String
state_name queued = "queued"
state_name running = "running"
state_name paused = "paused"
state_name completed = "completed"
state_name failed = "failed"
state_name cancelled = "cancelled"

-- What the UPDATE of `TransitionBackfill` does to a row.
pub moved_row : JobState → ℕ → Job → Job
moved_row to now j = record j {
  state = to;
  failure_summary = if same_state to queued then [] else j.failure_summary;
  updated_at = now;
  completed_at =
      if same_state to cancelled
      then some now
      else if same_state to queued
      then none
      else j.completed_at;
}

abbrev pub in_state : String → JobState → Job → Bool
in_state id state j = has_job_id id j && same_state state j.state

abbrev pub update_jobs : (Job → Bool) → (Job → Job) → List Job → List Job
update_jobs p f jobs = map (λ j. if p j then f j else j) jobs

-- Another active row of the same listener.
pub is_rival : Job → Job → Bool
is_rival j o = not (str_eq j.id o.id) && str_eq j.listener_id o.listener_id && is_active o.state

-- The UPDATE of `TransitionBackfill` with the state that was read, and what follows it.
pub move_job : String → JobState → JobState → Principal → ℕ → Tables → Result JobError Tables
move_job id from to actor now t =
    if is_active to && any (λ j. in_state id from j && any (is_rival j) t.jobs) t.jobs
    then err active_backfill
    else if not (length (select (in_state id from) t.jobs) == 1)
    then err bad_state
    else insert_backfill_audit id actor (state_name to) now
        (record t { jobs = update_jobs (in_state id from) (moved_row to now) t.jobs })

-- `TransitionBackfill`: the job is read before the transaction begins, as it was in `seen`.
pub transition_backfill :
    String → JobState → Principal → ℕ → Tables → Tables → Result JobError Tables
transition_backfill id to actor now seen t = elim (find? (has_job_id id) seen.jobs) [
  | none ↦ err job_not_found
  | some j ↦ if may_move j.state to then move_job id j.state to actor now t else err bad_state
]

-- state IN ('queued','running')
pub is_claimable : Job → Bool
is_claimable j = same_state j.state queued || same_state j.state running

-- ORDER BY CASE state WHEN 'running' THEN 0 ELSE 1 END, created_at
pub claim_before : Job → Job → Bool
claim_before a b =
    if same_state a.state running
    then (if same_state b.state running then ltb a.created_at b.created_at else true)
    else if same_state b.state running
    then false
    else ltb a.created_at b.created_at

pub first : List Job → Option Job
first [] = none
first (j ∷ jobs) = some j

-- What the UPDATE of `ClaimBackfill` does to a row: COALESCE(started_at, now).
pub claimed_row : ℕ → Job → Job
claimed_row now j = record j {
  state = running;
  started_at = elim j.started_at [ none ↦ some now | some at ↦ some at ];
  updated_at = now;
}

-- The rest of `ClaimBackfill` with the job that was selected; the job is returned with its new state.
pub claim_job : ℕ → Job → Tables → Result JobError (Job × Tables)
claim_job now j t =
    let jobs' = update_jobs (has_job_id j.id) (claimed_row now) t.jobs in
    elim (if same_state j.state queued
      then insert_backfill_audit j.id engine "running" now t
      else ok t) [
        | err e ↦ err e
        | ok t' ↦ ok (record j { state = running }, record t' { jobs = jobs' })
      ]

-- `ClaimBackfill`
pub claim_backfill : ℕ → Tables → Result JobError (Job × Tables)
claim_backfill now t = elim (first (sort claim_before (select is_claimable t.jobs))) [
  | none ↦ err job_not_found
  | some j ↦ claim_job now j t
]

-- What the UPDATE of `FailBackfill` does to a row.
pub failed_row : List ℕ → ℕ → Job → Job
failed_row summary now j = record j {
  state = failed;
  failure_summary = take 240 summary;
  updated_at = now;
  completed_at = some now;
}

-- `FailBackfill`; a job that is not running is left alone, without an error.
pub fail_backfill : String → List ℕ → ℕ → Tables → Result JobError Tables
fail_backfill id summary now t =
    let t' = record t {
      jobs = update_jobs (in_state id running) (failed_row summary now) t.jobs;
    } in
    if length (select (in_state id running) t.jobs) == 1
    then insert_backfill_audit id engine "failed" now t'
    else ok t'
