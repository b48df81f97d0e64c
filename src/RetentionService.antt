-- ===== src/RetentionService.antt =====
-- internal/retention/service.go: `Preview`, `Prune` and `Status`, over the store's tables.
pub mod Ends
pub mod Tests
use reddotrelay.Prelude.{
  ℕ, zero, suc, ◌+◌, ◌-◌, Bool, true, false, ◌&&◌, ◌||◌, Option, none, some, Result, ok, err, ◌==◌,
  ltb, if◌then◌else◌,
}
use reddotrelay.Store.Db.{Db, StoreError}
use reddotrelay.Store.Retention.{count_delivered_before, prune_delivered_before}

-- Why a run failed: the store's error, or the end of the context during a pause.
pub data Failure : Type 0 where
  store_failed : StoreError → Failure
  cancelled : Failure

-- `Result`, without its times.
pub record Report : Type 0 where
  pub cutoff : ℕ
  pub eligible : ℕ
  pub deleted : ℕ
  pub failure : Option Failure

-- `Service` and `Status`: whether a run is going on, and the report of the last one.
pub record Service : Type 0 where
  pub running : Bool
  pub last : Option Report

abbrev pub new_service : Service
new_service = record { running = false; last = none }

-- `Preview`
pub preview : ℕ → Db → Report
preview cutoff db = record {
  cutoff = cutoff;
  eligible = count_delivered_before cutoff db;
  deleted = 0;
  failure = none;
}

pub data Refusal : Type 0 where
  bad_batch_size : Refusal
  already_running : Refusal

-- The first part of `Prune`, under the lock.
pub begin_prune : ℕ → Service → Result Refusal Service
begin_prune batch_size service =
    if batch_size == 0
    then err bad_batch_size
    else if service.running
    then err already_running
    else ok (record service { running = true })

-- The deferred part.
pub finish_prune : Report → Service → Service
finish_prune report service = record { running = false; last = some report }

-- The limit of one round.
pub round_limit : ℕ → ℕ → ℕ → ℕ
round_limit batch_size maximum deleted =
    if ltb 0 maximum && ltb (maximum - deleted) batch_size then maximum - deleted else batch_size

-- What happens between two rounds: the other users of the store, and the end of the context.
pub record Meanwhile : Type 0 where
  pub others : ℕ → Db → Db
  pub cancels : ℕ → Bool

module _ (meanwhile : Meanwhile) (cutoff batch_size maximum pause : ℕ) where
  -- The loop of `Prune`, with the number of the round and what has been deleted; `none` when the
  -- fuel is used up.
  pub prune_rounds : ℕ → ℕ → ℕ → Db → Option (ℕ × Option Failure × Db)
  prune_rounds zero n deleted db = none
  prune_rounds (suc fuel) n deleted db = elim (maximum == 0 || ltb deleted maximum) [
    | false ↦ some (deleted, none, db)
    | true ↦
        let limit = round_limit batch_size maximum deleted in
        let pruned = prune_delivered_before cutoff limit db in
        elim pruned.0 [
          | err e ↦ some (deleted, some (store_failed e), pruned.1)
          | ok count ↦ elim (ltb count limit) [
            | true ↦ some (deleted + count, none, pruned.1)
            | false ↦ elim (ltb 0 pause && meanwhile.cancels n) [
              | true ↦ some (deleted + count, some cancelled, pruned.1)
              | false ↦ prune_rounds fuel (n + 1) (deleted + count) (meanwhile.others n pruned.1)
            ]
          ]
        ]
  ]

  -- `Prune` once it has begun: the report, and the tables.
  pub run_prune : ℕ → Db → Option (Report × Db)
  run_prune fuel db = elim (prune_rounds fuel 0 0 db) [
    | none ↦ none
    | some (deleted, failure, db') ↦ some (
      record {
        cutoff = cutoff;
        eligible = count_delivered_before cutoff db;
        deleted = deleted;
        failure = failure;
      },
      db',
    )
  ]

  -- `Prune`, whole: with the service and the tables after it.
  pub prune : ℕ → Service → Db → Result Refusal (Option (Report × Service × Db))
  prune fuel service db = elim (begin_prune batch_size service) [
    | err refusal ↦ err refusal
    | ok begun ↦ elim (run_prune fuel db) [
      | none ↦ ok none
      | some (report, db') ↦ ok (some (report, finish_prune report begun, db'))
    ]
  ]
