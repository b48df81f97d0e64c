-- ===== src/Store/Backfill/Tests.antt =====
-- A listener with a cancelled job and a running one.
use reddotrelay.Prelude.{OnDone, ◌≡◌, refl, [], ◌∷◌, none, some, find?, ok, length}
use reddotrelay.Core.{same_id}
use reddotrelay.Store.Db.{valid_uint64, empty_db}
use reddotrelay.Store.Events.{insert_event, same_content}
use reddotrelay.Store.Events.Tests.{transfer, hook}
use reddotrelay.Store.Invariant.{empty_db-IsValid}
use reddotrelay.Store.Outbox.Tests.{holding, holding-IsValid}
use reddotrelay.Store.Backfill.{
  Job, Tables, cancelled, running, queued, completed, claim_backfill, claim_job, claimed_row,
  is_claimable, first, claim_before, insert_backfill_audit, same_state, engine, is_active,
  has_job_id, competes,
}
use reddotrelay.Store.Backfill.Jobs.{IsKeyed}
use reddotrelay.Store.Backfill.Batch.{
  no_counts, Counts, save_backfill_batch, save_found, conflicts_with_history, save_new_event,
  record_progress, progressed_row,
}
use reddotrelay.Store.Backfill.Batch.Effects.{Beside, Counted}
use reddotrelay.Store.Backfill.Batch.Progress.{Progressed, save_backfill_batch-Counted}
use reddotrelay.Store.Backfill.Reachable.{Reach, Reach-IsKeyed, stays, after, claims, saves}
use reddotrelay.Store.Backfill.Over.{Reach-keeps_over}

abbrev old_job : Job
old_job = record {
  id = "j1";
  listener_id = "l1";
  chain_id = 1;
  from_block = 2;
  to_block = 7;
  next_block = 4;
  contract_ids = "usdt" ∷ [];
  event_ids = "transfer" ∷ [];
  config_revision = 1;
  snapshot = [];
  destinations = "hook" ∷ [];
  state = cancelled;
  processed_blocks = 2;
  discovered_events = 0;
  created_events = 0;
  created_deliveries = 0;
  duplicates = 0;
  failure_summary = [];
  created_at = 1;
  updated_at = 5;
  started_at = some 2;
  completed_at = some 5;
}

abbrev waiting_job : Job
waiting_job = record old_job {
  id = "j2";
  next_block = 2;
  state = queued;
  processed_blocks = 0;
  started_at = none;
  completed_at = none;
}

abbrev before : Tables
before = record { db = holding hook; jobs = waiting_job ∷ old_job ∷ []; audit = [] }

abbrev running_job : Job
running_job = record waiting_job { state = running; started_at = some 9; updated_at = 9 }

abbrev claimed : Tables
claimed = record {
  db = holding hook;
  jobs = running_job ∷ old_job ∷ [];
  audit = record { job_id = "j2"; actor = engine; action = "running"; at = 9 } ∷ [];
}

claim : claim_backfill 9 before ≡ ok (record waiting_job { state = running }, claimed)
unfolding claim_backfill claim_job claimed_row is_claimable first claim_before insert_backfill_audit
    same_state
claim = refl

abbrev one_duplicate : Counts
one_duplicate = record { created = 0; created_deliveries = 0; duplicates = 1 }

abbrev saved : Tables
saved = record {
  db = holding hook;
  jobs =
      record running_job {
        next_block = 8;
        processed_blocks = 6;
        discovered_events = 1;
        duplicates = 1;
        state = completed;
        updated_at = 20;
        completed_at = some 20;
      }
      ∷ old_job
      ∷ [];
  audit = record { job_id = "j2"; actor = engine; action = "completed"; at = 20 } ∷ claimed.audit;
}

save :
    save_backfill_batch "j2" (transfer ∷ []) (hook ∷ []) 0 6 1 20 claimed
    ≡ ok (one_duplicate, saved)
unfolding save_backfill_batch save_found conflicts_with_history save_new_event record_progress
    progressed_row insert_backfill_audit same_state insert_event same_content valid_uint64 same_id
save = refl

run : Reach before saved
run =
    after (claims 9 (record waiting_job { state = running }) claim)
      (after (saves "j2" (transfer ∷ []) (hook ∷ []) 0 6 1 20 one_duplicate save) stays)

before-IsKeyed : IsKeyed before.jobs
unfolding competes is_active
before-IsKeyed = record { ids_unique = (refl, (refl, tt)); one_active = (refl, (refl, tt)) }

Reach-IsKeyed_example : IsKeyed saved.jobs × Beside before.db saved.db
Reach-IsKeyed_example = Reach-IsKeyed run before-IsKeyed holding-IsValid

Reach-keeps_over_example : find? (has_job_id "j1") saved.jobs ≡ some old_job
unfolding same_state
Reach-keeps_over_example =
    Reach-keeps_over "j1" old_job refl run before-IsKeyed holding-IsValid refl

-- The same job, with no events yet.
abbrev fresh : Tables
fresh = record claimed { db = empty_db }

save_backfill_batch-Counted_example :
    OnDone
      (λ (r : Counts × Tables).
        Counted (length (transfer ∷ [])) no_counts r.0 empty_db r.1.db
        × (Beside empty_db r.1.db × Progressed "j2" 0 6 1 r.0 fresh.jobs r.1.jobs))
      (save_backfill_batch "j2" (transfer ∷ []) (hook ∷ []) 0 6 1 20 fresh)
save_backfill_batch-Counted_example =
    save_backfill_batch-Counted "j2" (transfer ∷ []) (hook ∷ []) 0 6 1 20 fresh empty_db-IsValid
