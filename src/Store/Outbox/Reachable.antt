-- ===== src/Store/Outbox/Reachable.antt =====
-- The keys of the tables along any sequence of operations of the outbox.
use reddotrelay.Prelude.{ℕ, String, str_eq, refl, Bool-cases, inl, inr}
use reddotrelay.Core.{EventId}
use reddotrelay.Store.Db.{Db}
use reddotrelay.Store.Invariant.{IsValid}
use reddotrelay.Store.Outbox.{
  is_dead, requeued_row, requeue_all_dead, delivered_row, retry_row, dead_row,
}
use reddotrelay.Store.Outbox.Keys.{
  KeepsKey, update_rows-IsValid, claim_due_deliveries-IsValid, transition-IsValid,
}
use reddotrelay.Store.Outbox.Transitions.{
  Outcome, outcome_row, record_outcome_lem, succeeded, rescheduled, given_up,
}
use reddotrelay.Store.Outbox.DeadLetters.{requeue_dead_by_guid, is_match}
use reddotrelay.Store.Outbox.DeadLetters.Requeue.{
  requeue_dead_by_guid_lem, requeue_dead_by_guid_none,
}
use reddotrelay.Store.Outbox.Final.{
  Step, Reach, claims, records, requeues, requeues_event, here, next,
}

outcome_row-KeepsKey : (o : Outcome) → KeepsKey (outcome_row o)
unfolding outcome_row delivered_row retry_row dead_row
outcome_row-KeepsKey (succeeded at code) = record { event_id = λ d. refl; destination = λ d. refl }
outcome_row-KeepsKey (rescheduled at message code) = record {
  event_id = λ d. refl;
  destination = λ d. refl;
}
outcome_row-KeepsKey (given_up message code) = record {
  event_id = λ d. refl;
  destination = λ d. refl;
}

requeued_row-KeepsKey : (now : ℕ) → KeepsKey (requeued_row now)
unfolding requeued_row
requeued_row-KeepsKey now = record { event_id = λ d. refl; destination = λ d. refl }

requeue_all_dead-IsValid : (now : ℕ) (db : Db) → IsValid db → IsValid (requeue_all_dead now db).1
unfolding requeue_all_dead
requeue_all_dead-IsValid now db v =
    update_rows-IsValid is_dead (requeued_row now) (requeued_row-KeepsKey now) db v

requeue_dead_by_guid-IsValid :
    (event_guid : EventId → String) (normalize : String → String) (guid : String) (now : ℕ)
    (db : Db)
    → IsValid db
    → IsValid (requeue_dead_by_guid event_guid normalize guid now db).1
requeue_dead_by_guid-IsValid event_guid normalize guid now db v =
    elim (Bool-cases (str_eq (normalize guid) "")) [
      | inl e ↦ rw (requeue_dead_by_guid_none event_guid normalize guid now db e) v
      | inr e ↦ rw (requeue_dead_by_guid_lem event_guid normalize guid now db e) (
          update_rows-IsValid (is_match event_guid normalize guid) (requeued_row now)
            (requeued_row-KeepsKey now) db v)
    ]

pub Step-IsValid : {a b : Db} → Step a b → IsValid a → IsValid b
Step-IsValid (claims now lease limit tokens db) v =
    claim_due_deliveries-IsValid now lease limit tokens db v
Step-IsValid (records o id destination token db) v =
    rw (record_outcome_lem o id destination token db)
      (transition-IsValid id destination token (outcome_row o) (outcome_row-KeepsKey o) db v)
Step-IsValid (requeues now db) v = requeue_all_dead-IsValid now db v
Step-IsValid (requeues_event event_guid normalize guid now db) v =
    requeue_dead_by_guid-IsValid event_guid normalize guid now db v

-- Every sequence of claims, outcomes and requeues keeps the keys of all tables unique and every
-- delivery with its event.
Reach-IsValid : {a b : Db} → Reach a b → IsValid a → IsValid b
Reach-IsValid here v = v
Reach-IsValid (next r s) v = Step-IsValid s (Reach-IsValid r v)
