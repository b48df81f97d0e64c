-- ===== src/Store/Outbox/Tests.antt =====
-- A database with one due delivery, and one in which it is leased.
use reddotrelay.Prelude.{
  [], ◌∷◌, ◌≡◌, refl, ok, err, some, All, length, arith, true, ◌≤◌, String, eq_iff,
}
use reddotrelay.Core.{Delivery, OutboxItem, same_id, delivered, EventId, dead}
use reddotrelay.Store.Db.{Db, StoreError, OnOk, same_delivery, valid_uint64, not_found}
use reddotrelay.Store.Invariant.{IsValid}
use reddotrelay.Store.Events.Tests.{transfer, transfer_id, hook, block_7, at_7}
use reddotrelay.Store.Outbox.{
  claim_due_deliveries, transition, holds_lease, is_pending, is_delivered, mark_delivery_delivered,
  requeue_all_dead, update_rows, requeued_row,
}
use reddotrelay.Store.Outbox.DeadLetters.{is_match, requeue_dead_by_guid}
use reddotrelay.Store.Outbox.DeadLetters.Requeue.{requeue_dead_by_guid_lem}
use reddotrelay.Store.Outbox.Transitions.{
  record_outcome, record_outcome_once, record_outcome-refused, IsHolder, succeeded, given_up,
}
use reddotrelay.Store.Outbox.Claims.{Claimed, Avoids}
use reddotrelay.Store.Outbox.Claims.Exclusive.{claim_due_deliveries-Claimed, claims_exclusive}
use reddotrelay.Store.Outbox.Final.{row, Reach-final, here, next, claims, requeues}

abbrev pub holding : Delivery → Db
holding d = record {
  events = transfer ∷ [];
  deliveries = d ∷ [];
  checkpoints = at_7 ∷ [];
  canonical_blocks = block_7 ∷ [];
}

abbrev pub leased_hook : Delivery
leased_hook = record hook {
  attempts = 1;
  total_attempts = 1;
  lease_token = "t1";
  next_attempt = 40;
  last_attempt_at = some 10;
}

abbrev pub delivered_hook : Delivery
delivered_hook = record leased_hook { status = delivered; delivered_at = some 20; lease_token = "" }

pub holding-IsValid : IsValid (holding hook)
unfolding same_id
holding-IsValid = record {
  events_unique = (refl, tt);
  deliveries_unique = (refl, tt);
  deliveries_owned = (refl, tt);
  checkpoints_unique = (refl, tt);
  blocks_unique = (refl, tt);
}

claim_due_deliveries-Claimed_example :
    OnOk
      (λ items db'. All (Claimed 10 30 39 db') items × (length items ≤ 5))
      (claim_due_deliveries 10 30 5 ("t1" ∷ []) (holding hook))
claim_due_deliveries-Claimed_example =
    claim_due_deliveries-Claimed 10 30 5 39 ("t1" ∷ []) (holding hook) (omega arith) holding-IsValid

claims_exclusive_example :
    OnOk
      (λ items db'.
        OnOk
          (λ items' db''.
            All
              (λ (i : OutboxItem). Avoids i.delivery.event_id i.delivery.destination items')
              items)
          (claim_due_deliveries 39 30 5 ("t2" ∷ []) db'))
      (claim_due_deliveries 10 30 5 ("t1" ∷ []) (holding hook))
claims_exclusive_example =
    claims_exclusive 10 30 5 39 30 5 ("t1" ∷ []) ("t2" ∷ []) (holding hook) (omega arith)
      holding-IsValid

outcome_runs :
    (record_outcome (succeeded 20 200) transfer_id "http://hook" "t1" (holding leased_hook)).0
    ≡ ok tt
unfolding record_outcome mark_delivery_delivered transition valid_uint64 holds_lease same_delivery
    same_id is_pending
outcome_runs = refl

record_outcome_once_example :
    let db' =
      (record_outcome (succeeded 20 200) transfer_id "http://hook" "t1" (holding leased_hook)).1 in
    record_outcome (given_up "late" 0) transfer_id "http://hook" "t1" db' ≡ (err not_found, db')
record_outcome_once_example =
    record_outcome_once (succeeded 20 200) (given_up "late" 0) transfer_id "http://hook" "t1"
      (holding leased_hook) outcome_runs

record_outcome-refused_example :
    (e : StoreError) × (record_outcome
        (succeeded 20 200)
        transfer_id
        "http://hook"
        "t2"
        (holding leased_hook)
      ≡ (err e, holding leased_hook))
record_outcome-refused_example =
    record_outcome-refused (succeeded 20 200) transfer_id "http://hook" "t2" (holding leased_hook)
      (other_lease, tt)
  where
    other_lease : IsHolder transfer_id "http://hook" "t2" leased_hook → ⊥
    other_lease (i, d, t, s) = ground (arith, eq_iff "t1" "t2", t)

delivered_hook-final : is_delivered delivered_hook ≡ true
unfolding is_delivered
delivered_hook-final = refl

delivered_hook-row : row transfer_id "http://hook" (holding delivered_hook) ≡ some delivered_hook
unfolding row same_delivery same_id
delivered_hook-row = refl

abbrev after_claim : Db
after_claim = (claim_due_deliveries 99 30 5 ("t3" ∷ []) (holding delivered_hook)).1

Reach-final_example :
    row transfer_id "http://hook" (requeue_all_dead 100 after_claim).1 ≡ some delivered_hook
Reach-final_example =
    Reach-final transfer_id "http://hook" delivered_hook delivered_hook-final
      (next (next here (claims 99 30 5 ("t3" ∷ []) (holding delivered_hook)))
        (requeues 100 after_claim))
      delivered_hook-row

abbrev dead_hook : Delivery
dead_hook = record leased_hook { status = dead; lease_token = "" }

-- Identifiers for the sake of the example.
abbrev by_hash : EventId → String
by_hash id = id.transaction_hash

abbrev as_it_is : String → String
as_it_is s = s

requeue_dead_by_guid_lem_example :
    (requeue_dead_by_guid by_hash as_it_is "0xaa" 50 (holding dead_hook)).1
    ≡ update_rows (is_match by_hash as_it_is "0xaa") (requeued_row 50) (holding dead_hook)
requeue_dead_by_guid_lem_example =
    requeue_dead_by_guid_lem by_hash as_it_is "0xaa" 50 (holding dead_hook) refl
