-- ===== src/Store/Outbox/Final.antt =====
-- The operations of the outbox as steps on the tables, and the rows that they leave alone.
use reddotrelay.Prelude.{
  find?-update, ℕ, true, false, not, ◌≡◌, refl, List, [], ◌∷◌, String, Option, some, Result, ◌==◌,
  arith, find?, if-elim, str_eq, Bool-cases, inl, inr,
}
use reddotrelay.Core.{EventId, Delivery}
use reddotrelay.Store.Db.{Db, same_delivery, StoreError, valid_uint64}
use reddotrelay.Store.Outbox.{
  update_rows, rows_affected, transition, claimable, holds_lease, lease_row, is_pending, is_due,
  is_delivered, is_dead, delivered_row, retry_row, dead_row, requeued_row, requeue_all_dead,
  claim_due_deliveries,
}
use reddotrelay.Store.Outbox.Keys.{claim_due_deliveries-keeps}
use reddotrelay.Store.Outbox.DeadLetters.{requeue_dead_by_guid, is_match}
use reddotrelay.Store.Outbox.DeadLetters.Requeue.{
  requeue_dead_by_guid_lem, requeue_dead_by_guid_none, is_match-dead,
}
use reddotrelay.Store.Outbox.Transitions.{
  Outcome, succeeded, rescheduled, given_up, record_outcome, outcome_row, record_outcome_lem,
}

-- The row of a key.
unfoldable pub row : EventId → String → Db → Option Delivery
row id destination db = find? (same_delivery id destination) db.deliveries

not_claimable : (now : ℕ) (key d : Delivery) → is_delivered d ≡ true → claimable now key d ≡ false
unfolding is_due is_pending is_delivered
not_claimable now key d h = ground arith

not_leased :
    (id : EventId) (destination token : String) (d : Delivery)
    → is_delivered d ≡ true
    → holds_lease id destination token d ≡ false
unfolding holds_lease is_pending is_delivered
not_leased id destination token d h = ground arith

not_dead : (d : Delivery) → is_delivered d ≡ true → is_dead d ≡ false
unfolding is_dead is_delivered
not_dead d h = ground arith

module _ (id : EventId) (destination : String) (d : Delivery) (final : is_delivered d ≡ true) where
  -- The row of the key is `d`.
  abbrev Stays : Db → Type 0
  Stays db = row id destination db ≡ some d

  claims-Stays :
      (now lease limit : ℕ) (tokens : List String) (db : Db)
      → Stays db
      → Stays (claim_due_deliveries now lease limit tokens db).1
  unfolding row lease_row same_delivery
  claims-Stays now lease = claim_due_deliveries-keeps Stays now lease λ key token db h.
      find?-update (same_delivery id destination) (claimable now key) (lease_row now lease token)
        db.deliveries d (λ x. refl) h (not_claimable now key d final)

  outcome_row-key :
      (o : Outcome) (x : Delivery)
      → same_delivery id destination (outcome_row o x) ≡ same_delivery id destination x
  unfolding outcome_row delivered_row retry_row dead_row same_delivery
  outcome_row-key (succeeded at code) x = refl
  outcome_row-key (rescheduled next message code) x = refl
  outcome_row-key (given_up message code) x = refl

  transition-Stays :
      (o : Outcome) (k : EventId) (target token : String) (db : Db)
      → Stays db
      → Stays (transition k target token (outcome_row o) db).1
  unfolding row transition
  transition-Stays o k target token db h =
      if-elim P (not (valid_uint64 (k.chain_id ∷ k.log_index ∷ []))) h (
        if-elim P (str_eq token "") h
          (if-elim P (rows_affected (holds_lease k target token) db == 1) w w))
    where
      P : Result StoreError (Unit {0}) × Db → Type 0
      P r = Stays r.1

      w : Stays (update_rows (holds_lease k target token) (outcome_row o) db)
      w =
          find?-update (same_delivery id destination) (holds_lease k target token) (outcome_row o)
            db.deliveries d (outcome_row-key o) h (not_leased k target token d final)

  requeues-Stays : (now : ℕ) (db : Db) → Stays db → Stays (requeue_all_dead now db).1
  unfolding row requeue_all_dead requeued_row same_delivery
  requeues-Stays now db h =
      find?-update (same_delivery id destination) is_dead (requeued_row now) db.deliveries d
        (λ x. refl) h (not_dead d final)

  requeues_event-Stays :
      (event_guid : EventId → String) (normalize : String → String) (guid : String) (now : ℕ)
      (db : Db)
      → Stays db
      → Stays (requeue_dead_by_guid event_guid normalize guid now db).1
  unfolding row requeued_row same_delivery
  requeues_event-Stays event_guid normalize guid now db h =
      elim (Bool-cases (str_eq (normalize guid) "")) [
        | inl e ↦ rw (requeue_dead_by_guid_none event_guid normalize guid now db e) h
        | inr e ↦ rw (requeue_dead_by_guid_lem event_guid normalize guid now db e) (
            find?-update (same_delivery id destination) (is_match event_guid normalize guid)
              (requeued_row now) db.deliveries d (λ x. refl) h
              (is_match-dead event_guid normalize guid d (not_dead d final)))
      ]

-- The operations of the outbox.
pub data Step : Db → Db → Type 0 where
  claims :
      (now lease limit : ℕ) (tokens : List String) (db : Db)
      → Step db (claim_due_deliveries now lease limit tokens db).1
  records :
      (o : Outcome) (id : EventId) (destination token : String) (db : Db)
      → Step db (record_outcome o id destination token db).1
  requeues : (now : ℕ) (db : Db) → Step db (requeue_all_dead now db).1
  requeues_event :
      (event_guid : EventId → String) (normalize : String → String) (guid : String) (now : ℕ)
      (db : Db)
      → Step db (requeue_dead_by_guid event_guid normalize guid now db).1

pub data Reach (a : Db) : Db → Type 0 where
  here : Reach a a
  next : {b c : Db} → Reach a b → Step b c → Reach a c

Step-final :
    {a b : Db} (id : EventId) (destination : String) (d : Delivery)
    → is_delivered d ≡ true
    → Step a b
    → row id destination a ≡ some d
    → row id destination b ≡ some d
Step-final id destination d final (claims now lease limit tokens db) h =
    claims-Stays id destination d final now lease limit tokens db h
Step-final id destination d final (records o k target token db) h =
    rw (record_outcome_lem o k target token db)
      (transition-Stays id destination d final o k target token db h)
Step-final id destination d final (requeues now db) h =
    requeues-Stays id destination d final now db h
Step-final id destination d final (requeues_event event_guid normalize guid now db) h =
    requeues_event-Stays id destination d final event_guid normalize guid now db h

-- Once a delivery has been recorded as delivered, no sequence of claims, outcomes (under any
-- lease) and requeues, of all or of one event, changes its row: it is never sent, retried or
-- declared dead again.
pub Reach-final :
    {a b : Db} (id : EventId) (destination : String) (d : Delivery)
    → is_delivered d ≡ true
    → Reach a b
    → row id destination a ≡ some d
    → row id destination b ≡ some d
Reach-final id destination d final here h = h
Reach-final id destination d final (next r s) h =
    Step-final id destination d final s (Reach-final id destination d final r h)
