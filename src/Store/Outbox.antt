-- ===== src/Store/Outbox.antt =====
-- internal/store/sqlite/store.go: the outbox, `DueDeliveries`, `ClaimDueDeliveries`, `transition`
-- with its three callers, `DeadDeliveries`, `RequeueDeadByGUID` and `RequeueAllDead`.
pub mod Keys
pub mod Transitions
pub mod Claims
pub mod DeadLetters
pub mod Final
pub mod Reachable
pub mod Tests
use Prim.Native.Nat.{Ordering}
use Prim.Native.String.{compare as compare_text}
use reddotrelay.Prelude.{
  ℕ, ◌+◌, Bool, true, false, not, ◌&&◌, ◌||◌, List, [], ◌∷◌, ◌++◌, Option, none, some, String,
  Result, ok, err, ◌==◌, str_eq, ltb, leb, if◌then◌else◌, find?, any, select, map, take, sort,
  length,
}
use reddotrelay.Core.{
  Event, EventId, Delivery, DeliveryStatus, pending, delivered, dead, OutboxItem,
}
use reddotrelay.Store.Db.{
  Db, Tx, StoreError, out_of_range, not_found, bad_limit, bad_lease, lease_token_required,
  guid_required, no_token, pure, raise, raise_if, modify, commit, ◌>>=◌, ◌>>◌, valid_uint64,
  same_delivery, has_id,
}

pub is_pending : Delivery → Bool
is_pending d = elim d.status [ pending ↦ true | delivered ↦ false | dead ↦ false ]

unfoldable pub is_delivered : Delivery → Bool
is_delivered d = elim d.status [ pending ↦ false | delivered ↦ true | dead ↦ false ]

pub is_dead : Delivery → Bool
is_dead d = elim d.status [ pending ↦ false | delivered ↦ false | dead ↦ true ]

-- status = 'pending' AND next_attempt <= ?
pub is_due : ℕ → Delivery → Bool
unfolding is_pending
is_due now d = is_pending d && leb d.next_attempt now

-- UPDATE deliveries SET ... WHERE ..., and the number of rows that it changes.
abbrev pub update_rows : (Delivery → Bool) → (Delivery → Delivery) → Db → Db
update_rows p f db = record db { deliveries = map (λ d. if p d then f d else d) db.deliveries }

abbrev pub rows_affected : (Delivery → Bool) → Db → ℕ
rows_affected p db = length (select p db.deliveries)

abbrev pub text_before : String → String → Bool → Bool
text_before a b otherwise = elim (compare_text a b) [
  | Ordering.lt ↦ true
  | Ordering.eq ↦ otherwise
  | Ordering.gt ↦ false
]

abbrev pub number_before : ℕ → ℕ → Bool → Bool
number_before a b otherwise = if ltb a b then true else if a == b then otherwise else false

-- ORDER BY chain_id, transaction_hash, log_index, destination
pub key_before : Delivery → Delivery → Bool
key_before a b = number_before a.event_id.chain_id b.event_id.chain_id (
    text_before a.event_id.transaction_hash b.event_id.transaction_hash (
      number_before a.event_id.log_index b.event_id.log_index
        (text_before a.destination b.destination false)))

-- ORDER BY next_attempt, chain_id, transaction_hash, log_index, destination
pub due_before : Delivery → Delivery → Bool
due_before a b = number_before a.next_attempt b.next_attempt (key_before a b)

-- The join of a delivery with its event's row.
pub load_outbox_item : EventId → String → Db → Option OutboxItem
load_outbox_item id destination db = elim (find? (same_delivery id destination) db.deliveries) [
  | none ↦ none
  | some d ↦ elim (find? (has_id id) db.events) [
    | none ↦ none
    | some e ↦ some (record { delivery = d; event = e })
  ]
]

-- The rows of a join, in the order of the deliveries.
join_events : Db → List Delivery → List OutboxItem
join_events db [] = []
join_events db (d ∷ ds) = elim (find? (has_id d.event_id) db.events) [
  | none ↦ join_events db ds
  | some e ↦ record { delivery = d; event = e } ∷ join_events db ds
]

-- `DueDeliveries`
pub due_deliveries : ℕ → ℕ → Db → Result StoreError (List OutboxItem)
unfolding join_events
due_deliveries now limit db =
    if limit == 0
    then err bad_limit
    else ok (take limit (join_events db (sort due_before (select (is_due now) db.deliveries))))

-- The keys that `ClaimDueDeliveries` selects.
pub due_keys : ℕ → ℕ → Db → List Delivery
due_keys now limit db = take limit (sort due_before (select (is_due now) db.deliveries))

-- What the claim's UPDATE does to a row.
pub lease_row : ℕ → ℕ → String → Delivery → Delivery
lease_row now lease token d = record d {
  attempts = d.attempts + 1;
  total_attempts = d.total_attempts + 1;
  next_attempt = now + lease;
  last_attempt_at = some now;
  lease_token = token;
}

abbrev pub claimable : ℕ → Delivery → Delivery → Bool
claimable now key d = same_delivery key.event_id key.destination d && is_due now d

-- The claim of one key, with the token that was drawn for it; a row that is gone is passed over.
pub claim_one : ℕ → ℕ → Delivery → String → Tx (List OutboxItem)
unfolding load_outbox_item
claim_one now lease key token db =
    let db' = update_rows (claimable now key) (lease_row now lease token) db in
    if rows_affected (claimable now key) db == 1
    then elim (load_outbox_item key.event_id key.destination db') [
      | none ↦ err not_found
      | some item ↦ ok (item ∷ [], db')
    ]
    else ok ([], db')

-- The loop over the keys; `tokens` are the draws of `newLeaseToken`, which fails where they end.
pub claim_keys : ℕ → ℕ → List String → List Delivery → Tx (List OutboxItem)
claim_keys now lease tokens [] = pure []
claim_keys now lease [] (key ∷ keys) = raise no_token
claim_keys now lease (token ∷ tokens) (key ∷ keys) = claim_one now lease key token >>= λ claimed.
    claim_keys now lease tokens keys >>= λ rest. pure (claimed ++ rest)

-- `ClaimDueDeliveries`
pub claim_due_deliveries : ℕ → ℕ → ℕ → List String → Db → Result StoreError (List OutboxItem) × Db
claim_due_deliveries now lease limit tokens = commit (
    raise_if (limit == 0) bad_limit
    >> (raise_if (lease == 0) bad_lease >> λ db.
        claim_keys now lease tokens (due_keys now limit db) db))

-- WHERE of the three transitions: the key, the lease token and status = 'pending'.
pub holds_lease : EventId → String → String → Delivery → Bool
holds_lease id destination token d =
    same_delivery id destination d && str_eq token d.lease_token && is_pending d

-- `transition`
pub transition :
    EventId → String → String → (Delivery → Delivery) → Db → Result StoreError (Unit {0}) × Db
transition id destination token f db =
    if not (valid_uint64 (id.chain_id ∷ id.log_index ∷ []))
    then (err out_of_range, db)
    else if str_eq token ""
    then (err lease_token_required, db)
    else if rows_affected (holds_lease id destination token) db == 1
    then (ok tt, update_rows (holds_lease id destination token) f db)
    else (err not_found, update_rows (holds_lease id destination token) f db)

-- `nullableHTTPStatus`
pub nullable_http_status : ℕ → Option ℕ
nullable_http_status code = if leb 100 code && leb code 599 then some code else none

pub delivered_row : ℕ → ℕ → Delivery → Delivery
delivered_row at code d = record d {
  status = delivered;
  delivered_at = some at;
  last_status_code = nullable_http_status code;
  last_error = "";
  lease_token = "";
}

pub retry_row : ℕ → String → ℕ → Delivery → Delivery
retry_row next message code d = record d {
  next_attempt = next;
  last_error = message;
  last_status_code = nullable_http_status code;
  lease_token = "";
}

pub dead_row : String → ℕ → Delivery → Delivery
dead_row message code d = record d {
  status = dead;
  last_error = message;
  last_status_code = nullable_http_status code;
  lease_token = "";
}

-- `MarkDeliveryDelivered`
pub mark_delivery_delivered :
    EventId → String → String → ℕ → ℕ → Db → Result StoreError (Unit {0}) × Db
mark_delivery_delivered id destination token at code =
    transition id destination token (delivered_row at code)

-- `ScheduleDeliveryRetry`
pub schedule_delivery_retry :
    EventId → String → String → ℕ → String → ℕ → Db → Result StoreError (Unit {0}) × Db
schedule_delivery_retry id destination token next message code =
    transition id destination token (retry_row next message code)

-- `MarkDeliveryDead`
pub mark_delivery_dead :
    EventId → String → String → String → ℕ → Db → Result StoreError (Unit {0}) × Db
mark_delivery_dead id destination token message code =
    transition id destination token (dead_row message code)

-- What a requeue does to a dead row.
pub requeued_row : ℕ → Delivery → Delivery
requeued_row now d = record d {
  status = pending;
  attempts = 0;
  lease_token = "";
  next_attempt = now;
  last_error = "";
  delivered_at = none;
}

-- `RequeueAllDead`, with the number of rows.
pub requeue_all_dead : ℕ → Db → ℕ × Db
requeue_all_dead now db = (rows_affected is_dead db, update_rows is_dead (requeued_row now) db)
