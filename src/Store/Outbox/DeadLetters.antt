-- ===== src/Store/Outbox/DeadLetters.antt =====
-- internal/store/sqlite/store.go: `DeliveryStatusCounts`, `DeadDeliveries` and `RequeueDeadByGUID`.
pub mod Requeue
use reddotrelay.Prelude.{
  ℕ, ◌+◌, Bool, ◌&&◌, List, [], ◌∷◌, Option, none, some, String, Result, ok, err, ◌==◌, str_eq,
  if◌then◌else◌, take, select, sort, length,
}
use reddotrelay.Core.{EventId, Delivery, OutboxItem}
use reddotrelay.Store.Db.{Db, StoreError, bad_limit, guid_required, not_found, same_delivery}
use reddotrelay.Store.Outbox.{
  is_pending, is_delivered, is_dead, key_before, load_outbox_item, update_rows, rows_affected,
  requeued_row,
}

-- `DeliveryStatusCounts`: pending, delivered, dead.
pub delivery_status_counts : Db → ℕ × ℕ × ℕ
delivery_status_counts db =
    (rows_affected is_pending db, rows_affected is_delivered db, rows_affected is_dead db)

-- The loop of `DeadDeliveries` over the keys.
pub load_items : Db → List Delivery → Result StoreError (List OutboxItem)
load_items db [] = ok []
load_items db (key ∷ keys) = elim (load_outbox_item key.event_id key.destination db) [
  | none ↦ err not_found
  | some item ↦ elim (load_items db keys) [ ok items ↦ ok (item ∷ items) | err e ↦ err e ]
]

-- `DeadDeliveries`
pub dead_deliveries : ℕ → Db → Result StoreError (List OutboxItem)
dead_deliveries limit db =
    if limit == 0
    then err bad_limit
    else load_items db (take limit (sort key_before (select is_dead db.deliveries)))

-- The WHERE clause of the update of one key.
pub is_dead_key : Delivery → Delivery → Bool
is_dead_key key d = same_delivery key.event_id key.destination d && is_dead d

-- The loop of `RequeueDeadByGUID` over the matching keys, with the number of rows.
pub requeue_keys : ℕ → List Delivery → Db → ℕ × Db
requeue_keys now [] db = (0, db)
requeue_keys now (key ∷ keys) db =
    let (n, db') = requeue_keys now keys (update_rows (is_dead_key key) (requeued_row now) db) in
    (rows_affected (is_dead_key key) db + n, db')

-- `event_guid` is `core.EventGUID`, a UUID by SHA-1, and `normalize` trims and lowers a text.
module _ (event_guid : EventId → String) (normalize : String → String) where
  pub is_match : String → Delivery → Bool
  is_match guid d = is_dead d && str_eq (event_guid d.event_id) (normalize guid)

  -- `RequeueDeadByGUID`
  pub requeue_dead_by_guid : String → ℕ → Db → Result StoreError ℕ × Db
  requeue_dead_by_guid guid now db =
      if str_eq (normalize guid) ""
      then (err guid_required, db)
      else (let (n, db') = requeue_keys now (select (is_match guid) db.deliveries) db in
          (ok n, db'))
