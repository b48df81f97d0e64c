-- ===== src/Store/Retention.antt =====
-- internal/store/sqlite/store.go: `CountDeliveredBefore` and `PruneDeliveredBefore`.
pub mod Laws
pub mod Bounds
pub mod Tests
use reddotrelay.Prelude.{
  ℕ, Bool, true, false, not, ◌&&◌, ◌||◌, List, Option, none, some, Result, ok, err, ◌==◌, ltb, leb,
  if◌then◌else◌, any, select, take, sort, length,
}
use reddotrelay.Core.{Event, EventId, Delivery, same_id}
use reddotrelay.Store.Db.{Db, StoreError, bad_limit, has_id}
use reddotrelay.Store.History.{delete_events}
use reddotrelay.Store.Outbox.{is_delivered, number_before, text_before}

-- d.delivered_at IS NULL OR d.delivered_at >= ?
abbrev pub is_late : ℕ → Option ℕ → Bool
is_late cutoff none = true
is_late cutoff (some at) = leb cutoff at

-- A delivery that keeps its event from being pruned.
pub blocks_prune : ℕ → Delivery → Bool
blocks_prune cutoff d = not (is_delivered d) || is_late cutoff d.delivered_at

-- The condition on the deliveries of one event.
pub eligible_id : ℕ → List Delivery → EventId → Bool
eligible_id cutoff deliveries id =
    any (λ d. same_id d.event_id id) deliveries
    && not (any (λ d. same_id d.event_id id && blocks_prune cutoff d) deliveries)

-- The WHERE clause of both statements.
pub is_eligible : ℕ → Db → Event → Bool
is_eligible cutoff db e = eligible_id cutoff db.deliveries e.id

-- `CountDeliveredBefore`
pub count_delivered_before : ℕ → Db → ℕ
count_delivered_before cutoff db = length (select (is_eligible cutoff db) db.events)

-- ORDER BY observed_at, chain_id, transaction_hash, log_index
pub older_event : Event → Event → Bool
older_event a b = number_before a.observed_at b.observed_at (
    number_before a.id.chain_id b.id.chain_id (
      text_before a.id.transaction_hash b.id.transaction_hash
        (number_before a.id.log_index b.id.log_index false)))

-- The rows of the subquery.
pub prune_victims : ℕ → ℕ → Db → List Event
prune_victims cutoff limit db =
    take limit (sort older_event (select (is_eligible cutoff db) db.events))

abbrev pub is_victim : List Event → Event → Bool
is_victim victims e = any (λ v. same_id v.id e.id) victims

-- `PruneDeliveredBefore`
pub prune_delivered_before : ℕ → ℕ → Db → Result StoreError ℕ × Db
prune_delivered_before cutoff limit db = if limit == 0 then (err bad_limit, db) else (
  ok (length (select (is_victim (prune_victims cutoff limit db)) db.events)),
  delete_events (is_victim (prune_victims cutoff limit db)) db,
)
