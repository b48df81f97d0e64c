-- ===== src/Processor.antt =====
-- internal/decoder/processor.go: `process`, with the store of internal/store/sqlite.
--
-- The decoder is given by its two functions. `now` gives the time of each decoding and of each delivery,
-- by how many there have been.
pub mod Batches
pub mod Saved
pub mod Tests
use reddotrelay.Prelude.{
  ℕ, suc, ◌+◌, Bool, true, false, List, [], ◌∷◌, ◌++◌, Option, none, some, String, Result, ok, err,
  map, length,
}
use reddotrelay.Core.{EventId, Event, Delivery, Checkpoint, CanonicalBlock, RawLog, pending}
use reddotrelay.Decoder.{Destination, DecodeError, unconfigured_event}
use reddotrelay.Store.Db.{Db, StoreError}
use reddotrelay.Store.Events.{save_batch}

pub data ProcessError : Type 0 where
  decode_failed : DecodeError → ProcessError
  route_failed : DecodeError → ProcessError
  persist_failed : StoreError → ProcessError

-- The delivery of an event to a destination.
pub delivery_to : EventId → ℕ → Destination → Delivery
delivery_to id now d = record {
  event_id = id;
  destination = d.locator;
  authentication = d.authentication;
  status = pending;
  attempts = 0;
  total_attempts = 0;
  lease_token = "";
  next_attempt = now;
  last_attempt_at = none;
  last_status_code = none;
  last_error = "";
  delivered_at = none;
}

-- errors.Is(err, ErrUnconfiguredEvent)
pub is_unconfigured : DecodeError → Bool
is_unconfigured unconfigured_event = true
is_unconfigured e = false

module _ (decode : ℕ → RawLog → Result DecodeError Event)
    (destinations : Event → Result DecodeError (List Destination)) (clock : ℕ → ℕ) where
  -- The inner loop, from the number of the deliveries so far.
  pub deliveries_of : EventId → ℕ → List Destination → List Delivery
  deliveries_of id n [] = []
  deliveries_of id n (d ∷ ds) = delivery_to id (clock n) d ∷ deliveries_of id (suc n) ds

  -- The loop over the logs: the events, and the deliveries.
  pub decode_logs : List RawLog → ℕ → ℕ → Result ProcessError (List Event × List Delivery)
  decode_logs [] at n = ok ([], [])
  decode_logs (raw ∷ logs) at n = elim (decode at raw) [
    | err e ↦ elim (is_unconfigured e) [
      | true ↦ decode_logs logs (suc at) n
      | false ↦ err (decode_failed e)
    ]
    | ok event ↦ elim (destinations event) [
      | err e ↦ err (route_failed e)
      | ok ds ↦ elim (decode_logs logs (suc at) (n + length ds)) [
        | err e ↦ err e
        | ok (events, deliveries) ↦ ok (event ∷ events, deliveries_of event.id n ds ++ deliveries)
      ]
    ]
  ]

  -- `process`: `blocks` is `none` for `ProcessBatch`, where `retain` is 0.
  pub process :
      List RawLog
      → Option (List CanonicalBlock)
      → Checkpoint
      → ℕ
      → Db
      → Result ProcessError (Unit {0}) × Db
  process logs blocks checkpoint retain db = elim (decode_logs logs 0 0) [
    | err e ↦ (err e, db)
    | ok (events, deliveries) ↦
        let saved = elim blocks as (λ _. Result StoreError (Unit {0}) × Db) [
          | some bs ↦ save_batch events deliveries bs checkpoint retain db
          | none ↦ save_batch events deliveries [] checkpoint 0 db
        ] in
        elim saved.0 as (λ _. Result ProcessError (Unit {0}) × Db) [
          | ok u ↦ (ok u, saved.1)
          | err e ↦ (err (persist_failed e), saved.1)
        ]
  ]
