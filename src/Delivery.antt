-- ===== src/Delivery.antt =====
-- internal/delivery/worker.go: the checks of `NewWithObserver`, `backoff`, `fail` and `deliver`.
--
-- The outside (the secrets, the webhooks and the clock) is a record of operations on a state of its
-- own; the outbox is the store's.
pub mod Backoff
pub mod Outcomes
pub mod Records
pub mod Tests
use reddotrelay.Prelude.{
  ℕ, zero, suc, ◌+◌, ◌-◌, ◌*◌, ◌/◌, min, Bool, true, false, not, ◌&&◌, ◌||◌, List, Option, none,
  some, String, Result, ok, err, str_eq, ltb, leb, if◌then◌else◌,
}
use reddotrelay.Core.{Event, Delivery, OutboxItem}
use reddotrelay.Store.Db.{Db, StoreError}
use reddotrelay.Store.Outbox.{mark_delivery_delivered, schedule_delivery_retry, mark_delivery_dead}

pub record Options : Type 0 where
  pub workers : ℕ
  pub batch_size : ℕ
  pub http_timeout : ℕ
  pub lease_duration : ℕ
  pub retry_backoff : ℕ
  pub max_backoff : ℕ
  pub max_attempts : ℕ
  pub poll_interval : ℕ

-- The checks of `NewWithObserver` on the options.
pub valid_options : Options → Bool
valid_options o =
    ltb 0 o.workers
    && ltb 0 o.batch_size
    && ltb 0 o.http_timeout
    && ltb o.http_timeout o.lease_duration
    && ltb 0 o.retry_backoff
    && leb o.retry_backoff o.max_backoff
    && ltb 0 o.max_attempts
    && ltb 0 o.poll_interval

-- The loop of `backoff`, with so many rounds left.
pub backoff_rounds : Options → ℕ → ℕ → ℕ
backoff_rounds o zero delay = min delay o.max_backoff
backoff_rounds o (suc n) delay =
    let rest = backoff_rounds o n (delay * 2) in
    if leb (o.max_backoff / 2) delay then o.max_backoff else rest

-- `backoff`
pub backoff : Options → ℕ → ℕ
backoff o attempts = backoff_rounds o (attempts - 1) o.retry_backoff

-- Why an attempt failed, as far as `fail` and `deliveryErrorMessage` tell the causes apart.
pub data Cause : Type 0 where
  http_status : ℕ → Cause
  deadline_exceeded : Cause
  other : Cause

-- `deliveryErrorMessage`; the text of a status is `httpStatusError.Error`, by `fmt`.
pub delivery_error_message : (ℕ → String) → Cause → String
delivery_error_message status_text (http_status n) = status_text n
delivery_error_message status_text deadline_exceeded = "webhook request timed out"
delivery_error_message status_text other = "webhook request failed"

-- The status code that `deliver` passes to `fail`, 0 without one.
pub status_code : Cause → ℕ
status_code (http_status n) = n
status_code deadline_exceeded = 0
status_code other = 0

-- A webhook request: the payload, the event's identifier, and the signature's headers (the
-- timestamp, the signature of `timestamp.payload` and the key's identifier, if there is one).
pub record Signature : Type 0 where
  pub timestamp : ℕ
  pub signature : List ℕ
  pub key_id : Option String

pub record Request : Type 0 where
  pub destination : String
  pub payload : List ℕ
  pub idempotency_key : String
  pub signed : Option Signature

-- What the worker uses of `encoding/json`, `net/url`, `net/http`, `crypto/hmac`, the clock, and of
-- the packages core (`EventGUID`) and secrets. `unix_seconds` is `Time.Unix`, and `sign` the
-- signature under a secret.
pub record Outside (W : Type 0) : Type 0 where
  pub marshal_payload : Event → Option (List ℕ)
  pub event_guid : Event → String
  pub status_text : ℕ → String
  pub is_reference : String → Bool
  pub is_webhook_url : String → Bool
  pub is_request_url : String → Bool
  pub sign : String → ℕ → List ℕ → List ℕ
  pub unix_seconds : ℕ → ℕ
  pub resolve : String → W → Option String × W
  pub post : Request → W → Result Cause ℕ × W
  pub now : W → ℕ × W

-- What a step of the worker returns: the error of the outbox if one is passed on, and the states.
abbrev pub Done : Type 0 → Type 0
Done W = Option StoreError × Db × W

abbrev pub finish : {W : Type 0} → Result StoreError (Unit {0}) × Db → W → Done W
finish (ok u, db) w = (none, db, w)
finish (err e, db) w = (some e, db, w)

module _ {W : Type 0} (outside : Outside W) (options : Options) where
  -- `fail`
  pub fail : OutboxItem → Cause → Db → W → Done W
  fail item cause db w =
      let d = item.delivery in
      let message = delivery_error_message outside.status_text cause in
      if leb options.max_attempts d.attempts
      then finish
          (mark_delivery_dead item.event.id d.destination d.lease_token message (status_code cause)
            db)
          w
      else (let (now, w') = outside.now w in
          finish
            (schedule_delivery_retry item.event.id d.destination d.lease_token
              (now + backoff options d.attempts) message (status_code cause) db)
            w')

  -- The request has been answered, or not.
  pub record_reply : OutboxItem → Result Cause ℕ → Db → W → Done W
  record_reply item (err cause) db w = fail item cause db w
  record_reply item (ok status) db w =
      let d = item.delivery in
      if leb 200 status && ltb status 300
      then (let (now, w') = outside.now w in
          finish (mark_delivery_delivered item.event.id d.destination d.lease_token now status db)
            w')
      else fail item (http_status status) db w

  pub post_request : OutboxItem → Request → Db → W → Done W
  post_request item request db w =
      let (reply, w') = outside.post request w in record_reply item reply db w'

  -- The signature of a request with the resolved secret.
  pub signature_of : OutboxItem → List ℕ → String → ℕ → Signature
  signature_of item payload secret now =
      let timestamp = outside.unix_seconds now in
      record {
        timestamp = timestamp;
        signature = outside.sign secret timestamp payload;
        key_id =
            if str_eq item.delivery.authentication.key_id ""
            then none
            else some item.delivery.authentication.key_id;
      }

  pub sign_request : OutboxItem → Request → Option String → Db → W → Done W
  sign_request item request none db w = fail item other db w
  sign_request item request (some secret) db w =
      let (now, w') = outside.now w in
      post_request item
        record request { signed = some (signature_of item request.payload secret now) } db w'

  pub unsigned_request : OutboxItem → List ℕ → String → Request
  unsigned_request item payload destination = record {
    destination = destination;
    payload = payload;
    idempotency_key = outside.event_guid item.event;
    signed = none;
  }

  -- `http.NewRequestWithContext` and the authentication.
  pub send : OutboxItem → List ℕ → String → Db → W → Done W
  send item payload destination db w =
      let authentication = item.delivery.authentication in
      let request = unsigned_request item payload destination in
      if not (outside.is_request_url destination)
      then fail item other db w
      else if str_eq authentication.kind ""
      then post_request item request db w
      else if not (str_eq authentication.kind "hmac-sha256")
      then fail item other db w
      else (let (secret, w') = outside.resolve authentication.secret_ref w in
          sign_request item request secret db w')

  pub send_resolved : OutboxItem → List ℕ → Option String → Db → W → Done W
  send_resolved item payload none db w = fail item other db w
  send_resolved item payload (some destination) db w =
      if outside.is_webhook_url destination
      then send item payload destination db w
      else fail item other db w

  pub deliver_payload : OutboxItem → Option (List ℕ) → Db → W → Done W
  deliver_payload item none db w = fail item other db w
  deliver_payload item (some payload) db w =
      if outside.is_reference item.delivery.destination
      then (let (destination, w') = outside.resolve item.delivery.destination w in
          send_resolved item payload destination db w')
      else send item payload item.delivery.destination db w

  -- `deliver`
  pub deliver : OutboxItem → Db → W → Done W
  deliver item = deliver_payload item (outside.marshal_payload item.event)
