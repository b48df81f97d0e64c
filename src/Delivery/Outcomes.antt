-- ===== src/Delivery/Outcomes.antt =====
-- The requests, the failures and the outcomes that belong to an attempt at a delivery.
use reddotrelay.Prelude.{
  List, ℕ, ◌+◌, ◌≡◌, ◌≤◌, ◌<◌, none, some, String, ok, err, str_eq, true, false, ◌⊎◌,
}
use reddotrelay.Core.{OutboxItem}
use reddotrelay.Store.Db.{Db}
use reddotrelay.Store.Outbox.Transitions.{Outcome, succeeded, rescheduled, given_up, record_outcome}
use reddotrelay.Delivery.{
  Options, Cause, Outside, Request, Signature, Done, finish, backoff, http_status, other,
  status_code, delivery_error_message,
}

-- The states of the outside that the worker's calls lead to.
pub data After {W : Type 0} (outside : Outside W) (w : W) : W → Type 0 where
  here : After outside w w
  resolved : (s : String) (v : W) → After outside w v → After outside w (outside.resolve s v).1
  posted : (r : Request) (v : W) → After outside w v → After outside w (outside.post r v).1
  told : (v : W) → After outside w v → After outside w (outside.now v).1

-- The destination of an item: its own, or the webhook's URL that its reference stands for.
pub data IsDestination {W : Type 0} (outside : Outside W) (item : OutboxItem) (w : W)
    (destination : String) : Type 0 where
  direct :
      outside.is_reference item.delivery.destination ≡ false
      → destination ≡ item.delivery.destination
      → IsDestination outside item w destination
  referred :
      outside.is_reference item.delivery.destination ≡ true
      → (outside.resolve item.delivery.destination w).0 ≡ some destination
      → outside.is_webhook_url destination ≡ true
      → IsDestination outside item w destination

-- A request for an item, made after the attempt began at `w`: its destination, which passed the checks,
-- the event's payload, and the event's identifier.
pub record IsMade {W : Type 0} (outside : Outside W) (item : OutboxItem) (w : W) (r : Request)
    (v : W) : Type 0 where
  pub after : After outside w v
  pub to_destination : IsDestination outside item w r.destination
  pub to_url : outside.is_request_url r.destination ≡ true
  pub of_event : outside.marshal_payload item.event ≡ some r.payload
  pub with_guid : r.idempotency_key ≡ outside.event_guid item.event

-- The signature of a payload, with the secret that the item's reference stood for, at a time that the
-- clock gave after it.
pub record IsSignature {W : Type 0} (outside : Outside W) (item : OutboxItem) (w : W)
    (payload : List ℕ) (s : Signature) : Type 0 where
  pub secret : String
  pub asked : W
  pub after : After outside w asked
  pub resolved_to : (outside.resolve item.delivery.authentication.secret_ref asked).0 ≡ some secret
  pub at_time :
      s.timestamp
      ≡ outside.unix_seconds
          (outside.now (outside.resolve item.delivery.authentication.secret_ref asked).1).0
  pub by_secret : s.signature ≡ outside.sign secret s.timestamp payload

-- A request is signed as the item's authentication asks.
pub data IsSigned {W : Type 0} (outside : Outside W) (item : OutboxItem) (w : W) (r : Request)
    : Type 0 where
  unsigned :
      str_eq item.delivery.authentication.kind "" ≡ true
      → r.signed ≡ none
      → IsSigned outside item w r
  by_hmac :
      (s : Signature)
      → str_eq item.delivery.authentication.kind "hmac-sha256" ≡ true
      → r.signed ≡ some s
      → IsSignature outside item w r.payload s
      → IsSigned outside item w r

-- A request for an item that is sent.
pub record IsSent {W : Type 0} (outside : Outside W) (item : OutboxItem) (w : W) (r : Request)
    (v : W) : Type 0 where
  pub made : IsMade outside item w r v
  pub is_signed : IsSigned outside item w r

-- Why nothing can be sent.
pub data Impediment {W : Type 0} (outside : Outside W) (item : OutboxItem) (w : W) : Type 0 where
  no_payload : outside.marshal_payload item.event ≡ none → Impediment outside item w
  no_destination :
      outside.is_reference item.delivery.destination ≡ true
      → (outside.resolve item.delivery.destination w).0 ≡ none
      → Impediment outside item w
  no_webhook_url :
      (destination : String)
      → (outside.resolve item.delivery.destination w).0 ≡ some destination
      → outside.is_webhook_url destination ≡ false
      → Impediment outside item w
  no_request_url :
      (destination : String)
      → IsDestination outside item w destination
      → outside.is_request_url destination ≡ false
      → Impediment outside item w
  unknown_authentication :
      str_eq item.delivery.authentication.kind "" ≡ false
      → str_eq item.delivery.authentication.kind "hmac-sha256" ≡ false
      → Impediment outside item w
  no_secret :
      (v : W)
      → After outside w v
      → str_eq item.delivery.authentication.kind "hmac-sha256" ≡ true
      → (outside.resolve item.delivery.authentication.secret_ref v).0 ≡ none
      → Impediment outside item w

-- Why an attempt failed, and the state of the outside then: nothing could be sent, a request failed, or
-- its reply had a status that is not 2xx.
pub data Failed {W : Type 0} (outside : Outside W) (item : OutboxItem) (w : W)
    : Cause → W → Type 0 where
  not_sent : (v : W) → After outside w v → Impediment outside item w → Failed outside item w other v
  unanswered :
      (r : Request) (v : W) (cause : Cause)
      → IsSent outside item w r v
      → (outside.post r v).0 ≡ err cause
      → Failed outside item w cause (outside.post r v).1
  refused :
      (r : Request) (v : W) (status : ℕ)
      → IsSent outside item w r v
      → (outside.post r v).0 ≡ ok status
      → (status < 200) ⊎ (300 ≤ status)
      → Failed outside item w (http_status status) (outside.post r v).1

-- The outcomes that are right for an item: a delivery succeeds with the status of a reply, one of 2xx,
-- at the time after it; it is retried while attempts are left, the backoff after the failure; and it is
-- given up when none is. Both keep the message and the code of the failure.
pub data Fits {W : Type 0} (outside : Outside W) (options : Options) (item : OutboxItem) (w : W)
    : Outcome → Type 0 where
  accepted :
      (r : Request) (v : W) (status : ℕ)
      → IsSent outside item w r v
      → (outside.post r v).0 ≡ ok status
      → 200 ≤ status
      → status < 300
      → Fits outside options item w (succeeded (outside.now (outside.post r v).1).0 status)
  retried :
      (cause : Cause) (v : W)
      → Failed outside item w cause v
      → item.delivery.attempts < options.max_attempts
      → Fits outside options item w (
          rescheduled
            ((outside.now v).0 + backoff options item.delivery.attempts)
            (delivery_error_message outside.status_text cause)
            (status_code cause))
  exhausted :
      (cause : Cause) (v : W)
      → Failed outside item w cause v
      → options.max_attempts ≤ item.delivery.attempts
      → Fits outside options item w
          (given_up (delivery_error_message outside.status_text cause) (status_code cause))

-- The outbox after the attempt is the one before with one outcome recorded for the item's own
-- delivery and lease, and the error is that of recording it.
unfoldable pub Recorded : {W : Type 0} → Outside W → Options → OutboxItem → W → Db → Done W → Type 0
Recorded outside options item w db r =
    (o : Outcome) × Fits outside options item w o
    × (r.0
        ≡ (finish
            (record_outcome o item.event.id item.delivery.destination item.delivery.lease_token db)
            tt).0)
    × (r.1
        ≡ (record_outcome o item.event.id item.delivery.destination item.delivery.lease_token db).1)
