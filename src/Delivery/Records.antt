-- ===== src/Delivery/Records.antt =====
-- What an attempt at a delivery leaves in the outbox.
use reddotrelay.Prelude.{
  ℕ, ◌≡◌, refl, List, Option, none, some, String, Result, ok, err, str_eq, ltb, leb, leb→le, arith,
  Bool-cases, Option-cases, inl, inr, ◌&&◌, true,
}
use reddotrelay.Core.{OutboxItem}
use reddotrelay.Store.Db.{Db, StoreError}
use reddotrelay.Store.Outbox.Transitions.{Outcome, succeeded, rescheduled, given_up, record_outcome}
use reddotrelay.Delivery.{
  Signature, Options, Cause, Outside, Request, finish, fail, record_reply, post_request,
  sign_request, send, send_resolved, deliver_payload, deliver, http_status, other, unsigned_request,
  signature_of,
}
use reddotrelay.Delivery.Outcomes.{
  IsMade, unsigned, by_hmac, After, here, resolved, told, IsDestination, direct, referred, IsSent,
  no_payload, no_destination, no_webhook_url, no_request_url, unknown_authentication, no_secret,
  Failed, not_sent, unanswered, refused, Fits, accepted, retried, exhausted, Recorded,
}

finish-error :
    {W : Type 0} (r : Result StoreError (Unit {0}) × Db) (w : W) → (finish r w).0 ≡ (finish r tt).0
finish-error (ok u, db) w = refl
finish-error (err e, db) w = refl

finish-db : {W : Type 0} (r : Result StoreError (Unit {0}) × Db) (w : W) → (finish r w).1 ≡ r.1
finish-db (ok u, db) w = refl
finish-db (err e, db) w = refl

-- An attempt that begins at `w`.
module _ {W : Type 0} (outside : Outside W) (options : Options) (item : OutboxItem) (w : W) where
  record_outcome-Recorded :
      (db : Db) (o : Outcome) (v : W)
      → Fits outside options item w o
      → Recorded outside options item w db (
          finish
            (record_outcome o item.event.id item.delivery.destination item.delivery.lease_token db)
            v)
  unfolding Recorded
  record_outcome-Recorded db o v fits =
      let r =
        record_outcome o item.event.id item.delivery.destination item.delivery.lease_token db in
      (o, fits, finish-error r v, finish-db r v)

  fail-Recorded :
      (cause : Cause) (db : Db) (v : W)
      → Failed outside item w cause v
      → Recorded outside options item w db (fail outside options item cause db v)
  unfolding fail record_outcome
  fail-Recorded cause db v f = elim (Bool-cases (leb options.max_attempts item.delivery.attempts)) [
    | inl e ↦
        rw e (record_outcome-Recorded db (given_up _ _) v (exhausted cause v f (leb→le _ _ e)))
    | inr e ↦
        rw e (record_outcome-Recorded db (rescheduled _ _ _) _ (retried cause v f (ground arith)))
  ]

  record_reply-Recorded :
      (r : Request) (db : Db) (v : W)
      → IsSent outside item w r v
      → Recorded outside options item w db
          (record_reply outside options item (outside.post r v).0 db (outside.post r v).1)
  unfolding record_reply record_outcome
  record_reply-Recorded r db v s = go (outside.post r v).0 λ reply e. e
    where
      go :
          (reply : Result Cause ℕ)
          → ((x : Result Cause ℕ) → reply ≡ x → (outside.post r v).0 ≡ x)
          → Recorded outside options item w db
              (record_reply outside options item reply db (outside.post r v).1)
      go (err cause) k = fail-Recorded cause db _ (unanswered r v cause s (k _ refl))
      go (ok status) k = elim (Bool-cases (leb 200 status && ltb status 300)) [
        | inl e ↦ rw e (
            record_outcome-Recorded db (succeeded _ status) _
              (accepted r v status s (k _ refl) (ground arith) (ground arith)))
        | inr e ↦ rw e (
            fail-Recorded (http_status status) db _
              (refused r v status s (k _ refl) (ground arith)))
      ]

  post_request-Recorded :
      (r : Request) (db : Db) (v : W)
      → IsSent outside item w r v
      → Recorded outside options item w db (post_request outside options item r db v)
  unfolding post_request
  post_request-Recorded r db v s = record_reply-Recorded r db v s

  -- The secret that a reference stands for signs the request.
  sign_request-Recorded :
      (r : Request) (db : Db) (v : W)
      → str_eq item.delivery.authentication.kind "hmac-sha256" ≡ true
      → IsMade outside item w r v
      → let (secret, v') = outside.resolve item.delivery.authentication.secret_ref v in
        Recorded outside options item w db (sign_request outside options item r secret db v')
  unfolding sign_request signature_of
  sign_request-Recorded r db v h m =
      go (outside.resolve item.delivery.authentication.secret_ref v).0 λ x e. e
    where
      v' : W
      v' = (outside.resolve item.delivery.authentication.secret_ref v).1

      go :
          (secret : Option String)
          → ((x : Option String)
              → secret ≡ x
              → (outside.resolve item.delivery.authentication.secret_ref v).0 ≡ x)
          → Recorded outside options item w db (sign_request outside options item r secret db v')
      go none k =
          fail-Recorded other db v'
            (not_sent v' (resolved _ v m.after) (no_secret v m.after h (k none refl)))
      go (some secret) k =
          post_request-Recorded record r { signed = some s } db (outside.now v').1
            (record {
              made = record {
                after = told v' (resolved _ v m.after);
                to_destination = m.to_destination;
                to_url = m.to_url;
                of_event = m.of_event;
                with_guid = m.with_guid;
              };
              is_signed = by_hmac s h refl (record {
                secret = secret;
                asked = v;
                after = m.after;
                resolved_to = k (some secret) refl;
                at_time = refl;
                by_secret = refl;
              });
            })
        where
          s : Signature
          s = signature_of outside options item r.payload secret (outside.now v').0

  send-Recorded :
      (payload : List ℕ) (destination : String) (db : Db) (v : W)
      → After outside w v
      → outside.marshal_payload item.event ≡ some payload
      → IsDestination outside item w destination
      → Recorded outside options item w db (send outside options item payload destination db v)
  unfolding send unsigned_request
  send-Recorded payload destination db v a m d =
      elim (Bool-cases (outside.is_request_url destination)) [
        | inr e ↦
            rw (e, send) (fail-Recorded other db v (not_sent v a (no_request_url destination d e)))
        | inl e ↦ elim (Bool-cases (str_eq item.delivery.authentication.kind "")) [
          | inl z ↦
              rw (e, z, send)
                (post_request-Recorded _ db v
                  (record { made = made e; is_signed = unsigned z refl }))
          | inr z ↦ elim (Bool-cases (str_eq item.delivery.authentication.kind "hmac-sha256")) [
            | inr h ↦
                rw (e, z, h, send)
                  (fail-Recorded other db v (not_sent v a (unknown_authentication z h)))
            | inl h ↦ rw (e, z, h, send) (sign_request-Recorded _ db v h (made e))
          ]
        ]
      ]
    where
      made :
          outside.is_request_url destination ≡ true
          → IsMade outside item w (unsigned_request outside options item payload destination) v
      made e = record { after = a; to_destination = d; to_url = e; of_event = m; with_guid = refl }

  send_resolved-Recorded :
      (payload : List ℕ) (db : Db)
      → outside.marshal_payload item.event ≡ some payload
      → outside.is_reference item.delivery.destination ≡ true
      → let (destination, v) = outside.resolve item.delivery.destination w in
        Recorded outside options item w db
          (send_resolved outside options item payload destination db v)
  unfolding send_resolved
  send_resolved-Recorded payload db m f =
      go (outside.resolve item.delivery.destination w).0 λ x e. e
    where
      v : W
      v = (outside.resolve item.delivery.destination w).1

      a : After outside w v
      a = resolved _ w here

      go :
          (destination : Option String)
          → ((x : Option String)
              → destination ≡ x
              → (outside.resolve item.delivery.destination w).0 ≡ x)
          → Recorded outside options item w db
              (send_resolved outside options item payload destination db v)
      go none k = fail-Recorded other db v (not_sent v a (no_destination f (k none refl)))
      go (some destination) k = elim (Bool-cases (outside.is_webhook_url destination)) [
        | inl e ↦
            rw (e, send_resolved)
              (send-Recorded payload destination db v a m (referred f (k _ refl) e))
        | inr e ↦
            rw (e, send_resolved)
              (fail-Recorded other db v (not_sent v a (no_webhook_url destination (k _ refl) e)))
      ]

  -- Whatever the secrets, the webhook and the clock do, an attempt at a delivery records exactly one
  -- outcome for it, under the item's lease, and returns the error of recording it. It is a success only
  -- with the reply of a request for the item, by its status, which is 2xx, at the clock's time after
  -- it; otherwise the request failed, its reply was no 2xx, or nothing could be sent, and the outcome
  -- keeps the message and code of that: a retry while attempts are left, at the clock's time then with
  -- the backoff added, and the dead letter when none is. A request for the item goes to its destination,
  -- the checked URL that a reference stands for or its own, with the payload and the
  -- identifier of its event, and with the signature that its authentication asks for.
  pub deliver-Recorded :
      (db : Db) → Recorded outside options item w db (deliver outside options item db w)
  unfolding deliver deliver_payload
  deliver-Recorded db = elim (Option-cases (outside.marshal_payload item.event)) [
    | inl e ↦
        rw (deliver, e, deliver_payload) (fail-Recorded other db w (not_sent w here (no_payload e)))
    | inr (payload, e) ↦ elim (Bool-cases (outside.is_reference item.delivery.destination)) [
      | inl f ↦ rw (deliver, e, deliver_payload, f) (send_resolved-Recorded payload db e f)
      | inr f ↦
          rw (deliver, e, deliver_payload, f)
            (send-Recorded payload item.delivery.destination db w here e (direct f refl))
    ]
  ]
