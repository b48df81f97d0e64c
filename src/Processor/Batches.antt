-- ===== src/Processor/Batches.antt =====
-- What a batch holds: the events of the logs, and their deliveries.
use reddotrelay.Prelude.{
  ℕ, suc, ◌+◌, ◌≡◌, refl, ap, Bool, true, false, List, [], ◌∷◌, ◌++◌, Result, ok, err, map, length,
  any, eq_refl, ◌||◌, arith, Bool-cases, inl, inr, All, OnDone,
}
use reddotrelay.Core.{EventId, Event, Delivery, RawLog, same_id, same_id_iff}
use reddotrelay.Decoder.{Destination, DecodeError}
use reddotrelay.Store.Db.{same_delivery}
use reddotrelay.Processor.{
  ProcessError, decode_failed, route_failed, delivery_to, is_unconfigured, deliveries_of,
  decode_logs,
}

same_id_refl : (id : EventId) → same_id id id ≡ true
same_id_refl id = (same_id_iff id id).1 refl

any-append :
    {A : Type 0} (p : A → Bool) (xs ys : List A) → any p (xs ++ ys) ≡ (any p xs || any p ys)
any-append p [] ys = refl
any-append p (x ∷ xs) ys = ground (arith, any-append p xs ys)

All-append : {A : Type 0} (P : A → Type 0) (xs ys : List A) → All P xs → All P ys → All P (xs ++ ys)
All-append P [] ys h k = k
All-append P (x ∷ xs) ys h k = (h.0, All-append P xs ys h.1 k)

All-weaken :
    {A : Type 0} (P Q : A → Type 0) (xs : List A) → ((x : A) → P x → Q x) → All P xs → All Q xs
All-weaken P Q [] f h = tt
All-weaken P Q (x ∷ xs) f h = (f x h.0, All-weaken P Q xs f h.1)

-- The event is one of these.
abbrev pub OwnedBy : List Event → Delivery → Type 0
OwnedBy events d = any (same_id d.event_id) (map (λ e. e.id) events) ≡ true

module _ (decode : ℕ → RawLog → Result DecodeError Event)
    (destinations : Event → Result DecodeError (List Destination)) (clock : ℕ → ℕ) where
  -- The events of the logs that are events, in the order of the logs.
  abbrev pub decoded : List RawLog → ℕ → List Event
  decoded [] at = []
  decoded (raw ∷ logs) at = elim (decode at raw) [
    | err e ↦ decoded logs (suc at)
    | ok event ↦ event ∷ decoded logs (suc at)
  ]

  abbrev pub destinations_of : Event → List Destination
  destinations_of e = elim (destinations e) [ err x ↦ [] | ok ds ↦ ds ]

  -- The event has a delivery for each of its destinations.
  abbrev pub IsSent : List Delivery → Event → Type 0
  IsSent deliveries e =
      All (λ d. any (same_delivery e.id d.locator) deliveries ≡ true) (destinations_of e)

  -- A batch against its logs.
  pub record IsBatch (logs : List RawLog) (at : ℕ) (events : List Event)
      (deliveries : List Delivery) : Type 0 where
    pub events_decoded : events ≡ decoded logs at
    pub deliveries_owned : All (OwnedBy events) deliveries
    pub events_sent : All (IsSent deliveries) events

  own-Owned :
      (e : Event) (n : ℕ) (ds : List Destination) (es : List Event)
      → All (OwnedBy (e ∷ es)) (deliveries_of decode destinations clock e.id n ds)
  unfolding deliveries_of delivery_to
  own-Owned e n [] es = tt
  own-Owned e n (d ∷ ds) es = (rw (same_id_refl e.id) refl, own-Owned e (suc n) ds es)

  own-sent :
      (e : Event) (n : ℕ) (ds : List Destination) (rest : List Delivery)
      → All
          (λ d.
            any
              (same_delivery e.id d.locator)
              (deliveries_of decode destinations clock e.id n ds ++ rest)
            ≡ true)
          ds
  unfolding deliveries_of delivery_to same_delivery
  own-sent e n [] rest = tt
  own-sent e n (d ∷ ds) rest = (
    rw (same_id_refl e.id, eq_refl d.locator) refl,
    All-weaken _ _ ds (λ x h. ground (arith, h)) (own-sent e (suc n) ds rest),
  )

  IsSent-more : (own rest : List Delivery) (e : Event) → IsSent rest e → IsSent (own ++ rest) e
  IsSent-more own rest e h =
      All-weaken _ _ (destinations_of e)
        (λ d k. rw (any-append (same_delivery e.id d.locator) own rest) (ground (arith, k))) h

  destinations_of-ok :
      (e : Event) (ds : List Destination) → destinations e ≡ ok ds → destinations_of e ≡ ds
  destinations_of-ok e ds r = rw (r, destinations_of) refl

  IsBatch-skip :
      (raw : RawLog) (logs : List RawLog) (at : ℕ) (x : DecodeError)
      (r : Result ProcessError (List Event × List Delivery))
      → decode at raw ≡ err x
      → OnDone (λ (r : List Event × List Delivery). IsBatch logs (suc at) r.0 r.1) r
      → OnDone (λ (r : List Event × List Delivery). IsBatch (raw ∷ logs) at r.0 r.1) r
  IsBatch-skip raw logs at x (err e) d b = tt
  IsBatch-skip raw logs at x (ok (es, ds)) d b = record {
    events_decoded = rw (d, decoded) b.events_decoded;
    deliveries_owned = b.deliveries_owned;
    events_sent = b.events_sent;
  }

  IsBatch-cons :
      (raw : RawLog) (logs : List RawLog) (at n : ℕ) (e : Event) (ds : List Destination)
      (es : List Event) (rest : List Delivery)
      → decode at raw ≡ ok e
      → destinations e ≡ ok ds
      → IsBatch logs (suc at) es rest
      → IsBatch (raw ∷ logs) at (e ∷ es) (deliveries_of decode destinations clock e.id n ds ++ rest)
  IsBatch-cons raw logs at n e ds es rest d r b = record {
    events_decoded = rw (d, decoded) (ap (λ l. e ∷ l) b.events_decoded);
    deliveries_owned = All-append (OwnedBy (e ∷ es)) _ rest (own-Owned e n ds es) (
        All-weaken (OwnedBy es) (OwnedBy (e ∷ es)) rest (λ x h. ground (arith, h))
          b.deliveries_owned);
    events_sent = (
      rw (destinations_of-ok e ds r) (own-sent e n ds rest),
      All-weaken (IsSent rest) (IsSent (deliveries_of decode destinations clock e.id n ds ++ rest))
          es (λ x h. IsSent-more (deliveries_of decode destinations clock e.id n ds) rest x h)
          b.events_sent,
    );
  }

  -- Where the logs of a batch can be processed, its events are those of the logs that are events, in their
  -- order; every delivery is of one of them, and every event has a delivery for each of its destinations.
  pub decode_logs-IsBatch :
      (logs : List RawLog) (at n : ℕ)
      → OnDone
          (λ (r : List Event × List Delivery). IsBatch logs at r.0 r.1)
          (decode_logs decode destinations clock logs at n)
  unfolding decode_logs
  decode_logs-IsBatch [] at n = record {
    events_decoded = refl;
    deliveries_owned = tt;
    events_sent = tt;
  }
  decode_logs-IsBatch (raw ∷ logs) at n =
      go (decode at raw) (λ e h. h) (decode_logs-IsBatch logs (suc at) n)
        λ m. decode_logs-IsBatch logs (suc at) m
    where
      R : List Event × List Delivery → Type 0
      R r = IsBatch (raw ∷ logs) at r.0 r.1

      Rest : ℕ → Type 0
      Rest m =
          OnDone (λ (r : List Event × List Delivery). IsBatch logs (suc at) r.0 r.1)
            (decode_logs decode destinations clock logs (suc at) m)

      appended :
          (e : Event) (ds : List Destination) (r : Result ProcessError (List Event × List Delivery))
          → decode at raw ≡ ok e
          → destinations e ≡ ok ds
          → OnDone (λ (r : List Event × List Delivery). IsBatch logs (suc at) r.0 r.1) r
          → OnDone R (elim r as (λ _. Result ProcessError (List Event × List Delivery)) [
            | err x ↦ err x
            | ok (events, deliveries) ↦
                ok (e ∷ events, deliveries_of decode destinations clock e.id n ds ++ deliveries)
          ])
      appended e ds (err x) d f b = tt
      appended e ds (ok (es, rest)) d f b = IsBatch-cons raw logs at n e ds es rest d f b

      routed :
          (e : Event) (o : Result DecodeError (List Destination))
          → decode at raw ≡ ok e
          → ((ds : List Destination) → o ≡ ok ds → destinations e ≡ ok ds)
          → ((m : ℕ) → Rest m)
          → OnDone R (elim o as (λ _. Result ProcessError (List Event × List Delivery)) [
            | err x ↦ err (route_failed x)
            | ok ds ↦
                elim (decode_logs decode destinations clock logs (suc at) (n + length ds))
                  as (λ _. Result ProcessError (List Event × List Delivery)) [
                    | err x ↦ err x
                    | ok (events, deliveries) ↦ ok (
                      e ∷ events,
                      deliveries_of decode destinations clock e.id n ds ++ deliveries,
                    )
                  ]
          ])
      routed e (err x) d f rest = tt
      routed e (ok ds) d f rest = appended e ds _ d (f ds refl) (rest (n + length ds))

      skipped :
          (e : DecodeError)
          → decode at raw ≡ err e
          → Rest n
          → OnDone R
              (elim (is_unconfigured e) as (λ _. Result ProcessError (List Event × List Delivery)) [
                | true ↦ decode_logs decode destinations clock logs (suc at) n
                | false ↦ err (decode_failed e)
              ])
      skipped e d rest = elim (Bool-cases (is_unconfigured e)) [
        | inl u ↦ rw u (IsBatch-skip raw logs at e _ d rest)
        | inr u ↦ rw u tt
      ]

      go :
          (o : Result DecodeError Event)
          → ((x : Result DecodeError Event) → o ≡ x → decode at raw ≡ x)
          → Rest n
          → ((m : ℕ) → Rest m)
          → OnDone R (elim o as (λ _. Result ProcessError (List Event × List Delivery)) [
            | err e ↦
                elim (is_unconfigured e)
                  as (λ _. Result ProcessError (List Event × List Delivery)) [
                    | true ↦ decode_logs decode destinations clock logs (suc at) n
                    | false ↦ err (decode_failed e)
                  ]
            | ok e ↦
                elim (destinations e) as (λ _. Result ProcessError (List Event × List Delivery)) [
                  | err x ↦ err (route_failed x)
                  | ok ds ↦
                      elim (decode_logs decode destinations clock logs (suc at) (n + length ds))
                        as (λ _. Result ProcessError (List Event × List Delivery)) [
                          | err x ↦ err x
                          | ok (events, deliveries) ↦ ok (
                            e ∷ events,
                            deliveries_of decode destinations clock e.id n ds ++ deliveries,
                          )
                        ]
                ]
          ])
      go (err e) k rest all = skipped e (k (err e) refl) rest
      go (ok e) k rest all = routed e (destinations e) (k (ok e) refl) (λ ds f. f) all
