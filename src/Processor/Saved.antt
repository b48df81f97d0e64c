-- ===== src/Processor/Saved.antt =====
-- What becomes of a batch in the store, and of the errors that would be the processor's own.
use reddotrelay.Prelude.{
  ℕ, suc, ◌+◌, ◌≡◌, refl, Bool, true, false, List, [], ◌∷◌, ◌++◌, Option, none, some, String,
  Result, ok, err, length, All, OnDone, Bool-cases, inl, inr, any, All-map, subst, ◌⊎◌,
}
use reddotrelay.Core.{EventId, Event, Delivery, RawLog, Checkpoint, CanonicalBlock}
use reddotrelay.Decoder.{
  Destination, DecodeError, Eth, Contract, ContractSpec, load, decode, destinations,
}
use reddotrelay.Decoder.Routes.{AbiIsHashed}
use reddotrelay.Decoder.Routed.{IsSound, HasRoute, decode-HasRoute}
use reddotrelay.Store.Db.{Db, StoreError, OnOk, has_id, same_delivery, same_delivery-eq}
use reddotrelay.Store.Events.{save_batch}
use reddotrelay.Store.Events.Owned.{
  is_orphan, NoOrphan, OnRefused, save_batch-NoOrphan, save_batch-rolls_back,
}
use reddotrelay.Store.Events.Idempotent.{IsStored}
use reddotrelay.Store.Events.Stored.{Sent, save_batch-Stored}
use reddotrelay.Store.Events.Keys.{save_batch-IsValid}
use reddotrelay.Store.Events.Progress.{Advanced, save_batch-Advanced}
use reddotrelay.Store.Invariant.{IsValid}
use reddotrelay.Processor.{
  ProcessError, decode_failed, route_failed, persist_failed, is_unconfigured, deliveries_of,
  decode_logs, process,
}
use reddotrelay.Processor.Batches.{IsBatch, IsSent, decoded, destinations_of, decode_logs-IsBatch}

-- The errors that would be the processor's own: an event without a route, or a delivery without an event.
unfoldable pub is_own_fault : ProcessError → Bool
is_own_fault (decode_failed e) = false
is_own_fault (route_failed e) = true
is_own_fault (persist_failed e) = is_orphan e

-- Of a result that is an error, it is another one.
abbrev pub NoFault : {A : Type 0} → Result ProcessError A → Type 0
NoFault (ok a) = Unit
NoFault (err e) = is_own_fault e ≡ false

module _ (decode : ℕ → RawLog → Result DecodeError Event)
    (destinations : Event → Result DecodeError (List Destination)) (clock : ℕ → ℕ) where
  decode_logs-NoFault :
      ((at : ℕ) (raw : RawLog)
        → OnDone (λ e. (ds : List Destination) × (destinations e ≡ ok ds)) (decode at raw))
      → (logs : List RawLog) (at n : ℕ) → NoFault (decode_logs decode destinations clock logs at n)
  unfolding decode_logs is_own_fault
  decode_logs-NoFault routed [] at n = tt
  decode_logs-NoFault routed (raw ∷ logs) at n =
      go (decode at raw) (routed at raw) λ m. decode_logs-NoFault routed logs (suc at) m
    where
      rest_of :
          (e : Event) (ds : List Destination) (r : Result ProcessError (List Event × List Delivery))
          → NoFault r
          → NoFault (elim r as (λ _. Result ProcessError (List Event × List Delivery)) [
            | err x ↦ err x
            | ok (events, deliveries) ↦
                ok (e ∷ events, deliveries_of decode destinations clock e.id n ds ++ deliveries)
          ])
      rest_of e ds (err x) h = h
      rest_of e ds (ok r) h = tt

      go :
          (o : Result DecodeError Event)
          → OnDone (λ e. (ds : List Destination) × (destinations e ≡ ok ds)) o
          → ((m : ℕ) → NoFault (decode_logs decode destinations clock logs (suc at) m))
          → NoFault (elim o as (λ _. Result ProcessError (List Event × List Delivery)) [
            | err e ↦
                elim (is_unconfigured e)
                  as (λ _. Result ProcessError (List Event × List Delivery)) [
                    | true ↦ decode_logs decode destinations clock logs (suc at) n
                    | false ↦ err (decode_failed e)
                  ]
            | ok e ↦
                elim (destinations e) as (λ _. Result ProcessError (List Event × List Delivery)) [
                  | err x ↦ err (route_failed x)
                  | ok ds ↦
                      elim (decode_logs decode destinations clock logs (suc at) (n + length ds))
                        as (λ _. Result ProcessError (List Event × List Delivery)) [
                          | err x ↦ err x
                          | ok (events, deliveries) ↦ ok (
                            e ∷ events,
                            deliveries_of decode destinations clock e.id n ds ++ deliveries,
                          )
                        ]
                ]
          ])
      go (err e) h all = elim (Bool-cases (is_unconfigured e)) [
        | inl u ↦ rw u (all n)
        | inr u ↦ rw u refl
      ]
      go (ok e) h all = rw h.1 (rest_of e h.0 _ (all (n + length h.0)))

  -- A batch of logs that is saved whole: each event of the logs is stored, with its content, and has a
  -- delivery for each of its destinations, unless it was there before; the tables are valid and
  -- the checkpoint of the chain has reached the batch's.
  pub record IsSaved (logs : List RawLog) (c : Checkpoint) (db db' : Db) : Type 0 where
    pub valid : IsValid db'
    pub advanced : Advanced c db.checkpoints db'.checkpoints
    pub stored : All (IsStored db'.events) (decoded decode destinations clock logs 0)
    pub sent :
        All
          (λ e.
            All
              (λ d.
                (any (has_id e.id) db.events ≡ true)
                ⊎ (any (same_delivery e.id d.locator) db'.deliveries ≡ true))
              (destinations_of decode destinations clock e))
          (decoded decode destinations clock logs 0)

  -- What the store makes of a batch.
  abbrev pub Saved : List RawLog → Checkpoint → Db → Result ProcessError (Unit {0}) × Db → Type 0
  Saved logs c db (ok u, db') = IsSaved logs c db db'
  Saved logs c db (err e, db') = db' ≡ db

  Sent-row :
      (old : List Event) (rows : List Delivery) (id : EventId) (locator : String)
      (ds : List Delivery)
      → All (Sent old rows) ds
      → any (same_delivery id locator) ds ≡ true
      → (any (has_id id) old ≡ true) ⊎ (any (same_delivery id locator) rows ≡ true)
  Sent-row old rows id locator [] s h = cc
  Sent-row old rows id locator (d ∷ ds) s h = elim (Bool-cases (same_delivery id locator d)) [
    | inr e ↦ Sent-row old rows id locator ds s.1 (rw e at h)
    | inl e ↦ let (i, l) = same_delivery-eq id locator d e in rw (i, l) s.0
  ]

  module _ (logs : List RawLog) (c : Checkpoint) (db : Db) (v : IsValid db) (es : List Event)
      (ds : List Delivery) (b : IsBatch decode destinations clock logs 0 es ds) where
    whole :
        (db' : Db)
        → IsValid db'
        → Advanced c db.checkpoints db'.checkpoints
        → All (IsStored db'.events) es × All (Sent db.events db'.deliveries) ds
        → IsSaved logs c db db'
    whole db' w a s = record {
      valid = w;
      advanced = a;
      stored = subst (All (IsStored db'.events)) b.events_decoded s.0;
      sent = subst (All sent_to) b.events_decoded (
          All-map (IsSent decode destinations clock ds) sent_to
            (λ e h.
              All-map (λ d. any (same_delivery e.id d.locator) ds ≡ true) (one_sent e)
                (λ d k. Sent-row db.events db'.deliveries e.id d.locator ds s.1 k)
                (destinations_of decode destinations clock e) h)
            es b.events_sent);
    }
      where
        one_sent : Event → Destination → Type 0
        one_sent e d =
            (any (has_id e.id) db.events ≡ true)
            ⊎ (any (same_delivery e.id d.locator) db'.deliveries ≡ true)

        sent_to : Event → Type 0
        sent_to e = All (one_sent e) (destinations_of decode destinations clock e)

    finished :
        (r : Result StoreError (Unit {0}) × Db)
        → IsValid r.1
        → OnOk (λ _ db'. Advanced c db.checkpoints db'.checkpoints) r
        → OnOk (λ _ db'. All (IsStored db'.events) es × All (Sent db.events db'.deliveries) ds) r
        → OnRefused (λ db'. db' ≡ db) r
        → Saved logs c db (elim r.0 as (λ _. Result ProcessError (Unit {0}) × Db) [
          | ok u ↦ (ok u, r.1)
          | err e ↦ (err (persist_failed e), r.1)
        ])
    finished (ok u, db') w a s x = whole db' w a s
    finished (err e, db') w a s x = x

    saved :
        (bs' : List CanonicalBlock) (keep : ℕ)
        → Saved logs c db
            (elim (save_batch es ds bs' c keep db).0 as (λ _. Result ProcessError (Unit {0}) × Db) [
              | ok u ↦ (ok u, (save_batch es ds bs' c keep db).1)
              | err e ↦ (err (persist_failed e), (save_batch es ds bs' c keep db).1)
            ])
    saved bs' keep =
        finished (save_batch es ds bs' c keep db) (save_batch-IsValid es ds bs' c keep db v)
          (save_batch-Advanced es ds bs' c keep db) (save_batch-Stored es ds bs' c keep db)
          (save_batch-rolls_back es ds bs' c keep db)

  -- A batch is saved whole or not at all. Where processing succeeds, every event of the logs has a row
  -- of its content, and each destination of an event that was not in the table before has its
  -- delivery; the tables are valid and the checkpoint of the chain has reached the batch's. Where it
  -- fails the tables are as they were. The tables are valid before.
  pub process-Saved :
      (logs : List RawLog) (blocks : Option (List CanonicalBlock)) (c : Checkpoint) (retain : ℕ)
      (db : Db)
      → IsValid db
      → Saved logs c db (process decode destinations clock logs blocks c retain db)
  unfolding process
  process-Saved logs blocks c retain db v =
      go blocks (decode_logs decode destinations clock logs 0 0)
        (decode_logs-IsBatch decode destinations clock logs 0 0)
    where
      go :
          (blocks : Option (List CanonicalBlock))
          (r : Result ProcessError (List Event × List Delivery))
          → OnDone
              (λ (r : List Event × List Delivery). IsBatch decode destinations clock logs 0 r.0 r.1)
              r
          → Saved logs c db (elim r as (λ _. Result ProcessError (Unit {0}) × Db) [
            | err e ↦ (err e, db)
            | ok (events, deliveries) ↦
                let s = elim blocks as (λ _. Result StoreError (Unit {0}) × Db) [
                  | some bs ↦ save_batch events deliveries bs c retain db
                  | none ↦ save_batch events deliveries [] c 0 db
                ] in
                elim s.0 as (λ _. Result ProcessError (Unit {0}) × Db) [
                  | ok u ↦ (ok u, s.1)
                  | err e ↦ (err (persist_failed e), s.1)
                ]
          ])
      go blocks (err e) b = refl
      go (some bs) (ok (es, ds)) b = saved logs c db v es ds b bs retain
      go none (ok (es, ds)) b = saved logs c db v es ds b [] 0

  refused :
      (r : Result StoreError (Unit {0}) × Db)
      → NoOrphan r.0
      → NoFault
          (elim r.0 as (λ _. Result ProcessError (Unit {0}) × Db) [
            | ok u ↦ (ok u, r.1)
            | err e ↦ (err (persist_failed e), r.1)
          ]).0
  unfolding is_own_fault
  refused (ok u, db') h = tt
  refused (err e, db') h = h

  process-NoFault :
      ((at : ℕ) (raw : RawLog)
        → OnDone (λ e. (ds : List Destination) × (destinations e ≡ ok ds)) (decode at raw))
      → (logs : List RawLog) (blocks : Option (List CanonicalBlock)) (c : Checkpoint) (retain : ℕ)
        (db : Db)
      → NoFault (process decode destinations clock logs blocks c retain db).0
  unfolding process
  process-NoFault routed logs blocks c retain db =
      go blocks (decode_logs decode destinations clock logs 0 0)
        (decode_logs-NoFault routed logs 0 0)
        (decode_logs-IsBatch decode destinations clock logs 0 0)
    where
      go :
          (blocks : Option (List CanonicalBlock))
          (r : Result ProcessError (List Event × List Delivery))
          → NoFault r
          → OnDone
              (λ (r : List Event × List Delivery). IsBatch decode destinations clock logs 0 r.0 r.1)
              r
          → NoFault
              (elim r as (λ _. Result ProcessError (Unit {0}) × Db) [
                | err e ↦ (err e, db)
                | ok (events, deliveries) ↦
                    let s = elim blocks as (λ _. Result StoreError (Unit {0}) × Db) [
                      | some bs ↦ save_batch events deliveries bs c retain db
                      | none ↦ save_batch events deliveries [] c 0 db
                    ] in
                    elim s.0 as (λ _. Result ProcessError (Unit {0}) × Db) [
                      | ok u ↦ (ok u, s.1)
                      | err e ↦ (err (persist_failed e), s.1)
                    ]
              ]).0
      go blocks (err e) h b = h
      go (some bs) (ok (es, ds)) h b =
          refused (save_batch es ds bs c retain db)
            (save_batch-NoOrphan es ds bs c retain db b.deliveries_owned)
      go none (ok (es, ds)) h b =
          refused (save_batch es ds [] c 0 db)
            (save_batch-NoOrphan es ds [] c 0 db b.deliveries_owned)

-- With a decoder that `Load` has made, processing fails only because a log does not decode or the store
-- refuses the batch: no event is without a route, and no delivery without its event. It rests on what
-- go-ethereum documents of addresses and of an event's identifier.
pub process-decoder :
    {V : Type 0} (eth : Eth V) (keccak : String → ℕ) (specs : List ContractSpec)
    (contracts : List (ℕ × Contract)) (clock : ℕ → ℕ) (logs : List RawLog)
    (blocks : Option (List CanonicalBlock)) (c : Checkpoint) (retain : ℕ) (db : Db)
    → IsSound eth
    → All (AbiIsHashed keccak) specs
    → load eth specs ≡ ok contracts
    → NoFault
        (process
          (λ at raw. decode eth contracts (clock at) raw)
          (destinations eth contracts)
          clock
          logs
          blocks
          c
          retain
          db).0
process-decoder eth keccak specs contracts clock logs blocks c retain db s h l =
    process-NoFault (λ at raw. decode eth contracts (clock at) raw) (destinations eth contracts)
      clock
      (λ at raw.
        routed (decode eth contracts (clock at) raw)
          (decode-HasRoute eth keccak specs contracts (clock at) raw s h l))
      logs blocks c retain db
  where
    routed :
        (r : Result DecodeError Event)
        → OnDone (HasRoute eth contracts) r
        → OnDone (λ e. (ds : List Destination) × (destinations eth contracts e ≡ ok ds)) r
    routed (err e) h = tt
    routed (ok e) h = (h.to, h.routed)
