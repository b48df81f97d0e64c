-- ===== src/Decoder/Routed.antt =====
-- An event that has been decoded is sent somewhere.
use reddotrelay.Prelude.{
  ℕ, ◌<◌, ◌^◌, ◌≡◌, ◌∙◌, ap, refl, subst, true, List, [], ◌∷◌, Option, none, some, String, Result,
  ok, err, arith, Bool-cases, inl, inr, All, length, OnDone,
}
use reddotrelay.Core.{Event, RawLog}
use reddotrelay.Decoder.{
  Destination, Eth, ConfiguredEvent, Contract, ContractSpec, DecodeError, lookup, route_of,
  is_hash_topic, load, decode_payload, decoded_event, decode_configured, decode, destinations,
  unconfigured_event, no_route,
}
use reddotrelay.Decoder.Routes.{
  AbiIsHashed, Routed, Indexed, AllIndexed, lookup-All, load_from-Indexed,
}

-- What go-ethereum documents of addresses: they have 160 bits, and reading back what is written gives
-- the address.
pub record IsSound {V : Type 0} (eth : Eth V) : Type 0 where
  pub in_range : (s : String) → eth.hex_to_address s < 2 ^ 160
  pub valid : (a : ℕ) → a < 2 ^ 160 → eth.is_hex_address (eth.address_hex a) ≡ true
  pub read_back : (a : ℕ) → a < 2 ^ 160 → eth.hex_to_address (eth.address_hex a) ≡ a

module _ {V : Type 0} (eth : Eth V) where
  -- The event has destinations.
  pub record HasRoute (contracts : List (ℕ × Contract)) (e : Event) : Type 0 where
    pub to : List Destination
    pub routed : destinations eth contracts e ≡ ok to
    pub some_destination : 0 < length to

  module _ (keccak : String → ℕ) (contract : Contract)
      (events : All (λ e. Routed keccak contract.routes e.0 e.1) contract.events) where
    -- Of an event of the contract: its address, and its route.
    record OfContract (e : Event) : Type 0 where
      to : List Destination
      address : e.address ≡ eth.address_hex contract.address
      route : route_of e.signature contract.routes ≡ some to
      some_destination : 0 < length to

    decode_configured-OfContract :
        (now : ℕ) (raw : RawLog) (topics : List String)
        → OnDone OfContract (decode_configured eth contract now raw topics)
    unfolding decode_configured decoded_event
    decode_configured-OfContract now raw [] = tt
    decode_configured-OfContract now raw (topic ∷ topics) =
        elim (Bool-cases (is_hash_topic topic)) [
          | inr n ↦ rw n tt
          | inl y ↦ rw y (
              go (lookup (eth.hex_to_hash topic) contract.events) λ c e.
                lookup-All (Routed keccak contract.routes) (eth.hex_to_hash topic) contract.events c
                  events e)
        ]
      where
        decoded :
            (k : ℕ) (c : ConfiguredEvent) (r : Result DecodeError (List ℕ))
            → Routed keccak contract.routes k c
            → OnDone OfContract (elim r as (λ _. Result DecodeError Event) [
              | err e ↦ err e
              | ok payload ↦ ok (decoded_event eth raw contract c.abi now payload)
            ])
        decoded k c (err e) w = tt
        decoded k c (ok payload) w = record {
          to = c.destinations;
          address = refl;
          route = w.route;
          some_destination = w.some_destination;
        }

        go :
            (o : Option ConfiguredEvent)
            → ((c : ConfiguredEvent)
                → o ≡ some c
                → Routed keccak contract.routes (eth.hex_to_hash topic) c)
            → OnDone OfContract (elim o as (λ _. Result DecodeError Event) [
              | none ↦ err unconfigured_event
              | some c ↦
                  elim (decode_payload eth c.abi topics raw.content)
                    as (λ _. Result DecodeError Event) [
                      | err e ↦ err e
                      | ok payload ↦ ok (decoded_event eth raw contract c.abi now payload)
                    ]
            ])
        go none k = tt
        go (some c) k =
            decoded (eth.hex_to_hash topic) c (decode_payload eth c.abi topics raw.content)
              (k c refl)

    -- Its route is found.
    OfContract-HasRoute :
        (contracts : List (ℕ × Contract)) (k : ℕ) (e : Event)
        → IsSound eth
        → k < 2 ^ 160
        → contract.address ≡ k
        → lookup k contracts ≡ some contract
        → OfContract e
        → HasRoute contracts e
    unfolding destinations
    OfContract-HasRoute contracts k e s b a f o = record {
      to = o.to;
      routed = rw (readable, found, o.route) (nonempty o.to o.some_destination);
      some_destination = o.some_destination;
    }
      where
        written : e.address ≡ eth.address_hex k
        written = o.address ∙ ap eth.address_hex a

        readable : eth.is_hex_address e.address ≡ true
        readable = rw written (s.valid k b)

        found : lookup (eth.hex_to_address e.address) contracts ≡ some contract
        found = rw (written, s.read_back k b) f

        nonempty :
            (to : List Destination)
            → 0 < length to
            → elim to as (λ _. Result DecodeError (List Destination)) [
              | [] ↦ err no_route
              | d ∷ ds ↦ ok (d ∷ ds)
            ]
              ≡ ok to
        nonempty [] p = absurd (omega (arith, p))
        nonempty (d ∷ ds) p = refl

  -- An event that a loaded decoder decodes has destinations, at least one: `Destinations` fails for none.
  -- It rests on what go-ethereum documents of addresses, and of an event's identifier, which it computes
  -- from the signature.
  pub decode-HasRoute :
      (keccak : String → ℕ) (specs : List ContractSpec) (contracts : List (ℕ × Contract)) (now : ℕ)
      (raw : RawLog)
      → IsSound eth
      → All (AbiIsHashed keccak) specs
      → load eth specs ≡ ok contracts
      → OnDone (HasRoute contracts) (decode eth contracts now raw)
  unfolding decode load
  decode-HasRoute keccak specs contracts now raw s h l =
      elim (Bool-cases (eth.is_hex_address raw.address)) [
        | inr n ↦ rw n tt
        | inl y ↦ rw y (
            go (lookup k contracts) λ c e. (lookup-All (Indexed keccak) k contracts c indexed e, e))
      ]
    where
      k : ℕ
      k = eth.hex_to_address raw.address

      indexed : AllIndexed keccak contracts
      indexed = subst (OnDone (AllIndexed keccak)) l (load_from-Indexed keccak eth specs [] h tt)

      of_contract :
          (c : Contract) (i : Indexed keccak k c)
          → lookup k contracts ≡ some c
          → (r : Result DecodeError Event) → OnDone (OfContract keccak c i.routed) r
          → OnDone (HasRoute contracts) r
      of_contract c i e (err x) o = tt
      of_contract c i e (ok event) o =
          OfContract-HasRoute keccak c i.routed contracts k event s (s.in_range raw.address)
            i.address e o

      go :
          (o : Option Contract)
          → ((c : Contract) → o ≡ some c → Indexed keccak k c × (lookup k contracts ≡ some c))
          → OnDone (HasRoute contracts) (elim o as (λ _. Result DecodeError Event) [
            | none ↦ err unconfigured_event
            | some c ↦ decode_configured eth c now raw raw.topics
          ])
      go none f = tt
      go (some c) f =
          of_contract c (f c refl).0 (f c refl).1 (decode_configured eth c now raw raw.topics)
            (decode_configured-OfContract keccak c (f c refl).0.routed now raw raw.topics)
