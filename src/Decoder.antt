-- ===== src/Decoder.antt =====
-- internal/decoder/decoder.go: `Load`, `Decode` and `Destinations`.
--
-- go-ethereum is a parameter, `Eth`: its addresses and hashes are numbers, a parsed ABI is the list of
-- its events in the order in which the map gives them. A Go map is an association list here. Reading an
-- ABI file, and the conversion of decoded values to JSON, are parameters too.
pub mod Routes
pub mod Routed
pub mod Tests
use reddotrelay.Prelude.{
  ℕ, ◌+◌, ◌-◌, Bool, true, false, not, ◌&&◌, ◌||◌, List, [], ◌∷◌, Option, none, some, String, len,
  slice, starts_with, Result, ok, err, ◌==◌, str_eq, if◌then◌else◌, find?, any, select, map, length,
}
use reddotrelay.Core.{EventId, Event, RawLog, WebhookAuthentication}

-- `core.WebhookDestination`
pub record Destination : Type 0 where
  pub locator : String
  pub authentication : WebhookAuthentication

-- `abi.Argument` and `abi.Event`, as far as they are read.
pub record Argument : Type 0 where
  pub name : String
  pub indexed : Bool

pub record AbiEvent : Type 0 where
  pub id : ℕ
  pub raw_name : String
  pub sig : String
  pub anonymous : Bool
  pub inputs : List Argument

-- What go-ethereum and encoding/json do.
pub record Eth (V : Type 0) : Type 0 where
  pub is_hex_address : String → Bool
  pub hex_to_address : String → ℕ
  pub address_hex : ℕ → String
  pub hex_to_hash : String → ℕ
  pub unpack : List Argument → List ℕ → Option (List V)
  pub parse_topics : List Argument → List ℕ → Option (List (String × V))
  pub marshal : List (String × V) → Option (List ℕ)
  -- fmt.Sprintf("_%d", position)
  pub position_name : ℕ → String

pub record EventSpec : Type 0 where
  pub selector : String
  pub destinations : List Destination

pub record ConfiguredEvent : Type 0 where
  pub abi : AbiEvent
  pub destinations : List Destination

-- `contract`, with its maps.
pub record Contract : Type 0 where
  pub address : ℕ
  pub events : List (ℕ × ConfiguredEvent)
  pub routes : List (String × List Destination)

pub record ContractSpec : Type 0 where
  pub address : String
  -- What `loadABI` gives.
  pub abi : Option (List AbiEvent)
  pub events : List EventSpec

pub data LoadError : Type 0 where
  no_selector no_destinations anonymous_event selected_twice selector_not_found
        invalid_contract_address duplicate_contract bad_abi :
      LoadError

pub data DecodeError : Type 0 where
  unconfigured_event invalid_address invalid_signature_topic bad_data topic_count invalid_topic
        bad_indexed_fields bad_payload no_route :
      DecodeError

-- A map's entry.
abbrev pub lookup : {A : Type 0} → ℕ → List (ℕ × A) → Option A
lookup k [] = none
lookup k ((j, a) ∷ m) = if k == j then some a else lookup k m

abbrev pub route_of : String → List (String × List Destination) → Option (List Destination)
route_of sig [] = none
route_of sig ((s, ds) ∷ m) = if str_eq sig s then some ds else route_of sig m

-- The two maps that `selectEvents` fills.
pub record Selected : Type 0 where
  pub events : List (ℕ × ConfiguredEvent)
  pub routes : List (String × List Destination)

unfoldable pub is_selected_by : EventSpec → AbiEvent → Bool
is_selected_by spec e = str_eq spec.selector e.raw_name || str_eq spec.selector e.sig

-- The inner loop of `selectEvents`, with whether an event has matched.
unfoldable pub select_matching :
    EventSpec → List AbiEvent → Selected → Bool → Result LoadError (Selected × Bool)
select_matching spec [] s matched = ok (s, matched)
select_matching spec (e ∷ es) s matched = elim (is_selected_by spec e) [
  | false ↦ select_matching spec es s matched
  | true ↦ elim e.anonymous [
    | true ↦ err anonymous_event
    | false ↦ elim (lookup e.id s.events) [
      | some c ↦ err selected_twice
      | none ↦
          select_matching spec es
            (record {
              events = (e.id, record { abi = e; destinations = spec.destinations }) ∷ s.events;
              routes = (e.sig, spec.destinations) ∷ s.routes;
            })
            true
    ]
  ]
]

-- The outer loop.
unfoldable pub select_specs : List AbiEvent → List EventSpec → Selected → Result LoadError Selected
select_specs parsed [] s = ok s
select_specs parsed (spec ∷ specs) s = elim spec.destinations [
  | [] ↦ err no_destinations
  | d ∷ ds ↦ elim (select_matching spec parsed s false) [
    | err e ↦ err e
    | ok (s', false) ↦ err selector_not_found
    | ok (s', true) ↦ select_specs parsed specs s'
  ]
]

-- `selectEvents`
unfoldable pub select_events : List AbiEvent → List EventSpec → Result LoadError Selected
select_events parsed [] = err no_selector
select_events parsed (spec ∷ specs) =
    select_specs parsed (spec ∷ specs) (record { events = []; routes = [] })

-- strings.TrimPrefix(topic, "0x"), and whether 64 digits are left
unfoldable pub is_hash_topic : String → Bool
is_hash_topic topic =
    len (if starts_with topic "0x" then slice topic 2 (len topic) else topic) == 64

module _ {V : Type 0} (eth : Eth V) where
  -- The body of the loop of `Load`, with the address and the ABI.
  unfoldable pub load_contract :
      ContractSpec → List (ℕ × Contract) → Result LoadError (List (ℕ × Contract))
  load_contract spec contracts =
      if not (eth.is_hex_address spec.address)
      then err invalid_contract_address
      else elim (lookup (eth.hex_to_address spec.address) contracts) [
        | some c ↦ err duplicate_contract
        | none ↦ elim spec.abi [
          | none ↦ err bad_abi
          | some parsed ↦ elim (select_events parsed spec.events) [
            | err e ↦ err e
            | ok s ↦
                let address = eth.hex_to_address spec.address in
                ok (
                  (address, record { address = address; events = s.events; routes = s.routes })
                  ∷ contracts)
          ]
        ]
      ]

  unfoldable pub load_from :
      List ContractSpec → List (ℕ × Contract) → Result LoadError (List (ℕ × Contract))
  load_from [] contracts = ok contracts
  load_from (spec ∷ specs) contracts = elim (load_contract spec contracts) [
    | err e ↦ err e
    | ok contracts' ↦ load_from specs contracts'
  ]

  -- `Load`
  unfoldable pub load : List ContractSpec → Result LoadError (List (ℕ × Contract))
  load specs = load_from specs []

  unfoldable pub argument_name : String → ℕ → String
  argument_name name position = if str_eq name "" then eth.position_name position else name

  -- The values of the arguments that are not indexed, in their order, from the position on.
  unfoldable pub name_values : List Argument → ℕ → List V → List (String × V)
  name_values [] i vs = []
  name_values (a ∷ args) i [] = []
  name_values (a ∷ args) i (v ∷ vs) = elim a.indexed [
    | true ↦ name_values args (i + 1) (v ∷ vs)
    | false ↦ (argument_name a.name i, v) ∷ name_values args (i + 1) vs
  ]

  -- The indexed arguments, with their names.
  unfoldable pub indexed_arguments : List Argument → ℕ → List Argument
  indexed_arguments [] i = []
  indexed_arguments (a ∷ args) i =
      let rest = indexed_arguments args (i + 1) in
      if a.indexed then record a { name = argument_name a.name i } ∷ rest else rest

  -- The loop over the topics after the first.
  unfoldable pub topic_hashes : List String → Option (List ℕ)
  topic_hashes [] = some []
  topic_hashes (t ∷ ts) = elim (is_hash_topic t) [
    | false ↦ none
    | true ↦ elim (topic_hashes ts) [ none ↦ none | some hs ↦ some (eth.hex_to_hash t ∷ hs) ]
  ]

  -- A value is put into the map of the values under its name.
  unfoldable pub put_value : List (String × V) → List (String × V) → List (String × V)
  put_value [] m = m
  put_value ((k, v) ∷ kvs) m = put_value kvs ((k, v) ∷ select (λ e. not (str_eq k e.0)) m)

  -- The values of an event's fields, as JSON.
  unfoldable pub decode_payload : AbiEvent → List String → List ℕ → Result DecodeError (List ℕ)
  decode_payload e topics content =
      elim (eth.unpack (select (λ a. not a.indexed) e.inputs) content) [
        | none ↦ err bad_data
        | some values ↦
            let indexed = indexed_arguments e.inputs 0 in
            if not (length topics == length indexed)
            then err topic_count
            else elim (topic_hashes topics) [
              | none ↦ err invalid_topic
              | some hashes ↦ elim (eth.parse_topics indexed hashes) [
                | none ↦ err bad_indexed_fields
                | some fields ↦
                    elim (eth.marshal
                      (put_value fields (put_value (name_values e.inputs 0 values) []))) [
                        | none ↦ err bad_payload
                        | some payload ↦ ok payload
                      ]
              ]
            ]
      ]

  -- The event of a log whose first topic has been found.
  unfoldable pub decoded_event : RawLog → Contract → AbiEvent → ℕ → List ℕ → Event
  decoded_event raw contract e now payload = record {
    id = record {
      chain_id = raw.chain_id;
      transaction_hash = raw.transaction_hash;
      log_index = raw.log_index;
    };
    block_number = raw.block_number;
    block_hash = raw.block_hash;
    address = eth.address_hex contract.address;
    name = e.raw_name;
    signature = e.sig;
    raw_topics = raw.topics;
    raw_data = raw.content;
    decoded_payload = payload;
    observed_at = now;
  }

  -- `Decode` for a contract that is configured, with the log's topics.
  unfoldable pub decode_configured : Contract → ℕ → RawLog → List String → Result DecodeError Event
  decode_configured contract now raw [] = err unconfigured_event
  decode_configured contract now raw (topic ∷ topics) =
      if not (is_hash_topic topic)
      then err invalid_signature_topic
      else elim (lookup (eth.hex_to_hash topic) contract.events) [
        | none ↦ err unconfigured_event
        | some c ↦ elim (decode_payload c.abi topics raw.content) [
          | err e ↦ err e
          | ok payload ↦ ok (decoded_event raw contract c.abi now payload)
        ]
      ]

  -- `Decode`
  unfoldable pub decode : List (ℕ × Contract) → ℕ → RawLog → Result DecodeError Event
  decode contracts now raw =
      if not (eth.is_hex_address raw.address)
      then err invalid_address
      else elim (lookup (eth.hex_to_address raw.address) contracts) [
        | none ↦ err unconfigured_event
        | some contract ↦ decode_configured contract now raw raw.topics
      ]

  -- `Destinations`
  unfoldable pub destinations : List (ℕ × Contract) → Event → Result DecodeError (List Destination)
  destinations contracts event =
      if not (eth.is_hex_address event.address)
      then err invalid_address
      else elim (lookup (eth.hex_to_address event.address) contracts) [
        | none ↦ err unconfigured_event
        | some contract ↦ elim (route_of event.signature contract.routes) [
          | none ↦ err no_route
          | some [] ↦ err no_route
          | some (d ∷ ds) ↦ ok (d ∷ ds)
        ]
      ]
