-- ===== src/Decoder/Routes.antt =====
-- Every event that a loaded decoder decodes has a route.
use reddotrelay.Prelude.{
  ℕ, ◌<◌, ◌≡◌, refl, sym, subst, ap, ◌∙◌, Bool, true, false, List, [], ◌∷◌, Option, none, some,
  String, Result, ok, err, ◌==◌, str_eq, eq_iff, eq_refl, arith, Bool-cases, inl, inr, All, length,
  OnDone,
}
use reddotrelay.Decoder.{
  Destination, AbiEvent, Eth, EventSpec, ConfiguredEvent, Contract, ContractSpec, LoadError, lookup,
  route_of, Selected, is_selected_by, select_matching, select_specs, select_events, load_contract,
  load_from, selected_twice, selector_not_found, no_destinations, bad_abi, duplicate_contract,
}

module _ {A : Type 0} where
  -- What holds of a map's entries holds of one that is found.
  pub lookup-All :
      (P : ℕ → A → Type 0) (k : ℕ) (m : List (ℕ × A)) (a : A)
      → All (λ e. P e.0 e.1) m
      → lookup k m ≡ some a
      → P k a
  lookup-All P k [] a h e = cc
  lookup-All P k ((j, b) ∷ m) a h e = elim (Bool-cases (k == j)) [
    | inr n ↦ lookup-All P k m a h.1 (rw n at e)
    | inl s ↦ subst (λ j. P j a) (sym (same s)) (subst (P j) (some_eq (rw s at e)) h.0)
  ]
    where
      same : (k == j) ≡ true → k ≡ j
      same s = ground arith

      some_eq : {x y : A} → some x ≡ some y → x ≡ y
      some_eq e = cc

  lookup-none : (k : ℕ) (m : List (ℕ × A)) → lookup k m ≡ none → All (λ e. (k == e.0) ≡ false) m
  lookup-none k [] e = tt
  lookup-none k ((j, b) ∷ m) e = ground (arith, lookup-none k m)

-- go-ethereum makes the identifier of an event from its signature.
abbrev pub IsHashed : (String → ℕ) → List AbiEvent → Type 0
IsHashed keccak events = All (λ e. e.id ≡ keccak e.sig) events

abbrev pub AbiIsHashed : (String → ℕ) → ContractSpec → Type 0
AbiIsHashed keccak spec = elim spec.abi [ none ↦ Unit | some parsed ↦ IsHashed keccak parsed ]

module _ (keccak : String → ℕ) where
  -- An entry of the selected events has its own route, which is not empty.
  pub record Routed (routes : List (String × List Destination)) (k : ℕ) (c : ConfiguredEvent)
      : Type 0 where
    pub key : k ≡ keccak c.abi.sig
    pub route : route_of c.abi.sig routes ≡ some c.destinations
    pub some_destination : 0 < length c.destinations

  abbrev pub IsRouted : Selected → Type 0
  IsRouted s = All (λ e. Routed s.routes e.0 e.1) s.events

  -- A new event's route hides no other event's.
  route-kept :
      (e : AbiEvent) (ds : List Destination) (routes : List (String × List Destination)) (k : ℕ)
      (c : ConfiguredEvent)
      → e.id ≡ keccak e.sig
      → (e.id == k) ≡ false
      → Routed routes k c
      → Routed ((e.sig, ds) ∷ routes) k c
  route-kept e ds routes k c h n r = record {
    key = r.key;
    route = elim (Bool-cases (str_eq c.abi.sig e.sig)) [
      | inr d ↦ rw d r.route
      | inl s ↦ absurd (clash (ap keccak ((eq_iff c.abi.sig e.sig).0 s)))
    ];
    some_destination = r.some_destination;
  }
    where
      clash : keccak c.abi.sig ≡ keccak e.sig → ⊥
      clash s = let i = r.key ∙ s ∙ sym h in ground (arith, i)

  routes-kept :
      (e : AbiEvent) (ds : List Destination) (routes : List (String × List Destination))
      (events : List (ℕ × ConfiguredEvent))
      → e.id ≡ keccak e.sig
      → All (λ x. (e.id == x.0) ≡ false) events
      → All (λ x. Routed routes x.0 x.1) events
      → All (λ x. Routed ((e.sig, ds) ∷ routes) x.0 x.1) events
  routes-kept e ds routes [] h n r = tt
  routes-kept e ds routes (x ∷ events) h n r =
      (route-kept e ds routes x.0 x.1 h n.0 r.0, routes-kept e ds routes events h n.1 r.1)

  select_matching-IsRouted :
      (spec : EventSpec) (es : List AbiEvent) (s : Selected) (matched : Bool)
      → 0 < length spec.destinations
      → IsHashed keccak es
      → IsRouted s
      → OnDone (λ (r : Selected × Bool). IsRouted r.0) (select_matching spec es s matched)
  unfolding select_matching
  select_matching-IsRouted spec [] s matched p h v = v
  select_matching-IsRouted spec (e ∷ es) s matched p h v =
      elim (Bool-cases (is_selected_by spec e)) [
        | inr n ↦ rw (n, select_matching) (select_matching-IsRouted spec es s matched p h.1 v)
        | inl y ↦ elim (Bool-cases e.anonymous) [
          | inl a ↦ rw (y, select_matching, a) tt
          | inr a ↦
              rw (y, select_matching, a)
                (go (lookup e.id s.events) (λ n. n)
                  (λ w. select_matching-IsRouted spec es added true p h.1 w))
        ]
      ]
    where
      added : Selected
      added = record {
        events = (e.id, record { abi = e; destinations = spec.destinations }) ∷ s.events;
        routes = (e.sig, spec.destinations) ∷ s.routes;
      }

      added-IsRouted :
          lookup e.id s.events ≡ none → All (λ x. Routed added.routes x.0 x.1) added.events
      added-IsRouted n = (
        record { key = h.0; route = rw (eq_refl e.sig) refl; some_destination = p },
        routes-kept e spec.destinations s.routes s.events h.0 (lookup-none e.id s.events n) v,
      )

      go :
          (o : Option ConfiguredEvent)
          → (o ≡ none → lookup e.id s.events ≡ none)
          → (All (λ x. Routed added.routes x.0 x.1) added.events
              → OnDone
                  (λ (r : Selected × Bool). All (λ x. Routed r.0.routes x.0 x.1) r.0.events)
                  (select_matching spec es added true))
          → OnDone
              (λ (r : Selected × Bool). All (λ x. Routed r.0.routes x.0 x.1) r.0.events)
              (elim o as (λ _. Result LoadError (Selected × Bool)) [
                | some c ↦ err selected_twice
                | none ↦ select_matching spec es added true
              ])
      go (some c) k rest = tt
      go none k rest = rest (added-IsRouted (k refl))

  select_specs-IsRouted :
      (parsed : List AbiEvent) (specs : List EventSpec) (s : Selected)
      → IsHashed keccak parsed
      → IsRouted s
      → OnDone IsRouted (select_specs parsed specs s)
  unfolding select_specs
  select_specs-IsRouted parsed [] s h v = v
  select_specs-IsRouted parsed (spec ∷ specs) s h v =
      go spec.destinations (λ p. select_matching-IsRouted spec parsed s false p h v)
        (λ s' v'. select_specs-IsRouted parsed specs s' h v')
    where
      matched :
          (r : Result LoadError (Selected × Bool))
          → OnDone (λ (r : Selected × Bool). IsRouted r.0) r
          → ((s' : Selected) → IsRouted s' → OnDone IsRouted (select_specs parsed specs s'))
          → OnDone IsRouted (elim r as (λ _. Result LoadError Selected) [
            | err e ↦ err e
            | ok (s', false) ↦ err selector_not_found
            | ok (s', true) ↦ select_specs parsed specs s'
          ])
      matched (err e) w rest = tt
      matched (ok (s', false)) w rest = tt
      matched (ok (s', true)) w rest = rest s' w

      go :
          (ds : List Destination)
          → (0 < length ds
              → OnDone
                  (λ (r : Selected × Bool). IsRouted r.0)
                  (select_matching spec parsed s false))
          → ((s' : Selected) → IsRouted s' → OnDone IsRouted (select_specs parsed specs s'))
          → OnDone IsRouted (elim ds as (λ _. Result LoadError Selected) [
            | [] ↦ err no_destinations
            | d ∷ ds ↦
                elim (select_matching spec parsed s false) as (λ _. Result LoadError Selected) [
                  | err e ↦ err e
                  | ok (s', false) ↦ err selector_not_found
                  | ok (s', true) ↦ select_specs parsed specs s'
                ]
          ])
      go [] k rest = tt
      go (d ∷ ds) k rest = matched (select_matching spec parsed s false) (k (omega arith)) rest

  select_events-IsRouted :
      (parsed : List AbiEvent) (specs : List EventSpec)
      → IsHashed keccak parsed
      → OnDone IsRouted (select_events parsed specs)
  unfolding select_events
  select_events-IsRouted parsed [] h = tt
  select_events-IsRouted parsed (spec ∷ specs) h =
      select_specs-IsRouted parsed (spec ∷ specs) (record { events = []; routes = [] }) h tt

  -- A contract stands under its address, with routes for its events.
  pub record Indexed (k : ℕ) (c : Contract) : Type 0 where
    pub address : c.address ≡ k
    pub routed : All (λ e. Routed c.routes e.0 e.1) c.events

  abbrev pub AllIndexed : List (ℕ × Contract) → Type 0
  AllIndexed contracts = All (λ e. Indexed e.0 e.1) contracts

  module _ {V : Type 0} (eth : Eth V) where
    load_contract-Indexed :
        (spec : ContractSpec) (contracts : List (ℕ × Contract))
        → AbiIsHashed keccak spec
        → AllIndexed contracts
        → OnDone AllIndexed (load_contract eth spec contracts)
    unfolding load_contract
    load_contract-Indexed spec contracts h v = elim (Bool-cases (eth.is_hex_address spec.address)) [
      | inr n ↦ rw n tt
      | inl y ↦ rw y (go (lookup (eth.hex_to_address spec.address) contracts) spec.abi h)
    ]
      where
        address : ℕ
        address = eth.hex_to_address spec.address

        selected :
            (r : Result LoadError Selected)
            → OnDone IsRouted r
            → OnDone AllIndexed (elim r as (λ _. Result LoadError (List (ℕ × Contract))) [
              | err e ↦ err e
              | ok s ↦ ok (
                  (address, record { address = address; events = s.events; routes = s.routes })
                  ∷ contracts)
            ])
        selected (err e) w = tt
        selected (ok s) w = (record { address = refl; routed = w }, v)

        go :
            (o : Option Contract) (abi : Option (List AbiEvent))
            → elim abi as (λ _. Type 0) [ none ↦ Unit | some parsed ↦ IsHashed keccak parsed ]
            → OnDone AllIndexed (elim o as (λ _. Result LoadError (List (ℕ × Contract))) [
              | some c ↦ err duplicate_contract
              | none ↦ elim abi as (λ _. Result LoadError (List (ℕ × Contract))) [
                | none ↦ err bad_abi
                | some parsed ↦
                    elim (select_events parsed spec.events)
                      as (λ _. Result LoadError (List (ℕ × Contract))) [
                        | err e ↦ err e
                        | ok s ↦ ok (
                            (
                              address,
                              record { address = address; events = s.events; routes = s.routes },
                            )
                            ∷ contracts)
                      ]
              ]
            ])
        go (some c) abi w = tt
        go none none w = tt
        go none (some parsed) w =
            selected (select_events parsed spec.events)
              (select_events-IsRouted parsed spec.events w)

    pub load_from-Indexed :
        (specs : List ContractSpec) (contracts : List (ℕ × Contract))
        → All (AbiIsHashed keccak) specs
        → AllIndexed contracts
        → OnDone AllIndexed (load_from eth specs contracts)
    unfolding load_from
    load_from-Indexed [] contracts h v = v
    load_from-Indexed (spec ∷ specs) contracts h v =
        go (load_contract eth spec contracts) (load_contract-Indexed spec contracts h.0 v)
          λ contracts' v'. load_from-Indexed specs contracts' h.1 v'
      where
        go :
            (r : Result LoadError (List (ℕ × Contract)))
            → OnDone AllIndexed r
            → ((cs : List (ℕ × Contract))
                → AllIndexed cs
                → OnDone AllIndexed (load_from eth specs cs))
            → OnDone AllIndexed (elim r as (λ _. Result LoadError (List (ℕ × Contract))) [
              | err e ↦ err e
              | ok cs ↦ load_from eth specs cs
            ])
        go (err e) w rest = tt
        go (ok cs) w rest = rest cs w
