-- ===== src/Decoder/Tests.antt =====
-- A decoder of one event, over addresses written in unary.
use reddotrelay.Prelude.{
  ℕ, zero, suc, ◌^◌, ◌≡◌, refl, ap, true, false, List, [], ◌∷◌, some, String, len, ok, ltb,
  if◌then◌else◌, arith, Bool-cases, inl, inr, OnDone, All,
}
use Prim.Native.String.{[], ◌∷◌}
use reddotrelay.Core.{RawLog}
use reddotrelay.Decoder.{
  Destination, AbiEvent, Eth, Contract, ContractSpec, load, load_from, load_contract, select_events,
  select_specs, select_matching, is_selected_by, decode,
}
use reddotrelay.Decoder.Routes.{AbiIsHashed}
use reddotrelay.Decoder.Routed.{IsSound, HasRoute, decode-HasRoute}

unfoldable pub unary : ℕ → String
unary zero = ""
unary (suc n) = "0" ∷ unary n

-- The length in characters.
unfoldable pub digits : String → ℕ
digits [] = 0
digits (c ∷ s) = suc (digits s)

digits-unary : (n : ℕ) → digits (unary n) ≡ n
unfolding unary digits
digits-unary zero = refl
digits-unary (suc n) = ap suc (digits-unary n)

abbrev pub from_unary : String → ℕ
from_unary s = if ltb (digits s) (2 ^ 160) then digits s else 0

abbrev pub unary_eth : Eth (Unit {0})
unary_eth = record {
  is_hex_address = λ s. true;
  hex_to_address = from_unary;
  address_hex = unary;
  hex_to_hash = λ s. 4;
  unpack = λ args content. some [];
  parse_topics = λ args topics. some [];
  marshal = λ fields. some [];
  position_name = λ n. "_";
}

pub unary_eth-IsSound : IsSound unary_eth
unary_eth-IsSound = record {
  in_range = λ s. elim (Bool-cases (ltb (digits s) (2 ^ 160))) [
    | inl e ↦ rw e (ground arith)
    | inr e ↦ rw e (omega arith)
  ];
  valid = λ a b. refl;
  read_back = λ a b. rw (digits-unary a) (ground arith);
}

abbrev pub topic : String
topic = "0x0000000000000000000000000000000000000000000000000000000000000004"

abbrev pub to_hook : Destination
to_hook = record {
  locator = "http://hook";
  authentication = record { kind = ""; secret_ref = ""; key_id = "" };
}

abbrev pub ping : AbiEvent
ping = record { id = 4; raw_name = "Ping"; sig = "Ping"; anonymous = false; inputs = [] }

abbrev pub spec : ContractSpec
spec = record {
  address = "000";
  abi = some (ping ∷ []);
  events = record { selector = "Ping"; destinations = to_hook ∷ [] } ∷ [];
}

abbrev pub loaded : List (ℕ × Contract)
loaded =
    (
      3,
      record {
        address = 3;
        events = (4, record { abi = ping; destinations = to_hook ∷ [] }) ∷ [];
        routes = ("Ping", to_hook ∷ []) ∷ [];
      },
    )
    ∷ []

pub load-spec : load unary_eth (spec ∷ []) ≡ ok loaded
unfolding load load_from load_contract select_events select_specs select_matching is_selected_by
    digits
load-spec = refl

pub spec-AbiIsHashed : All (AbiIsHashed len) (spec ∷ [])
spec-AbiIsHashed = ((refl, tt), tt)

abbrev pub log : RawLog
log = record {
  chain_id = 1;
  block_number = 7;
  block_hash = "0xb7";
  transaction_hash = "0xaa";
  log_index = 0;
  address = "000";
  topics = topic ∷ [];
  content = [];
}

decode-HasRoute_example : OnDone (HasRoute unary_eth loaded) (decode unary_eth loaded 10 log)
decode-HasRoute_example =
    decode-HasRoute unary_eth len (spec ∷ []) loaded 10 log unary_eth-IsSound spec-AbiIsHashed
      load-spec
