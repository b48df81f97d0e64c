-- ===== src/Scanner/Cycle/Tests.antt =====
-- The scan of blocks 5 to 11 in batches of three, and a provider that knows every block.
use reddotrelay.Prelude.{
  Option, ℕ, ◌+◌, ◌-◌, ◌*◌, ◌^◌, min, [], ◌≡◌, arith, none, some, ok, ◌==◌, if◌then◌else◌, ◌∷◌,
  false,
}
use reddotrelay.Scanner.Types.{Hex, Rpc, Options, BatchHeader, Yields, Log}
use reddotrelay.Scanner.Verify.{fetch_verified_batch, hash_at, collect_heads, numbers_from}
use reddotrelay.Scanner.Verify.Sound.{IsVerified, fetch_verified_batch-Yields}
use reddotrelay.Scanner.Logs.{deduplicate}
use reddotrelay.Scanner.Logs.Order.{OnLogs}
use reddotrelay.Scanner.Logs.Distinct.{IsDeduplicated, deduplicate-IsDeduplicated}
use reddotrelay.Scanner.Retry.{max_rpc_backoff, rpc_retry_delay}
use reddotrelay.Scanner.Retry.Delay.{rpc_retry_delay-min}
use reddotrelay.Scanner.Verify.EndHash.{hash_at-collect_heads}
use reddotrelay.Scanner.Cycle.{plan_batches}
use reddotrelay.Scanner.Cycle.Plan.{Covers, plan_batches-Covers}

abbrev by_threes : Options
by_threes = record {
  chain_id = 1;
  start_block = 5;
  batch_size = 3;
  confirmations = 0;
  reorg_depth = 10;
  poll_interval = 1;
  retry_attempts = 3;
  retry_backoff = 100;
  rpc_timeout = 10;
  addresses = [];
  topics = [];
}

abbrev log_of : ℕ → ℕ → Log
log_of number index = record {
  address = 1;
  topics = [];
  content = [];
  block_number = number;
  tx_hash = 4;
  tx_index = 0;
  block_hash = number + 1;
  index = index;
  removed = false;
}

-- The hash of block n is n + 1.
abbrev parent : Option ℕ → ℕ
parent none = 0
parent (some n) = n

abbrev provider : Rpc (Unit {0})
provider = record {
  chain_id = λ s. (ok (some 1), s);
  header_by_number = λ n s. (ok (some (record { number = n; parent_hash = parent n })), s);
  block_hash_by_number = λ n s. (ok (n + 1), s);
  filter_logs = λ q s. (ok (log_of 7 2 ∷ log_of 6 1 ∷ log_of 7 2 ∷ []), s);
  canonical_header = none;
  canonical_headers = none;
  acquire = λ s. (ok tt, s);
  sleep = λ d s. (ok tt, s);
}

abbrev last_block : BatchHeader
last_block = record { number = 7; hash = 8; parent_hash = 7 }

plan_batches-Covers_example : Covers 3 5 11 (plan_batches 7 3 5 11)
plan_batches-Covers_example =
    plan_batches-Covers 7 3 5 11 (omega arith) (omega arith) (omega arith) (omega arith)
      (omega arith)

rpc_retry_delay-min_example : rpc_retry_delay 100 3 ≡ min (100 * 2 ^ 3) max_rpc_backoff
rpc_retry_delay-min_example = rpc_retry_delay-min 100 3

hash_at-collect_heads_example :
    Yields
      (λ heads. hash_at heads 7 ≡ 8)
      (collect_heads provider by_threes last_block (numbers_from 5 (7 + 1 - 5)))
hash_at-collect_heads_example = hash_at-collect_heads provider by_threes 5 last_block (omega arith)

abbrev as_text : Hex
as_text = record {
  hash_hex = λ h.
      if h == 5
      then "0x05"
      else if h == 6
      then "0x06"
      else if h == 7
      then "0x07"
      else if h == 8
      then "0x08"
      else "0x04";
  address_hex = λ a. "0x";
}

fetch_verified_batch-Yields_example :
    Yields (IsVerified 1 "0x05" 5 7) (fetch_verified_batch as_text provider by_threes 5 7 "0x05")
fetch_verified_batch-Yields_example =
    fetch_verified_batch-Yields as_text provider by_threes 5 7 "0x05"

deduplicate-IsDeduplicated_example :
    OnLogs
      (IsDeduplicated as_text 1 (log_of 7 2 ∷ log_of 6 1 ∷ log_of 7 2 ∷ []))
      (deduplicate as_text 1 (log_of 7 2 ∷ log_of 6 1 ∷ log_of 7 2 ∷ []))
deduplicate-IsDeduplicated_example =
    deduplicate-IsDeduplicated as_text 1 (log_of 7 2 ∷ log_of 6 1 ∷ log_of 7 2 ∷ [])
