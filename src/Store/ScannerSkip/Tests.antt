-- ===== src/Store/ScannerSkip/Tests.antt =====
-- A paused listener at block 7, and a skip to block 9.
use reddotrelay.Prelude.{
  ℕ, ◌≡◌, refl, true, List, [], ◌∷◌, Option, some, String, is_ok, OnDone, trim_space, trim_left,
  trim_right, before_trimmed, is_space,
}
use reddotrelay.Core.{valid_role}
use reddotrelay.Store.Events.{upsert_block, clashes}
use reddotrelay.Store.Events.Tests.{at_7, hook}
use reddotrelay.Store.Outbox.Tests.{holding, holding-IsValid}
use reddotrelay.Store.ScannerSkip.{
  Configured, Skip, SkipAudit, skip_scanner_to_head, valid_skip, is_hash, mutate_rpc_listeners,
  skip_found, skip_listener, write_skip, move_position, read_position, same_checkpoint,
  is_other_branch, valid_listener_audit, listener_audit_row,
}
use reddotrelay.Store.ScannerSkip.Advances.{Skipped}
use reddotrelay.Store.ScannerSkip.Skipped.{skip_scanner_to_head-Skipped}

-- 32 bytes for every text.
abbrev bytes : String → Option (List ℕ)
bytes text = some (
    1 ∷ 2 ∷ 3 ∷ 4 ∷ 5 ∷ 6 ∷ 7 ∷ 8 ∷ 1 ∷ 2 ∷ 3 ∷ 4 ∷ 5 ∷ 6 ∷ 7 ∷ 8 ∷ 1 ∷ 2 ∷ 3 ∷ 4 ∷ 5 ∷ 6 ∷ 7 ∷ 8
    ∷ 1 ∷ 2 ∷ 3 ∷ 4 ∷ 5 ∷ 6 ∷ 7 ∷ 8 ∷ [])

abbrev skip : Skip
skip = record {
  listener_id = "l1";
  previous = some at_7;
  target = record { chain_id = 1; number = 9; hash = "0xb9"; parent_hash = "0xb8" };
  actor = record { id = "u1"; name = "alice"; role = "admin" };
}

abbrev configured : Configured
configured = record {
  tables = record { db = holding hook; jobs = []; audit = [] };
  listeners =
      record {
        id = "l1";
        chain_id = 1;
        start_block = 2;
        reorg_depth = 12;
        paused = true;
        updated_at = 3;
      }
      ∷ [];
  revision = 4;
  listener_audit = [];
  skips = [];
}

skip_succeeds : is_ok (skip_scanner_to_head bytes (λ t. 1) (λ id. true) skip 4 20 configured) ≡ true
unfolding skip_scanner_to_head valid_skip is_hash mutate_rpc_listeners skip_found skip_listener
    write_skip move_position read_position same_checkpoint is_other_branch valid_listener_audit
    listener_audit_row upsert_block clashes valid_role trim_space trim_left trim_right
    before_trimmed is_space
skip_succeeds = refl

skip_scanner_to_head-Skipped_example :
    OnDone
      (λ (r : SkipAudit × Configured). Skipped skip 4 configured r.0 r.1)
      (skip_scanner_to_head bytes (λ t. 1) (λ id. true) skip 4 20 configured)
skip_scanner_to_head-Skipped_example =
    skip_scanner_to_head-Skipped bytes (λ t. 1) (λ id. true) skip 4 20 configured holding-IsValid
