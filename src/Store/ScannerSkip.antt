-- ===== src/Store/ScannerSkip.antt =====
-- internal/store/sqlite/scanner_skip.go: `SkipScannerToHead`, with `mutateRPCListeners` of rpclistener.go
-- and `insertRPCListenerAudit` of configaudit.go.
--
-- hexutil, common.HexToHash and `validConfigID`, which asks the uuid package, are parameters. Of a listener
-- only the columns that are read or written here are in its row.
pub mod Advances
pub mod Skipped
pub mod Tests
use reddotrelay.Prelude.{
  ℕ, ◌+◌, ◌-◌, Bool, true, false, not, ◌&&◌, ◌||◌, List, [], ◌∷◌, Option, none, some, String,
  Result, ok, err, ◌==◌, str_eq, leb, ltb, if◌then◌else◌, find?, any, select, map, length,
  trim_space,
}
use reddotrelay.Core.{Checkpoint, CanonicalBlock, Principal, valid_role, Event}
use reddotrelay.Store.Db.{Db, StoreError, max_int64}
use reddotrelay.Store.Events.{on_chain, replace_checkpoint, upsert_block}
use reddotrelay.Store.Backfill.{Tables, Job, is_active}

-- A row of `rpc_listeners`.
pub record Listener : Type 0 where
  pub id : String
  pub chain_id : ℕ
  pub start_block : ℕ
  pub reorg_depth : ℕ
  pub paused : Bool
  pub updated_at : ℕ

-- `ScannerSkipAudit`, a row of `scanner_skip_audit`, without its sequence number and random identifier.
pub record SkipAudit : Type 0 where
  pub listener_id : String
  pub chain_id : ℕ
  pub actor : Principal
  pub previous_block : Option ℕ
  pub previous_hash : String
  pub from_block : ℕ
  pub to_block : ℕ
  pub block_hash : String
  pub parent_hash : String
  pub revision : ℕ
  pub created_at : ℕ

-- A row of `rpc_listener_audit`; here the action is always a resumption, of a listener.
pub record ListenerAudit : Type 0 where
  pub actor : Principal
  pub resource_id : String
  pub previous_revision : ℕ
  pub new_revision : ℕ
  pub created_at : ℕ

-- The tables of the configuration beside the others.
pub record Configured : Type 0 where
  pub tables : Tables
  pub listeners : List Listener
  pub revision : ℕ
  pub listener_audit : List ListenerAudit
  pub skips : List SkipAudit

pub data SkipError : Type 0 where
  skip_conflict revision_conflict bad_revision no_listener backfill_active bad_audit : SkipError
  store_refused : StoreError → SkipError

-- What the transaction of a skip is given.
pub record Skip : Type 0 where
  pub listener_id : String
  pub previous : Option Checkpoint
  pub target : CanonicalBlock
  pub actor : Principal

-- chain_id=? AND state IN ('queued','running','paused')
pub is_active_on : ℕ → Job → Bool
is_active_on chain j = chain == j.chain_id && is_active j.state

pub same_checkpoint : Checkpoint → Checkpoint → Bool
same_checkpoint a b =
    a.chain_id == b.chain_id && a.block_number == b.block_number && str_eq a.block_hash b.block_hash

-- The checks of the checkpoint: what the audit says of the position before, and the first block.
pub read_position : Option Checkpoint → Option Checkpoint → ℕ → ℕ → Option (Option ℕ × String × ℕ)
read_position none none target start = some (none, "", start)
read_position (some p) none target start = none
read_position none (some c) target start = none
read_position (some p) (some c) target start =
    if not (same_checkpoint p c) || leb target c.block_number
    then none
    else some (some c.block_number, c.block_hash, c.block_number + 1)

-- An event of the target's number in another block.
pub is_other_branch : CanonicalBlock → Event → Bool
is_other_branch b e =
    b.chain_id == e.id.chain_id && b.number == e.block_number && not (str_eq e.block_hash b.hash)

-- The DELETE below the retained depth.
pub drop_below : CanonicalBlock → ℕ → List CanonicalBlock → List CanonicalBlock
drop_below target depth blocks =
    if ltb depth target.number
    then select (λ b. not (target.chain_id == b.chain_id && ltb b.number (target.number - depth)))
        blocks
    else blocks

pub checkpoint_of : CanonicalBlock → Checkpoint
checkpoint_of b = record { chain_id = b.chain_id; block_number = b.number; block_hash = b.hash }

-- The statements that move the position.
pub move_position : CanonicalBlock → ℕ → Db → Result SkipError Db
move_position target depth db =
    elim (upsert_block target
      (record db { checkpoints = replace_checkpoint (checkpoint_of target) db.checkpoints })) [
        | err e ↦ err (store_refused e)
        | ok (u, db') ↦
            ok (record db' { canonical_blocks = drop_below target depth db'.canonical_blocks })
      ]

abbrev pub has_listener_id : String → Listener → Bool
has_listener_id id l = str_eq id l.id

-- UPDATE rpc_listeners SET paused=0
pub resume_listener : String → ℕ → List Listener → List Listener
resume_listener id now listeners =
    map (λ l. if has_listener_id id l then record l { paused = false; updated_at = now } else l)
      listeners

-- The row of the audit.
pub skip_audit : Skip → Option ℕ × String × ℕ → ℕ → ℕ → SkipAudit
skip_audit s (previous_block, previous_hash, from_block) revision now = record {
  listener_id = s.listener_id;
  chain_id = s.target.chain_id;
  actor = s.actor;
  previous_block = previous_block;
  previous_hash = previous_hash;
  from_block = from_block;
  to_block = s.target.number;
  block_hash = s.target.hash;
  parent_hash = s.target.parent_hash;
  revision = revision;
  created_at = now;
}

-- The function that is passed to `mutateRPCListeners`, once the position has been read.
pub write_skip :
    Skip
    → Listener
    → Option ℕ × String × ℕ
    → ℕ
    → ℕ
    → Configured
    → Result SkipError (SkipAudit × Configured)
write_skip s l position expected now cfg =
    if any (is_other_branch s.target) cfg.tables.db.events
    then err skip_conflict
    else elim (move_position s.target l.reorg_depth cfg.tables.db) [
      | err e ↦ err e
      | ok db ↦
          let audit = skip_audit s position (expected + 1) now in
          ok (
            audit,
            record cfg {
              tables = record cfg.tables { db = db };
              listeners = resume_listener s.listener_id now cfg.listeners;
              skips = audit ∷ cfg.skips;
            },
          )
    ]

-- The whole of that function, for the listener that was read.
pub skip_listener : Skip → Listener → ℕ → ℕ → Configured → Result SkipError (SkipAudit × Configured)
skip_listener s l expected now cfg =
    if not l.paused || not (l.chain_id == s.target.chain_id) || ltb s.target.number l.start_block
    then err skip_conflict
    else if any (is_active_on l.chain_id) cfg.tables.jobs
    then err backfill_active
    else elim (read_position s.previous (find? (on_chain l.chain_id) cfg.tables.db.checkpoints)
        s.target.number l.start_block) [
          | none ↦ err skip_conflict
          | some position ↦ write_skip s l position expected now cfg
        ]

-- Where the listener is found.
pub skip_found : Skip → ℕ → ℕ → Configured → Result SkipError (SkipAudit × Configured)
skip_found s expected now cfg = elim (find? (has_listener_id s.listener_id) cfg.listeners) [
  | none ↦ err no_listener
  | some l ↦ skip_listener s l expected now cfg
]

pub listener_audit_row : Principal → String → ℕ → ℕ → ListenerAudit
listener_audit_row actor resource revision now = record {
  actor = actor;
  resource_id = resource;
  previous_revision = revision;
  new_revision = revision + 1;
  created_at = now;
}

module _ (decode_hex : String → Option (List ℕ)) (hex_to_hash : String → ℕ)
    (valid_config_id : String → Bool) where
  -- 32 bytes of hexadecimal
  pub is_hash : String → Bool
  is_hash text = elim (decode_hex text) [ none ↦ false | some bytes ↦ length bytes == 32 ]

  -- The guard before the transaction.
  pub valid_skip : Skip → Bool
  valid_skip s =
      str_eq s.actor.role "admin"
      && ltb s.target.number max_int64
      && leb s.target.chain_id max_int64
      && is_hash s.target.hash
      && is_hash s.target.parent_hash
      && not (hex_to_hash s.target.hash == 0)
      && (s.target.number == 0 || not (hex_to_hash s.target.parent_hash == 0))

  -- `validateRPCListenerAudit`, for the resumption of a listener.
  pub valid_listener_audit : ListenerAudit → Bool
  valid_listener_audit a =
      valid_config_id a.actor.id
      && not (str_eq (trim_space a.actor.name) "")
      && valid_role a.actor.role
      && valid_config_id a.resource_id

  -- `mutateRPCListeners` with an audit row: the revision is checked, and moves by one.
  pub mutate_rpc_listeners :
      {A : Type 0}
      → ℕ
      → ℕ
      → Principal
      → String
      → (Configured → Result SkipError (A × Configured))
      → Configured
      → Result SkipError (A × Configured)
  mutate_rpc_listeners expected now actor resource mutation cfg =
      if ltb max_int64 expected
      then err bad_revision
      else if not (cfg.revision == expected)
      then err revision_conflict
      else elim (mutation cfg) [
        | err e ↦ err e
        | ok (a, cfg') ↦
            let row = listener_audit_row actor resource cfg.revision now in
            if not (valid_listener_audit row) || ltb max_int64 (cfg.revision + 1)
            then err bad_audit
            else ok (
              a,
              record cfg' {
                revision = cfg.revision + 1;
                listener_audit = row ∷ cfg'.listener_audit;
              },
            )
      ]

  -- `SkipScannerToHead`
  pub skip_scanner_to_head : Skip → ℕ → ℕ → Configured → Result SkipError (SkipAudit × Configured)
  skip_scanner_to_head s expected now cfg =
      if not (valid_skip s)
      then err skip_conflict
      else mutate_rpc_listeners expected now s.actor s.listener_id (skip_found s expected now) cfg
