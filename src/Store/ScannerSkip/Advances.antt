-- ===== src/Store/ScannerSkip/Advances.antt =====
-- What a skip that succeeds does: the position advances to the target, and nothing else of a scan changes.
use reddotrelay.Prelude.{
  ℕ, ◌+◌, ◌<◌, ◌≤◌, ◌≡◌, refl, Bool, true, false, List, Option, none, some, String, Result, ok, err,
  eq_iff, ltb, arith, Bool-cases, inl, inr, find?, any, Unique, Unique-select, OnDone,
}
use reddotrelay.Core.{Checkpoint, CanonicalBlock}
use reddotrelay.Store.Db.{Db, StoreError, Reached}
use reddotrelay.Store.Invariant.{IsValid}
use reddotrelay.Store.Events.{on_chain, replace_checkpoint, upsert_block}
use reddotrelay.Store.Events.Keys.{upsert_block-Keeps, replace_checkpoint-Unique}
use reddotrelay.Store.Events.Position.{upsert_block-Beside, find?-replace_checkpoint}
use reddotrelay.Store.ScannerSkip.{
  SkipAudit, Configured, SkipError, Skip, store_refused, is_active_on, same_checkpoint,
  read_position, drop_below, checkpoint_of, move_position,
}

-- The tables with their position moved.
pub record Moved (target : CanonicalBlock) (old new : Db) : Type 0 where
  pub events : new.events ≡ old.events
  pub deliveries : new.deliveries ≡ old.deliveries
  pub checkpoint : find? (on_chain target.chain_id) new.checkpoints ≡ some (checkpoint_of target)
  pub valid : IsValid new

drop_below-Unique :
    (target : CanonicalBlock) (depth : ℕ) (same : CanonicalBlock → CanonicalBlock → Bool)
    (bs : List CanonicalBlock)
    → Unique same bs
    → Unique same (drop_below target depth bs)
unfolding drop_below
drop_below-Unique target depth same bs u = elim (Bool-cases (ltb depth target.number)) [
  | inl e ↦ rw e (Unique-select same _ bs u)
  | inr e ↦ rw e u
]

pub move_position-Moved :
    (target : CanonicalBlock) (depth : ℕ) (db : Db)
    → IsValid db
    → OnDone (Moved target db) (move_position target depth db)
unfolding move_position checkpoint_of
move_position-Moved target depth db v =
    go (upsert_block target moved) (upsert_block-Beside target moved)
      ((upsert_block-Keeps target).keeps moved moved-IsValid)
  where
    moved : Db
    moved = record db { checkpoints = replace_checkpoint (checkpoint_of target) db.checkpoints }

    moved-IsValid : IsValid moved
    moved-IsValid = record {
      events_unique = v.events_unique;
      deliveries_unique = v.deliveries_unique;
      deliveries_owned = v.deliveries_owned;
      checkpoints_unique =
          replace_checkpoint-Unique (checkpoint_of target) db.checkpoints v.checkpoints_unique;
      blocks_unique = v.blocks_unique;
    }

    go :
        (r : Result StoreError (Unit {0} × Db))
        → Reached
            (λ db'.
              (db'.events ≡ moved.events)
              × (db'.deliveries ≡ moved.deliveries)
              × (db'.checkpoints ≡ moved.checkpoints))
            r
        → Reached IsValid r
        → OnDone (Moved target db) (elim r as (λ _. Result SkipError Db) [
          | err e ↦ err (store_refused e)
          | ok (u, db') ↦
              ok (record db' { canonical_blocks = drop_below target depth db'.canonical_blocks })
        ])
    go (err e) b w = tt
    go (ok (u, db')) b w = record {
      events = b.0;
      deliveries = b.1;
      checkpoint = rw b.2 (find?-replace_checkpoint (checkpoint_of target) db.checkpoints);
      valid = record {
        events_unique = w.events_unique;
        deliveries_unique = w.deliveries_unique;
        deliveries_owned = w.deliveries_owned;
        checkpoints_unique = w.checkpoints_unique;
        blocks_unique = drop_below-Unique target depth _ db'.canonical_blocks w.blocks_unique;
      };
    }

-- What a skip does, of the listener whose chain is the target's.
pub record Skipped (s : Skip) (expected : ℕ) (old : Configured) (audit : SkipAudit)
    (new : Configured) : Type 0 where
  pub moved : Moved s.target old.tables.db new.tables.db
  pub previewed : find? (on_chain s.target.chain_id) old.tables.db.checkpoints ≡ s.previous
  pub forward :
      (o : Checkpoint)
      → find? (on_chain s.target.chain_id) old.tables.db.checkpoints ≡ some o
      → o.block_number < s.target.number
  pub first_block : audit.from_block ≤ s.target.number
  pub jobs : new.tables.jobs ≡ old.tables.jobs
  pub none_active : any (is_active_on s.target.chain_id) old.tables.jobs ≡ false
  pub at_revision : old.revision ≡ expected
  pub next_revision : new.revision ≡ old.revision + 1

-- The part of it that the function passed to the transaction is responsible for.
pub record Written (s : Skip) (old : Configured) (audit : SkipAudit) (new : Configured)
    : Type 0 where
  pub moved : Moved s.target old.tables.db new.tables.db
  pub previewed : find? (on_chain s.target.chain_id) old.tables.db.checkpoints ≡ s.previous
  pub forward :
      (o : Checkpoint)
      → find? (on_chain s.target.chain_id) old.tables.db.checkpoints ≡ some o
      → o.block_number < s.target.number
  pub first_block : audit.from_block ≤ s.target.number
  pub jobs : new.tables.jobs ≡ old.tables.jobs
  pub none_active : any (is_active_on s.target.chain_id) old.tables.jobs ≡ false

same_checkpoint-eq : (a b : Checkpoint) → same_checkpoint a b ≡ true → b ≡ a
unfolding same_checkpoint
same_checkpoint-eq a b h = ground (arith, eq_iff a.block_hash b.block_hash)

-- What the reading of the position has checked.
pub record Checked (previous current : Option Checkpoint) (target : ℕ) (p : Option ℕ × String × ℕ)
    : Type 0 where
  pub same : current ≡ previous
  pub forward : (o : Checkpoint) → current ≡ some o → o.block_number < target
  pub first_block : p.2 ≤ target

pub read_position-Checked :
    (previous current : Option Checkpoint) (target start : ℕ) (p : Option ℕ × String × ℕ)
    → start ≤ target
    → read_position previous current target start ≡ some p
    → Checked previous current target p
unfolding read_position
read_position-Checked none none target start p l e = record {
  same = refl;
  forward = λ o f. cc;
  first_block = ground arith;
}
read_position-Checked (some x) none target start p l e = cc
read_position-Checked none (some c) target start p l e = cc
read_position-Checked (some x) (some c) target start p l e =
    elim (Bool-cases (same_checkpoint x c)) [
      | inr n ↦ absurd (ground arith)
      | inl y ↦ record {
        same = rw (same_checkpoint-eq x c y) refl;
        forward = λ o f. ground arith;
        first_block = ground arith;
      }
    ]
