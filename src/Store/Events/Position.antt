-- ===== src/Store/Events/Position.antt =====
-- An inserted event or delivery does not touch the position of the scan.
use reddotrelay.Prelude.{List, find?, some, ◌≡◌, arith}
use reddotrelay.Core.{Event, Delivery, CanonicalBlock, Checkpoint}
use reddotrelay.Store.Db.{Db, Reached}
use reddotrelay.Store.Events.{
  insert_event, insert_delivery, upsert_block, replace_checkpoint, on_chain,
}

-- The checkpoints and the canonical blocks are the same.
abbrev pub SamePosition : Db → Db → Type 0
SamePosition a b = (b.checkpoints ≡ a.checkpoints) × (b.canonical_blocks ≡ a.canonical_blocks)

pub insert_event-SamePosition :
    (e : Event) (db : Db) → Reached (SamePosition db) (insert_event e db)
unfolding insert_event
insert_event-SamePosition e db = ground arith

pub insert_delivery-SamePosition :
    (d : Delivery) (db : Db) → Reached (SamePosition db) (insert_delivery d db)
unfolding insert_delivery
insert_delivery-SamePosition d db = ground arith

-- An upserted block touches no other table.
pub upsert_block-Beside :
    (b : CanonicalBlock) (db : Db)
    → Reached
        (λ db'.
          (db'.events ≡ db.events)
          × (db'.deliveries ≡ db.deliveries)
          × (db'.checkpoints ≡ db.checkpoints))
        (upsert_block b db)
unfolding upsert_block
upsert_block-Beside b db = ground arith

-- The chain's checkpoint is the one that replaced another.
pub find?-replace_checkpoint :
    (c : Checkpoint) (cs : List Checkpoint)
    → find? (on_chain c.chain_id) (replace_checkpoint c cs) ≡ some c
unfolding replace_checkpoint
find?-replace_checkpoint c cs = ground arith
