-- ===== src/Store/Invariant.antt =====
-- The keys of the tables: the invariant that every operation of the store keeps.
use reddotrelay.Prelude.{Bool, true, ◌≡◌, List, any, All, Unique}
use reddotrelay.Core.{Event, Delivery, Checkpoint, CanonicalBlock}
use reddotrelay.Store.Db.{empty_db, Db, same_delivery, has_id}
use reddotrelay.Store.Events.{at_block, on_chain}

abbrev pub same_event : Event → Event → Bool
same_event a b = has_id a.id b

abbrev pub same_key : Delivery → Delivery → Bool
same_key a b = same_delivery a.event_id a.destination b

abbrev pub has_event : List Event → Delivery → Bool
has_event events d = any (has_id d.event_id) events

pub record IsValid (db : Db) : Type 0 where
  pub events_unique : Unique same_event db.events
  pub deliveries_unique : Unique same_key db.deliveries
  pub deliveries_owned : All (λ d. has_event db.events d ≡ true) db.deliveries
  pub checkpoints_unique : Unique (λ (a b : Checkpoint). on_chain a.chain_id b) db.checkpoints
  pub blocks_unique :
      Unique (λ (a b : CanonicalBlock). at_block a.chain_id a.number b) db.canonical_blocks

pub empty_db-IsValid : IsValid empty_db
empty_db-IsValid = record {
  events_unique = tt;
  deliveries_unique = tt;
  deliveries_owned = tt;
  checkpoints_unique = tt;
  blocks_unique = tt;
}
