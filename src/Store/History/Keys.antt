-- ===== src/Store/History/Keys.antt =====
-- Recovery from a reorganisation keeps the keys of the tables, and deletes what it should.
use reddotrelay.Prelude.{
  ℕ, ◌-◌, Bool, true, false, not, ◌&&◌, ◌≡◌, List, [], ◌∷◌, String, ◌==◌, if◌then◌else◌, any,
  select, All, arith, if-elim, Unique-select, Unique-map,
}
use reddotrelay.Core.{Event, Delivery, Checkpoint, EventId}
use reddotrelay.Store.Db.{
  Db, Keeps-bind, Keeps-commit, Keeps-raise_if, Keeps-modify, Keeps-ensure, checkpoint_not_found,
  has_id, out_of_range,
}
use reddotrelay.Store.Events.{on_chain}
use reddotrelay.Store.Invariant.{IsValid, has_event}
use reddotrelay.Store.History.{
  delete_events, delete_blocks_from, move_checkpoint, drop_checkpoint, in_chain_from, above, rewind,
  reset_from, rewind_canonical, has_checkpoint, survives,
}

-- An event that is not deleted is still found.
any-survivors :
    (id : EventId) (p : Event → Bool) (es : List Event)
    → any (has_id id) es ≡ true
    → any (λ e. has_id id e && p e) es ≡ false
    → any (has_id id) (select (λ e. not (p e)) es) ≡ true
any-survivors id p [] h k = h
any-survivors id p (e ∷ es) h k = ground (arith, any-survivors id p es)

owned-survivors :
    (p : Event → Bool) (es : List Event) (ds : List Delivery)
    → All (λ d. has_event es d ≡ true) ds
    → All (λ d. has_event (select (λ e. not (p e)) es) d ≡ true) (select (survives p es) ds)
unfolding survives
owned-survivors p es [] h = tt
owned-survivors p es (d ∷ ds) h =
    ground (arith, any-survivors d.event_id p es h.0, owned-survivors p es ds h.1)

-- ON DELETE CASCADE: no delivery is left without its event.
pub delete_events-IsValid : (p : Event → Bool) (db : Db) → IsValid db → IsValid (delete_events p db)
unfolding delete_events
delete_events-IsValid p db v = record {
  events_unique = Unique-select _ _ db.events v.events_unique;
  deliveries_unique = Unique-select _ _ db.deliveries v.deliveries_unique;
  deliveries_owned = owned-survivors p db.events db.deliveries v.deliveries_owned;
  checkpoints_unique = v.checkpoints_unique;
  blocks_unique = v.blocks_unique;
}

delete_blocks_from-IsValid :
    (chain from : ℕ) (db : Db) → IsValid db → IsValid (delete_blocks_from chain from db)
unfolding delete_blocks_from
delete_blocks_from-IsValid chain from db v = record {
  events_unique = v.events_unique;
  deliveries_unique = v.deliveries_unique;
  deliveries_owned = v.deliveries_owned;
  checkpoints_unique = v.checkpoints_unique;
  blocks_unique = Unique-select _ _ db.canonical_blocks v.blocks_unique;
}

drop_checkpoint-IsValid : (chain : ℕ) (db : Db) → IsValid db → IsValid (drop_checkpoint chain db)
unfolding drop_checkpoint
drop_checkpoint-IsValid chain db v = record {
  events_unique = v.events_unique;
  deliveries_unique = v.deliveries_unique;
  deliveries_owned = v.deliveries_owned;
  checkpoints_unique = Unique-select _ _ db.checkpoints v.checkpoints_unique;
  blocks_unique = v.blocks_unique;
}

moved : Checkpoint → Checkpoint → Checkpoint
moved c o = if on_chain c.chain_id o then c else o

moved-chain : (c o : Checkpoint) → (moved c o).chain_id ≡ o.chain_id
unfolding moved
moved-chain c o = ground arith

move_checkpoint-IsValid : (c : Checkpoint) (db : Db) → IsValid db → IsValid (move_checkpoint c db)
unfolding move_checkpoint moved
move_checkpoint-IsValid c db v = record {
  events_unique = v.events_unique;
  deliveries_unique = v.deliveries_unique;
  deliveries_owned = v.deliveries_owned;
  checkpoints_unique =
      Unique-map _ (moved c) (λ a b. ground (arith, moved-chain c a))
        (λ a b. ground (arith, moved-chain c b)) db.checkpoints v.checkpoints_unique;
  blocks_unique = v.blocks_unique;
}

-- `Rewind` keeps the keys of all tables and every delivery with its event, whether it commits or
-- reports a missing checkpoint.
pub rewind-IsValid : (c : Checkpoint) (db : Db) → IsValid db → IsValid (rewind c db).1
unfolding rewind
rewind-IsValid c = Keeps-commit _ (
    Keeps-bind (Keeps-raise_if _ out_of_range) λ _.
      Keeps-bind (Keeps-modify _ (delete_events-IsValid (above c))) λ _.
        Keeps-bind (Keeps-ensure (has_checkpoint c.chain_id) checkpoint_not_found)
          λ _. Keeps-modify _ (move_checkpoint-IsValid c))

-- `ResetFrom` keeps the keys of all tables and every delivery with its event.
pub reset_from-IsValid :
    (chain block : ℕ) (db : Db) → IsValid db → IsValid (reset_from chain block db).1
unfolding reset_from
reset_from-IsValid chain block = Keeps-commit _ (
    Keeps-bind (Keeps-raise_if _ out_of_range) λ _.
      Keeps-bind (Keeps-modify _ (delete_events-IsValid (in_chain_from chain block))) λ _.
        Keeps-bind (Keeps-modify _ (delete_blocks_from-IsValid chain block)) λ _.
          Keeps-bind (Keeps-ensure (has_checkpoint chain) checkpoint_not_found)
            λ _. Keeps-modify _ (drop_checkpoint-IsValid chain))

-- `RewindCanonical` keeps the keys of all tables and every delivery with its event.
pub rewind_canonical-IsValid :
    (chain from : ℕ) (hash : String) (db : Db)
    → IsValid db
    → IsValid (rewind_canonical chain from hash db).1
unfolding rewind_canonical
rewind_canonical-IsValid chain from hash = Keeps-commit _ (
    Keeps-bind (Keeps-raise_if _ out_of_range) λ _.
      Keeps-bind (Keeps-modify _ (delete_events-IsValid (in_chain_from chain from))) λ _.
        Keeps-bind (Keeps-modify _ (delete_blocks_from-IsValid chain from)) λ _. Keeps-modify _ (
          if-elim (λ (f : Db → Db). (db : Db) → IsValid db → IsValid (f db)) (from == 0)
            (drop_checkpoint-IsValid chain)
            (move_checkpoint-IsValid
              (record { chain_id = chain; block_number = from - 1; block_hash = hash }))))
