-- ===== src/Store/Events/Progress.antt =====
-- The checkpoint of a chain never goes back when a batch is saved.
use reddotrelay.Prelude.{
  ℕ, ◌≤◌, Bool, not, ◌||◌, ◌≡◌, ◌≢◌, refl, subst, List, [], ◌∷◌, if◌then◌else◌, ◌==◌, some, any,
  select, find?, map, arith, Bool-cases, Option-cases, inl, inr, str_eq, leb,
}
use reddotrelay.Core.{Event, EventId, Delivery, Checkpoint, CanonicalBlock, same_id}
use reddotrelay.Store.Db.{
  Db, Holds-bind, Keeps, Keeps-bind, Keeps-raise_if, Keeps-pure, OnOk, commit-OnOk, raise_if, raise,
  pure, valid_uint64, event_not_in_batch, out_of_range, invalid_canonical_block,
}
use reddotrelay.Store.Events.{
  insert_event, insert_events, insert_deliveries, insert_delivery, save_batch, save_batch_tx,
  save_blocks, save_position, upsert_block, on_chain, advance_checkpoint, replace_checkpoint,
}

module _ (P : List Checkpoint → Type 0) where
  abbrev Q : Db → Type 0
  Q db = P db.checkpoints

  insert_events-checkpoints :
      (es : List Event) (ids : List EventId) → Keeps Q (insert_events es ids)
  unfolding insert_events insert_event
  insert_events-checkpoints [] ids = Keeps-pure ids
  insert_events-checkpoints (e ∷ es) ids =
      Keeps-bind first (λ b. insert_events-checkpoints es (if b then e.id ∷ ids else ids))
    where
      first : Keeps Q (insert_event e)
      first = record { keeps = λ db p. ground arith }

  insert_deliveries-checkpoints :
      (batch inserted : List EventId) (ds : List Delivery)
      → Keeps Q (insert_deliveries batch inserted ds)
  unfolding insert_deliveries insert_delivery
  insert_deliveries-checkpoints batch inserted [] = Keeps-pure tt
  insert_deliveries-checkpoints batch inserted (d ∷ ds) =
      Keeps-bind first (λ _. insert_deliveries-checkpoints batch inserted ds)
    where
      first : Keeps Q (
          if not (any (same_id d.event_id) batch)
          then raise event_not_in_batch
          else if any (same_id d.event_id) inserted
          then insert_delivery d
          else pure tt)
      first = record { keeps = λ db p. ground arith }

  save_blocks-checkpoints : (chain : ℕ) (bs : List CanonicalBlock) → Keeps Q (save_blocks chain bs)
  unfolding save_blocks upsert_block
  save_blocks-checkpoints chain [] = Keeps-pure tt
  save_blocks-checkpoints chain (b ∷ bs) =
      Keeps-bind
        (Keeps-raise_if (not (b.chain_id == chain) || str_eq b.hash "" || str_eq b.parent_hash "")
          invalid_canonical_block)
        λ _.
          Keeps-bind (Keeps-raise_if (not (valid_uint64 (b.number ∷ []))) out_of_range)
            λ _. Keeps-bind upsert λ _. save_blocks-checkpoints chain bs
    where
      upsert : Keeps Q (upsert_block b)
      upsert = record { keeps = λ db p. ground arith }

find?-other :
    (chain k : ℕ) (cs : List Checkpoint)
    → chain ≢ k
    → find? (on_chain k) (select (λ o. not (on_chain chain o)) cs) ≡ find? (on_chain k) cs
find?-other chain k [] n = refl
find?-other chain k (c ∷ cs) n = ground (arith, find?-other chain k cs n)

-- The position of a chain after `c` has been saved over `old`.
pub record Advanced (c : Checkpoint) (old new : List Checkpoint) : Type 0 where
  pub position : Checkpoint
  pub at_chain : find? (on_chain c.chain_id) new ≡ some position
  pub reaches : c.block_number ≤ position.block_number
  pub no_regress :
      (o : Checkpoint)
      → find? (on_chain c.chain_id) old ≡ some o
      → o.block_number ≤ position.block_number
  pub elsewhere : (k : ℕ) → c.chain_id ≢ k → find? (on_chain k) new ≡ find? (on_chain k) old

advance_checkpoint-Advanced :
    (c : Checkpoint) (cs : List Checkpoint) → Advanced c cs (advance_checkpoint c cs)
unfolding advance_checkpoint replace_checkpoint
advance_checkpoint-Advanced c cs = elim (Option-cases (find? (on_chain c.chain_id) cs)) [
  | inl e ↦
      rw (e, advance_checkpoint)
        (record {
          position = c;
          at_chain = ground arith;
          reaches = omega arith;
          no_regress = λ o h. ground arith;
          elsewhere = λ k n. ground arith;
        })
  | inr (old, e) ↦
      rw (e, advance_checkpoint)
        (elim (Bool-cases (leb old.block_number c.block_number)) [
          | inl le ↦ rw le (record {
            position = c;
            at_chain = ground arith;
            reaches = omega arith;
            no_regress = λ o h. ground arith;
            elsewhere = λ k n. ground (arith, find?-other c.chain_id k cs n);
          })
          | inr gt ↦ rw gt (record {
            position = old;
            at_chain = e;
            reaches = ground arith;
            no_regress = λ o h. ground arith;
            elsewhere = λ k n. refl;
          })
        ])
]

-- After a batch has been saved its chain has a checkpoint, at the batch's block or beyond and never
-- before the one it had; the checkpoints of other chains are as they were.
pub save_batch-Advanced :
    (es : List Event) (ds : List Delivery) (bs : List CanonicalBlock) (c : Checkpoint) (retain : ℕ)
    (db : Db)
    → OnOk (λ _ db'. Advanced c db.checkpoints db'.checkpoints) (save_batch es ds bs c retain db)
unfolding save_batch save_batch_tx save_position
save_batch-Advanced es ds bs c retain db = commit-OnOk R (save_batch_tx es ds bs c retain) db (
    Holds-bind (λ _ x. Same x) R (raise_if refused out_of_range) _ db
      ((Keeps-raise_if {P = Same} refused out_of_range).keeps db refl)
      λ _ x p.
        Holds-bind (λ _ y. Same y) R (insert_events es []) _ x
          ((insert_events-checkpoints Kept es []).keeps x p)
          λ inserted y q.
            Holds-bind (λ _ z. Same z) R (insert_deliveries (map (λ e. e.id) es) inserted ds) _ y
              ((insert_deliveries-checkpoints Kept (map (λ e. e.id) es) inserted ds).keeps y q)
              λ _ z r.
                Holds-bind (λ _ w. Same w) R (save_blocks c.chain_id bs) _ z
                  ((save_blocks-checkpoints Kept c.chain_id bs).keeps z r)
                  λ _ w s.
                    subst (λ cs. Advanced c cs (advance_checkpoint c w.checkpoints)) s
                      (advance_checkpoint-Advanced c w.checkpoints))
  where
    Kept : List Checkpoint → Type 0
    Kept cs = cs ≡ db.checkpoints

    Same : Db → Type 0
    Same x = Kept x.checkpoints

    R : Unit {0} → Db → Type 0
    R _ x = Advanced c db.checkpoints x.checkpoints

    refused : Bool
    refused = not (valid_uint64 (c.chain_id ∷ c.block_number ∷ []))
