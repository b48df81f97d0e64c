-- ===== src/Store/History/Recovery.antt =====
-- What a recovery from a reorganisation deletes, what it keeps, and where the scanner resumes.
use reddotrelay.Prelude.{
  ℕ, ◌-◌, Bool, true, false, not, ◌&&◌, ◌≡◌, refl, List, [], ◌∷◌, ok, err, none, some, String, ◌==◌,
  leb, if◌then◌else◌, any, select, map, find?, arith, inl, inr, Bool-cases, any-select-not,
  select-select_of, All-In,
}
use reddotrelay.Core.{Checkpoint, CanonicalBlock}
use reddotrelay.Store.Db.{Db, valid_uint64, checkpoint_not_found, raise_if, ensure}
use reddotrelay.Store.Events.{on_chain}
use reddotrelay.Store.History.{
  delete_events, delete_blocks_from, move_checkpoint, drop_checkpoint, in_chain_from,
  rewind_canonical, reset_from, has_checkpoint,
}

-- The rows that a filter lets through are the same before and after it.
select_twice : {A : Type 0} (p : A → Bool) (xs : List A) → select p (select p xs) ≡ select p xs
select_twice p xs = select-select_of p p xs (All-In _ xs λ x m h. h)

abbrev block_from : ℕ → ℕ → CanonicalBlock → Bool
block_from chain from b = chain == b.chain_id && leb from b.number

-- The chain's rows from a block on are gone, and no other row is.
pub record ForgetsFrom (chain from : ℕ) (a b : Db) : Type 0 where
  pub events_gone : any (in_chain_from chain from) b.events ≡ false
  pub events_kept :
      select (λ e. not (in_chain_from chain from e)) b.events
      ≡ select (λ e. not (in_chain_from chain from e)) a.events
  pub blocks_gone : any (block_from chain from) b.canonical_blocks ≡ false
  pub blocks_kept :
      select (λ c. not (block_from chain from c)) b.canonical_blocks
      ≡ select (λ c. not (block_from chain from c)) a.canonical_blocks

forgets :
    (chain from : ℕ) (a b : Db)
    → b.events ≡ select (λ e. not (in_chain_from chain from e)) a.events
    → b.canonical_blocks ≡ select (λ c. not (block_from chain from c)) a.canonical_blocks
    → ForgetsFrom chain from a b
forgets chain from a b e c = record {
  events_gone = rw e (any-select-not (in_chain_from chain from) a.events);
  events_kept = rw e (select_twice _ a.events);
  blocks_gone = rw c (any-select-not (block_from chain from) a.canonical_blocks);
  blocks_kept = rw c (select_twice _ a.canonical_blocks);
}

find?-none_of : {A : Type 0} (p : A → Bool) (xs : List A) → any p xs ≡ false → find? p xs ≡ none
find?-none_of p [] h = refl
find?-none_of p (x ∷ xs) h = ground (arith, find?-none_of p xs)

moved_found :
    (c : Checkpoint) (cs : List Checkpoint)
    → find? (on_chain c.chain_id) (map (λ o. if on_chain c.chain_id o then c else o) cs)
      ≡ (if any (on_chain c.chain_id) cs then some c else none)
moved_found c [] = refl
moved_found c (x ∷ cs) = ground (arith, moved_found c cs)

-- `RewindCanonical` never fails for numbers in range. It forgets exactly the chain's events and
-- blocks from `from` on; afterwards the chain's checkpoint is `from - 1` with the ancestor's hash,
-- where it had one and `from` is not 0, and none otherwise.
pub rewind_canonical_lem :
    (chain from : ℕ) (hash : String) (db : Db)
    → valid_uint64 (chain ∷ from ∷ []) ≡ true
    → let (r, db') = rewind_canonical chain from hash db in
      (r ≡ ok tt)
      × ForgetsFrom chain from db db'
      × (find? (on_chain chain) db'.checkpoints ≡ (
          if from == 0
          then none
          else if any (on_chain chain) db.checkpoints
          then some (record { chain_id = chain; block_number = from - 1; block_hash = hash })
          else none))
unfolding rewind_canonical raise_if delete_events delete_blocks_from drop_checkpoint move_checkpoint
rewind_canonical_lem chain from hash db v = elim (Bool-cases (from == 0)) [
  | inl e ↦
      rw (v, e)
        (
          refl,
          forgets chain from db _ refl refl,
          find?-none_of (on_chain chain) _ (any-select-not (on_chain chain) db.checkpoints),
        )
  | inr e ↦
      rw (v, e)
        (
          refl,
          forgets chain from db _ refl refl,
          moved_found (record { chain_id = chain; block_number = from - 1; block_hash = hash })
              db.checkpoints,
        )
]

reset_from_runs :
    (chain block : ℕ) (db : Db)
    → valid_uint64 (chain ∷ block ∷ []) ≡ true
    → reset_from chain block db ≡ (
        if has_checkpoint chain db
        then (
          ok tt,
          drop_checkpoint chain
              (delete_blocks_from chain block (delete_events (in_chain_from chain block) db)),
        )
        else (err checkpoint_not_found, db))
unfolding reset_from raise_if ensure has_checkpoint delete_events delete_blocks_from
reset_from_runs chain block db v = rw v (ground arith)

-- `ResetFrom` on a chain with a checkpoint succeeds for numbers in range, forgets exactly the
-- chain's events and blocks from the given one on, and leaves no checkpoint of the chain.
pub reset_from_lem :
    (chain block : ℕ) (db : Db)
    → valid_uint64 (chain ∷ block ∷ []) ≡ true
    → has_checkpoint chain db ≡ true
    → let (r, db') = reset_from chain block db in
      (r ≡ ok tt) × ForgetsFrom chain block db db' × (find? (on_chain chain) db'.checkpoints ≡ none)
unfolding delete_events delete_blocks_from drop_checkpoint
reset_from_lem chain block db v h =
    rw (reset_from_runs chain block db v, h)
      (
        refl,
        forgets chain block db _ refl refl,
        find?-none_of (on_chain chain) _ (any-select-not (on_chain chain) db.checkpoints),
      )

-- Without a checkpoint it reports that, and changes nothing.
pub reset_from_missing :
    (chain block : ℕ) (db : Db)
    → valid_uint64 (chain ∷ block ∷ []) ≡ true
    → has_checkpoint chain db ≡ false
    → reset_from chain block db ≡ (err checkpoint_not_found, db)
reset_from_missing chain block db v h = rw (reset_from_runs chain block db v, h) refl
