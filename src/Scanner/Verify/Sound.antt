-- ===== src/Scanner/Verify/Sound.antt =====
-- What a verified batch is: a chain of blocks over the whole range, and the logs of those blocks.
use reddotrelay.Prelude.{
  ℕ, ◌+◌, ◌-◌, ◌≡◌, refl, List, [], ◌∷◌, none, some, Result, ok, err, ◌==◌, not, map, String,
  str_eq, All, any, true, ◌&&◌,
}
use reddotrelay.Core.{CanonicalBlock, RawLog}
use reddotrelay.Scanner.Types.{
  Hash, Hex, Header, Rpc, Options, Io, BatchHeader, Log, ScanError, chain_changed,
  detached_from_checkpoint, Yields, Yields-bind, Yields-any, Yields-pure, Yields-raise_if, pure,
  ◌>>=◌, ◌>>◌, raise_if,
}
use reddotrelay.Scanner.Logs.{deduplicate, raw_log}
use reddotrelay.Scanner.Retry.{header_by_number, filter_logs}
use reddotrelay.Scanner.Verify.{
  Heads, hash_at, numbers_from, link_blocks, check_logs, check_log_hashes, verify_batch,
  fetch_verified_batch, Batch, detaches, lift, end_hash, query_of, collect_heads,
}
use reddotrelay.Scanner.Logs.Order.{InOrder, OnLogs, deduplicate_lem}
use reddotrelay.Scanner.Verify.Origin.{
  is_head, has_block, InRange, AtHead, All-at, any-block, check_logs-Yields,
  check_log_hashes-Yields,
}
use reddotrelay.Scanner.Verify.Chain.{
  Chained, known_parent, HeadsOf, resolve_heads-HeadsOf, lift-Yields, link_blocks-Yields,
  whole_range, block_of,
}

-- The blocks are the whole range, linked, the checkpoint is at its end, and the logs are in order and
-- of one of the blocks each.
pub record IsVerified (chain : ℕ) (expected_parent : String) (from to : ℕ) (batch : Batch)
    : Type 0 where
  pub chained :
      Chained chain
        (known_parent expected_parent from)
        (numbers_from from (to + 1 - from))
        batch.blocks
  pub of_chain : batch.checkpoint.chain_id ≡ chain
  pub at_end : batch.checkpoint.block_number ≡ to
  pub ordered : InOrder batch.logs
  pub of_blocks : All (λ l. has_block batch.blocks l ≡ true) batch.logs

lift-OnLogs :
    {S A : Type 0} (P : A → Type 0) (r : Result ScanError A)
    → OnLogs P r
    → Yields P (lift {S = S} r)
unfolding lift
lift-OnLogs P (ok a) h = record { yields = λ s. h }
lift-OnLogs P (err e) h = record { yields = λ s. tt }

logs_of_blocks :
    (hex : Hex) (chain from to : ℕ) (heads : Heads) (hs : List BatchHeader)
    (blocks : List CanonicalBlock) (logs : List Log)
    → All (λ n. any (is_head heads n) hs ≡ true) (numbers_from from (to + 1 - from))
    → blocks ≡ map (block_of hex chain) hs
    → All (InRange from to) logs
    → All (AtHead heads) logs
    → All (λ l. has_block blocks (raw_log hex chain l) ≡ true) logs
unfolding has_block raw_log
logs_of_blocks hex chain from to heads hs blocks [] q e r a = tt
logs_of_blocks hex chain from to heads hs blocks (l ∷ logs) q e r a =
    (one, logs_of_blocks hex chain from to heads hs blocks logs q e r.1 a.1)
  where
    one :
        any
          (λ (b : CanonicalBlock).
            b.number == l.block_number && str_eq b.hash (hex.hash_hex l.block_hash))
          blocks
        ≡ true
    one =
        rw (e, a.0)
          (any-block hex chain l.block_number (hash_at heads l.block_number) hs (
            All-at (λ n. any (is_head heads n) hs ≡ true) l.block_number
              (numbers_from from (to + 1 - from)) q r.0))

module _ {S : Type 0} (hex : Hex) (options : Options) where
  verify_batch-Yields :
      (from to : ℕ) (expected_parent : String) (before : Hash) (logs : List Log) (heads : Heads)
      → All (InRange from to) logs
      → Yields {S = S}
          (IsVerified options.chain_id expected_parent from to)
          (verify_batch hex options from to expected_parent before logs heads)
  unfolding verify_batch
  verify_batch-Yields from to expected_parent before logs heads in_range =
      Yields-bind {f = resolved}
        (lift-Yields (HeadsOf heads (numbers_from from (to + 1 - from))) _
          (resolve_heads-HeadsOf heads (numbers_from from (to + 1 - from))))
        λ hs n.
          Yields-bind {f = λ _. joined hs}
            (Yields-any (raise_if (not (hash_at heads to == before)) chain_changed))
            λ _ _.
              Yields-bind {f = λ _. linked hs}
                (Yields-raise_if (detaches hex expected_parent from hs) detached_from_checkpoint)
                λ _ d.
                  Yields-bind {f = checked} (link_blocks-Yields hex options.chain_id none hs)
                    λ blocks l.
                      Yields-bind {f = λ _. distinct blocks} (check_log_hashes-Yields heads logs)
                        λ _ a.
                          Yields-bind {f = λ raw. pure (batch_of raw blocks)}
                            (lift-OnLogs
                              (λ raws. InOrder raws × All (λ r. has_block blocks r ≡ true) raws) _
                              (deduplicate_lem hex options.chain_id (λ r. has_block blocks r ≡ true)
                                logs
                                (logs_of_blocks hex options.chain_id from to heads hs blocks logs
                                  n.1 l.0 in_range a)))
                            λ raw o. Yields-pure (batch_of raw blocks) (record {
                              chained =
                                  whole_range hex options.chain_id expected_parent from hs
                                    (numbers_from from (to + 1 - from)) blocks n.0 d l;
                              of_chain = refl;
                              at_end = refl;
                              ordered = o.0;
                              of_blocks = o.1;
                            })
    where
      batch_of : List RawLog → List CanonicalBlock → Batch
      batch_of raw blocks = record {
        logs = raw;
        blocks = blocks;
        checkpoint = record {
          chain_id = options.chain_id;
          block_number = to;
          block_hash = hex.hash_hex (hash_at heads to);
        };
      }

      distinct : List CanonicalBlock → Io S Batch
      distinct blocks =
          lift (deduplicate hex options.chain_id logs) >>= λ raw. pure (batch_of raw blocks)

      checked : List CanonicalBlock → Io S Batch
      checked blocks = check_log_hashes heads logs >> distinct blocks

      linked : List BatchHeader → Io S Batch
      linked hs = link_blocks hex options.chain_id none hs >>= checked

      joined : List BatchHeader → Io S Batch
      joined hs =
          raise_if (detaches hex expected_parent from hs) detached_from_checkpoint >> linked hs

      resolved : List BatchHeader → Io S Batch
      resolved hs = raise_if (not (hash_at heads to == before)) chain_changed >> joined hs

module _ {S : Type 0} (hex : Hex) (rpc : Rpc S) (options : Options) where
  -- Whatever the provider answers, a batch that is returned has one block of the chain for every
  -- number of the range, in order, each the child of the one in front and the first the child of the
  -- expected parent, where one is given and the range does not begin at 0; its checkpoint is at the
  -- end of the range. Its logs are in order, and each is of one of these blocks, by number and hash.
  pub fetch_verified_batch-Yields :
      (from to : ℕ) (expected_parent : String)
      → Yields
          (IsVerified options.chain_id expected_parent from to)
          (fetch_verified_batch hex rpc options from to expected_parent)
  unfolding fetch_verified_batch
  fetch_verified_batch-Yields from to expected_parent =
      Yields-bind {f = λ h. end_hash rpc options to >>= λ before. after_hash h before}
        (Yields-any (header_by_number rpc options (some to)))
        λ h _. Yields-bind {f = after_hash h} (Yields-any (end_hash rpc options to)) λ before _.
          Yields-bind {f = after_logs h before}
            (Yields-any (filter_logs rpc options (query_of options from to)))
            λ logs _.
              Yields-bind {f = λ _. after_checks h before logs}
                (check_logs-Yields (query_of options from to) logs)
                λ _ r.
                  Yields-bind {f = verify_batch hex options from to expected_parent before logs}
                    (Yields-any (
                      collect_heads rpc options (end_of h before)
                        (numbers_from from (to + 1 - from))))
                    λ heads _.
                      verify_batch-Yields hex options from to expected_parent before logs heads r
    where
      end_of : Header → Hash → BatchHeader
      end_of h before = record { number = to; hash = before; parent_hash = h.parent_hash }

      after_checks : Header → Hash → List Log → Io S Batch
      after_checks h before logs =
          collect_heads rpc options (end_of h before) (numbers_from from (to + 1 - from))
          >>= verify_batch hex options from to expected_parent before logs

      after_logs : Header → Hash → List Log → Io S Batch
      after_logs h before logs =
          check_logs (query_of options from to) logs >> after_checks h before logs

      after_hash : Header → Hash → Io S Batch
      after_hash h before =
          filter_logs rpc options (query_of options from to) >>= after_logs h before
