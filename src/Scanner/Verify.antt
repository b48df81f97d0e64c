-- ===== src/Scanner/Verify.antt =====
-- internal/scanner/scanner.go: `fetchVerifiedBatch` and `FetchRange`.
pub mod Origin
pub mod Chain
pub mod Sound
pub mod EndHash
use reddotrelay.Prelude.{
  ℕ, zero, suc, ◌+◌, ◌-◌, ◌%◌, Bool, true, false, not, ◌&&◌, ◌||◌, List, [], ◌∷◌, Option, none,
  some, String, Result, ok, err, ◌==◌, str_eq, ltb, if◌then◌else◌, find?,
}
use reddotrelay.Core.{Checkpoint, CanonicalBlock, RawLog}
use reddotrelay.Scanner.Types.{
  Hash, Hex, Log, Header, BatchHeader, Query, Rpc, Options, Io, ScanError, pure, raise, raise_if,
  ◌>>=◌, ◌>>◌, invalid_log, outside_filter, no_header, no_hash, chain_changed,
  detached_from_checkpoint, detached, hash_changed, range_too_large, uint64_mod,
}
use reddotrelay.Scanner.Logs.{matches_filter, deduplicate}
use reddotrelay.Scanner.Retry.{
  header_by_number, block_hash_by_number, filter_logs, canonical_header_by_number,
  canonical_headers_by_number, verify_chain_id,
}

-- The block numbers of a loop from `from`, so many of them.
abbrev pub numbers_from : ℕ → ℕ → List ℕ
numbers_from from zero = []
numbers_from from (suc n) = from ∷ numbers_from (from + 1) n

-- The maps `headers` and `hashes`, which are written together; a later entry hides an earlier one.
abbrev pub Heads : Type 0
Heads = List BatchHeader

pub head_at : Heads → ℕ → Option BatchHeader
head_at heads n = find? (λ h. h.number == n) heads

-- An entry of `hashes`; a missing one reads as the empty hash.
pub hash_at : Heads → ℕ → Hash
hash_at heads n = elim (head_at heads n) [ none ↦ 0 | some h ↦ h.hash ]

pub put_heads : Heads → List BatchHeader → Heads
put_heads heads [] = heads
put_heads heads (h ∷ hs) = put_heads (h ∷ heads) hs

-- The checks on the heads of a range: each is there, and has a hash.
pub resolve_heads : Heads → List ℕ → Result ScanError (List BatchHeader)
resolve_heads heads [] = ok []
resolve_heads heads (n ∷ ns) = elim (head_at heads n) [
  | none ↦ err no_header
  | some h ↦
      if h.hash == 0
      then err no_hash
      else elim (resolve_heads heads ns) [ ok rest ↦ ok (h ∷ rest) | err e ↦ err e ]
]

module _ {S : Type 0} where
  pub lift : {A : Type 0} → Result ScanError A → Io S A
  lift r s = (r, s)

  -- The first loop over the logs.
  pub check_logs : Query → List Log → Io S (Unit {0})
  check_logs query [] = pure tt
  check_logs query (l ∷ logs) =
      raise_if
        (l.removed || ltb l.block_number query.from_block || ltb query.to_block l.block_number)
        invalid_log
      >> (raise_if (not (matches_filter l query)) outside_filter >> check_logs query logs)

  -- The last loop over the logs.
  pub check_log_hashes : Heads → List Log → Io S (Unit {0})
  check_log_hashes heads [] = pure tt
  check_log_hashes heads (l ∷ logs) =
      raise_if (not (l.block_hash == hash_at heads l.block_number)) hash_changed
      >> check_log_hashes heads logs

  -- The loop that links the blocks of a range; `previous` is the block in front, if any.
  pub link_blocks : Hex → ℕ → Option BatchHeader → List BatchHeader → Io S (List CanonicalBlock)
  link_blocks hex chain previous [] = pure []
  link_blocks hex chain previous (h ∷ hs) =
      raise_if (elim previous [ none ↦ false | some p ↦ not (h.parent_hash == p.hash) ]) detached
      >> (link_blocks hex chain (some h) hs >>= λ blocks. pure (
          record {
            chain_id = chain;
            number = h.number;
            hash = hex.hash_hex h.hash;
            parent_hash = hex.hash_hex h.parent_hash;
          }
          ∷ blocks))

-- Whether the first block of a range does not descend from the expected parent.
pub detaches : Hex → String → ℕ → List BatchHeader → Bool
detaches hex expected_parent from [] = false
detaches hex expected_parent from (h ∷ hs) =
    not (str_eq expected_parent "")
    && ltb 0 from
    && not (str_eq (hex.hash_hex h.parent_hash) expected_parent)

-- What `fetchVerifiedBatch` returns.
pub record Batch : Type 0 where
  pub logs : List RawLog
  pub blocks : List CanonicalBlock
  pub checkpoint : Checkpoint

module _ (options : Options) where
  abbrev pub query_of : ℕ → ℕ → Query
  query_of from to = record {
    from_block = from;
    to_block = to;
    addresses = options.addresses;
    topics = options.topics;
  }

  -- The guard of `FetchRange`, in 64-bit arithmetic.
  pub range_too_long : ℕ → ℕ → Bool
  range_too_long from to =
      ltb to from || ltb options.batch_size ((to + uint64_mod - from + 1) % uint64_mod)

module _ {S : Type 0} (rpc : Rpc S) (options : Options) where
  -- The hash of the last block, before the logs are queried.
  pub end_hash : ℕ → Io S Hash
  end_hash to = elim rpc.canonical_header [
    | some canonical ↦ canonical_header_by_number rpc options canonical to >>= λ h. pure h.hash
    | none ↦ block_hash_by_number rpc options to
  ]

  -- The head of one block, by one call of a `canonicalHeaderRPC` or by two of a plain `RPC`.
  pub head_by : Option (ℕ → Io S (Hash × Hash)) → ℕ → Io S BatchHeader
  head_by (some canonical) number = canonical_header_by_number rpc options canonical number
  head_by none number = header_by_number rpc options (some number) >>= λ header.
      block_hash_by_number rpc options number >>= λ hash.
      pure (record { number = number; hash = hash; parent_hash = header.parent_hash })

  -- The loop that fetches one head after the other; the last block's is known.
  pub fetch_heads : BatchHeader → Heads → List ℕ → Io S Heads
  fetch_heads end heads [] = pure heads
  fetch_heads end heads (n ∷ ns) =
      (if n == end.number then pure end else head_by rpc.canonical_header n) >>= λ h.
      fetch_heads end (h ∷ heads) ns

  pub heads_by :
      Option (List ℕ → Io S (List BatchHeader))
      → Option (ℕ → Io S (Hash × Hash))
      → BatchHeader
      → List ℕ
      → Io S Heads
  heads_by (some batch) (some canonical) end numbers =
      canonical_headers_by_number rpc options canonical batch numbers >>= λ headers.
      pure (end ∷ put_heads [] headers)
  heads_by batch canonical end numbers = fetch_heads end [] numbers

  -- The heads of the range, in one batch request where the provider has it; the last block's entry
  -- is overwritten by the one from before the query.
  pub collect_heads : BatchHeader → List ℕ → Io S Heads
  collect_heads = heads_by rpc.canonical_headers rpc.canonical_header

module _ {S : Type 0} (hex : Hex) (options : Options) where
  -- The checks after the heads have been collected, and the result.
  pub verify_batch : ℕ → ℕ → String → Hash → List Log → Heads → Io S Batch
  verify_batch from to expected_parent before_end_hash logs heads =
      lift (resolve_heads heads (numbers_from from (to + 1 - from))) >>= λ resolved.
      raise_if (not (hash_at heads to == before_end_hash)) chain_changed
      >> (raise_if (detaches hex expected_parent from resolved) detached_from_checkpoint
          >> (link_blocks hex options.chain_id none resolved >>= λ blocks.
              check_log_hashes heads logs
              >> (lift (deduplicate hex options.chain_id logs) >>= λ raw. pure (record {
                logs = raw;
                blocks = blocks;
                checkpoint = record {
                  chain_id = options.chain_id;
                  block_number = to;
                  block_hash = hex.hash_hex (hash_at heads to);
                };
              }))))

module _ {S : Type 0} (hex : Hex) (rpc : Rpc S) (options : Options) where
  -- `fetchVerifiedBatch`
  pub fetch_verified_batch : ℕ → ℕ → String → Io S Batch
  fetch_verified_batch from to expected_parent =
      header_by_number rpc options (some to) >>= λ end_header.
      end_hash rpc options to >>= λ before_end_hash.
      filter_logs rpc options (query_of options from to) >>= λ logs.
      check_logs (query_of options from to) logs
      >> (collect_heads rpc options
            (record { number = to; hash = before_end_hash; parent_hash = end_header.parent_hash })
            (numbers_from from (to + 1 - from))
          >>= λ heads. verify_batch hex options from to expected_parent before_end_hash logs heads)

  -- `FetchRange`
  pub fetch_range : ℕ → ℕ → Io S (List RawLog)
  fetch_range from to =
      raise_if (range_too_long options from to) range_too_large
      >> (verify_chain_id rpc options
          >> (fetch_verified_batch from to "" >>= λ batch. pure batch.logs))
