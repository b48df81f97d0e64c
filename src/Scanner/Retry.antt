-- ===== src/Scanner/Retry.antt =====
-- internal/scanner/scanner.go: `rpcRetryDelay`, `retry` and the calls that it guards, and
-- internal/scanner/batch.go.
pub mod Delay
pub mod Results
use reddotrelay.Prelude.{
  ℕ, zero, suc, ◌+◌, ◌-◌, ◌*◌, ◌/◌, Bool, true, false, not, ◌&&◌, ◌||◌, List, [], ◌∷◌, ◌++◌, Option,
  none, some, Result, ok, err, ◌==◌, ltb, leb, if◌then◌else◌, min, any, length,
}
use reddotrelay.Scanner.Types.{
  Hash, Log, Header, BatchHeader, Query, Rpc, Options, Io, ScanError, pure, raise, raise_if, ◌>>=◌,
  ◌>>◌, rpc_failed, nil_header, wrong_block, empty_hash, invalid_chain_id, chain_mismatch,
  batch_length, batch_block, batch_duplicate, uint64_mod,
}

-- 30 * time.Second
abbrev pub max_rpc_backoff : ℕ
max_rpc_backoff = 30_000_000_000

-- The loop of `rpcRetryDelay`, over the rounds left.
pub doubled_delay : ℕ → ℕ → ℕ
doubled_delay zero delay = min delay max_rpc_backoff
doubled_delay (suc n) delay =
    let rest = doubled_delay n (delay * 2) in
    if leb (max_rpc_backoff / 2) delay then max_rpc_backoff else rest

-- `rpcRetryDelay`
pub rpc_retry_delay : ℕ → ℕ → ℕ
unfolding doubled_delay
rpc_retry_delay base attempt =
    if leb max_rpc_backoff base then max_rpc_backoff else doubled_delay attempt base

-- The ASCII letters of `strings.ToLower`, and `strings.Contains`.
pub lower : List ℕ → List ℕ
lower [] = []
lower (c ∷ cs) = (if leb b'A' c && leb c b'Z' then c + 32 else c) ∷ lower cs

pub has_prefix : List ℕ → List ℕ → Bool
has_prefix [] text = true
has_prefix (p ∷ ps) [] = false
has_prefix (p ∷ ps) (c ∷ cs) = p == c && has_prefix ps cs

pub has_part : List ℕ → List ℕ → Bool
has_part part [] = has_prefix part []
has_part part (c ∷ cs) = has_prefix part (c ∷ cs) || has_part part cs

abbrev batch_word : List ℕ
batch_word = b'b' ∷ b'a' ∷ b't' ∷ b'c' ∷ b'h' ∷ []

abbrev not_supported_words : List ℕ
not_supported_words =
    b'n' ∷ b'o' ∷ b't' ∷ b' ' ∷ b's' ∷ b'u' ∷ b'p' ∷ b'p' ∷ b'o' ∷ b'r' ∷ b't' ∷ b'e' ∷ b'd' ∷ []

abbrev unsupported_word : List ℕ
unsupported_word = b'u' ∷ b'n' ∷ b's' ∷ b'u' ∷ b'p' ∷ b'p' ∷ b'o' ∷ b'r' ∷ b't' ∷ b'e' ∷ b'd' ∷ []

-- `isUnsupportedBatchError`, on the errors of the provider.
pub is_unsupported_batch_error : ScanError → Bool
unfolding lower has_part has_prefix
is_unsupported_batch_error (rpc_failed message) =
    has_part batch_word (lower message)
    && (has_part not_supported_words (lower message) || has_part unsupported_word (lower message))
is_unsupported_batch_error e = false

module _ {S : Type 0} (rpc : Rpc S) (options : Options) where
  -- The loop of `retry` from one attempt on, with the number of attempts that may follow it. Each
  -- attempt waits for the semaphore first; an error of the last attempt, or of a wait between two
  -- attempts, is returned.
  pub retry_from : {A : Type 0} → ℕ → ℕ → Io S A → Io S A
  retry_from attempt zero operation s = (rpc.acquire >> operation) s
  retry_from attempt (suc left) operation s = elim ((rpc.acquire >> operation) s).0 [
    | ok a ↦ (ok a, ((rpc.acquire >> operation) s).1)
    | err e ↦
        (rpc.sleep (rpc_retry_delay options.retry_backoff attempt)
            >> retry_from (attempt + 1) left operation)
          ((rpc.acquire >> operation) s).1
  ]

  -- `retry`, with at least one attempt, which `NewWithObserver` checks.
  pub retry : {A : Type 0} → Io S A → Io S A
  retry = retry_from 0 (options.retry_attempts - 1)

  -- The check in `headerByNumber` that a header is the requested one.
  pub is_requested : Option ℕ → Header → Bool
  is_requested none header = true
  is_requested (some number) header = elim header.number [ none ↦ false | some n ↦ n == number ]

  pub checked_header : Option ℕ → Option Header → Io S Header
  checked_header number none = raise nil_header
  checked_header number (some header) =
      if is_requested number header then pure header else raise wrong_block

  -- `headerByNumber`
  pub header_by_number : Option ℕ → Io S Header
  header_by_number number = retry (rpc.header_by_number number >>= checked_header number)

  -- `blockHashByNumber`
  pub block_hash_by_number : ℕ → Io S Hash
  block_hash_by_number number = retry (
      rpc.block_hash_by_number number >>= λ hash. if hash == 0 then raise empty_hash else pure hash)

  -- `canonicalHeaderByNumber`
  pub canonical_header_by_number : (ℕ → Io S (Hash × Hash)) → ℕ → Io S BatchHeader
  canonical_header_by_number canonical number = retry (
      canonical number >>= λ (hash, parent).
      if hash == 0
      then raise empty_hash
      else pure (record { number = number; hash = hash; parent_hash = parent }))

  -- `filterLogs`
  pub filter_logs : Query → Io S (List Log)
  filter_logs query = retry (rpc.filter_logs query)

  -- `IsUint64` of the provider's answer.
  pub valid_chain_id : Option ℕ → Io S ℕ
  valid_chain_id none = raise invalid_chain_id
  valid_chain_id (some id) = if ltb id uint64_mod then pure id else raise invalid_chain_id

  -- `verifyChainID`
  pub verify_chain_id : Io S (Unit {0})
  verify_chain_id = retry (rpc.chain_id >>= valid_chain_id) >>= λ id.
      raise_if (not (id == options.chain_id)) chain_mismatch

  -- The checks of `canonicalHeadersByNumber` on a batch's headers, in order.
  pub check_headers : List ℕ → List BatchHeader → List ℕ → Io S (Unit {0})
  check_headers (n ∷ numbers) (h ∷ headers) seen =
      raise_if (h.hash == 0) empty_hash
      >> (raise_if (not (h.number == n)) batch_block
          >> (raise_if (any (λ m. m == h.number) seen) batch_duplicate
              >> check_headers numbers headers (h.number ∷ seen)))
  check_headers numbers headers seen = pure tt

  -- `canonicalHeadersByNumberSequential`
  pub sequential_headers : (ℕ → Io S (Hash × Hash)) → List ℕ → Io S (List BatchHeader)
  sequential_headers canonical [] = pure []
  sequential_headers canonical (n ∷ numbers) = canonical n >>= λ (hash, parent).
      sequential_headers canonical numbers >>= λ rest.
      pure (record { number = n; hash = hash; parent_hash = parent } ∷ rest)

  -- One attempt of `canonicalHeadersByNumber`: a batch request, or one call for each block where the
  -- provider does not support batches.
  pub request_headers :
      (ℕ → Io S (Hash × Hash))
      → (List ℕ → Io S (List BatchHeader))
      → List ℕ
      → Io S (List BatchHeader)
  request_headers canonical batch numbers s = elim (batch numbers s).0 [
    | err e ↦
        if is_unsupported_batch_error e
        then sequential_headers canonical numbers (batch numbers s).1
        else (err e, (batch numbers s).1)
    | ok headers ↦
        (raise_if (not (length headers == length numbers)) batch_length
            >> (check_headers numbers headers [] >> pure headers))
          (batch numbers s).1
  ]

  -- `canonicalHeadersByNumber`
  pub canonical_headers_by_number :
      (ℕ → Io S (Hash × Hash))
      → (List ℕ → Io S (List BatchHeader))
      → List ℕ
      → Io S (List BatchHeader)
  canonical_headers_by_number canonical batch numbers =
      retry (request_headers canonical batch numbers)
