-- ===== src/Scanner/Types.antt =====
-- The types and interfaces of internal/scanner/scanner.go: what go-ethereum, the store and the batch
-- processor provide enters as records of operations on a state.
use reddotrelay.Prelude.{
  ℕ, ◌^◌, Bool, true, false, List, Option, Result, ok, err, String, if◌then◌else◌, ◌≡◌, refl,
}
use reddotrelay.Core.{Checkpoint, CanonicalBlock, RawLog}
use reddotrelay.Store.Db.{StoreError}

-- go-ethereum's 32-byte hashes and 20-byte addresses, as numbers; the empty hash is 0.
abbrev pub Hash : Type 0
Hash = ℕ

abbrev pub Address : Type 0
Address = ℕ

-- The methods `Hex` of go-ethereum's `common.Hash` and `common.Address`.
pub record Hex : Type 0 where
  pub hash_hex : Hash → String
  pub address_hex : Address → String

-- go-ethereum's `types.Log` and, of `types.Header`, the number and the parent's hash.
pub record Log : Type 0 where
  pub address : Address
  pub topics : List Hash
  pub content : List ℕ
  pub block_number : ℕ
  pub tx_hash : Hash
  pub tx_index : ℕ
  pub block_hash : Hash
  pub index : ℕ
  pub removed : Bool

pub record Header : Type 0 where
  pub number : Option ℕ
  pub parent_hash : Hash

-- `CanonicalBatchHeader`
pub record BatchHeader : Type 0 where
  pub number : ℕ
  pub hash : Hash
  pub parent_hash : Hash

pub record Query : Type 0 where
  pub from_block : ℕ
  pub to_block : ℕ
  pub addresses : List Address
  pub topics : List (List Hash)

pub data ScanError : Type 0 where
  -- An error of the provider, with its message, and the end of the context.
  rpc_failed : List ℕ → ScanError
  cancelled : ScanError
  nil_header wrong_block empty_hash invalid_chain_id chain_mismatch latest_invalid : ScanError
  batch_length batch_block batch_duplicate : ScanError
  invalid_log outside_filter no_header no_hash chain_changed : ScanError
  detached_from_checkpoint detached hash_changed conflicting_logs : ScanError
  resume_overflow range_too_large : ScanError
  store_failed : StoreError → ScanError
  process_failed : ScanError

-- What runs against the provider and the store: a result and the state after it.
abbrev pub Io : Type 0 → Type 0 → Type 0
Io S A = S → Result ScanError A × S

module _ {S : Type 0} where
  abbrev pub pure : {A : Type 0} → A → Io S A
  pure a s = (ok a, s)

  abbrev pub raise : {A : Type 0} → ScanError → Io S A
  raise e s = (err e, s)

  infixl 5 ◌>>=◌ ◌>>◌
  abbrev pub ◌>>=◌ : {A B : Type 0} → Io S A → (A → Io S B) → Io S B
  ◌>>=◌ m f s = elim (m s).0 [ ok a ↦ f a (m s).1 | err e ↦ (err e, (m s).1) ]

  abbrev pub ◌>>◌ : {A B : Type 0} → Io S A → Io S B → Io S B
  m >> k = m >>= λ _. k

  unfoldable pub raise_if : Bool → ScanError → Io S (Unit {0})
  raise_if c e s = if c then (err e, s) else (ok tt, s)

-- The interface `RPC`, with the optional `canonicalHeaderRPC` and `canonicalBatchHeaderRPC`, and the
-- waits of a scan: for the semaphore of `withVerificationLimit` and for a delay.
pub record Rpc (S : Type 0) : Type 0 where
  pub chain_id : Io S (Option ℕ)
  pub header_by_number : Option ℕ → Io S (Option Header)
  pub block_hash_by_number : ℕ → Io S Hash
  pub filter_logs : Query → Io S (List Log)
  pub canonical_header : Option (ℕ → Io S (Hash × Hash))
  pub canonical_headers : Option (List ℕ → Io S (List BatchHeader))
  pub acquire : Io S (Unit {0})
  pub sleep : ℕ → Io S (Unit {0})

-- The interface `Checkpoints`, with the optional `canonicalHistory`.
pub record History (S : Type 0) : Type 0 where
  pub canonical_blocks : ℕ → ℕ → Io S (List CanonicalBlock)
  pub rewind_canonical : ℕ → ℕ → String → Io S (Unit {0})

pub record Checkpoints (S : Type 0) : Type 0 where
  pub checkpoint : ℕ → Io S Checkpoint
  pub reset_from : ℕ → ℕ → Io S (Unit {0})
  pub history : Option (History S)

-- `ProcessCanonicalBatch`; a plain `BatchProcessor` ignores the blocks and the depth.
pub record Processor (S : Type 0) : Type 0 where
  pub process : List RawLog → List CanonicalBlock → Checkpoint → ℕ → Io S (Unit {0})

pub record Options : Type 0 where
  pub chain_id : ℕ
  pub start_block : ℕ
  pub batch_size : ℕ
  pub confirmations : ℕ
  pub reorg_depth : ℕ
  pub poll_interval : ℕ
  pub retry_attempts : ℕ
  pub retry_backoff : ℕ
  pub rpc_timeout : ℕ
  pub addresses : List Address
  pub topics : List (List Hash)

-- uint64 and the wrap-around of its arithmetic.
abbrev pub uint64_mod : ℕ
uint64_mod = 2 ^ 64

module _ {S : Type 0} where
  -- What a run has returned and reached: nothing is said of an error.
  abbrev pub Ensures : {A : Type 0} → (A → S → Type 0) → Result ScanError A × S → Type 0
  Ensures Q r = elim r.0 [ ok a ↦ Q a r.1 | err e ↦ Unit ]

  pub Ensures-bind :
      {A B : Type 0} (Q : A → S → Type 0) (R : B → S → Type 0) (m : Io S A) (f : A → Io S B) (s : S)
      → Ensures Q (m s)
      → ((a : A) (s' : S) → Q a s' → Ensures R (f a s'))
      → Ensures R ((m >>= f) s)
  Ensures-bind {A} {B} Q R m f s h k = go (m s).0 h
    where
      go :
          (r : Result ScanError A)
          → elim r as (λ _. Type 0) [ ok a ↦ Q a (m s).1 | err e ↦ Unit ]
          → Ensures R (elim r as (λ _. Result ScanError B × S) [
            | ok a ↦ f a (m s).1
            | err e ↦ (err e, (m s).1)
          ])
      go (ok a) q = k a (m s).1 q
      go (err e) q = tt

  -- Every value that an action returns has a property.
  pub record Yields {A : Type 0} (Q : A → Type 0) (m : Io S A) : Type 0 where
    pub yields : (s : S) → Ensures (λ a _. Q a) (m s)

  pub Yields-bind :
      {A B : Type 0} {Q : A → Type 0} {R : B → Type 0} {m : Io S A} {f : A → Io S B}
      → Yields Q m
      → ((a : A) → Q a → Yields R (f a))
      → Yields R (m >>= f)
  Yields-bind {Q = Q} {R = R} {m = m} {f = f} h k = record {
    yields = λ s.
        Ensures-bind (λ a _. Q a) (λ b _. R b) m f s (h.yields s) (λ a s' q. (k a q).yields s');
  }

  pub Yields-pure : {A : Type 0} {Q : A → Type 0} (a : A) → Q a → Yields Q (pure a)
  Yields-pure a q = record { yields = λ s. q }

  pub Yields-raise_if : (c : Bool) (e : ScanError) → Yields (λ _. c ≡ false) (raise_if c e)
  unfolding raise_if
  Yields-raise_if true e = record { yields = λ s. tt }
  Yields-raise_if false e = record { yields = λ s. refl }

  pub Yields-any : {A : Type 0} (m : Io S A) → Yields (λ _. Unit {0}) m
  Yields-any m = record { yields = λ s. go (m s).0 }
    where
      go :
          {A : Type 0} (r : Result ScanError A)
          → elim r as (λ _. Type 0) [ ok a ↦ Unit | err e ↦ Unit ]
      go (ok a) = tt
      go (err e) = tt

  pub Ensures-map :
      {A : Type 0} (Q R : A → S → Type 0) (r : Result ScanError A × S)
      → ((a : A) (s : S) → Q a s → R a s)
      → Ensures Q r
      → Ensures R r
  Ensures-map Q R (ok a, s) f h = f a s h
  Ensures-map Q R (err e, s) f h = tt

  pub Yields-map :
      {A : Type 0} {Q R : A → Type 0} {m : Io S A} → Yields Q m → ((a : A) → Q a → R a) → Yields R m
  Yields-map {Q = Q} {R = R} {m = m} h f = record {
    yields = λ s. Ensures-map (λ a _. Q a) (λ a _. R a) (m s) (λ a _ q. f a q) (h.yields s);
  }
