-- ===== src/Scanner/Retry/Results.antt =====
-- A retried call returns nothing but what one of its attempts returned.
use reddotrelay.Prelude.{
  ℕ, zero, suc, ◌+◌, ◌-◌, Result, ok, err, ◌≡◌, refl, ◌==◌, if◌then◌else◌, Bool-cases, inl, inr,
}
use reddotrelay.Scanner.Types.{
  Rpc, Options, Io, ScanError, Hash, BatchHeader, Yields, Yields-bind, Yields-any, Ensures, ◌>>◌,
  raise, pure, empty_hash,
}
use reddotrelay.Scanner.Retry.{retry, retry_from, rpc_retry_delay, canonical_header_by_number}

module _ {S A : Type 0} (rpc : Rpc S) (options : Options) (Q : A → Type 0) (operation : Io S A)
    (h : Yields Q operation) where
  attempt-Yields : Yields Q (rpc.acquire >> operation)
  attempt-Yields = Yields-bind (Yields-any rpc.acquire) (λ _ _. h)

  retry_from-Yields : (attempt left : ℕ) → Yields Q (retry_from rpc options attempt left operation)
  unfolding retry_from
  retry_from-Yields attempt zero = record { yields = λ s. attempt-Yields.yields s }
  retry_from-Yields attempt (suc left) = record {
    yields = λ s.
        go (retry_from-Yields (attempt + 1) left) s ((rpc.acquire >> operation) s).0
          (attempt-Yields.yields s);
  }
    where
      go :
          Yields Q (retry_from rpc options (attempt + 1) left operation)
          → (s : S) (r : Result ScanError A) → elim r as (λ _. Type 0) [ ok a ↦ Q a | err e ↦ Unit ]
          → Ensures
              (λ a _. Q a)
              (elim r as (λ _. Result ScanError A × S) [
                | ok a ↦ (ok a, ((rpc.acquire >> operation) s).1)
                | err e ↦
                    (rpc.sleep (rpc_retry_delay options.retry_backoff attempt)
                        >> retry_from rpc options (attempt + 1) left operation)
                      ((rpc.acquire >> operation) s).1
              ])
      go rest s (ok a) q = q
      go rest s (err e) q =
          (Yields-bind (Yields-any (rpc.sleep (rpc_retry_delay options.retry_backoff attempt)))
              (λ _ _. rest)).yields
            _

  pub retry-Yields : Yields Q (retry rpc options operation)
  unfolding retry
  retry-Yields = retry_from-Yields 0 (options.retry_attempts - 1)

-- The head that `canonicalHeaderByNumber` returns is the requested block's.
pub canonical_header_by_number-Yields :
    {S : Type 0} (rpc : Rpc S) (options : Options) (canonical : ℕ → Io S (Hash × Hash)) (number : ℕ)
    → Yields
        (λ (h : BatchHeader). h.number ≡ number)
        (canonical_header_by_number rpc options canonical number)
unfolding canonical_header_by_number
canonical_header_by_number-Yields {S} rpc options canonical number =
    retry-Yields rpc options (λ (h : BatchHeader). h.number ≡ number) _
      (Yields-bind (Yields-any (canonical number)) λ r _. checked r)
  where
    checked :
        (r : Hash × Hash)
        → Yields {S = S}
            (λ (h : BatchHeader). h.number ≡ number)
            (if r.0 == 0
              then raise empty_hash
              else pure (record { number = number; hash = r.0; parent_hash = r.1 }))
    checked r = elim (Bool-cases (r.0 == 0)) [
      | inl e ↦ rw e (record { yields = λ s. tt })
      | inr e ↦ rw e (record { yields = λ s. refl })
    ]
