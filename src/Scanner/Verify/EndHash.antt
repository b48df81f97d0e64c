-- ===== src/Scanner/Verify/EndHash.antt =====
-- The hash that is kept for the last block of a range.
use reddotrelay.Prelude.{
  ℕ, zero, suc, ◌+◌, ◌-◌, ◌≤◌, ◌<◌, ◌≡◌, ◌≢◌, refl, List, [], ◌∷◌, Option, none, some, ◌==◌,
  ==-refl, false, Bool-cases, inl, inr, ◌⊎◌, arith, In, sym, ◌∙◌,
}
use reddotrelay.Scanner.Types.{
  Hash, Rpc, Options, Io, BatchHeader, Yields, Yields-bind, Yields-any, Yields-pure, Ensures-map,
}
use reddotrelay.Scanner.Retry.{header_by_number, block_hash_by_number, canonical_headers_by_number}
use reddotrelay.Scanner.Retry.Results.{canonical_header_by_number-Yields}
use reddotrelay.Scanner.Verify.{
  Heads, head_at, hash_at, put_heads, numbers_from, head_by, heads_by, fetch_heads, collect_heads,
}

-- The entry of a number in front.
head_at-cons_self : (h : BatchHeader) (heads : Heads) → head_at (h ∷ heads) h.number ≡ some h
unfolding head_at
head_at-cons_self h heads = rw (==-refl h.number)

head_at-cons_ne :
    (h : BatchHeader) (heads : Heads) (n : ℕ)
    → h.number ≢ n
    → head_at (h ∷ heads) n ≡ head_at heads n
unfolding head_at
head_at-cons_ne h heads n ne = ground arith

pub numbers_from-In : (from n k : ℕ) → from ≤ n → n < from + k → In n (numbers_from from k)
numbers_from-In from n zero h k = absurd (omega arith)
numbers_from-In from n (suc m) h k = elim (Bool-cases (from == n)) [
  | inl e ↦ inl (ground arith)
  | inr e ↦ inr (numbers_from-In (from + 1) n m (ground arith) (omega arith))
]

module _ {S : Type 0} (rpc : Rpc S) (options : Options) where
  head_by-Yields :
      (canonical : Option (ℕ → Io S (Hash × Hash))) (n : ℕ)
      → Yields (λ (h : BatchHeader). h.number ≡ n) (head_by rpc options canonical n)
  unfolding head_by
  head_by-Yields (some canonical) n = canonical_header_by_number-Yields rpc options canonical n
  head_by-Yields none n =
      Yields-bind (Yields-any (header_by_number rpc options (some n))) λ header _.
        Yields-bind (Yields-any (block_hash_by_number rpc options n)) λ hash _.
          Yields-pure (record { number = n; hash = hash; parent_hash = header.parent_hash }) refl

  -- Once fetched, or if it is still to come, the last block's entry is the known one.
  fetch_heads-end :
      (end : BatchHeader) (heads : Heads) (ns : List ℕ)
      → (head_at heads end.number ≡ some end) ⊎ In end.number ns
      → Yields (λ hs. head_at hs end.number ≡ some end) (fetch_heads rpc options end heads ns)
  unfolding fetch_heads
  fetch_heads-end end heads [] (inl e) = Yields-pure heads e
  fetch_heads-end end heads [] (inr m) = elim m [ ]
  fetch_heads-end end heads (n ∷ ns) d = elim (Bool-cases (n == end.number)) [
    | inl e ↦ rw e (
        Yields-bind (Yields-pure {Q = λ h. h ≡ end} end refl)
          λ h q. fetch_heads-end end (h ∷ heads) ns (inl (rw q (head_at-cons_self end heads))))
    | inr e ↦ rw e (
        Yields-bind (head_by-Yields rpc.canonical_header n) λ h q.
          fetch_heads-end end (h ∷ heads) ns (later h heads n ns (λ k. ne e (sym q ∙ k)) (ne e) d))
  ]
    where
      ne : (n == end.number) ≡ false → n ≡ end.number → ⊥
      ne e k = ground arith

      later :
          (h : BatchHeader) (heads : Heads) (n : ℕ) (ns : List ℕ)
          → h.number ≢ end.number
          → n ≢ end.number
          → (head_at heads end.number ≡ some end) ⊎ In end.number (n ∷ ns)
          → (head_at (h ∷ heads) end.number ≡ some end) ⊎ In end.number ns
      later h heads n ns k k' (inl e) = inl (head_at-cons_ne h heads end.number k ∙ e)
      later h heads n ns k k' (inr (inl e)) = absurd (k' e)
      later h heads n ns k k' (inr (inr m)) = inr m

  hash_at-end :
      (end : BatchHeader) (heads : Heads)
      → head_at heads end.number ≡ some end
      → hash_at heads end.number ≡ end.hash
  unfolding hash_at
  hash_at-end end heads e = rw (e, hash_at)

  heads_by-end :
      (batch : Option (List ℕ → Io S (List BatchHeader)))
      (canonical : Option (ℕ → Io S (Hash × Hash))) (end : BatchHeader) (ns : List ℕ)
      → In end.number ns
      → Yields
          (λ hs. head_at hs end.number ≡ some end)
          (heads_by rpc options batch canonical end ns)
  unfolding heads_by
  heads_by-end (some batch) (some canonical) end ns m =
      Yields-bind (Yields-any (canonical_headers_by_number rpc options canonical batch ns))
        λ headers _.
          Yields-pure (end ∷ put_heads [] headers) (head_at-cons_self end (put_heads [] headers))
  heads_by-end none canonical end ns m = fetch_heads-end end [] ns (inr m)
  heads_by-end (some batch) none end ns m = fetch_heads-end end [] ns (inr m)

  -- The last block's entry is the known one.
  pub collect_heads-end :
      (from : ℕ) (end : BatchHeader)
      → from ≤ end.number
      → Yields
          (λ heads. head_at heads end.number ≡ some end)
          (collect_heads rpc options end (numbers_from from (end.number + 1 - from)))
  unfolding collect_heads
  collect_heads-end from end le =
      heads_by-end rpc.canonical_headers rpc.canonical_header end _
        (numbers_from-In from end.number (end.number + 1 - from) le (omega arith))

  -- Whatever the provider answers, the hash that is kept for the last block of a range is the one
  -- that was read before the logs were queried: the comparison of the two, by which
  -- `fetchVerifiedBatch` means to notice that the chain changed during the query, always agrees.
  pub hash_at-collect_heads :
      (from : ℕ) (end : BatchHeader)
      → from ≤ end.number
      → Yields
          (λ heads. hash_at heads end.number ≡ end.hash)
          (collect_heads rpc options end (numbers_from from (end.number + 1 - from)))
  hash_at-collect_heads from end le = record {
    yields = λ s.
        Ensures-map {S = S} (λ heads _. head_at heads end.number ≡ some end)
          (λ heads _. hash_at heads end.number ≡ end.hash)
          (collect_heads rpc options end (numbers_from from (end.number + 1 - from)) s)
          (λ heads _ e. hash_at-end end heads e) ((collect_heads-end from end le).yields s);
  }
