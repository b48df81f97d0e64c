-- ===== src/Scanner/Verify/Origin.antt =====
-- The blocks that the logs of a verified batch come from.
use reddotrelay.Prelude.{
  ℕ, ◌+◌, ◌-◌, ◌≡◌, refl, ap, subst, List, [], ◌∷◌, some, Bool, true, false, not, Bool-cases, inl,
  inr, arith, All, In, any, map, ◌==◌, ==-refl, ltb, str_eq, eq_refl, ◌&&◌, ◌||◌,
}
use reddotrelay.Core.{CanonicalBlock, RawLog}
use reddotrelay.Scanner.Types.{
  Hex, BatchHeader, Log, Query, Yields, Yields-bind, Yields-raise_if, Yields-any, Yields-pure,
  Yields-map, invalid_log, outside_filter, hash_changed, raise_if,
}
use reddotrelay.Scanner.Logs.{matches_filter}
use reddotrelay.Scanner.Verify.{Heads, head_at, hash_at, numbers_from, check_logs, check_log_hashes}
use reddotrelay.Scanner.Verify.EndHash.{numbers_from-In}

-- A log of one of the blocks, by number and hash.
unfoldable pub has_block : List CanonicalBlock → RawLog → Bool
has_block blocks l = any (λ b. b.number == l.block_number && str_eq b.hash l.block_hash) blocks

abbrev pub InRange : ℕ → ℕ → Log → Type 0
InRange from to l = In l.block_number (numbers_from from (to + 1 - from))

abbrev pub AtHead : Heads → Log → Type 0
AtHead heads l = l.block_hash ≡ hash_at heads l.block_number

module _ {S : Type 0} where
  pub check_logs-Yields :
      (query : Query) (logs : List Log)
      → Yields
          (λ _. All (InRange query.from_block query.to_block) logs)
          (check_logs {S = S} query logs)
  unfolding check_logs
  check_logs-Yields query [] = Yields-pure tt tt
  check_logs-Yields query (l ∷ logs) = Yields-bind (Yields-raise_if _ invalid_log) λ _ r.
      Yields-bind (Yields-any (raise_if (not (matches_filter l query)) outside_filter))
        λ _ _. Yields-map (check_logs-Yields query logs) λ _ q. (in_range r, q)
    where
      in_range :
          (l.removed || ltb l.block_number query.from_block || ltb query.to_block l.block_number)
            ≡ false
          → InRange query.from_block query.to_block l
      in_range r =
          numbers_from-In query.from_block l.block_number (query.to_block + 1 - query.from_block)
            (ground arith) (ground arith)

  pub check_log_hashes-Yields :
      (heads : Heads) (logs : List Log)
      → Yields (λ _. All (AtHead heads) logs) (check_log_hashes {S = S} heads logs)
  unfolding check_log_hashes
  check_log_hashes-Yields heads [] = Yields-pure tt tt
  check_log_hashes-Yields heads (l ∷ logs) =
      Yields-bind (Yields-raise_if _ hash_changed)
        λ _ r. Yields-map (check_log_hashes-Yields heads logs) λ _ q. (same_hash r, q)
    where
      same_hash : not (l.block_hash == hash_at heads l.block_number) ≡ false → AtHead heads l
      same_hash r = ground arith

abbrev pub is_head : Heads → ℕ → BatchHeader → Bool
is_head heads n h = h.number == n && h.hash == hash_at heads n

pub head_at-is_head :
    (heads : Heads) (n : ℕ) (h : BatchHeader)
    → head_at heads n ≡ some h
    → h.number ≡ n
    → is_head heads n h ≡ true
unfolding hash_at
head_at-is_head heads n h e k = rw (e, hash_at, k, ==-refl n, ==-refl h.hash) refl

pub any-block :
    (hex : Hex) (chain n hash : ℕ) (hs : List BatchHeader)
    → any (λ (h : BatchHeader). h.number == n && h.hash == hash) hs ≡ true
    → any
        (λ (b : CanonicalBlock). b.number == n && str_eq b.hash (hex.hash_hex hash))
        (map
          (λ (h : BatchHeader). record {
            chain_id = chain;
            number = h.number;
            hash = hex.hash_hex h.hash;
            parent_hash = hex.hash_hex h.parent_hash;
          })
          hs)
      ≡ true
any-block hex chain n hash [] m = cc
any-block hex chain n hash (h ∷ hs) m = elim (Bool-cases (h.hash == hash)) [
  | inl e ↦
      ground (
        arith,
        ap hex.hash_hex (same e),
        eq_refl (hex.hash_hex hash),
        any-block hex chain n hash hs,
      )
  | inr e ↦ ground (arith, any-block hex chain n hash hs)
]
  where
    same : (h.hash == hash) ≡ true → h.hash ≡ hash
    same e = ground arith

pub All-at : (P : ℕ → Type 0) (n : ℕ) (ns : List ℕ) → All P ns → In n ns → P n
All-at P n [] h m = elim m [ ]
All-at P n (x ∷ ns) h (inl e) = subst P e h.0
All-at P n (x ∷ ns) h (inr m) = All-at P n ns h.1 m
