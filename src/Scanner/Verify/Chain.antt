-- ===== src/Scanner/Verify/Chain.antt =====
-- The checks of `fetchVerifiedBatch` on the heads of a range, and the chain of blocks they leave.
use reddotrelay.Prelude.{
  ℕ, ◌≡◌, refl, ap, ap₂, subst, List, [], ◌∷◌, Option, none, some, Result, ok, err, ◌==◌,
  if◌then◌else◌, Bool, false, not, ◌||◌, Bool-cases, Option-cases, inl, inr, arith, map, String,
  str_eq, eq_iff, All, any, true,
}
use reddotrelay.Core.{CanonicalBlock}
use reddotrelay.Scanner.Types.{
  Hex, BatchHeader, ScanError, Yields, Yields-bind, Yields-pure, Yields-raise_if, detached,
}
use reddotrelay.Scanner.Verify.{Heads, head_at, resolve_heads, link_blocks, detaches, lift}
use reddotrelay.Scanner.Verify.Origin.{is_head, head_at-is_head}

-- Blocks of a chain with the given numbers, each the child of the one in front; `previous` is the
-- hash in front of the first one, where it is known.
pub Chained : ℕ → Option String → List ℕ → List CanonicalBlock → Type 0
Chained chain previous [] [] = Unit
Chained chain previous [] (b ∷ bs) = ⊥
Chained chain previous (n ∷ ns) [] = ⊥
Chained chain previous (n ∷ ns) (b ∷ bs) =
    (b.chain_id ≡ chain)
    × (b.number ≡ n)
    × elim previous as (λ _. Type 0) [ none ↦ Unit | some hash ↦ b.parent_hash ≡ hash ]
    × Chained chain (some b.hash) ns bs

-- The parent that a first block must have.
pub known_parent : String → ℕ → Option String
known_parent expected_parent from =
    if str_eq expected_parent "" || from == 0 then none else some expected_parent

abbrev pub block_of : Hex → ℕ → BatchHeader → CanonicalBlock
block_of hex chain h = record {
  chain_id = chain;
  number = h.number;
  hash = hex.hash_hex h.hash;
  parent_hash = hex.hash_hex h.parent_hash;
}

abbrev pub Follows : Option BatchHeader → BatchHeader → Type 0
Follows none h = Unit
Follows (some p) h = h.parent_hash ≡ p.hash

abbrev pub Linked : Option BatchHeader → List BatchHeader → Type 0
Linked p [] = Unit
Linked p (h ∷ hs) = Follows p h × Linked (some h) hs

head_at-number : (heads : Heads) (n : ℕ) (h : BatchHeader) → head_at heads n ≡ some h → h.number ≡ n
unfolding head_at
head_at-number [] n h e = cc
head_at-number (x ∷ xs) n h e = elim (Bool-cases (x.number == n)) [
  | inl k ↦ ground arith
  | inr k ↦ head_at-number xs n h (rw k at e)
]

abbrev pub numbers : List BatchHeader → List ℕ
numbers hs = map (λ h. h.number) hs

-- Statement about a result that is not an error.
abbrev pub OkIs : (List BatchHeader → Type 0) → Result ScanError (List BatchHeader) → Type 0
OkIs P (ok hs) = P hs
OkIs P (err e) = Unit

-- The heads of the given numbers, each with the hash that is kept for it.
abbrev pub HeadsOf : Heads → List ℕ → List BatchHeader → Type 0
HeadsOf heads ns hs = (numbers hs ≡ ns) × All (λ n. any (is_head heads n) hs ≡ true) ns

one_more :
    (heads : Heads) (h : BatchHeader) (hs : List BatchHeader) (ns : List ℕ)
    → All (λ n. any (is_head heads n) hs ≡ true) ns
    → All (λ n. any (is_head heads n) (h ∷ hs) ≡ true) ns
one_more heads h hs [] q = tt
one_more heads h hs (n ∷ ns) q = (or_true (is_head heads n h) q.0, one_more heads h hs ns q.1)
  where
    or_true : (a : Bool) {b : Bool} → b ≡ true → (a || b) ≡ true
    or_true true e = refl
    or_true false e = e

pub resolve_heads-HeadsOf :
    (heads : Heads) (ns : List ℕ) → OkIs (HeadsOf heads ns) (resolve_heads heads ns)
unfolding resolve_heads
resolve_heads-HeadsOf heads [] = (refl, tt)
resolve_heads-HeadsOf heads (n ∷ ns) = elim (Option-cases (head_at heads n)) [
  | inl e ↦ rw (e, OkIs) tt
  | inr (h, e) ↦
      rw (e, OkIs)
        (elim (Bool-cases (h.hash == 0)) [
          | inl z ↦ rw (z, OkIs) tt
          | inr z ↦
              rw (z, OkIs)
                (rest h (head_at-number heads n h e)
                  (head_at-is_head heads n h e (head_at-number heads n h e))
                  (resolve_heads heads ns) (resolve_heads-HeadsOf heads ns))
        ])
]
  where
    rest :
        (h : BatchHeader)
        → h.number ≡ n
        → is_head heads n h ≡ true
        → (r : Result ScanError (List BatchHeader)) → OkIs (HeadsOf heads ns) r
        → OkIs (HeadsOf heads (n ∷ ns)) (elim r as (λ _. Result ScanError (List BatchHeader)) [
          | ok rest ↦ ok (h ∷ rest)
          | err e ↦ err e
        ])
    rest h e k (ok hs) q = (ap₂ (λ a b. a ∷ b) e q.0, (rw k refl, one_more heads h hs ns q.1))
    rest h e k (err x) q = tt

follows :
    (p : Option BatchHeader) (h : BatchHeader)
    → elim p as (λ _. Bool) [ none ↦ false | some p ↦ not (h.parent_hash == p.hash) ] ≡ false
    → Follows p h
follows none h e = tt
follows (some p) h e = ground arith

module _ {S : Type 0} where
  pub lift-Yields :
      (P : List BatchHeader → Type 0) (r : Result ScanError (List BatchHeader))
      → OkIs P r
      → Yields P (lift {S = S} r)
  unfolding lift
  lift-Yields P (ok hs) h = record { yields = λ s. h }
  lift-Yields P (err e) h = record { yields = λ s. tt }

  pub link_blocks-Yields :
      (hex : Hex) (chain : ℕ) (p : Option BatchHeader) (hs : List BatchHeader)
      → Yields
          (λ blocks. (blocks ≡ map (block_of hex chain) hs) × Linked p hs)
          (link_blocks {S = S} hex chain p hs)
  unfolding link_blocks
  link_blocks-Yields hex chain p [] = Yields-pure [] (refl, tt)
  link_blocks-Yields hex chain p (h ∷ hs) = Yields-bind (Yields-raise_if _ detached) λ _ q.
      Yields-bind (link_blocks-Yields hex chain (some h) hs) λ blocks r.
        Yields-pure (block_of hex chain h ∷ blocks)
          (ap (λ bs. block_of hex chain h ∷ bs) r.0, (follows p h q, r.1))

to_Chained :
    (hex : Hex) (chain : ℕ) (p : BatchHeader) (hs : List BatchHeader)
    → Linked (some p) hs
    → Chained chain (some (hex.hash_hex p.hash)) (numbers hs) (map (block_of hex chain) hs)
unfolding Chained
to_Chained hex chain p [] l = tt
to_Chained hex chain p (h ∷ hs) l = (refl, refl, ap hex.hash_hex l.0, to_Chained hex chain h hs l.1)

first_Chained :
    (hex : Hex) (chain : ℕ) (expected_parent : String) (from : ℕ) (hs : List BatchHeader)
    → detaches hex expected_parent from hs ≡ false
    → Linked none hs
    → Chained chain (known_parent expected_parent from) (numbers hs) (map (block_of hex chain) hs)
unfolding Chained detaches known_parent
first_Chained hex chain expected_parent from [] d l = tt
first_Chained hex chain expected_parent from (h ∷ hs) d l =
    (refl, refl, joins, to_Chained hex chain h hs l.1)
  where
    joins :
        elim (if str_eq expected_parent "" || from == 0 then none else some expected_parent)
          as (λ _. Type 0) [ none ↦ Unit | some hash ↦ hex.hash_hex h.parent_hash ≡ hash ]
    joins = elim (Bool-cases (str_eq expected_parent "" || from == 0)) [
      | inl e ↦ rw e tt
      | inr e ↦ rw e (ground (arith, eq_iff (hex.hash_hex h.parent_hash) expected_parent))
    ]

pub whole_range :
    (hex : Hex) (chain : ℕ) (expected_parent : String) (from : ℕ) (hs : List BatchHeader)
    (ns : List ℕ) (blocks : List CanonicalBlock)
    → numbers hs ≡ ns
    → detaches hex expected_parent from hs ≡ false
    → (blocks ≡ map (block_of hex chain) hs) × Linked none hs
    → Chained chain (known_parent expected_parent from) ns blocks
whole_range hex chain expected_parent from hs ns blocks n d l =
    subst (λ ns. Chained chain (known_parent expected_parent from) ns blocks) n
      (rw l.0 (first_Chained hex chain expected_parent from hs d l.1))
