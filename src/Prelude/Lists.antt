-- ===== src/Prelude/Lists.antt =====
-- Lists measured by native numbers, and the filters that stand for SQL's WHERE.
use Prim.Native.Nat.{ℕ, zero, suc, ◌+◌, ◌≤◌}
use mathlib.Core.Path.{◌≡◌, refl, ap, ◌∙◌, fun_ext}
use mathlib.Core.Logic.{◌⊎◌, inl, inr}
use mathlib.Core.Bool.{Bool, true, false, not, ◌&&◌, ◌||◌}
use mathlib.Core.List.{List, [], ◌∷◌, ◌++◌, map}
use mathlib.Core.Option.{Option, none, some}
use native.Mathlib.Omega.{arith}
use package.reddotrelay.Prelude.Tests.{if◌then◌else◌, Bool-cases}

module _ {ℓ} {A : Type ℓ} where
  abbrev pub length : List A → ℕ
  length [] = 0
  length (x ∷ xs) = suc (length xs)

  abbrev pub take : ℕ → List A → List A
  take zero xs = []
  take (suc n) [] = []
  take (suc n) (x ∷ xs) = x ∷ take n xs

  -- The entries that pass a test.
  abbrev pub select : (A → Bool) → List A → List A
  select p [] = []
  select p (x ∷ xs) = if p x then x ∷ select p xs else select p xs

  -- Whether some entry passes a test.
  abbrev pub any : (A → Bool) → List A → Bool
  any p [] = false
  any p (x ∷ xs) = p x || any p xs

  -- The first entry that passes a test.
  abbrev pub find? : (A → Bool) → List A → Option A
  find? p [] = none
  find? p (x ∷ xs) = if p x then some x else find? p xs

  pub length-append : (xs ys : List A) → length (xs ++ ys) ≡ length xs + length ys
  length-append [] ys = omega arith
  length-append (x ∷ xs) ys = omega (arith, length-append xs ys)

  pub length-take-le : (n : ℕ) (xs : List A) → length (take n xs) ≤ n
  length-take-le zero xs = omega arith
  length-take-le (suc n) [] = omega arith
  length-take-le (suc n) (x ∷ xs) = omega (arith, length-take-le n xs)

  pub length-select-le : (p : A → Bool) (xs : List A) → length (select p xs) ≤ length xs
  length-select-le p [] = omega arith
  length-select-le p (x ∷ xs) = ground (arith, length-select-le p xs)

-- Every entry has a property.
abbrev pub All {ℓ κ} : {A : Type ℓ} → (A → Type κ) → List A → Type κ
All P [] = Unit
All P (x ∷ xs) = P x × All P xs

module _ {ℓ κ} {A : Type ℓ} (P : A → Type κ) where
  pub All-append : (xs ys : List A) → All P xs → All P ys → All P (xs ++ ys)
  All-append [] ys hx hy = hy
  All-append (x ∷ xs) ys hx hy = (hx.0, All-append xs ys hx.1 hy)

  pub All-take : (n : ℕ) (xs : List A) → All P xs → All P (take n xs)
  All-take zero xs h = tt
  All-take (suc n) [] h = tt
  All-take (suc n) (x ∷ xs) h = (h.0, All-take n xs h.1)

  pub All-select : (p : A → Bool) (xs : List A) → All P xs → All P (select p xs)
  All-select p [] h = tt
  All-select p (x ∷ xs) h =
      elim (p x) as (λ b. All P (if b then x ∷ select p xs else select p xs)) [
        | true ↦ (h.0, All-select p xs h.1)
        | false ↦ All-select p xs h.1
      ]

pub All-map {ℓ κ μ} :
    {A : Type ℓ} (P : A → Type κ) (Q : A → Type μ) (f : (a : A) → P a → Q a) (xs : List A)
    → All P xs
    → All Q xs
All-map P Q f [] h = tt
All-map P Q f (x ∷ xs) h = (f x h.0, All-map P Q f xs h.1)

-- No two entries are the same under a test.
abbrev pub Unique {ℓ} : {A : Type ℓ} → (A → A → Bool) → List A → Type 0
Unique same [] = Unit
Unique same (x ∷ xs) = (any (same x) xs ≡ false) × Unique same xs

module _ {ℓ} {A : Type ℓ} where
  pub any-select : (p q : A → Bool) (xs : List A) → any p xs ≡ false → any p (select q xs) ≡ false
  any-select p q [] h = refl
  any-select p q (x ∷ xs) h = ground (arith, any-select p q xs)

  pub Unique-select :
      (same : A → A → Bool) (q : A → Bool) (xs : List A)
      → Unique same xs
      → Unique same (select q xs)
  Unique-select same q [] h = tt
  Unique-select same q (x ∷ xs) h =
      ground (arith, any-select (same x) q xs h.0, Unique-select same q xs h.1)

  pub any-select-not : (p : A → Bool) (xs : List A) → any p (select (λ x. not (p x)) xs) ≡ false
  any-select-not p [] = refl
  any-select-not p (x ∷ xs) = ground (arith, any-select-not p xs)

  pub any-weaken :
      (p q : A → Bool) (xs : List A) → any p xs ≡ false → any (λ x. p x && q x) xs ≡ false
  any-weaken p q [] h = refl
  any-weaken p q (x ∷ xs) h = ground (arith, any-weaken p q xs)

  pub length-select_none :
      (p : A → Bool) (xs : List A) → any p xs ≡ false → length (select p xs) ≡ 0
  length-select_none p [] h = refl
  length-select_none p (x ∷ xs) h = ground (arith, length-select_none p xs)

  -- An update that leaves the test alone.
  pub any-map :
      (p : A → Bool) (f : A → A)
      → ((a : A) → p (f a) ≡ p a)
      → (xs : List A) → any p (map f xs) ≡ any p xs
  any-map p f h [] = refl
  any-map p f h (x ∷ xs) = ground (arith, h x, any-map p f h xs)

  pub Unique-map :
      (same : A → A → Bool) (f : A → A)
      → ((a b : A) → same (f a) b ≡ same a b)
      → ((a b : A) → same a (f b) ≡ same a b)
      → (xs : List A) → Unique same xs
      → Unique same (map f xs)
  Unique-map same f l r [] h = tt
  Unique-map same f l r (x ∷ xs) h = (
    ap (λ (p : A → Bool). any p (map f xs)) (fun_ext (l x)) ∙ (any-map (same x) f (r x) xs ∙ h.0),
    Unique-map same f l r xs h.1,
  )

-- Equality of lists by a test of their entries.
abbrev pub list_eq {ℓ} : {A : Type ℓ} → (A → A → Bool) → List A → List A → Bool
list_eq eq [] [] = true
list_eq eq [] (y ∷ ys) = false
list_eq eq (x ∷ xs) [] = false
list_eq eq (x ∷ xs) (y ∷ ys) = eq x y && list_eq eq xs ys

-- Insertion sort: `before a b` says that `a` stands in front of `b`.
module _ {ℓ} {A : Type ℓ} (before : A → A → Bool) where
  abbrev pub insert_sorted : A → List A → List A
  insert_sorted a [] = a ∷ []
  insert_sorted a (x ∷ xs) = if before x a then x ∷ insert_sorted a xs else a ∷ x ∷ xs

  abbrev pub sort : List A → List A
  sort [] = []
  sort (x ∷ xs) = insert_sorted x (sort xs)

  pub All-insert_sorted {κ} :
      (P : A → Type κ) (a : A) (xs : List A) → P a → All P xs → All P (insert_sorted a xs)
  All-insert_sorted P a [] p h = (p, tt)
  All-insert_sorted P a (x ∷ xs) p h =
      elim (before x a) as (λ b. All P (if b then x ∷ insert_sorted a xs else a ∷ x ∷ xs)) [
        | true ↦ (h.0, All-insert_sorted P a xs p h.1)
        | false ↦ (p, h)
      ]

  pub All-sort {κ} : (P : A → Type κ) (xs : List A) → All P xs → All P (sort xs)
  All-sort P [] h = tt
  All-sort P (x ∷ xs) h = All-insert_sorted P x (sort xs) h.0 (All-sort P xs h.1)

-- Membership that can be matched.
abbrev pub In : {A : Type 0} → A → List A → Type 0
In a [] = ⊥
In a (x ∷ xs) = (x ≡ a) ⊎ In a xs

module _ {A : Type 0} where
  pub All-In {κ} : (P : A → Type κ) (xs : List A) → ((x : A) → In x xs → P x) → All P xs
  All-In P [] h = tt
  All-In P (x ∷ xs) h = (h x (inl refl), All-In P xs (λ y m. h y (inr m)))

  pub any-In : (p : A → Bool) (x : A) (xs : List A) → In x xs → p x ≡ true → any p xs ≡ true
  any-In p x [] m h = elim m [ ]
  any-In p x (y ∷ ys) (inl e) h = ground (arith, ap p e)
  any-In p x (y ∷ ys) (inr m) h = ground (arith, any-In p x ys m h)

  pub In-select : (p : A → Bool) (x : A) (xs : List A) → In x xs → p x ≡ true → In x (select p xs)
  In-select p x [] m h = elim m [ ]
  In-select p x (y ∷ ys) (inl e) h = rw (ap p e ∙ h) (inl e)
  In-select p x (y ∷ ys) (inr m) h = elim (Bool-cases (p y)) [
    | inl k ↦ rw k (inr (In-select p x ys m h))
    | inr k ↦ rw k (In-select p x ys m h)
  ]

  pub All-select_self : (p : A → Bool) (xs : List A) → All (λ x. p x ≡ true) (select p xs)
  All-select_self p [] = tt
  All-select_self p (x ∷ xs) = elim (Bool-cases (p x)) [
    | inl e ↦ rw e (e, All-select_self p xs)
    | inr e ↦ rw e (All-select_self p xs)
  ]

  -- Two filters that agree on the entries.
  pub select-ext :
      (p q : A → Bool) (xs : List A) → All (λ x. p x ≡ q x) xs → select p xs ≡ select q xs
  select-ext p q [] h = refl
  select-ext p q (x ∷ xs) h = ground (arith, h.0, select-ext p q xs h.1)

  -- What a filter leaves of the entries that it lets through.
  pub select-select_of :
      (p q : A → Bool) (xs : List A)
      → All (λ x. p x ≡ true → q x ≡ true) xs
      → select p (select q xs) ≡ select p xs
  select-select_of p q [] h = refl
  select-select_of p q (x ∷ xs) h = ground (arith, h.0, select-select_of p q xs h.1)

  pub any-select_of :
      (p q : A → Bool) (xs : List A)
      → All (λ x. p x ≡ true → q x ≡ true) xs
      → any p (select q xs) ≡ any p xs
  any-select_of p q [] h = refl
  any-select_of p q (x ∷ xs) h = ground (arith, h.0, any-select_of p q xs h.1)

  -- An update that keeps the test and leaves the found entry alone.
  pub find?-update :
      (q p : A → Bool) (f : A → A) (xs : List A) (d : A)
      → ((x : A) → q (f x) ≡ q x)
      → find? q xs ≡ some d
      → p d ≡ false
      → find? q (map (λ x. if p x then f x else x) xs) ≡ some d
  find?-update q p f [] d k h e = h
  find?-update q p f (x ∷ xs) d k h e = ground (arith, k x, find?-update q p f xs d k)

  pub find?-eq-true : (q : A → Bool) (xs : List A) (d : A) → find? q xs ≡ some d → q d ≡ true
  find?-eq-true q [] d h = cc
  find?-eq-true q (x ∷ xs) d h = elim (Bool-cases (q x)) [
    | inl e ↦ ground arith
    | inr e ↦ find?-eq-true q xs d (rw e at h)
  ]

  pub find?-In : (q : A → Bool) (xs : List A) (d : A) → find? q xs ≡ some d → In d xs
  find?-In q [] d h = cc
  find?-In q (x ∷ xs) d h = elim (Bool-cases (q x)) [
    | inl e ↦ inl (ground arith)
    | inr e ↦ inr (find?-In q xs d (rw e at h))
  ]

  not-In : (q : A → Bool) (xs : List A) (y : A) → any q xs ≡ false → In y xs → q y ≡ true → ⊥
  not-In q xs y n i k = ground (arith, any-In q y xs i k)

  -- Entries that are the same under a test are one entry.
  pub Unique-eq :
      (same : A → A → Bool)
      → ((a b : A) → same a b ≡ same b a)
      → (xs : List A) (a b : A) → Unique same xs
      → In a xs
      → In b xs
      → same a b ≡ true
      → a ≡ b
  Unique-eq same s [] a b u i j h = elim i [ ]
  Unique-eq same s (x ∷ xs) a b u (inl e) (inl e') h = cc
  Unique-eq same s (x ∷ xs) a b u (inl e) (inr j) h =
      absurd (not-In (same x) xs b u.0 j (ap (λ y. same y b) e ∙ h))
  Unique-eq same s (x ∷ xs) a b u (inr i) (inl e') h =
      absurd (not-In (same x) xs a u.0 i (ap (λ y. same y a) e' ∙ s b a ∙ h))
  Unique-eq same s (x ∷ xs) a b u (inr i) (inr j) h = Unique-eq same s xs a b u.1 i j h

  pub In-map : {B : Type 0} (f : A → B) (x : A) (xs : List A) → In x xs → In (f x) (map f xs)
  In-map f x [] m = elim m [ ]
  In-map f x (y ∷ ys) (inl e) = inl (ap f e)
  In-map f x (y ∷ ys) (inr m) = inr (In-map f x ys m)

  In-insert_sorted :
      (before : A → A → Bool) (a x : A) (xs : List A)
      → (a ≡ x) ⊎ In x xs
      → In x (insert_sorted before a xs)
  In-insert_sorted before a x [] h = h
  In-insert_sorted before a x (y ∷ ys) h = elim (Bool-cases (before y a)) [
    | inr e ↦ rw e h
    | inl e ↦ rw e (go (In-insert_sorted before a x ys) h)
  ]
    where
      go :
          ((a ≡ x) ⊎ In x ys → In x (insert_sorted before a ys))
          → (a ≡ x) ⊎ In x (y ∷ ys)
          → In x (y ∷ insert_sorted before a ys)
      go k (inl i) = inr (k (inl i))
      go k (inr (inl i)) = inl i
      go k (inr (inr m)) = inr (k (inr m))

  pub In-sort : (before : A → A → Bool) (x : A) (xs : List A) → In x xs → In x (sort before xs)
  In-sort before x [] m = m
  In-sort before x (y ∷ ys) (inl e) = In-insert_sorted before y x (sort before ys) (inl e)
  In-sort before x (y ∷ ys) (inr m) =
      In-insert_sorted before y x (sort before ys) (inr (In-sort before x ys m))
