-- ===== src/Prelude/Results.antt =====
-- Results that may be an error, with the notation of `do` blocks.
use mathlib.Core.Path.{◌≡◌, refl}
use mathlib.Core.Bool.{Bool, true, false}
use mathlib.Core.Logic.{◌⊎◌, inl, inr}

pub data Result (E A : Type 0) : Type 0 where
  ok : A → Result E A
  err : E → Result E A

module _ {E A : Type 0} where
  abbrev pub is_ok : Result E A → Bool
  is_ok (ok a) = true
  is_ok (err e) = false

  pub Result-cases : (r : Result E A) → ((a : A) × (r ≡ ok a)) ⊎ ((e : E) × (r ≡ err e))
  Result-cases (ok a) = inl (a, refl)
  Result-cases (err e) = inr (e, refl)

-- Of a result that is not an error.
abbrev pub OnDone : {E A : Type 0} → (A → Type 0) → Result E A → Type 0
OnDone P (ok a) = P a
OnDone P (err e) = Unit

pub OnDone-map :
    {E A : Type 0} (P Q : A → Type 0) (r : Result E A)
    → ((a : A) → P a → Q a)
    → OnDone P r
    → OnDone Q r
OnDone-map P Q (ok a) f h = f a h
OnDone-map P Q (err e) f h = tt
