-- ===== src/Prelude/Texts.antt =====
-- Operations of Go and SQLite on texts: `strings.TrimSpace`, and equality under COLLATE NOCASE.
use Prim.Native.Nat.{ℕ, ◌+◌}
use Prim.Native.Char.{Char, code}
use Prim.Native.String.{String, [], ◌∷◌}
use mathlib.Core.Path.{◌≡◌, refl}
use native.Mathlib.Omega.{arith}
use mathlib.Core.Bool.{Bool, true, false, ◌&&◌, ◌||◌}
use reddotrelay.Prelude.Tests.{leb, ◌==◌, if◌then◌else◌}

-- `unicode.IsSpace`
unfoldable pub is_space : Char → Bool
is_space c =
    (leb 9 (code c) && leb (code c) 13)
    || code c == 32
    || code c == 133
    || code c == 160
    || code c == 5760
    || (leb 8192 (code c) && leb (code c) 8202)
    || code c == 8232
    || code c == 8233
    || code c == 8239
    || code c == 8287
    || code c == 12288

unfoldable pub trim_left : String → String
trim_left [] = []
trim_left (c ∷ s) = let rest = trim_left s in if is_space c then rest else c ∷ s

unfoldable pub before_trimmed : Char → String → String
before_trimmed c [] = if is_space c then [] else c ∷ []
before_trimmed c (d ∷ s) = c ∷ d ∷ s

unfoldable pub trim_right : String → String
trim_right [] = []
trim_right (c ∷ s) = before_trimmed c (trim_right s)

unfoldable pub trim_space : String → String
trim_space s = trim_right (trim_left s)

-- The number of an ASCII letter in lower case.
unfoldable pub folded : Char → ℕ
folded c = if leb 65 (code c) && leb (code c) 90 then code c + 32 else code c

unfoldable pub no_case_eq : String → String → Bool
no_case_eq [] [] = true
no_case_eq [] (d ∷ t) = false
no_case_eq (c ∷ s) [] = false
no_case_eq (c ∷ s) (d ∷ t) = folded c == folded d && no_case_eq s t

pub no_case_eq_refl : (s : String) → no_case_eq s s ≡ true
unfolding no_case_eq
no_case_eq_refl [] = refl
no_case_eq_refl (c ∷ s) = ground (arith, no_case_eq_refl s)
