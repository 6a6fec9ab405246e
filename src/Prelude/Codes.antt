-- ===== src/Prelude/Codes.antt =====
-- Texts: `UChar*` and `uds` as lists of UTF-16 code units, compared as `u_strcmp() == 0` does.
use Prim.Native.Nat.{ℕ}
use Prim.Native.Char.{code}
use Prim.Native.String.{String}
use mathlib.Core.Path.{◌≡◌, refl, ap₂}
use mathlib.Core.Logic.{◌↔◌}
use mathlib.Core.Bool.{Bool, true, false, ◌&&◌}
use mathlib.Core.List.{List, [], ◌∷◌}
use native.Mathlib.Omega.{arith}
use yella.Prelude.Tests.{◌==◌, ==_iff}

abbrev pub Text : Type 0
Text = List ℕ

-- The code units of a literal, for constants and tests.
abbrev pub codes : String → Text
codes String.[] = []
codes (String.◌∷◌ c s) = code c ∷ codes s

abbrev pub text_eq : Text → Text → Bool
text_eq [] [] = true
text_eq (a ∷ s) (b ∷ t) = a == b && text_eq s t
text_eq _ _ = false

pub text_eq-to : (s t : Text) → text_eq s t ≡ true → s ≡ t
text_eq-to [] [] h = refl
text_eq-to (a ∷ s) (b ∷ t) h =
    let tails : text_eq s t ≡ true = ground arith in
    ap₂ ◌∷◌ ((==_iff a b).0 (ground arith)) (text_eq-to s t tails)
text_eq-to (a ∷ s) [] h = cc
text_eq-to [] (b ∷ t) h = cc

pub text_eq_refl : (s : Text) → text_eq s s ≡ true
text_eq_refl [] = refl
text_eq_refl (a ∷ s) = ground (arith, text_eq_refl s)

pub text_eq_iff : (s t : Text) → (text_eq s t ≡ true) ↔ (s ≡ t)
text_eq_iff s t = (text_eq-to s t, λ e. rw e (text_eq_refl t))
