-- ===== src/Base/Text.antt =====
-- Texts as lists of code points: lane names, job kinds, keys, identifiers and messages.
use Prim.Native.Nat.{ℕ}
use Prim.Native.Char.{code}
use Prim.Native.String.{String}
use mathlib.Core.Path.{◌≡◌, refl}
use mathlib.Core.Logic.{◌↔◌}
use mathlib.Core.Bool.{Bool, true, false, ◌&&◌, ◌||◌}
use mathlib.Core.List.{List, [], ◌∷◌}
use mathlib.Core.Option.{Option, none, some}
use native.Mathlib.Omega.{arith}
use worklane.Base.Tests.{nat_eq, PartialEq, if◌then◌else◌}

abbrev pub Text : Type 0
Text = List ℕ

-- The code points of a literal.
abbrev pub codes : String → Text
codes String.[] = []
codes (String.◌∷◌ c s) = code c ∷ codes s

unfoldable pub text_eq : Text → Text → Bool
text_eq [] [] = true
text_eq (x ∷ xs) (y ∷ ys) = nat_eq x y && text_eq xs ys
text_eq _ _ = false

text_eq_sound : (s t : Text) → text_eq s t ≡ true → s ≡ t
unfolding text_eq
text_eq_sound [] [] h = refl
text_eq_sound [] (y ∷ ys) h = ground arith
text_eq_sound (x ∷ xs) [] h = ground arith
text_eq_sound (x ∷ xs) (y ∷ ys) h = ground (arith, text_eq_sound xs ys)

text_eq_refl : (s : Text) → text_eq s s ≡ true
unfolding text_eq
text_eq_refl [] = refl
text_eq_refl (x ∷ xs) = ground (arith, text_eq_refl xs)

pub text_eq_iff : (s t : Text) → (text_eq s t ≡ true) ↔ (s ≡ t)
text_eq_iff s t = (text_eq_sound s t, λ e. ground (arith, text_eq_refl s))

instance abbrev pub text_Eq : PartialEq Text
text_Eq = record { is_eq = text_eq; is_eq_iff = text_eq_iff }

-- `Some(a) == Some(b)`.
abbrev pub option_eq : Option Text → Option Text → Bool
option_eq none none = true
option_eq (some s) (some t) = text_eq s t
option_eq _ _ = false

-- One character in the output of `{:?}`. A character that does not print is left as it is here,
-- where Rust writes its code point.
abbrev escape : ℕ → Text → Text
escape c rest =
    if nat_eq c 34 || nat_eq c 92
    then 92 ∷ c ∷ rest
    else if nat_eq c 10
    then 92 ∷ b'n' ∷ rest
    else if nat_eq c 13
    then 92 ∷ b'r' ∷ rest
    else if nat_eq c 9
    then 92 ∷ b't' ∷ rest
    else if nat_eq c 0
    then 92 ∷ b'0' ∷ rest
    else c ∷ rest

escape_all : Text → Text
escape_all [] = 34 ∷ []
escape_all (c ∷ cs) = escape c (escape_all cs)

-- A text as `{:?}` prints it.
unfoldable pub debug : Text → Text
unfolding escape_all
debug s = 34 ∷ escape_all s
