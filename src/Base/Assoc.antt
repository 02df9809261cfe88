-- ===== src/Base/Assoc.antt =====
-- `HashMap` as an association list.
use mathlib.Core.Path.{◌≡◌, refl}
use mathlib.Core.List.{List, [], ◌∷◌}
use mathlib.Core.Option.{Option, none, some}
use native.Mathlib.Omega.{arith}
use worklane.Base.Tests.{PartialEq, ◌==◌, ==_iff, if◌then◌else◌}

module _ {ℓ κ} {K : Type ℓ} {V : Type κ} ⦃eq : PartialEq K⦄ where
  -- `HashMap::remove`.
  unfoldable pub remove : K → List (K × V) → List (K × V)
  remove q [] = []
  remove q (e ∷ rest) = let others = remove q rest in if e.0 == q then others else e ∷ others

  -- `HashMap::get`.
  unfoldable pub lookup : K → List (K × V) → Option V
  lookup q [] = none
  lookup q (e ∷ rest) = if e.0 == q then some e.1 else lookup q rest

  -- `HashMap::insert`: the former value under the key, if any, is replaced.
  unfoldable pub insert : K → V → List (K × V) → List (K × V)
  insert q w [] = (q, w) ∷ []
  insert q w (e ∷ rest) = if e.0 == q then (q, w) ∷ rest else e ∷ insert q w rest

  pub lookup-remove :
      (q r : K) (entries : List (K × V))
      → lookup r (remove q entries) ≡ (if q == r then none else lookup r entries)
  unfolding lookup remove
  lookup-remove q r [] = ground arith
  lookup-remove q r (e ∷ rest) =
      ground (arith, lookup-remove q r rest, ==_iff q r, ==_iff e.0 q, ==_iff e.0 r)

  pub lookup-insert :
      (q r : K) (w : V) (entries : List (K × V))
      → lookup r (insert q w entries) ≡ (if q == r then some w else lookup r entries)
  unfolding lookup insert
  lookup-insert q r w [] = refl
  lookup-insert q r w (e ∷ rest) =
      ground (arith, lookup-insert q r w rest, ==_iff q r, ==_iff e.0 q, ==_iff e.0 r)
