-- ===== src/Base/Pairwise.antt =====
-- What holds of every element of a list, and of every two in their order.
use worklane.Base.Lists.{any, retain}
use worklane.Base.Tests.{Bool-cases}
use mathlib.Core.Path.{◌≡◌, refl}
use mathlib.Core.Bool.{Bool, true, false}
use mathlib.Core.List.{List, [], ◌∷◌, ◌++◌, map}
use mathlib.Core.Logic.{inl, inr}
use native.Mathlib.Omega.{arith}

abbrev pub All {ℓ} : {A : Type ℓ} → (A → Type 0) → List A → Type 0
All P [] = Unit
All P (x ∷ xs) = P x × All P xs

abbrev pub Pairwise {ℓ} : {A : Type ℓ} → (A → A → Type 0) → List A → Type 0
Pairwise R [] = Unit
Pairwise R (x ∷ xs) = All (R x) xs × Pairwise R xs

module _ {ℓ} {A : Type ℓ} where
  pub All-mono : (P Q : A → Type 0) (xs : List A) → ((x : A) → P x → Q x) → All P xs → All Q xs
  All-mono P Q [] f h = tt
  All-mono P Q (x ∷ xs) f h = (f x h.0, All-mono P Q xs f h.1)

  pub All-snoc : (P : A → Type 0) (xs : List A) (y : A) → All P xs → P y → All P (xs ++ y ∷ [])
  All-snoc P [] y h p = (p, tt)
  All-snoc P (x ∷ xs) y h p = (h.0, All-snoc P xs y h.1 p)

  pub All-retain : (P : A → Type 0) (p : A → Bool) (xs : List A) → All P xs → All P (retain p xs)
  All-retain P p [] h = tt
  All-retain P p (x ∷ xs) h = elim (Bool-cases (p x)) [
    | inl e ↦ rw e (h.0, All-retain P p xs h.1)
    | inr e ↦ rw e (All-retain P p xs h.1)
  ]

  pub All-retain_self : (p : A → Bool) (xs : List A) → All (λ x. p x ≡ true) (retain p xs)
  All-retain_self p [] = tt
  All-retain_self p (x ∷ xs) = elim (Bool-cases (p x)) [
    | inl e ↦ rw e (e, All-retain_self p xs)
    | inr e ↦ rw e (All-retain_self p xs)
  ]

  pub All-of_any : (p : A → Bool) (xs : List A) → any p xs ≡ false → All (λ x. p x ≡ false) xs
  All-of_any p [] h = tt
  All-of_any p (x ∷ xs) h = (ground arith, All-of_any p xs (ground arith))

  pub Pairwise-snoc :
      (R : A → A → Type 0) (xs : List A) (y : A)
      → Pairwise R xs
      → All (λ x. R x y) xs
      → Pairwise R (xs ++ y ∷ [])
  Pairwise-snoc R [] y h k = (tt, tt)
  Pairwise-snoc R (x ∷ xs) y h k = (All-snoc (R x) xs y h.0 k.0, Pairwise-snoc R xs y h.1 k.1)

  pub Pairwise-retain :
      (R : A → A → Type 0) (p : A → Bool) (xs : List A) → Pairwise R xs → Pairwise R (retain p xs)
  Pairwise-retain R p [] h = tt
  Pairwise-retain R p (x ∷ xs) h = elim (Bool-cases (p x)) [
    | inl e ↦ rw e (All-retain (R x) p xs h.0, Pairwise-retain R p xs h.1)
    | inr e ↦ rw e (Pairwise-retain R p xs h.1)
  ]

  pub Pairwise-map :
      (R : A → A → Type 0) (f : A → A) (xs : List A)
      → ((x y : A) → R x y → R (f x) (f y))
      → Pairwise R xs
      → Pairwise R (map f xs)
  Pairwise-map R f [] k h = tt
  Pairwise-map R f (x ∷ xs) k h = (All-map_of (f x) x xs (k x) h.0, Pairwise-map R f xs k h.1)
    where
      All-map_of :
          (y x : A) (zs : List A)
          → ((z : A) → R x z → R y (f z))
          → All (R x) zs
          → All (R y) (map f zs)
      All-map_of y x [] k h = tt
      All-map_of y x (z ∷ zs) k h = (k z h.0, All-map_of y x zs k h.1)

  pub any-map :
      (p : A → Bool) (f : A → A) (xs : List A)
      → ((x : A) → p (f x) ≡ p x)
      → any p (map f xs) ≡ any p xs
  any-map p f [] k = refl
  any-map p f (x ∷ xs) k = rw (k x, any-map p f xs k) refl

  -- Removing elements that a test does not accept leaves what the test finds.
  pub any-retain :
      (p q : A → Bool) (xs : List A)
      → ((x : A) → p x ≡ true → q x ≡ true)
      → any p (retain q xs) ≡ any p xs
  any-retain p q [] k = refl
  any-retain p q (x ∷ xs) k = ground (arith, any-retain p q xs k, k x)

  pub any-snoc_old :
      (p : A → Bool) (xs : List A) (y : A) → any p xs ≡ true → any p (xs ++ y ∷ []) ≡ true
  any-snoc_old p [] y h = ground arith
  any-snoc_old p (x ∷ xs) y h = ground (arith, any-snoc_old p xs y)

  pub any-snoc_new : (p : A → Bool) (xs : List A) (y : A) → p y ≡ true → any p (xs ++ y ∷ []) ≡ true
  any-snoc_new p [] y h = ground arith
  any-snoc_new p (x ∷ xs) y h = ground (arith, any-snoc_new p xs y)
