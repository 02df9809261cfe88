-- ===== src/Base/Lists.antt =====
-- Lists as `Vec`: measured, indexed and edited by native numbers, under the library's names.
use Prim.Native.Nat.{ℕ, zero, suc, ◌+◌, ◌-◌, ◌≤◌}
use mathlib.Core.Path.{◌≡◌, refl, ap}
use mathlib.Core.Bool.{Bool, true, false, ◌||◌}
use mathlib.Core.List.{List, [], ◌∷◌, ◌++◌, map}
use mathlib.Core.Option.{Option, none, some}
use native.Mathlib.Omega.{arith}
use mathlib.Core.Logic.{◌↔◌}
use worklane.Base.Tests.{if◌then◌else◌}

module _ {ℓ} {A : Type ℓ} where
  abbrev pub length : List A → ℕ
  length [] = 0
  length (x ∷ xs) = suc (length xs)

  abbrev pub is_nil : List A → Bool
  is_nil [] = true
  is_nil (x ∷ xs) = false

  abbrev pub get_elem? : List A → ℕ → Option A
  get_elem? [] i = none
  get_elem? (x ∷ xs) zero = some x
  get_elem? (x ∷ xs) (suc i) = get_elem? xs i

  -- A write out of bounds changes nothing.
  abbrev pub set : List A → ℕ → A → List A
  set [] i v = []
  set (x ∷ xs) zero v = v ∷ xs
  set (x ∷ xs) (suc i) v = x ∷ set xs i v

  -- `Vec::remove`, for an index in range.
  abbrev pub erase_idx : List A → ℕ → List A
  erase_idx [] i = []
  erase_idx (x ∷ xs) zero = xs
  erase_idx (x ∷ xs) (suc i) = x ∷ erase_idx xs i

  abbrev pub take : ℕ → List A → List A
  take zero xs = []
  take (suc n) [] = []
  take (suc n) (x ∷ xs) = x ∷ take n xs

  abbrev pub drop : ℕ → List A → List A
  drop zero xs = xs
  drop (suc n) [] = []
  drop (suc n) (x ∷ xs) = drop n xs

  -- `iter().any`.
  abbrev pub any : (A → Bool) → List A → Bool
  any p [] = false
  any p (x ∷ xs) = p x || any p xs

  -- `Vec::retain` and `iter().filter`, by a Boolean test.
  abbrev pub retain : (A → Bool) → List A → List A
  retain p [] = []
  retain p (x ∷ xs) = let rest = retain p xs in if p x then x ∷ rest else rest

  -- `iter().position`, with the element found at the index.
  abbrev pub position : (A → Bool) → List A → Option (ℕ × A)
  position p [] = none
  position p (x ∷ xs) =
      if p x
      then some (0, x)
      else elim (position p xs) [ none ↦ none | some (i, y) ↦ some (suc i, y) ]

module _ {ℓ} {A : Type ℓ} where
  pub length-append : (xs ys : List A) → length (xs ++ ys) ≡ length xs + length ys
  length-append [] ys = omega arith
  length-append (x ∷ xs) ys = omega (arith, length-append xs ys)

  pub length-set : (xs : List A) (i : ℕ) (v : A) → length (set xs i v) ≡ length xs
  length-set [] i v = refl
  length-set (x ∷ xs) zero v = refl
  length-set (x ∷ xs) (suc i) v = ap suc (length-set xs i v)

  pub length-erase_idx :
      (xs : List A) (i : ℕ) (x : A)
      → get_elem? xs i ≡ some x
      → length xs ≡ suc (length (erase_idx xs i))
  length-erase_idx [] i v h = ground arith
  length-erase_idx (x ∷ xs) zero v h = refl
  length-erase_idx (x ∷ xs) (suc i) v h = ap suc (length-erase_idx xs i v h)

  pub length-retain-le : (p : A → Bool) (xs : List A) → length (retain p xs) ≤ length xs
  length-retain-le p [] = omega arith
  length-retain-le p (x ∷ xs) = ground (arith, length-retain-le p xs)

  pub get_elem?-set_self :
      (xs : List A) (i : ℕ) (v x : A) → get_elem? xs i ≡ some x → get_elem? (set xs i v) i ≡ some v
  get_elem?-set_self [] i v x h = ground arith
  get_elem?-set_self (y ∷ xs) zero v x h = refl
  get_elem?-set_self (y ∷ xs) (suc i) v x h = get_elem?-set_self xs i v x h

  pub length-drop : (n : ℕ) (xs : List A) → length (drop n xs) ≡ length xs - n
  length-drop zero xs = omega arith
  length-drop (suc n) [] = omega arith
  length-drop (suc n) (x ∷ xs) = omega (arith, length-drop n xs)

  -- What is left after a removal was there before.
  pub get_elem?-erase_idx :
      (xs : List A) (i k : ℕ) (x : A)
      → get_elem? (erase_idx xs i) k ≡ some x
      → (n : ℕ) × (get_elem? xs n ≡ some x)
  get_elem?-erase_idx [] i k x h = ground arith
  get_elem?-erase_idx (y ∷ xs) zero k x h = (suc k, h)
  get_elem?-erase_idx (y ∷ xs) (suc i) zero x h = (0, h)
  get_elem?-erase_idx (y ∷ xs) (suc i) (suc k) x h =
      let (n, e) = get_elem?-erase_idx xs i k x h in (suc n, e)

  pub any_of_get :
      (p : A → Bool) (xs : List A) (i : ℕ) (x : A)
      → get_elem? xs i ≡ some x
      → p x ≡ true
      → any p xs ≡ true
  any_of_get p [] i x h e = ground arith
  any_of_get p (y ∷ xs) zero x h e = ground arith
  any_of_get p (y ∷ xs) (suc i) x h e = ground (arith, any_of_get p xs i x h e)

  pub any-append : (p : A → Bool) (xs ys : List A) → any p (xs ++ ys) ≡ (any p xs || any p ys)
  any-append p [] ys = refl
  any-append p (x ∷ xs) ys = ground (arith, any-append p xs ys)

  -- What `position` finds stands at its index and passes the test.
  pub position_sound :
      (p : A → Bool) (xs : List A) (i : ℕ) (x : A)
      → position p xs ≡ some (i, x)
      → (get_elem? xs i ≡ some x) × (p x ≡ true)
  position_sound p [] i x h = ground arith
  position_sound p (y ∷ xs) zero x h = ground (arith, position_sound p xs 0 x)
  position_sound p (y ∷ xs) (suc i) x h = ground (arith, position_sound p xs i x)

  pub position-none_iff : (p : A → Bool) (xs : List A) → (position p xs ≡ none) ↔ (any p xs ≡ false)
  position-none_iff p [] = ground arith
  position-none_iff p (y ∷ xs) = ground (arith, position-none_iff p xs)

module _ {ℓ κ} {A : Type ℓ} {B : Type κ} (f : A → B) where
  pub map-set : (xs : List A) (i : ℕ) (v : A) → map f (set xs i v) ≡ set (map f xs) i (f v)
  map-set [] i v = refl
  map-set (x ∷ xs) zero v = refl
  map-set (x ∷ xs) (suc i) v = ap (◌∷◌ (f x)) (map-set xs i v)

  pub map-erase_idx : (xs : List A) (i : ℕ) → map f (erase_idx xs i) ≡ erase_idx (map f xs) i
  map-erase_idx [] i = refl
  map-erase_idx (x ∷ xs) zero = refl
  map-erase_idx (x ∷ xs) (suc i) = ap (◌∷◌ (f x)) (map-erase_idx xs i)

  pub get_elem?-map :
      (xs : List A) (i : ℕ) (x : A) → get_elem? xs i ≡ some x → get_elem? (map f xs) i ≡ some (f x)
  get_elem?-map [] i x h = ground arith
  get_elem?-map (y ∷ xs) zero x h = ground arith
  get_elem?-map (y ∷ xs) (suc i) x h = get_elem?-map xs i x h

  -- A write that keeps the image of the element keeps the image of the list.
  pub map-set_same :
      (xs : List A) (i : ℕ) (v x : A)
      → get_elem? xs i ≡ some x
      → f v ≡ f x
      → map f (set xs i v) ≡ map f xs
  map-set_same [] i v x h e = refl
  map-set_same (y ∷ xs) zero v x h e = ground arith
  map-set_same (y ∷ xs) (suc i) v x h e = ap (◌∷◌ (f y)) (map-set_same xs i v x h e)

  -- An element of the image is the image of an element.
  pub get_elem?-map_inv :
      (xs : List A) (i : ℕ) (y : B)
      → get_elem? (map f xs) i ≡ some y
      → (x : A) × (get_elem? xs i ≡ some x) × (y ≡ f x)
  get_elem?-map_inv [] i y h = ground arith
  get_elem?-map_inv (x ∷ xs) zero y h = (x, refl, ground arith)
  get_elem?-map_inv (x ∷ xs) (suc i) y h = get_elem?-map_inv xs i y h
