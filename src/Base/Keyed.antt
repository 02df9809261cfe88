-- ===== src/Base/Keyed.antt =====
-- Lists of optional keys, of which no two that are present are the same.
use worklane.Base.Lists.{get_elem?, set, erase_idx}
use worklane.Base.Text.{Text, text_eq_iff, option_eq}
use Prim.Native.Nat.{ℕ, zero, suc}
use mathlib.Core.Path.{◌≡◌, refl}
use mathlib.Core.Bool.{Bool, true, false, ◌||◌}
use mathlib.Core.List.{List, [], ◌∷◌, ◌++◌}
use mathlib.Core.Option.{Option, none, some}
use native.Mathlib.Omega.{arith}

abbrev pub Keys : Type 0
Keys = List (Option Text)

abbrev pub contains : Text → Keys → Bool
contains k [] = false
contains k (o ∷ ks) = option_eq o (some k) || contains k ks

-- No present key is in the list.
abbrev pub Fresh : Option Text → Keys → Type 0
Fresh none ks = Unit
Fresh (some k) ks = contains k ks ≡ false

abbrev pub Distinct : Keys → Type 0
Distinct [] = Unit
Distinct (o ∷ ks) = Fresh o ks × Distinct ks

pub contains-append :
    (k : Text) (ks : Keys) (o : Option Text)
    → contains k (ks ++ o ∷ []) ≡ (contains k ks || option_eq o (some k))
contains-append k [] o = ground arith
contains-append k (p ∷ ks) o = ground (arith, contains-append k ks o)

Fresh-append :
    (p : Option Text) (ks : Keys) (o : Option Text)
    → Fresh p ks
    → Fresh o (p ∷ ks)
    → Fresh p (ks ++ o ∷ [])
Fresh-append none ks o h f = tt
Fresh-append (some k) ks none h f = ground (arith, contains-append k ks none)
Fresh-append (some k) ks (some j) h f =
    ground (arith, contains-append k ks (some j), text_eq_iff k j, text_eq_iff j k)

Fresh-tail : (o p : Option Text) (ks : Keys) → Fresh o (p ∷ ks) → Fresh o ks
Fresh-tail none p ks f = tt
Fresh-tail (some k) p ks f = ground arith

pub Distinct-append :
    (ks : Keys) (o : Option Text) → Distinct ks → Fresh o ks → Distinct (ks ++ o ∷ [])
Distinct-append [] o d f = (ground arith, tt)
Distinct-append (p ∷ ks) o d f =
    (Fresh-append p ks o d.0 f, Distinct-append ks o d.1 (Fresh-tail o p ks f))

pub contains-erase_idx :
    (k : Text) (ks : Keys) (i : ℕ) → contains k ks ≡ false → contains k (erase_idx ks i) ≡ false
contains-erase_idx k [] i h = refl
contains-erase_idx k (p ∷ ks) zero h = ground arith
contains-erase_idx k (p ∷ ks) (suc i) h = ground (arith, contains-erase_idx k ks i)

Fresh-erase_idx : (o : Option Text) (ks : Keys) (i : ℕ) → Fresh o ks → Fresh o (erase_idx ks i)
Fresh-erase_idx none ks i f = tt
Fresh-erase_idx (some k) ks i f = contains-erase_idx k ks i f

pub Distinct-erase_idx : (ks : Keys) (i : ℕ) → Distinct ks → Distinct (erase_idx ks i)
Distinct-erase_idx [] i d = tt
Distinct-erase_idx (p ∷ ks) zero d = d.1
Distinct-erase_idx (p ∷ ks) (suc i) d = (Fresh-erase_idx p ks i d.0, Distinct-erase_idx ks i d.1)

pub contains_of_get :
    (k : Text) (ks : Keys) (i : ℕ) → get_elem? ks i ≡ some (some k) → contains k ks ≡ true
contains_of_get k [] i h = ground arith
contains_of_get k (none ∷ ks) zero h = ground arith
contains_of_get k (some j ∷ ks) zero h = ground (arith, text_eq_iff j k)
contains_of_get k (p ∷ ks) (suc i) h = ground (arith, contains_of_get k ks i)

-- A key stands nowhere once its one place is gone.
pub contains-erase_idx_self :
    (ks : Keys) (i : ℕ) (k : Text)
    → Distinct ks
    → get_elem? ks i ≡ some (some k)
    → contains k (erase_idx ks i) ≡ false
contains-erase_idx_self [] i k d h = refl
contains-erase_idx_self (none ∷ ks) zero k d h = ground arith
contains-erase_idx_self (some j ∷ ks) zero k d h = ground arith
contains-erase_idx_self (none ∷ ks) (suc i) k d h = contains-erase_idx_self ks i k d.1 h
contains-erase_idx_self (some j ∷ ks) (suc i) k d h =
    ground (arith, contains-erase_idx_self ks i k d.1, text_eq_iff j k, contains_of_get k ks i)

-- The other keys stay.
pub contains-erase_idx_ne :
    (ks : Keys) (i : ℕ) (o : Option Text) (k : Text)
    → get_elem? ks i ≡ some o
    → option_eq o (some k) ≡ false
    → contains k (erase_idx ks i) ≡ contains k ks
contains-erase_idx_ne [] i o k h e = refl
contains-erase_idx_ne (p ∷ ks) zero o k h e = ground arith
contains-erase_idx_ne (p ∷ ks) (suc i) o k h e = ground (arith, contains-erase_idx_ne ks i o k)

-- Writing over one place: the other places keep their keys.
contains-set :
    (k : Text) (ks : Keys) (i : ℕ) (o : Option Text)
    → contains k ks ≡ false
    → option_eq o (some k) ≡ false
    → contains k (set ks i o) ≡ false
contains-set k [] i o h e = refl
contains-set k (p ∷ ks) zero o h e = ground arith
contains-set k (p ∷ ks) (suc i) o h e = ground (arith, contains-set k ks i o)

Fresh-set :
    (p : Option Text) (ks : Keys) (i : ℕ) (o : Option Text)
    → Fresh p ks
    → Fresh o (p ∷ ks)
    → Fresh p (set ks i o)
Fresh-set none ks i o h f = tt
Fresh-set (some k) ks i none h f = contains-set k ks i none h refl
Fresh-set (some k) ks i (some j) h f =
    contains-set k ks i (some j) h (ground (arith, text_eq_iff j k, text_eq_iff k j))

-- A key that no place holds may be written anywhere, and so may none.
pub Distinct-set :
    (ks : Keys) (i : ℕ) (o : Option Text) → Distinct ks → Fresh o ks → Distinct (set ks i o)
Distinct-set [] i o d f = tt
Distinct-set (p ∷ ks) zero o d f = (Fresh-tail o p ks f, d.1)
Distinct-set (p ∷ ks) (suc i) o d f =
    (Fresh-set p ks i o d.0 f, Distinct-set ks i o d.1 (Fresh-tail o p ks f))

-- A key stands nowhere once its one place is overwritten by none.
pub contains-set_self :
    (ks : Keys) (i : ℕ) (k : Text)
    → Distinct ks
    → get_elem? ks i ≡ some (some k)
    → contains k (set ks i none) ≡ false
contains-set_self [] i k d h = refl
contains-set_self (none ∷ ks) zero k d h = ground arith
contains-set_self (some j ∷ ks) zero k d h = ground arith
contains-set_self (none ∷ ks) (suc i) k d h = contains-set_self ks i k d.1 h
contains-set_self (some j ∷ ks) (suc i) k d h =
    ground (arith, contains-set_self ks i k d.1, text_eq_iff j k, contains_of_get k ks i)
