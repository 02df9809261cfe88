-- ===== src/Core/Lane/Laws.antt =====
-- Which names are lanes, and which lanes a registry knows.
use worklane.Base.{
  ◌≤◌, ◌<◌, ◌≡◌, refl, ◌↔◌, Bool, true, false, not, ◌||◌, List, [], ◌∷◌, ◌==◌, ==_iff, length, any,
  arith, ap,
}
use worklane.Base.Text.{Text, text_Eq}
use worklane.Core.Envelope.{Lane}
use worklane.Core.Lane.{
  max_len, valid, byte_len, is_control, is_whitespace, is_empty, trim_start, trim_end, trim,
  validated, insert_lane, collect, new_registry, with_default_lane, contains_lane, default_lane,
}

abbrev pub starts_clear : Text → Bool
starts_clear [] = true
starts_clear (c ∷ s) = not (is_whitespace c)

unfoldable pub ends_clear : Text → Bool
ends_clear [] = true
ends_clear (c ∷ []) = not (is_whitespace c)
ends_clear (c ∷ d ∷ s) = ends_clear (d ∷ s)

length-trim_start : (s : Text) → length (trim_start s) ≤ length s
unfolding trim_start
length-trim_start [] = omega arith
length-trim_start (c ∷ s) = ground (arith, length-trim_start s)

length-trim_end : (s : Text) → length (trim_end s) ≤ length s
unfolding trim_end
length-trim_end [] = omega arith
length-trim_end (c ∷ s) = ground (arith, length-trim_end s)

trim_end-clear : (s : Text) → ends_clear s ≡ true → trim_end s ≡ s
unfolding trim_end ends_clear
trim_end-clear [] h = refl
trim_end-clear (c ∷ []) h = ground arith
trim_end-clear (c ∷ d ∷ s) h = ground (arith, trim_end-clear (d ∷ s) h)

trim_end-not_clear : (s : Text) → ends_clear s ≡ false → length (trim_end s) < length s
unfolding trim_end ends_clear
trim_end-not_clear [] h = ground arith
trim_end-not_clear (c ∷ []) h = ground arith
trim_end-not_clear (c ∷ d ∷ s) h = ground (arith, trim_end-not_clear (d ∷ s) h)

trim-clear : (s : Text) → starts_clear s ≡ true → ends_clear s ≡ true → trim s ≡ s
unfolding trim trim_start
trim-clear [] g h = refl
trim-clear (c ∷ s) g h = ground (arith, trim_end-clear (c ∷ s) h)

trim-clear_inv : (s : Text) → trim s ≡ s → (starts_clear s ≡ true) × (ends_clear s ≡ true)
unfolding trim trim_start ends_clear
trim-clear_inv [] h = (refl, ground arith)
trim-clear_inv (c ∷ s) h =
    let len = ap length h in
    ground
      (arith, len, length-trim_start s, length-trim_end (trim_start s), trim_end-not_clear (c ∷ s))

-- The names that a lane may have.
abbrev pub IsLaneName : Text → Type 0
IsLaneName name =
    (is_empty name ≡ false)
    × (byte_len name ≤ max_len)
    × (any is_control name ≡ false)
    × (starts_clear name ≡ true)
    × (ends_clear name ≡ true)

-- A name is accepted as a lane exactly if it is not empty, takes at most 256 bytes, has no control
-- character, and neither begins nor ends with white space; the lane is the name as it was given.
pub validated_iff :
    (name lane : Text) → (validated name ≡ valid lane) ↔ ((lane ≡ name) × IsLaneName name)
unfolding validated
validated_iff name lane = (
  (λ h. ground (arith, trim-clear_inv name, ==_iff (trim name) name)),
  (λ h. ground (arith, trim-clear name, ==_iff (trim name) name)),
)

contains-insert_lane :
    (lane other : Lane) (lanes : List Lane)
    → any (λ l. l == lane) (insert_lane other lanes) ≡ (other == lane || any (λ l. l == lane) lanes)
unfolding insert_lane
contains-insert_lane lane other lanes = ground (arith, ==_iff other lane)

any-collect :
    (lane : Lane) (lanes : List Lane)
    → any (λ l. l == lane) (collect lanes) ≡ any (λ l. l == lane) lanes
unfolding collect
any-collect lane [] = refl
any-collect lane (other ∷ lanes) =
    ground (arith, contains-insert_lane lane other (collect lanes), any-collect lane lanes)

-- A registry with the default lane knows the lanes that it was made of, the default lane, and no
-- other.
pub contains_lane-new :
    (lanes : List Lane) (lane : Lane)
    → contains_lane (with_default_lane (new_registry lanes)) lane
      ≡ (default_lane == lane || any (λ l. l == lane) lanes)
unfolding contains_lane with_default_lane new_registry
contains_lane-new lanes lane =
    ground (arith, contains-insert_lane lane default_lane (collect lanes), any-collect lane lanes)
