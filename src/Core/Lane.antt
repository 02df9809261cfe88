-- ===== src/Core/Lane.antt =====
-- crates/worklane-core/src/lane.rs: names of lanes, and the registry of the lanes that are known. A
-- name is a list of code points; its length is counted in UTF-8 bytes.
pub mod Laws
mod Examples
use worklane.Base.{
  ℕ, ◌+◌, Bool, true, false, not, ◌&&◌, ◌||◌, List, [], ◌∷◌, ◌==◌, ltb, leb, nat_eq, any,
  if◌then◌else◌,
}
use worklane.Base.Text.{Text, codes, text_Eq}
use worklane.Core.Envelope.{Lane}

abbrev pub max_len : ℕ
max_len = 256

pub data LaneError : Type 0 where
  empty too_long invalid_char : LaneError

pub data Validated : Type 0 where
  valid : Lane → Validated
  rejected : LaneError → Validated

-- `str::len`.
unfoldable pub byte_len : Text → ℕ
byte_len [] = 0
byte_len (c ∷ s) =
    (if ltb c 0x80 then 1 else if ltb c 0x800 then 2 else if ltb c 0x10000 then 3 else 4)
    + byte_len s

-- `char::is_control`: the category Cc.
unfoldable pub is_control : ℕ → Bool
is_control c = ltb c 32 || leb 127 c && leb c 159

-- `char::is_whitespace`: the property White_Space.
unfoldable pub is_whitespace : ℕ → Bool
is_whitespace c =
    leb 9 c && leb c 13
    || leb 0x2000 c && leb c 0x200A
    || any (nat_eq c) (32 ∷ 0x85 ∷ 0xA0 ∷ 0x1680 ∷ 0x2028 ∷ 0x2029 ∷ 0x202F ∷ 0x205F ∷ 0x3000 ∷ [])

abbrev pub is_empty : Text → Bool
is_empty [] = true
is_empty (c ∷ s) = false

unfoldable pub trim_start : Text → Text
trim_start [] = []
trim_start (c ∷ s) = let rest = trim_start s in if is_whitespace c then rest else c ∷ s

unfoldable pub trim_end : Text → Text
trim_end [] = []
trim_end (c ∷ s) =
    let rest = trim_end s in if is_whitespace c && is_empty rest then [] else c ∷ rest

-- `str::trim`.
unfoldable pub trim : Text → Text
unfolding trim_start trim_end
trim s = trim_end (trim_start s)

unfoldable pub validated : Text → Validated
unfolding byte_len is_control trim
validated name =
    if is_empty name
    then rejected empty
    else if ltb max_len (byte_len name)
    then rejected too_long
    else if any is_control name
    then rejected invalid_char
    else if not (trim name == name)
    then rejected invalid_char
    else valid name

abbrev pub default_lane : Lane
default_lane = codes "default"

-- `LaneRegistry`: a hash set as a list without repetitions.
pub record LaneRegistry : Type 0 where
  pub lanes : List Lane

unfoldable pub insert_lane : Lane → List Lane → List Lane
insert_lane lane lanes = if any (λ l. l == lane) lanes then lanes else lane ∷ lanes

unfoldable pub collect : List Lane → List Lane
unfolding insert_lane
collect [] = []
collect (lane ∷ rest) = insert_lane lane (collect rest)

unfoldable pub new_registry : List Lane → LaneRegistry
unfolding collect
new_registry lanes = record { lanes = collect lanes }

unfoldable pub with_default_lane : LaneRegistry → LaneRegistry
unfolding insert_lane
with_default_lane registry = record { lanes = insert_lane default_lane registry.lanes }

unfoldable pub contains_lane : LaneRegistry → Lane → Bool
contains_lane registry lane = any (λ l. l == lane) registry.lanes
