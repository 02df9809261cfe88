-- ===== src/Core/ClaimCheck.antt =====
-- crates/worklane-core/src/payload_store.rs, `claim_check`: the reference that stands for a payload
-- kept elsewhere. A key is given by its UTF-8 bytes.
pub mod Laws
mod Examples
use worklane.Base.{
  ℕ, zero, suc, Bool, true, false, ◌&&◌, Option, none, some, List, [], ◌∷◌, ◌++◌, leb, ltb, nat_eq,
  if◌then◌else◌,
}
use worklane.Core.Envelope.{Bytes}

-- `\x00WLCC\x01`.
abbrev pub magic : Bytes
magic = 0 ∷ 87 ∷ 76 ∷ 67 ∷ 67 ∷ 1 ∷ []

-- What a lead byte asks for: how many more bytes, and the range of the next one.
pub data Lead : Type 0 where
  lead : ℕ → ℕ → ℕ → Lead
  invalid : Lead

lead_of : ℕ → Lead
lead_of b =
    if ltb b 0x80
    then lead 0 0 0
    else if ltb b 0xC2
    then invalid
    else if ltb b 0xE0
    then lead 1 0x80 0xBF
    else if nat_eq b 0xE0
    then lead 2 0xA0 0xBF
    else if nat_eq b 0xED
    then lead 2 0x80 0x9F
    else if ltb b 0xF0
    then lead 2 0x80 0xBF
    else if nat_eq b 0xF0
    then lead 3 0x90 0xBF
    else if ltb b 0xF4
    then lead 3 0x80 0xBF
    else if nat_eq b 0xF4
    then lead 3 0x80 0x8F
    else invalid

-- `more` bytes are still to come, the next one between `lo` and `hi`.
utf8_from : ℕ → ℕ → ℕ → Bytes → Bool
utf8_from zero lo hi [] = true
utf8_from (suc more) lo hi [] = false
utf8_from zero lo hi (b ∷ bs) = elim (lead_of b) [
  | invalid ↦ false
  | lead more lo' hi' ↦ utf8_from more lo' hi' bs
]
utf8_from (suc more) lo hi (b ∷ bs) = leb lo b && leb b hi && utf8_from more 0x80 0xBF bs

-- `std::str::from_utf8(..).is_ok()`.
unfoldable pub is_utf8 : Bytes → Bool
unfolding utf8_from lead_of
is_utf8 = utf8_from 0 0 0

unfoldable pub strip_prefix : Bytes → Bytes → Option Bytes
strip_prefix [] s = some s
strip_prefix (c ∷ p) [] = none
strip_prefix (c ∷ p) (d ∷ s) = if nat_eq c d then strip_prefix p s else none

unfoldable pub make_reference : Bytes → Bytes
make_reference key = magic ++ key

unfoldable pub reference_key : Bytes → Option Bytes
unfolding strip_prefix
reference_key payload = elim (strip_prefix magic payload) [
  | none ↦ none
  | some rest ↦ if is_utf8 rest then some rest else none
]

unfoldable pub is_reference : Bytes → Bool
unfolding strip_prefix
is_reference payload = elim (strip_prefix magic payload) [ none ↦ false | some _ ↦ true ]
