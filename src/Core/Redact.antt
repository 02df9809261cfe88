-- ===== src/Core/Redact.antt =====
-- crates/worklane-core/src/redact.rs: credential redaction. The source works on UTF-8 bytes and
-- looks only for ASCII characters, so a position in the bytes is a position in the code points.
pub mod Fuel
mod Examples
use worklane.Base.{
  ℕ, zero, suc, ◌+◌, ◌-◌, Bool, true, false, not, ◌&&◌, ◌||◌, Option, none, some, List, [], ◌∷◌,
  ◌++◌, map, any, take, drop, length, leb, ltb, nat_eq, if◌then◌else◌,
}
use worklane.Base.Text.{Text, codes}

-- `str::starts_with` and `str::find` of a text.
abbrev pub starts_with : Text → Text → Bool
starts_with [] s = true
starts_with (c ∷ p) [] = false
starts_with (c ∷ p) (d ∷ s) = nat_eq c d && starts_with p s

abbrev shift : Option ℕ → Option ℕ
shift none = none
shift (some n) = some (suc n)

abbrev pub find_text : Text → Text → Option ℕ
find_text p [] = if starts_with p [] then some 0 else none
find_text p (c ∷ s) = if starts_with p (c ∷ s) then some 0 else shift (find_text p s)

-- `str::find` of a character among some, and `str::rfind` of one.
abbrev pub find_char : List ℕ → Text → Option ℕ
find_char cs [] = none
find_char cs (c ∷ s) = if any (nat_eq c) cs then some 0 else shift (find_char cs s)

abbrev pub rfind_char : ℕ → Text → Option ℕ
rfind_char c [] = none
rfind_char c (d ∷ s) = elim (rfind_char c s) [
  | some n ↦ some (suc n)
  | none ↦ if nat_eq c d then some 0 else none
]

abbrev pub or_else : Option ℕ → ℕ → ℕ
or_else none d = d
or_else (some n) d = n

-- `[' ', '\t', '\n', '"', '\'']`.
abbrev pub token_ends : List ℕ
token_ends = 32 ∷ 9 ∷ 10 ∷ 34 ∷ 39 ∷ []

abbrev pub value_ends : List ℕ
value_ends = 38 ∷ token_ends

unfoldable pub looks_like_userinfo : Text → Bool
looks_like_userinfo prefix =
    any (nat_eq 58) prefix || not (any (λ c. any (nat_eq c) (47 ∷ 63 ∷ 35 ∷ [])) prefix)

-- The `match` on the last `@` of a token.
unfoldable pub redact_token : Text → Text
unfolding looks_like_userinfo
redact_token token = elim (rfind_char 64 token) [
  | none ↦ token
  | some at ↦
      if looks_like_userinfo (take at token) then codes "***@" ++ drop (at + 1) token else token
]

-- The `while` of `redact_userinfo`; every round takes at least the three characters of `://`.
unfoldable pub userinfo_loop : ℕ → Text → Text
userinfo_loop zero rest = rest
userinfo_loop (suc fuel) rest = elim (find_text (codes "://") rest) [
  | none ↦ rest
  | some scheme_pos ↦
      let after = scheme_pos + 3 in
      let tail = drop after rest in
      let token_end = or_else (find_char token_ends tail) (length tail) in
      take after rest
      ++ (redact_token (take token_end tail) ++ userinfo_loop fuel (drop token_end tail))
]

unfoldable pub redact_userinfo : Text → Text
unfolding userinfo_loop redact_token
redact_userinfo msg = userinfo_loop (length msg) msg

abbrev pub needles : List Text
needles =
    codes "password="
    ∷ codes "sslpassword="
    ∷ codes "passwd="
    ∷ codes "signature="
    ∷ codes "x-amz-credential="
    ∷ codes "x-amz-security-token="
    ∷ codes "awsaccesskeyid="
    ∷ codes "sig="
    ∷ []

abbrev pub is_ident : ℕ → Bool
is_ident c = leb 48 c && leb c 57 || leb 65 c && leb c 90 || leb 97 c && leb c 122 || nat_eq c 95

abbrev pub to_lower : ℕ → ℕ
to_lower c = if leb 65 c && leb c 90 then c + 32 else c

-- `find_key_at_boundary`, where `inside` says whether an identifier character comes before.
unfoldable pub find_key : Bool → Text → Text → Option ℕ
find_key inside needle [] = none
find_key inside needle (c ∷ s) =
    if not inside && starts_with needle (c ∷ s)
    then some 0
    else shift (find_key (is_ident c) needle s)

-- The nearest key and its length; of two at one place the one listed first.
unfoldable pub nearest : List Text → Text → Option (ℕ × ℕ)
unfolding find_key
nearest [] s = none
nearest (needle ∷ rest) s = elim (find_key false needle s) [
  | none ↦ nearest rest s
  | some pos ↦ elim (nearest rest s) [
    | none ↦ some (pos, length needle)
    | some (other, len) ↦ if leb pos other then some (pos, length needle) else some (other, len)
  ]
]

-- The nearest key in what is left, whatever its case.
unfoldable pub hit : Text → Option (ℕ × ℕ)
unfolding nearest
hit rest = nearest needles (map to_lower rest)

-- The `while` of `redact_query_credentials`, on what is left from `idx` on.
unfoldable pub query_loop : ℕ → Text → Text
unfolding hit
query_loop zero rest = rest
query_loop (suc fuel) [] = []
query_loop (suc fuel) (c ∷ rest) = elim (hit (c ∷ rest)) [
  | none ↦ c ∷ rest
  | some (rel_pos, key_len) ↦
      let value = drop (rel_pos + key_len) (c ∷ rest) in
      let value_end = or_else (find_char value_ends value) (length value) in
      take (rel_pos + key_len) (c ∷ rest) ++ (codes "***" ++ query_loop fuel (drop value_end value))
]

unfoldable pub redact_query_credentials : Text → Text
unfolding query_loop
redact_query_credentials msg = query_loop (length msg) msg

unfoldable pub redact_credentials : Text → Text
unfolding redact_query_credentials redact_userinfo
redact_credentials msg = redact_query_credentials (redact_userinfo msg)
