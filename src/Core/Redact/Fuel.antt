-- ===== src/Core/Redact/Fuel.antt =====
-- The rounds of the redaction: the length of the text is enough of them.
use worklane.Base.{
  ℕ, zero, suc, ◌+◌, ◌≤◌, ◌≡◌, refl, some, List, [], ◌∷◌, ◌++◌, length, drop, take, length-drop,
  arith, Option-cases, inl, inr, ap, map,
}
use worklane.Base.Text.{Text, codes}
use worklane.Core.Redact.{
  find_text, find_char, or_else, token_ends, value_ends, redact_token, userinfo_loop,
  redact_userinfo, nearest, needles, to_lower, hit, query_loop, redact_query_credentials,
}

userinfo_loop-fuel :
    (n m : ℕ) (rest : Text)
    → length rest ≤ n
    → length rest ≤ m
    → userinfo_loop n rest ≡ userinfo_loop m rest
unfolding userinfo_loop
userinfo_loop-fuel zero zero rest g h = refl
userinfo_loop-fuel zero (suc m) [] g h = refl
userinfo_loop-fuel zero (suc m) (c ∷ rest) g h = absurd (omega arith)
userinfo_loop-fuel (suc n) zero [] g h = refl
userinfo_loop-fuel (suc n) zero (c ∷ rest) g h = absurd (omega arith)
userinfo_loop-fuel (suc n) (suc m) rest g h = elim (Option-cases (find_text (codes "://") rest)) [
  | inl e ↦ rw (e, userinfo_loop) refl
  | inr (at, e) ↦
      let tail = drop (at + 3) rest in
      let token_end = or_else (find_char token_ends tail) (length tail) in
      let less = length-drop (at + 3) rest in
      let again =
        userinfo_loop-fuel n m (drop token_end tail)
          (omega (arith, less, length-drop token_end tail))
          (omega (arith, less, length-drop token_end tail)) in
      rw (e, userinfo_loop)
        (ap (λ t. take (at + 3) rest ++ (redact_token (take token_end tail) ++ t)) again)
]

AllSome : List Text → Type 0
AllSome [] = Unit
AllSome (needle ∷ rest) = (1 ≤ length needle) × AllSome rest

nearest-pos :
    (ns : List Text) (s : Text) (at len : ℕ) → AllSome ns → nearest ns s ≡ some (at, len) → 1 ≤ len
unfolding nearest AllSome
nearest-pos [] s at len a h = ground arith
nearest-pos (needle ∷ ns) s at len a h = elim (Option-cases (nearest ns s)) [
  | inl none_left ↦ ground (arith, a.0)
  | inr ((other, k), e) ↦ ground (arith, a.0, nearest-pos ns s other k a.1 e)
]

hit-pos : (s : Text) (at len : ℕ) → hit s ≡ some (at, len) → 1 ≤ len
unfolding hit AllSome
hit-pos s at len h =
    nearest-pos needles (map to_lower s) at len
      (
        omega arith,
        (
          omega arith,
          (
            omega arith,
            (omega arith, (omega arith, (omega arith, (omega arith, (omega arith, tt))))),
          ),
        ),
      )
      h

query_loop-fuel :
    (n m : ℕ) (rest : Text)
    → length rest ≤ n
    → length rest ≤ m
    → query_loop n rest ≡ query_loop m rest
unfolding query_loop
query_loop-fuel zero zero rest g h = refl
query_loop-fuel zero (suc m) [] g h = refl
query_loop-fuel zero (suc m) (c ∷ rest) g h = absurd (omega arith)
query_loop-fuel (suc n) zero [] g h = refl
query_loop-fuel (suc n) zero (c ∷ rest) g h = absurd (omega arith)
query_loop-fuel (suc n) (suc m) [] g h = refl
query_loop-fuel (suc n) (suc m) (c ∷ rest) g h = elim (Option-cases (hit (c ∷ rest))) [
  | inl e ↦ rw (e, query_loop) refl
  | inr ((at, len), e) ↦
      let value = drop (at + len) (c ∷ rest) in
      let value_end = or_else (find_char value_ends value) (length value) in
      let less = length-drop (at + len) (c ∷ rest) in
      let again =
        query_loop-fuel n m (drop value_end value)
          (omega (arith, less, hit-pos (c ∷ rest) at len e, length-drop value_end value))
          (omega (arith, less, hit-pos (c ∷ rest) at len e, length-drop value_end value)) in
      rw (e, query_loop) (ap (λ t. take (at + len) (c ∷ rest) ++ (codes "***" ++ t)) again)
]

-- The rounds that the redaction is given are enough: with any number of further rounds either pass
-- comes to the same text.
pub redact-enough :
    (msg : Text) (extra : ℕ)
    → (userinfo_loop (length msg + extra) msg ≡ redact_userinfo msg)
      × (query_loop (length msg + extra) msg ≡ redact_query_credentials msg)
unfolding redact_userinfo redact_query_credentials
redact-enough msg extra = (
  userinfo_loop-fuel (length msg + extra) (length msg) msg (omega arith) (omega arith),
  query_loop-fuel (length msg + extra) (length msg) msg (omega arith) (omega arith),
)
