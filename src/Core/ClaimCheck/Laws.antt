-- ===== src/Core/ClaimCheck/Laws.antt =====
-- References and the keys that they carry.
use worklane.Base.{◌≡◌, refl, ◌↔◌, true, some, [], ◌∷◌, ◌++◌, arith}
use worklane.Core.Envelope.{Bytes}
use worklane.Core.ClaimCheck.{magic, is_utf8, strip_prefix, make_reference, reference_key}

strip-append : (p s : Bytes) → strip_prefix p (p ++ s) ≡ some s
unfolding strip_prefix
strip-append [] s = refl
strip-append (c ∷ p) s = ground (arith, strip-append p s)

strip_sound : (p s rest : Bytes) → strip_prefix p s ≡ some rest → s ≡ p ++ rest
unfolding strip_prefix
strip_sound [] s rest h = ground arith
strip_sound (c ∷ p) [] rest h = ground arith
strip_sound (c ∷ p) (d ∷ s) rest h = ground (arith, strip_sound p s rest)

-- A payload is read as a reference to a key exactly when it is the reference made of that key and
-- the key is well-formed UTF-8.
pub reference_key_iff :
    (payload key : Bytes)
    → (reference_key payload ≡ some key) ↔ ((payload ≡ make_reference key) × (is_utf8 key ≡ true))
unfolding reference_key make_reference
reference_key_iff payload key = (
  (λ h. ground (arith, strip_sound magic payload key)),
  (λ h. ground (arith, strip-append magic key)),
)
