-- ===== src/Core/ClaimCheck/Examples.antt =====
-- References at concrete payloads.
use worklane.Base.{◌≡◌, refl, ◌↔◌, true, none, some, [], ◌∷◌}
use worklane.Core.ClaimCheck.{is_utf8, make_reference, reference_key}
use worklane.Core.ClaimCheck.Laws.{reference_key_iff}

reference_key_iff_example :
    (reference_key (make_reference (97 ∷ 47 ∷ [])) ≡ some (97 ∷ 47 ∷ [])) ↔ (
      (make_reference (97 ∷ 47 ∷ []) ≡ make_reference (97 ∷ 47 ∷ []))
      × (is_utf8 (97 ∷ 47 ∷ []) ≡ true))
reference_key_iff_example = reference_key_iff (make_reference (97 ∷ 47 ∷ [])) (97 ∷ 47 ∷ [])

json_is_no_reference : reference_key (123 ∷ 125 ∷ []) ≡ none
unfolding reference_key
json_is_no_reference = refl
