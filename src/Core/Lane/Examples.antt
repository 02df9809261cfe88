-- ===== src/Core/Lane/Examples.antt =====
-- Names of lanes.
use worklane.Base.{◌≡◌, refl, ◌↔◌}
use worklane.Base.Text.{codes, text_eq, text_Eq}
use worklane.Core.Lane.{valid, validated, rejected, invalid_char, is_whitespace}
use worklane.Core.Lane.Laws.{IsLaneName, validated_iff}

legacy_is_rejected : validated (codes " legacy ") ≡ rejected invalid_char
unfolding validated text_eq is_whitespace
legacy_is_rejected = refl

validated_iff_example :
    (validated (codes "critical") ≡ valid (codes "critical"))
    ↔ ((codes "critical" ≡ codes "critical") × IsLaneName (codes "critical"))
validated_iff_example = validated_iff (codes "critical") (codes "critical")
