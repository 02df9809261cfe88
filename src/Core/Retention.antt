-- ===== src/Core/Retention.antt =====
-- crates/worklane-core/src/retention.rs: how many dead letters a broker keeps, and the warning
-- that it gives once when there is no bound.
use worklane.Base.{ℕ, min, Bool, true, false, not, ◌&&◌, Option, none, some, if◌then◌else◌}
use worklane.Base.Int.{ℤ, sub_ℕ}
use worklane.Core.Duration.{i64_max}
use mathlib.Core.Option

pub record RetentionPolicy : Type 0 where
  pub max_age : Option ℕ
  pub max_count : Option ℕ

abbrev pub is_none {ℓ} : {A : Type ℓ} → Option A → Bool
is_none none = true
is_none (some _) = false

unfoldable pub is_unbounded : RetentionPolicy → Bool
is_unbounded p = is_none p.max_age && is_none p.max_count

-- `spi::nanos`: a duration in nanoseconds, as an `i64`.
unfoldable pub nanos : ℕ → ℕ
nanos d = min d i64_max

-- `i64::saturating_sub`, of numbers that are not negative: it cannot leave the range of `i64`.
unfoldable pub age_cutoff_nanos : RetentionPolicy → ℕ → Option ℤ
unfolding nanos
age_cutoff_nanos p now = Option.map (λ age. sub_ℕ now (nanos age)) p.max_age

unfoldable pub keep_count : RetentionPolicy → Option ℕ
keep_count p = Option.map (λ count. min count i64_max) p.max_count

-- `UnboundedDlqWarning::warn_once`: the flag after the call, and whether it warned.
unfoldable pub warn_once : Bool → RetentionPolicy → Bool × Bool
unfolding is_unbounded
warn_once fired p =
    if not (is_unbounded p) then (fired, false) else if fired then (true, false) else (true, true)
