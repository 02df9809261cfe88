-- ===== src/Core/Retry.antt =====
-- crates/worklane-core/src/retry.rs: capped exponential backoff with deterministic jitter. The
-- floating-point steps of the jitter are a parameter.
mod Examples
pub mod Backoff
use Prim.Native.Nat.{bit_xor}
use worklane.Base.{ℕ, ◌*◌, ◌/◌, ◌%◌, ◌^◌, min, Bool, not, ◌&&◌, if◌then◌else◌}
use worklane.Core.Duration.{u64_max, u128_max}

-- `f64` as far as the jitter uses it. `shorten nanos jitter frac` stands for
-- `(nanos as f64 * (1.0 - jitter * (frac as f64 / (1u64 << 53) as f64))) as u64`.
pub record FloatOps : Type 1 where
  pub F64 : Type 0
  pub is_finite : F64 → Bool
  pub is_positive : F64 → Bool
  pub clamp_unit : F64 → F64
  pub shorten : ℕ → F64 → ℕ → ℕ

pub record RetryPolicy (F64 : Type 0) : Type 0 where
  pub base : ℕ
  pub factor : ℕ
  pub cap : ℕ
  pub jitter : F64

-- `u128::checked_pow(..).unwrap_or(u128::MAX)`.
unfoldable pub pow_or_max : ℕ → ℕ → ℕ
pow_or_max factor attempts = min (factor ^ attempts) u128_max

unfoldable pub delay_for : {F64 : Type 0} → RetryPolicy F64 → ℕ → ℕ
unfolding pow_or_max
delay_for p attempts =
    let scaled = min (p.base * pow_or_max p.factor attempts) u128_max in
    let capped = min scaled p.cap in min (min capped u64_max) p.cap

-- `u64::wrapping_mul`, and `z ^ (z >> k)`.
wrapping_mul : ℕ → ℕ → ℕ
wrapping_mul a b = a * b % 2 ^ 64

xor_shift : ℕ → ℕ → ℕ
xor_shift z k = bit_xor z (z / 2 ^ k)

-- The splitmix64 finalizer over the seed and the attempts, down to its top 53 bits.
unfoldable pub spread : ℕ → ℕ → ℕ
unfolding wrapping_mul xor_shift
spread attempts seed =
    let z0 = bit_xor seed (wrapping_mul attempts 0x9E37_79B9_7F4A_7C15) in
    let z1 = wrapping_mul (xor_shift z0 30) 0xBF58_476D_1CE4_E5B9 in
    let z2 = wrapping_mul (xor_shift z1 27) 0x94D0_49BB_1331_11EB in xor_shift z2 31 / 2 ^ 11

module _ (floats : FloatOps) where
  open floats use {F64, is_finite, is_positive, clamp_unit, shorten}

  unfoldable pub delay_for_seeded : RetryPolicy F64 → ℕ → ℕ → ℕ
  unfolding delay_for spread
  delay_for_seeded p attempts seed =
      let base = delay_for p attempts in
      if not (is_finite p.jitter && is_positive p.jitter)
      then base
      else min (shorten base (clamp_unit p.jitter) (spread attempts seed)) p.cap
