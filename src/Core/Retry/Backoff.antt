-- ===== src/Core/Retry/Backoff.antt =====
-- The retry delay against the formula min(base * factor ^ attempts, cap).
use worklane.Base.{ℕ, zero, suc, ◌*◌, ◌^◌, ◌≤◌, ◌<◌, ◌≡◌, min, arith}
use native.Mathlib.Decide.{dec_le}
use worklane.Core.Duration.{u64_max, u128_max}
use worklane.Core.Retry.{RetryPolicy, delay_for}

mul-ge : (b x : ℕ) → 0 < b → x ≤ b * x
mul-ge zero x h = absurd (omega arith)
mul-ge (suc b) x h = grind arith

-- Saturation at a bound that the cap does not pass is not seen under the cap.
saturated : (b x u top : ℕ) → top ≤ u → min (min (b * min x u) u) top ≡ min (b * x) top
saturated zero x u top h = omega arith
saturated (suc b) x u top h = elim (dec_le x u) [
  | yes le ↦ let e : min x u ≡ x = omega arith in rw e (omega arith)
  | no gt ↦
      let e : min x u ≡ u = omega arith in
      rw e (omega (arith, mul-ge (suc b) u (omega arith), mul-ge (suc b) x (omega arith)))
]

-- A cap that fits in 64 bits of nanoseconds, as every cap up to 584 years does.
abbrev pub Fits : {F64 : Type 0} → RetryPolicy F64 → Type 0
Fits p = p.cap ≤ u64_max

-- For a cap that fits in 64 bits of nanoseconds the delay is min(base * factor ^ attempts, cap):
-- no overflow on the way changes it.
pub delay_for-eq :
    {F64 : Type 0} (p : RetryPolicy F64) (attempts : ℕ)
    → Fits p
    → delay_for p attempts ≡ min (p.base * p.factor ^ attempts) p.cap
unfolding delay_for
delay_for-eq p attempts h =
    omega (arith, saturated p.base (p.factor ^ attempts) u128_max p.cap (omega arith))
