-- ===== src/Core/Retry/Examples.antt =====
-- The backoff of the default policy, and its theorems there. The jitter takes a policy's fraction
-- in thousandths.
use worklane.Base.{ℕ, ◌*◌, ◌/◌, ◌-◌, ◌^◌, ◌≡◌, refl, min, true, ltb, arith}
use worklane.Core.Duration.{from_secs}
use worklane.Core.Retry.{FloatOps, RetryPolicy, delay_for}
use worklane.Core.Retry.Backoff.{delay_for-eq}

abbrev thousandths : FloatOps
thousandths = record {
  F64 = ℕ;
  is_finite = λ _. true;
  is_positive = λ x. ltb 0 x;
  clamp_unit = λ x. min x 1000;
  shorten = λ nanos jitter frac. nanos - nanos * jitter * frac / (1000 * 2 ^ 53);
}

-- `RetryPolicy::default`.
abbrev default : RetryPolicy ℕ
default = record { base = from_secs 1; factor = 2; cap = from_secs 60; jitter = 0 }

third_delay : delay_for default 2 ≡ from_secs 4
unfolding delay_for
third_delay = refl

capped_delay : delay_for default 200 ≡ from_secs 60
unfolding delay_for
capped_delay = refl

delay_for-eq_example : delay_for default 3 ≡ min (from_secs 1 * 2 ^ 3) (from_secs 60)
delay_for-eq_example = delay_for-eq default 3 (omega arith)
