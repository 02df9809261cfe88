-- ===== src/Core/Duration.antt =====
-- `std::time::Duration` as a number of nanoseconds, and the saturating arithmetic of the machine
-- integers. A duration is at most `u64::MAX` seconds and 999,999,999 nanoseconds.
use worklane.Base.{ℕ, zero, suc, ◌+◌, ◌-◌, ◌*◌, ◌^◌, min, ℕ, [], ◌∷◌, ◌/◌, ◌%◌, ltb, if◌then◌else◌}
use worklane.Base.Text.{Text}

abbrev pub nanos_per_sec : ℕ
nanos_per_sec = 1000000000

abbrev pub from_secs : ℕ → ℕ
from_secs s = s * nanos_per_sec

abbrev pub from_millis : ℕ → ℕ
from_millis ms = ms * 1000000

abbrev pub max_duration : ℕ
max_duration = 2 ^ 64 * 1000000000 - 1

abbrev pub u32_max : ℕ
u32_max = 2 ^ 32 - 1

abbrev pub u64_max : ℕ
u64_max = 2 ^ 64 - 1

abbrev pub u128_max : ℕ
u128_max = 2 ^ 128 - 1

abbrev pub i64_max : ℕ
i64_max = 2 ^ 63 - 1

-- `Duration::saturating_add`.
unfoldable pub saturating_add : ℕ → ℕ → ℕ
saturating_add a b = min (a + b) max_duration

-- `Duration::saturating_mul`.
unfoldable pub saturating_mul : ℕ → ℕ → ℕ
saturating_mul a k = min (a * k) max_duration

-- `u32::saturating_add`.
unfoldable pub saturating_add_u32 : ℕ → ℕ → ℕ
saturating_add_u32 a b = min (a + b) u32_max

-- The decimal digits of a number, as `{}` prints them.
decimal_from : ℕ → ℕ → Text → Text
decimal_from zero n acc = acc
decimal_from (suc fuel) n acc =
    let rest = decimal_from fuel (n / 10) ((48 + n % 10) ∷ acc) in
    if ltb n 10 then (48 + n) ∷ acc else rest

-- A 128-bit number has at most 39 digits.
unfoldable pub decimal : ℕ → Text
unfolding decimal_from
decimal n = decimal_from 39 n []
