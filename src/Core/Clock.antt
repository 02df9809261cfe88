-- ===== src/Core/Clock.antt =====
-- crates/worklane-core/src/clock.rs: the wall clock. The system's time is an argument of a reading.
-- The floor is raised by one atomic `fetch_max`, so a list of readings is any interleaving of the
-- clock's readers.
use worklane.Base.{
  ℕ, ◌+◌, ◌-◌, ◌%◌, ◌^◌, ◌≤◌, ◌≡◌, refl, min, max, Bool, false, ◌||◌, Option, none, some, List, [],
  ◌∷◌, ltb, leb, nat_eq, if◌then◌else◌, arith,
}
use worklane.Core.Duration.{from_millis, u64_max}

pub record WallClock : Type 0 where
  pub floor_nanos : ℕ
  pub jump_threshold_nanos : Option ℕ
  pub forward_jumps : ℕ

abbrev pub min_forward_jump_threshold : ℕ
min_forward_jump_threshold = from_millis 1

unfoldable pub new : WallClock
new = record { floor_nanos = 0; jump_threshold_nanos = none; forward_jumps = 0 }

unfoldable pub with_jump_threshold : ℕ → WallClock → WallClock
with_jump_threshold threshold c = record c {
  jump_threshold_nanos = some (min (max threshold min_forward_jump_threshold) u64_max);
}

-- The time since the epoch, which the system does not give for a time before it.
unfoldable pub raw_nanos : Option ℕ → ℕ
raw_nanos none = 0
raw_nanos (some since_epoch) = min since_epoch u64_max

-- Does the reading count as a jump? A floor of 0 has not been raised yet.
unfoldable pub is_jump : Option ℕ → ℕ → ℕ → Bool
is_jump none prev raw = false
is_jump (some threshold) prev raw =
    if nat_eq prev 0 || leb raw prev then false else ltb threshold (raw - prev)

unfoldable pub observe_forward_jump : ℕ → ℕ → WallClock → WallClock
unfolding is_jump
observe_forward_jump prev raw c =
    if is_jump c.jump_threshold_nanos prev raw
    then record c { forward_jumps = (c.forward_jumps + 1) % 2 ^ 64 }
    else c

-- `now`, with the raw reading.
unfoldable pub now : ℕ → WallClock → WallClock × ℕ
unfolding observe_forward_jump
now raw c = (
  observe_forward_jump c.floor_nanos raw (record c { floor_nanos = max c.floor_nanos raw }),
  max raw c.floor_nanos,
)

-- The clock after some readings.
unfoldable pub after_all : List ℕ → WallClock → WallClock
unfolding now
after_all [] c = c
after_all (raw ∷ raws) c = after_all raws (now raw c).0

abbrev pub largest : ℕ → List ℕ → ℕ
largest n [] = n
largest n (x ∷ xs) = largest (max n x) xs

now-floor : (raw : ℕ) (c : WallClock) → (now raw c).0.floor_nanos ≡ max c.floor_nanos raw
unfolding now is_jump
now-floor raw c = ground arith

now-value : (raw : ℕ) (c : WallClock) → (now raw c).1 ≡ max raw c.floor_nanos
unfolding now
now-value raw c = refl

after_all-floor :
    (raws : List ℕ) (c : WallClock) → (after_all raws c).floor_nanos ≡ largest c.floor_nanos raws
unfolding after_all
after_all-floor [] c = refl
after_all-floor (raw ∷ raws) c = rw (after_all-floor raws (now raw c).0, now-floor raw c) refl

largest-le : (n : ℕ) (xs : List ℕ) → n ≤ largest n xs
largest-le n [] = omega arith
largest-le n (x ∷ xs) = omega (arith, largest-le (max n x) xs)

-- Whatever the system's time does, a reading is the largest raw reading so far: it is not before
-- any reading that came earlier, and not before the time of its own.
pub now-largest :
    (raw : ℕ) (earlier later : List ℕ) (c : WallClock)
    → let first = (now raw (after_all earlier c)).1 in
      (first ≡ max raw (largest c.floor_nanos earlier))
      × ((raw' : ℕ) → first ≤ (now raw' (after_all later (now raw (after_all earlier c)).0)).1)
now-largest raw earlier later c =
    let before = after_all-floor earlier c in
    (
      rw (now-value raw (after_all earlier c), before) refl,
      λ raw'.
          rw
            (
              now-value raw' (after_all later (now raw (after_all earlier c)).0),
              now-value raw (after_all earlier c),
              after_all-floor later (now raw (after_all earlier c)).0,
              now-floor raw (after_all earlier c),
            )
            (omega (arith, largest-le (max (after_all earlier c).floor_nanos raw) later)),
    )
