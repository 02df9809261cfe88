-- ===== src/Base/Logged.antt =====
-- Calls on a world outside the program, with a log of them. The newest call stands first.
use mathlib.Core.List.{List, ◌∷◌}

pub record Logged (C W : Type 0) : Type 0 where
  pub world : W
  pub calls : List C

module _ {C W : Type 0} where
  -- One call on the world, logged with its answer.
  unfoldable pub perform : {A : Type 0} → (A → C) → (W → W × A) → Logged C W → Logged C W × A
  perform call act s =
      let (w, a) = act s.world in (record { world = w; calls = call a ∷ s.calls }, a)

  -- A call that answers nothing.
  unfoldable pub notify : C → (W → W) → Logged C W → Logged C W
  notify call act s = record { world = act s.world; calls = call ∷ s.calls }

  -- A change of the world that is not logged.
  unfoldable pub quietly : {A : Type 0} → (W → W × A) → Logged C W → Logged C W × A
  quietly act s = let (w, a) = act s.world in (record s { world = w }, a)
