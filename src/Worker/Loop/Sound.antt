-- ===== src/Worker/Loop/Sound.antt =====
-- The runs of `run_until_idle`: what holds at every turn, and how they end.
use worklane.Base.{
  ℕ, suc, ◌+◌, ◌≤◌, ◌≡◌, refl, max, Bool, true, false, not, Option, none, some, List, [], ◌∷◌,
  length, length-append, length-erase_idx, get_elem?, arith,
}
use worklane.Core.Error.{Result, ok, err}
use worklane.Core.Envelope.{Reservation}
use worklane.Worker.Loop.{
  Idle, JoinResult, initial, wants_more, on_reserve, on_join, Seen, reserved, ended, Runs, begins,
  fills, full, joins, IsOver, returns, error_of, first_error, taken, finished, is_nothing,
  fails_fast,
}

-- What holds of the loop at every turn.
pub record IsSound (concurrency : ℕ) (l : Idle) (seen : List Seen) : Type 0 where
  pub bounded : length l.in_flight ≤ max concurrency 1
  pub balanced : taken seen ≡ finished seen + length l.in_flight
  pub first : l.first_err ≡ first_error seen
  pub stopped : l.stop_reserving ≡ not (is_nothing l.first_err)
  pub fast : fails_fast seen ≡ true

-- At every turn of `run_until_idle` at most max(concurrency, 1) jobs are in flight, every job
-- reserved has ended or is in flight, the error kept is the first one seen, and no reservation was
-- made after an error.
pub Runs-IsSound :
    (concurrency : ℕ) (l : Idle) (seen : List Seen)
    → Runs concurrency l seen
    → IsSound concurrency l seen
unfolding initial on_reserve on_join wants_more first_error error_of taken finished fails_fast
Runs-IsSound n l seen begins = record {
  bounded = omega arith;
  balanced = refl;
  first = refl;
  stopped = refl;
  fast = refl;
}
Runs-IsSound n _ _ (fills {l = l} {seen = seen} run (ok none) f w) =
    let h = Runs-IsSound n l seen run in
    record {
      bounded = h.bounded;
      balanced = h.balanced;
      first = ground (arith, h.first);
      stopped = h.stopped;
      fast = ground (arith, h.first, h.stopped, h.fast);
    }
Runs-IsSound n _ _ (fills {l = l} {seen = seen} run (ok (some r)) f w) =
    let h = Runs-IsSound n l seen run in
    let grown = length-append l.in_flight (r ∷ []) in
    record {
      bounded = ground (arith, grown, w);
      balanced = ground (arith, grown, h.balanced);
      first = ground (arith, h.first);
      stopped = h.stopped;
      fast = ground (arith, h.first, h.stopped, h.fast);
    }
Runs-IsSound n _ _ (fills {l = l} {seen = seen} run (err e) f w) =
    let h = Runs-IsSound n l seen run in
    record {
      bounded = h.bounded;
      balanced = h.balanced;
      first = ground (arith, h.first);
      stopped = ground arith;
      fast = ground (arith, h.first, h.stopped, h.fast);
    }
Runs-IsSound n _ _ (full {l = l} {seen = seen} run f w) =
    let h = Runs-IsSound n l seen run in
    record {
      bounded = h.bounded;
      balanced = h.balanced;
      first = h.first;
      stopped = h.stopped;
      fast = h.fast;
    }
Runs-IsSound n _ _ (joins {l = l} {seen = seen} run i r joined_as f g) =
    let h = Runs-IsSound n l seen run in
    let shrunk = length-erase_idx l.in_flight i r g in
    record {
      bounded = ground (arith, shrunk, h.bounded);
      balanced = ground (arith, shrunk, h.balanced);
      first = ground (arith, h.first);
      stopped = ground (arith, h.stopped);
      fast = h.fast;
    }

-- When `run_until_idle` is over it returns the first error that it saw, from a reservation or from
-- a job, or success if there was none, and every job that it reserved has ended.
pub returns-first :
    (concurrency : ℕ) (l : Idle) (seen : List Seen)
    → Runs concurrency l seen
    → IsOver l
    → (returns l ≡ (elim (first_error seen) [ none ↦ ok tt | some e ↦ err e ]))
      × (taken seen ≡ finished seen)
unfolding returns
returns-first n l seen run over =
    let h = Runs-IsSound n l seen run in
    (ground (arith, h.first), ground (arith, h.balanced, over.1))

-- How many turns a run takes: those that wait for an answer or for a job, and those that only end
-- the filling.
unfoldable pub turns : {concurrency : ℕ} {l : Idle} {seen : List Seen} → Runs concurrency l seen → ℕ
turns begins = 0
turns (fills run answer f w) = suc (turns run)
turns (full run f w) = suc (turns run)
turns (joins run i r joined_as f g) = suc (turns run)

-- The turn that can come next: the inner `while` goes on, whatever the broker answers, or it ends;
-- or, where it has ended, a job is in flight, and each that is in flight may end in any way.
pub data HasNext (concurrency : ℕ) (l : Idle) (seen : List Seen) : Type 0 where
  next_fills :
      ((answer : Result (Option Reservation))
        → Runs concurrency (on_reserve l answer) (reserved answer ∷ seen))
      → HasNext concurrency l seen
  next_full : Runs concurrency (record l { filling = false }) seen → HasNext concurrency l seen
  next_joins :
      (first : Reservation)
      → get_elem? l.in_flight 0 ≡ some first
      → ((i : ℕ) (r : Reservation) (joined_as : JoinResult)
          → get_elem? l.in_flight i ≡ some r
          → Runs concurrency (on_join l i joined_as) (ended r joined_as ∷ seen))
      → HasNext concurrency l seen

count : Bool → ℕ
count true = 1
count false = 0
