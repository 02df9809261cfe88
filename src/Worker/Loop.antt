-- ===== src/Worker/Loop.antt =====
-- crates/worklane/src/worker/mod.rs: `run_until_idle` as steps. A step is one turn of the code: a
-- reservation that is answered, or an in-flight job that ends. Which of the jobs in flight ends
-- next, and how, is the runtime's choice, so it is part of the step.
pub mod Sound
mod Examples
use worklane.Base.{
  ℕ, zero, suc, ◌+◌, ◌-◌, ◌≤◌, ◌<◌, ◌≡◌, refl, max, Bool, true, false, not, ◌&&◌, Option, none,
  some, List, [], ◌∷◌, ◌++◌, ltb, length, erase_idx, length-append, length-erase_idx, get_elem?,
  if◌then◌else◌, arith,
}
use worklane.Base.Text.{Text, codes}
use worklane.Core.Error.{Error, Result, ok, err, handler}
use worklane.Core.Envelope.{Reservation}
use worklane.Worker.Seams.{Answer}

-- How a spawned task ends: with the answer of `process`, in a panic, or cancelled.
pub data JoinResult : Type 0 where
  joined : Answer → JoinResult
  panicked cancelled : JoinResult

unfoldable pub classify_join : JoinResult → Option Error
classify_join (joined (ok _)) = none
classify_join (joined (err e)) = some e
classify_join panicked = some (handler (codes "worker task panicked"))
classify_join cancelled = none

abbrev pub get_or_insert : Option Error → Error → Option Error
get_or_insert none e = some e
get_or_insert (some first) e = some first

-- The local variables of `run_until_idle`. `filling` says whether the inner `while` is running.
pub record Idle : Type 0 where
  pub in_flight : List Reservation
  pub first_err : Option Error
  pub stop_reserving : Bool
  pub filling : Bool

unfoldable pub initial : Idle
initial = record { in_flight = []; first_err = none; stop_reserving = false; filling = true }

-- The condition of the inner `while`.
unfoldable pub wants_more : ℕ → Idle → Bool
wants_more concurrency l = not l.stop_reserving && ltb (length l.in_flight) (max concurrency 1)

-- What a `reserve` answers.
unfoldable pub on_reserve : Idle → Result (Option Reservation) → Idle
on_reserve l (ok (some r)) = record l { in_flight = l.in_flight ++ (r ∷ []) }
on_reserve l (ok none) = record l { filling = false }
on_reserve l (err e) = record l {
  first_err = get_or_insert l.first_err e;
  stop_reserving = true;
  filling = false;
}

-- The job at `i` ended; afterwards the loop fills again.
unfoldable pub on_join : Idle → ℕ → JoinResult → Idle
unfolding classify_join
on_join l i joined_as = elim (classify_join joined_as) [
  | none ↦ record l { in_flight = erase_idx l.in_flight i; filling = true }
  | some e ↦ record l {
    in_flight = erase_idx l.in_flight i;
    first_err = get_or_insert l.first_err e;
    stop_reserving = true;
    filling = true;
  }
]

-- What happened on the way: the answers of the broker and the ends of the jobs, the newest first.
pub data Seen : Type 0 where
  reserved : Result (Option Reservation) → Seen
  ended : Reservation → JoinResult → Seen

-- The runs of the loop at a given concurrency.
pub data Runs (concurrency : ℕ) : Idle → List Seen → Type 0 where
  begins : Runs concurrency initial []
  fills :
      {l : Idle} {seen : List Seen}
      → Runs concurrency l seen
      → (answer : Result (Option Reservation)) → l.filling ≡ true
      → wants_more concurrency l ≡ true
      → Runs concurrency (on_reserve l answer) (reserved answer ∷ seen)
  full :
      {l : Idle} {seen : List Seen}
      → Runs concurrency l seen
      → l.filling ≡ true
      → wants_more concurrency l ≡ false
      → Runs concurrency (record l { filling = false }) seen
  joins :
      {l : Idle} {seen : List Seen}
      → Runs concurrency l seen
      → (i : ℕ) (r : Reservation) (joined_as : JoinResult) → l.filling ≡ false
      → get_elem? l.in_flight i ≡ some r
      → Runs concurrency (on_join l i joined_as) (ended r joined_as ∷ seen)

-- The loop is over when it is not filling and nothing is in flight; then it returns.
abbrev pub IsOver : Idle → Type 0
IsOver l = (l.filling ≡ false) × (l.in_flight ≡ [])

unfoldable pub returns : Idle → Answer
returns l = elim l.first_err [ none ↦ ok tt | some e ↦ err e ]

-- The error of one thing seen, and the first one of a log.
unfoldable pub error_of : Seen → Option Error
unfolding classify_join
error_of (reserved (err e)) = some e
error_of (reserved (ok _)) = none
error_of (ended r joined_as) = classify_join joined_as

unfoldable pub first_error : List Seen → Option Error
unfolding error_of
first_error [] = none
first_error (s ∷ older) = elim (first_error older) [ some e ↦ some e | none ↦ error_of s ]

unfoldable pub taken : List Seen → ℕ
taken [] = 0
taken (reserved (ok (some r)) ∷ older) = suc (taken older)
taken (_ ∷ older) = taken older

unfoldable pub finished : List Seen → ℕ
finished [] = 0
finished (ended r joined_as ∷ older) = suc (finished older)
finished (_ ∷ older) = finished older

abbrev pub is_nothing : Option Error → Bool
is_nothing none = true
is_nothing (some e) = false

-- No reservation is made after an error.
unfoldable pub fails_fast : List Seen → Bool
unfolding first_error
fails_fast [] = true
fails_fast (reserved _ ∷ older) = is_nothing (first_error older) && fails_fast older
fails_fast (ended _ _ ∷ older) = fails_fast older
