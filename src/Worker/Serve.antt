-- ===== src/Worker/Serve.antt =====
-- crates/worklane/src/worker/mod.rs: `run`, the worker as a daemon, as steps. A step is one turn of
-- the code: the shutdown is seen, a reservation is answered, a job in flight ends, a wait elapses, or
-- the drain runs out of time. Which of them comes next is the runtime's choice.
pub mod Calm
mod Examples
use worklane.Base.{
  ℕ, ◌≡◌, max, Bool, true, false, not, ◌&&◌, ◌||◌, Option, none, some, List, [], ◌∷◌, ◌++◌, ltb,
  length, erase_idx, get_elem?, is_nil, if◌then◌else◌,
}
use worklane.Core.Duration.{saturating_add_u32}
use worklane.Core.Error.{Error, Result, ok, err}
use worklane.Core.Envelope.{Reservation}
use worklane.Worker.Seams.{Answer}
use worklane.Worker.Loop.{JoinResult, classify_join, get_or_insert}

-- Where the loop is: at its start, in the inner `while`, after it, or left.
pub data Place : Type 0 where
  top filling waiting over : Place

-- The local variables of `run`.
pub record Serving : Type 0 where
  pub in_flight : List Reservation
  pub shutting_down : Bool
  pub first_err : Option Error
  pub empty_polls : ℕ
  pub place : Place

unfoldable pub initial : Serving
initial = record {
  in_flight = [];
  shutting_down = false;
  first_err = none;
  empty_polls = 0;
  place = top;
}

-- The condition of the inner `while`, and whether there is room for another job.
unfoldable pub has_capacity : ℕ → Serving → Bool
has_capacity concurrency l = ltb (length l.in_flight) (max concurrency 1)

unfoldable pub wants_more : ℕ → Serving → Bool
unfolding has_capacity
wants_more concurrency l = not l.shutting_down && has_capacity concurrency l

unfoldable pub record_error : Bool → Error → Serving → Serving
record_error resilient e l =
    if resilient
    then l
    else record l { first_err = get_or_insert l.first_err e; shutting_down = true }

unfoldable pub on_reserve : Bool → Serving → Result (Option Reservation) → Serving
unfolding record_error
on_reserve resilient l (ok (some r)) = record l {
  in_flight = l.in_flight ++ (r ∷ []);
  empty_polls = 0;
}
on_reserve resilient l (ok none) = record l { place = waiting }
on_reserve resilient l (err e) = record_error resilient e (record l { place = waiting })

unfoldable pub on_shutdown : Serving → Serving
on_shutdown l = record l { shutting_down = true; place = top }

unfoldable pub on_tick : Serving → Serving
on_tick l = record l { empty_polls = saturating_add_u32 l.empty_polls 1; place = top }

-- The job at `i` ended. Once the worker drains, its error is kept in the resilient mode too.
unfoldable pub on_join : Bool → Serving → ℕ → JoinResult → Serving
unfolding record_error
on_join resilient l i joined_as =
    let rest = record l { in_flight = erase_idx l.in_flight i; place = top } in
    elim (classify_join joined_as) [
      | none ↦ rest
      | some e ↦
          if l.shutting_down
          then record rest { first_err = get_or_insert l.first_err e }
          else record_error resilient e rest
    ]

pub data Seen : Type 0 where
  reserved : Result (Option Reservation) → Seen
  ended : Reservation → JoinResult → Seen
  shut ticked timed_out : Seen

-- The runs of the loop, for a concurrency, a mode and whether the drain is bounded in time.
pub data Serves (concurrency : ℕ) (resilient bounded : Bool) : Serving → List Seen → Type 0 where
  begins : Serves concurrency resilient bounded initial []
  looks :
      {l : Serving} {seen : List Seen}
      → Serves concurrency resilient bounded l seen
      → l.place ≡ top
      → Serves concurrency resilient bounded (record l { place = filling }) seen
  notices :
      {l : Serving} {seen : List Seen}
      → Serves concurrency resilient bounded l seen
      → l.place ≡ top
      → l.shutting_down ≡ false
      → Serves concurrency resilient bounded
          (record l { shutting_down = true; place = filling })
          (shut ∷ seen)
  fills :
      {l : Serving} {seen : List Seen}
      → Serves concurrency resilient bounded l seen
      → (answer : Result (Option Reservation)) → l.place ≡ filling
      → wants_more concurrency l ≡ true
      → Serves concurrency resilient bounded
          (on_reserve resilient l answer)
          (reserved answer ∷ seen)
  full :
      {l : Serving} {seen : List Seen}
      → Serves concurrency resilient bounded l seen
      → l.place ≡ filling
      → wants_more concurrency l ≡ false
      → Serves concurrency resilient bounded (record l { place = waiting }) seen
  leaves :
      {l : Serving} {seen : List Seen}
      → Serves concurrency resilient bounded l seen
      → l.place ≡ waiting
      → is_nil l.in_flight ≡ true
      → l.shutting_down ≡ true
      → Serves concurrency resilient bounded (record l { place = over }) seen
  gives_up :
      {l : Serving} {seen : List Seen}
      → Serves concurrency resilient bounded l seen
      → l.place ≡ waiting
      → is_nil l.in_flight ≡ false
      → l.shutting_down ≡ true
      → bounded ≡ true
      → Serves concurrency resilient bounded (record l { place = over }) (timed_out ∷ seen)
  hears :
      {l : Serving} {seen : List Seen}
      → Serves concurrency resilient bounded l seen
      → l.place ≡ waiting
      → l.shutting_down ≡ false
      → Serves concurrency resilient bounded (on_shutdown l) (shut ∷ seen)
  ticks :
      {l : Serving} {seen : List Seen}
      → Serves concurrency resilient bounded l seen
      → l.place ≡ waiting
      → l.shutting_down ≡ false
      → has_capacity concurrency l ≡ true
      → Serves concurrency resilient bounded (on_tick l) (ticked ∷ seen)
  joins :
      {l : Serving} {seen : List Seen}
      → Serves concurrency resilient bounded l seen
      → (i : ℕ) (r : Reservation) (joined_as : JoinResult) → l.place ≡ waiting
      → get_elem? l.in_flight i ≡ some r
      → Serves concurrency resilient bounded
          (on_join resilient l i joined_as)
          (ended r joined_as ∷ seen)

unfoldable pub returns : Serving → Answer
returns l = elim l.first_err [ none ↦ ok tt | some e ↦ err e ]
