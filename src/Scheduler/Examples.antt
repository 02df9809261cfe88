-- ===== src/Scheduler/Examples.antt =====
-- A scheduler over a small world, and the theorems of the scheduler at it. The world is the time
-- that its clock will tell next, in nanoseconds; the one schedule is due every ten seconds.
use worklane.Base.{
  ℕ, suc, ◌+◌, ◌*◌, ◌/◌, ◌≡◌, refl, Bool, true, false, none, some, List, [], ◌∷◌, length, arith,
  inr, ltb, if◌then◌else◌,
}
use worklane.Base.Text.{codes, debug}
use worklane.Core.Duration.{from_secs}
use worklane.Core.Error.{Error, ok, err, broker}
use worklane.Core.Envelope.{JobId}
use worklane.Core.Lane.{default_lane}
use worklane.Scheduler.State.{Calendar, ScheduleEntry, Scheduler, add}
use worklane.Scheduler.Daemon.{State, failed, is_clean, fire_due, run}
use worklane.Scheduler.Ids.{is_ordered}
use worklane.Scheduler.Order.{IsCalendar, IsMonotone}
use worklane.Scheduler.Strict.{run-is_ordered}
use worklane.Scheduler.FailFast.{all_but_newest, all_answered, run-all_but_newest}
use worklane.Scheduler.Resilient.{IsTimeError, run-IsTimeError}
use worklane.Scheduler.Due.{claimed, due_onto, all_past, fire_due-claimed}

abbrev calendar : Calendar ℕ ℕ
calendar = record {
  from_str = λ text. inr 9;
  after = λ cron tz t. some (suc (t / 10000000000) * 10);
  from_timestamp = λ secs nanos. some (from_secs secs + nanos);
  utc = 0;
}

-- A second goes by when the clock is read, and the store is down.
abbrev down : Scheduler ℕ ℕ ℕ
down = record {
  store = record {
    enqueue_scheduled = λ id occurrence job w. (w + 1, err (broker (codes "down")));
    remove_schedule = λ id w. (w, ok tt);
  };
  clock = λ w. (w + from_secs 5, w);
  default_max_attempts = 5;
  lane = default_lane;
  timezone = 0;
  entries = [];
  resilient = false;
  pre_dispatch = none;
}

abbrev tick : ScheduleEntry ℕ ℕ
tick = record {
  id = codes "tick";
  cron = 9;
  tz = 0;
  lane = default_lane;
  kind = codes "tick";
  payload = 123 ∷ 125 ∷ [];
  max_attempts = 5;
  dedup = false;
}

abbrev ticking : Scheduler ℕ ℕ ℕ
ticking = record down { entries = tick ∷ [] }

abbrev patient : Scheduler ℕ ℕ ℕ
patient = record ticking { resilient = true }

abbrev fresh_id : ℕ → ℕ × JobId
fresh_id w = (w, 49 ∷ [])

abbrev wait : ℕ → ℕ → ℕ × Bool
wait time w = (w + time, false)

abbrev await_shutdown : ℕ → ℕ
await_shutdown w = w

abbrev start : State ℕ
start = record { world = 0; calls = [] }

registered :
    add calendar
      (codes "tick")
      (codes "*/10 * * * * *")
      default_lane
      false
      (codes "tick")
      (ok (123 ∷ 125 ∷ []))
      down
    ≡ ok ticking
unfolding add
registered = refl

lawful : IsCalendar calendar
lawful = record {
  after_later = λ cron tz t u h. ground arith;
  from_timestamp_lem = λ secs nanos t h. ground arith;
}

monotone : IsMonotone patient fresh_id (λ w. w)
monotone = record {
  clock_later = λ w. omega arith;
  clock_floor = λ w. omega arith;
  fresh_floor = λ w. omega arith;
  store_floor = λ id t job w. omega arith;
}

abbrev the_next : List ℕ
the_next = 20 ∷ []

run-is_ordered_example :
    is_ordered (run calendar fresh_id patient wait await_shutdown 3 start).0.calls ≡ true
run-is_ordered_example =
    run-is_ordered calendar fresh_id patient (λ w. w) lawful monotone (refl, tt) wait await_shutdown
      3 0

three_claims :
    claimed (run calendar fresh_id patient wait await_shutdown 3 start).0.calls
    ≡ (codes "tick", 50) ∷ (codes "tick", 30) ∷ (codes "tick", 10) ∷ []
unfolding run claimed
three_claims = refl

run-all_but_newest_example :
    let out = run calendar fresh_id ticking wait await_shutdown 3 start in
    (all_but_newest out.0.calls ≡ true) × (is_clean out.1 ≡ true → all_answered out.0.calls ≡ true)
run-all_but_newest_example =
    run-all_but_newest calendar fresh_id ticking refl wait await_shutdown 3 0

-- A calendar whose last occurrence is at twenty seconds.
abbrev ending : Calendar ℕ ℕ
ending = record calendar {
  after = λ cron tz t. if ltb t (from_secs 20) then some (suc (t / 10000000000) * 10) else none;
}

no_further : Error
no_further = broker (codes "schedule \"tick\" has no further occurrence")

runs_out : (run ending fresh_id patient wait await_shutdown 3 start).1 ≡ failed no_further
unfolding run no_further debug
runs_out = refl

run-IsTimeError_example : IsTimeError ending fresh_id patient no_further
run-IsTimeError_example =
    run-IsTimeError ending fresh_id patient refl wait await_shutdown 3 start no_further runs_out

due_done :
    (fire_due calendar fresh_id patient patient.entries
      (10 ∷ [])
      (from_secs 12)
      (record { world = from_secs 12; calls = [] })).1
    ≡ ok (20 ∷ [])
unfolding fire_due
due_done = refl

fire_due-claimed_example :
    let out =
      fire_due calendar fresh_id patient patient.entries
        (10 ∷ [])
        (from_secs 12)
        (record { world = from_secs 12; calls = [] }) in
    (claimed out.0.calls ≡ due_onto patient.entries (10 ∷ []) (from_secs 12) (claimed []))
    × (length (the_next) ≡ length patient.entries)
    × (all_past the_next (from_secs 12) ≡ true)
fire_due-claimed_example =
    fire_due-claimed calendar fresh_id patient (λ w. w) lawful monotone patient.entries (10 ∷ [])
      the_next (from_secs 12) (record { world = from_secs 12; calls = [] }) (omega arith) refl
      due_done
