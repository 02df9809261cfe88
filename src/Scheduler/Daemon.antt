-- ===== src/Scheduler/Daemon.antt =====
-- crates/worklane-scheduler/src/lib.rs: the daemon. A pass of its loop costs one unit of fuel; a
-- result `running` says that the fuel was spent. An instant is a number of nanoseconds.
use worklane.Base.{
  ℕ, zero, suc, ◌-◌, ◌/◌, ◌%◌, min, max, Bool, true, false, Option, none, some, List, [], ◌∷◌, ◌++◌,
  leb, if◌then◌else◌,
}
use worklane.Base.Text.{Text, codes, debug}
use worklane.Base.Int.{pos}
use worklane.Base.Logged.{Logged, perform, quietly}
use worklane.Core.Duration.{decimal, from_secs, from_millis, nanos_per_sec, i64_max}
use worklane.Core.Error.{Error, Result, ok, err, broker, map_ok}
use worklane.Core.Envelope.{JobId, NewJob, new_job}
use worklane.Core.Traits.{Answer}
use worklane.Scheduler.State.{Calendar, ScheduleEntry, Scheduler}

pub data Claim : Type 0 where
  claims : Text → ℕ → NewJob → Result Bool → Claim

abbrev pub State : Type 0 → Type 0
State W = Logged Claim W

-- How the daemon ends, or the cursors that it goes on with.
pub data Ending : Type 0 where
  shut_down : Ending
  failed : Error → Ending
  running : List ℕ → Ending

abbrev pub is_ok : {A : Type 0} → Result A → Bool
is_ok (ok a) = true
is_ok (err x) = false

-- Did the daemon end without an error, or go on?
unfoldable pub is_clean : Ending → Bool
is_clean (failed x) = false
is_clean _ = true

abbrev pub clock_error : Error
clock_error = broker (codes "clock time is out of range for scheduling")

-- `iter().min()`.
abbrev pub earliest : List ℕ → Option ℕ
earliest [] = none
earliest (c ∷ cursors) = elim (earliest cursors) [ none ↦ some c | some other ↦ some (min c other) ]

module _ {W Cron Tz : Type 0} (calendar : Calendar Cron Tz) (fresh_id : W → W × JobId)
    (s : Scheduler W Cron Tz) where
  -- The checked conversion of a reading of the clock.
  unfoldable pub in_range : ℕ → Result ℕ
  in_range since_epoch =
      let secs = since_epoch / nanos_per_sec in
      if leb secs i64_max
      then elim (calendar.from_timestamp secs (since_epoch % nanos_per_sec)) [
        | none ↦ err clock_error
        | some instant ↦ ok instant
      ]
      else err clock_error

  unfoldable pub now_utc : State W → State W × Result ℕ
  unfolding quietly in_range
  now_utc st = let (st1, since_epoch) = quietly s.clock st in (st1, in_range since_epoch)

  unfoldable pub next_after : ScheduleEntry Cron Tz → ℕ → Result ℕ
  next_after e after = elim (calendar.after e.cron e.tz after) [
    | some occurrence ↦ ok occurrence
    | none ↦ err (broker (codes "schedule " ++ (debug e.id ++ codes " has no further occurrence")))
  ]

  -- The job of an occurrence.
  unfoldable pub job_for : ScheduleEntry Cron Tz → ℕ → JobId → NewJob
  unfolding new_job
  job_for e timestamp id =
      let job = new_job id e.lane e.kind e.payload e.max_attempts in
      let keyed : NewJob =
        if e.dedup
        then record job { unique_key = some (e.id ++ (codes ":" ++ decimal timestamp)) }
        else job in
      elim s.pre_dispatch [ none ↦ keyed | some hook ↦ hook keyed ]

  unfoldable pub fire : ScheduleEntry Cron Tz → ℕ → State W → State W × Answer
  unfolding quietly perform job_for
  fire e timestamp st =
      let (st1, id) = quietly fresh_id st in
      let job = job_for e timestamp id in
      let (st2, answer) =
        perform (claims e.id timestamp job) (s.store.enqueue_scheduled e.id (pos timestamp) job)
          st1 in
      (st2, map_ok (λ _. tt) answer)

  -- The new cursor, from the time after the fire.
  unfoldable pub advance : ScheduleEntry Cron Tz → State W → State W × Result ℕ
  unfolding now_utc next_after
  advance e st =
      let (st1, time) = now_utc st in
      (st1, elim time [ ok after ↦ next_after e after | err x ↦ err x ])

  -- One entry of the `for` loop, at its cursor.
  unfoldable pub visit : ScheduleEntry Cron Tz → ℕ → ℕ → State W → State W × Result ℕ
  unfolding fire advance
  visit e cursor now st =
      let (st1, answer) = fire e cursor st in
      if leb (from_secs cursor) now
      then (elim answer [
        | ok _ ↦ advance e st1
        | err x ↦ if s.resilient then advance e st1 else (st1, err x)
      ])
      else (st, ok cursor)

  unfoldable pub fire_due :
      List (ScheduleEntry Cron Tz) → List ℕ → ℕ → State W → State W × Result (List ℕ)
  unfolding visit
  fire_due [] cursors now st = (st, ok cursors)
  fire_due (e ∷ entries) [] now st = (st, ok [])
  fire_due (e ∷ entries) (cursor ∷ cursors) now st =
      let (st1, visited) = visit e cursor now st in
      let (st2, others) = fire_due entries cursors now st1 in
      elim visited [ ok next ↦ (st2, map_ok (λ rest. next ∷ rest) others) | err x ↦ (st1, err x) ]

  unfoldable pub seed : List (ScheduleEntry Cron Tz) → ℕ → Result (List ℕ)
  unfolding next_after
  seed [] now = ok []
  seed (e ∷ entries) now = elim (next_after e now) [
    | err x ↦ err x
    | ok cursor ↦ map_ok (λ rest. cursor ∷ rest) (seed entries now)
  ]

  -- The time after the wait, and what is due then.
  unfoldable pub fire_round : List ℕ → State W → State W × Result (List ℕ)
  unfolding now_utc fire_due
  fire_round cursors st =
      let (st1, time) = now_utc st in
      elim time [ err x ↦ (st1, err x) | ok now ↦ fire_due s.entries cursors now st1 ]

  -- `wait` sleeps for a time, and tells if the shutdown came first.
  module _ (wait : ℕ → W → W × Bool) (await_shutdown : W → W) where
    abbrev pub shut : State W → State W × Ending
    shut st = (record st { world = await_shutdown st.world }, shut_down)

    -- One pass of the loop; `none` is the shutdown.
    unfoldable pub pass : ℕ → List ℕ → State W → State W × Result (Option (List ℕ))
    unfolding now_utc quietly fire_round
    pass first cursors st =
        let (st1, time) = now_utc st in
        elim time [
          | err x ↦ (st1, err x)
          | ok now ↦
              let (st2, stopped) =
                quietly (wait (max (from_secs first - now) (from_millis 1))) st1 in
              let (st3, next) = fire_round cursors st2 in
              if stopped then (st2, ok none) else (st3, map_ok some next)
        ]

    unfoldable pub loop : ℕ → List ℕ → State W → State W × Ending
    unfolding pass
    loop zero cursors st = (st, running cursors)
    loop (suc fuel) cursors st = elim (earliest cursors) [
      | none ↦ shut st
      | some first ↦
          let (st1, passed) = pass first cursors st in
          elim passed [
            | err x ↦ (st1, failed x)
            | ok none ↦ (st1, shut_down)
            | ok (some next) ↦ loop fuel next st1
          ]
    ]

    unfoldable pub run : ℕ → State W → State W × Ending
    unfolding now_utc seed loop
    run fuel st = elim s.entries [
      | [] ↦ shut st
      | _ ∷ _ ↦
          let (st1, time) = now_utc st in
          elim time [
            | err x ↦ (st1, failed x)
            | ok now ↦ elim (seed s.entries now) [
              | err x ↦ (st1, failed x)
              | ok cursors ↦ loop fuel cursors st1
            ]
          ]
    ]
