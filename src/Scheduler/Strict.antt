-- ===== src/Scheduler/Strict.antt =====
-- The claims of a whole run of the daemon.
use worklane.Base.{
  ℕ, zero, suc, ◌-◌, ◌≡◌, refl, Bool, true, some, List, [], ◌∷◌, max, arith, Bool-cases,
  Option-cases, inl, inr, is_nil,
}
use worklane.Base.Logged.{quietly}
use worklane.Core.Duration.{from_secs, from_millis}
use worklane.Core.Error.{ok, Result-cases}
use worklane.Core.Envelope.{JobId}
use worklane.Scheduler.State.{Calendar, ScheduleEntry, Scheduler}
use worklane.Scheduler.Daemon.{
  State, in_range, now_utc, next_after, seed, earliest, fire_round, pass, loop, run,
}
use worklane.Scheduler.Ids.{AllDistinct, below, is_ordered}
use worklane.Scheduler.Order.{IsCalendar, IsMonotone, all_below, in_range_lem, fire_due-below}

module _ {W Cron Tz : Type 0} (calendar : Calendar Cron Tz) (fresh_id : W → W × JobId)
    (s : Scheduler W Cron Tz) (floor : W → ℕ) (lawful : IsCalendar calendar)
    (monotone : IsMonotone s fresh_id floor) (distinct : AllDistinct s.entries) where
  open monotone use {clock_floor}

  fire_round-below :
      (cursors : List ℕ) (st : State W)
      → is_ordered st.calls ≡ true
      → all_below s.entries cursors st.calls ≡ true
      → let out = fire_round calendar fresh_id s cursors st in
        (is_ordered out.0.calls ≡ true)
        × ((next : List ℕ) → out.1 ≡ ok next → all_below s.entries next out.0.calls ≡ true)
  unfolding fire_round now_utc quietly
  fire_round-below cursors st o b =
      let read = s.clock st.world in
      elim (Result-cases (in_range calendar fresh_id s read.1)) [
        | inr (x, bad) ↦ (ground (arith, o), λ next eq. absurd (ground arith))
        | inl (now, good) ↦
            let at = in_range_lem calendar fresh_id s floor lawful monotone read.1 now good in
            let st1 : State W = record { world = read.0; calls = st.calls } in
            let (all, others, _) =
              fire_due-below calendar fresh_id s floor lawful monotone s.entries cursors now st1
                distinct (ground (arith, at, clock_floor st.world)) o b in
            (ground (arith, all), λ next eq. ground (arith, others next))
      ]

  module _ (wait : ℕ → W → W × Bool) (await_shutdown : W → W) where
    pass-below :
        (first : ℕ) (cursors : List ℕ) (st : State W)
        → is_ordered st.calls ≡ true
        → all_below s.entries cursors st.calls ≡ true
        → let out = pass calendar fresh_id s wait await_shutdown first cursors st in
          (is_ordered out.0.calls ≡ true)
          × ((next : List ℕ) → out.1 ≡ ok (some next) → all_below s.entries next out.0.calls ≡ true)
    unfolding pass now_utc quietly
    pass-below first cursors st o b =
        let read = s.clock st.world in
        elim (Result-cases (in_range calendar fresh_id s read.1)) [
          | inr (x, bad) ↦ (ground (arith, o), λ next eq. absurd (ground arith))
          | inl (now, good) ↦
              let slept = wait (max (from_secs first - now) (from_millis 1)) read.0 in
              let st2 : State W = record { world = slept.0; calls = st.calls } in
              let (all, others) = fire_round-below cursors st2 o b in
              elim (Bool-cases slept.1) [
                | inl stopped ↦ (ground (arith, o), λ next eq. absurd (ground arith))
                | inr on ↦ (
                  ground (arith, all),
                  λ next eq. elim (Result-cases (fire_round calendar fresh_id s cursors st2).1) [
                    | inr (x, bad) ↦ absurd (ground arith)
                    | inl (n, fine) ↦ ground (arith, others n fine)
                  ],
                )
              ]
        ]

    loop-ordered :
        (fuel : ℕ) (cursors : List ℕ) (st : State W)
        → is_ordered st.calls ≡ true
        → all_below s.entries cursors st.calls ≡ true
        → is_ordered (loop calendar fresh_id s wait await_shutdown fuel cursors st).0.calls ≡ true
    unfolding loop
    loop-ordered zero cursors st o b = o
    loop-ordered (suc fuel) cursors st o b = elim (Option-cases (earliest cursors)) [
      | inl absent ↦ ground (arith, o)
      | inr (first, found) ↦
          let out = pass calendar fresh_id s wait await_shutdown first cursors st in
          let (one, more) = pass-below first cursors st o b in
          elim (Result-cases out.1) [
            | inr (x, bad) ↦ ground (arith, one)
            | inl (p, fine) ↦ elim (Option-cases p) [
              | inl stopped ↦ ground (arith, one)
              | inr (next, again) ↦
                  ground (arith, loop-ordered fuel next out.0 one (more next (ground arith)))
            ]
          ]
    ]

    seed-below :
        (entries : List (ScheduleEntry Cron Tz)) (now : ℕ) (cursors : List ℕ)
        → seed calendar fresh_id s entries now ≡ ok cursors
        → all_below entries cursors [] ≡ true
    unfolding seed all_below below
    seed-below [] now cursors h = ground arith
    seed-below (e ∷ entries) now cursors h =
        elim (Result-cases (next_after calendar fresh_id s e now)) [
          | inr (x, bad) ↦ absurd (ground arith)
          | inl (c, good) ↦ elim (Result-cases (seed calendar fresh_id s entries now)) [
            | inr (x, bad) ↦ absurd (ground arith)
            | inl (rest, fine) ↦ ground (arith, seed-below entries now rest fine)
          ]
        ]

    -- A run of the daemon, however long, claims the occurrences of each of its schedules in
    -- strictly increasing order, so none twice. The ids of the
    -- schedules are distinct, the clock does not go back, and cron's next occurrence is later.
    pub run-is_ordered :
        (fuel : ℕ) (w : W)
        → let start : State W = record { world = w; calls = [] } in
          is_ordered (run calendar fresh_id s wait await_shutdown fuel start).0.calls ≡ true
    unfolding run now_utc quietly is_ordered
    run-is_ordered fuel w = elim (Bool-cases (is_nil s.entries)) [
      | inl empty ↦ ground arith
      | inr some_entries ↦
          let read = s.clock w in
          let st1 : State W = record { world = read.0; calls = [] } in
          elim (Result-cases (in_range calendar fresh_id s read.1)) [
            | inr (x, bad) ↦ ground arith
            | inl (now, good) ↦ elim (Result-cases (seed calendar fresh_id s s.entries now)) [
              | inr (x, bad) ↦ ground arith
              | inl (cursors, fine) ↦ ground (
                arith,
                loop-ordered fuel cursors st1 refl (seed-below s.entries now cursors fine),
              )
            ]
          ]
    ]
