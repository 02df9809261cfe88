-- ===== src/Scheduler/Resilient.antt =====
-- In the resilient mode: what a failing store does to the daemon.
use worklane.Base.{
  ℕ, zero, suc, ◌-◌, ◌≡◌, refl, Bool, true, none, some, List, [], ◌∷◌, ◌⊎◌, max, arith, Bool-cases,
  Option-cases, inl, inr, is_nil, get_elem?, leb,
}
use worklane.Base.Logged.{quietly}
use worklane.Core.Duration.{from_secs, from_millis}
use worklane.Core.Error.{Error, ok, err, Result-cases}
use worklane.Core.Envelope.{JobId}
use worklane.Scheduler.State.{Calendar, ScheduleEntry, Scheduler}
use worklane.Scheduler.Daemon.{
  State, failed, in_range, now_utc, next_after, advance, fire, visit, fire_due, seed, earliest,
  fire_round, pass, loop, run,
}

module _ {W Cron Tz : Type 0} (calendar : Calendar Cron Tz) (fresh_id : W → W × JobId)
    (s : Scheduler W Cron Tz) where
  abbrev IsRegistered : ScheduleEntry Cron Tz → Type 0
  IsRegistered e = (k : ℕ) × (get_elem? s.entries k ≡ some e)

  -- A time that the clock told in some world.
  abbrev IsTold : ℕ → Type 0
  IsTold t = (w : W) × (in_range calendar fresh_id s (s.clock w).1 ≡ ok t)

  -- The errors of the clock and of cron: a reading that is out of range, or a registered schedule
  -- without an occurrence after a time that the clock told.
  abbrev pub IsTimeError : Error → Type 0
  IsTimeError x =
      ((w : W) × (in_range calendar fresh_id s (s.clock w).1 ≡ err x))
      ⊎ ((e : ScheduleEntry Cron Tz) × (t : ℕ) × (IsRegistered e)
          × (IsTold t)
          × (calendar.after e.cron e.tz t ≡ none)
          × (next_after calendar fresh_id s e t ≡ err x))

  next_after-IsTimeError :
      (e : ScheduleEntry Cron Tz) (t : ℕ) (x : Error)
      → IsRegistered e
      → IsTold t
      → next_after calendar fresh_id s e t ≡ err x
      → IsTimeError x
  unfolding next_after
  next_after-IsTimeError e t x known told h = elim (Option-cases (calendar.after e.cron e.tz t)) [
    | inl over ↦ inr (e, t, known, told, over, h)
    | inr (u, found) ↦ absurd (ground arith)
  ]

  advance-IsTimeError :
      (e : ScheduleEntry Cron Tz) (st : State W) (x : Error)
      → IsRegistered e
      → (advance calendar fresh_id s e st).1 ≡ err x
      → IsTimeError x
  unfolding advance now_utc quietly
  advance-IsTimeError e st x known h =
      elim (Result-cases (in_range calendar fresh_id s (s.clock st.world).1)) [
        | inr (y, bad) ↦ inl (st.world, ground arith)
        | inl (t, good) ↦ next_after-IsTimeError e t x known (st.world, good) (ground arith)
      ]

  seed-IsTimeError :
      (entries : List (ScheduleEntry Cron Tz)) (now : ℕ) (x : Error)
      → ((k : ℕ) (e : ScheduleEntry Cron Tz) → get_elem? entries k ≡ some e → IsRegistered e)
      → IsTold now
      → seed calendar fresh_id s entries now ≡ err x
      → IsTimeError x
  unfolding seed
  seed-IsTimeError [] now x known told h = absurd (ground arith)
  seed-IsTimeError (e ∷ entries) now x known told h =
      elim (Result-cases (next_after calendar fresh_id s e now)) [
        | inr (y, bad) ↦ next_after-IsTimeError e now x (known 0 e refl) told (ground arith)
        | inl (c, good) ↦
            seed-IsTimeError entries now x (λ k. known (suc k)) told
              (elim (Result-cases (seed calendar fresh_id s entries now)) [
                | inr (y, bad) ↦ ground arith
                | inl (rest, fine) ↦ absurd (ground arith)
              ])
      ]

  module _ (resilient : s.resilient ≡ true) where
    visit-IsTimeError :
        (e : ScheduleEntry Cron Tz) (c now : ℕ) (st : State W) (x : Error)
        → IsRegistered e
        → (visit calendar fresh_id s e c now st).1 ≡ err x
        → IsTimeError x
    unfolding visit
    visit-IsTimeError e c now st x known h =
        let (st1, answer) = fire calendar fresh_id s e c st in
        elim (Bool-cases (leb (from_secs c) now)) [
          | inr early ↦ absurd (ground arith)
          | inl due ↦ advance-IsTimeError e st1 x known (elim (Result-cases answer) [
            | inr (y, refused) ↦ ground arith
            | inl (u, fired) ↦ ground arith
          ])
        ]

    fire_due-IsTimeError :
        (entries : List (ScheduleEntry Cron Tz)) (cursors : List ℕ) (now : ℕ) (st : State W)
        (x : Error)
        → ((k : ℕ) (e : ScheduleEntry Cron Tz) → get_elem? entries k ≡ some e → IsRegistered e)
        → (fire_due calendar fresh_id s entries cursors now st).1 ≡ err x
        → IsTimeError x
    unfolding fire_due
    fire_due-IsTimeError [] cursors now st x known h = absurd (ground arith)
    fire_due-IsTimeError (e ∷ entries) [] now st x known h = absurd (ground arith)
    fire_due-IsTimeError (e ∷ entries) (c ∷ cursors) now st x known h =
        let (st1, visited) = visit calendar fresh_id s e c now st in
        elim (Result-cases visited) [
          | inr (y, bad) ↦ visit-IsTimeError e c now st x (known 0 e refl) (ground arith)
          | inl (next, good) ↦
              fire_due-IsTimeError entries cursors now st1 x (λ k. known (suc k))
                (elim (Result-cases (fire_due calendar fresh_id s entries cursors now st1).1) [
                  | inr (y, bad) ↦ ground arith
                  | inl (rest, fine) ↦ absurd (ground arith)
                ])
        ]

    module _ (wait : ℕ → W → W × Bool) (await_shutdown : W → W) where
      pass-IsTimeError :
          (first : ℕ) (cursors : List ℕ) (st : State W) (x : Error)
          → (pass calendar fresh_id s wait await_shutdown first cursors st).1 ≡ err x
          → IsTimeError x
      unfolding pass fire_round now_utc quietly
      pass-IsTimeError first cursors st x h =
          let read = s.clock st.world in
          elim (Result-cases (in_range calendar fresh_id s read.1)) [
            | inr (y, bad) ↦ inl (st.world, ground arith)
            | inl (now, good) ↦
                let slept = wait (max (from_secs first - now) (from_millis 1)) read.0 in
                let later = s.clock slept.0 in
                let st3 : State W = record { world = later.0; calls = st.calls } in
                elim (Result-cases (in_range calendar fresh_id s later.1)) [
                  | inr (y, bad) ↦ inl (slept.0, ground arith)
                  | inl (due, fine) ↦
                      fire_due-IsTimeError s.entries cursors due st3 x (λ k e at. (k, at))
                        (elim (Result-cases
                          (fire_due calendar fresh_id s s.entries cursors due st3).1) [
                            | inr (y, lost) ↦ ground arith
                            | inl (next, held) ↦ absurd (ground arith)
                          ])
                ]
          ]

      loop-IsTimeError :
          (fuel : ℕ) (cursors : List ℕ) (st : State W) (x : Error)
          → (loop calendar fresh_id s wait await_shutdown fuel cursors st).1 ≡ failed x
          → IsTimeError x
      unfolding loop
      loop-IsTimeError zero cursors st x h = absurd (ground arith)
      loop-IsTimeError (suc fuel) cursors st x h = elim (Option-cases (earliest cursors)) [
        | inl absent ↦ absurd (ground arith)
        | inr (first, found) ↦
            let out = pass calendar fresh_id s wait await_shutdown first cursors st in
            elim (Result-cases out.1) [
              | inr (y, bad) ↦ pass-IsTimeError first cursors st x (ground arith)
              | inl (p, fine) ↦ elim (Option-cases p) [
                | inl stopped ↦ absurd (ground arith)
                | inr (next, again) ↦ loop-IsTimeError fuel next out.0 x (ground arith)
              ]
            ]
      ]

      -- In the resilient mode, whatever the store answers, the daemon ends with an error only for
      -- the time: the clock reads a time that is out of range, or a registered schedule has no
      -- occurrence after a time that the clock told, and the error is the one of that.
      pub run-IsTimeError :
          (fuel : ℕ) (st : State W) (x : Error)
          → (run calendar fresh_id s wait await_shutdown fuel st).1 ≡ failed x
          → IsTimeError x
      unfolding run now_utc quietly
      run-IsTimeError fuel st x h = elim (Bool-cases (is_nil s.entries)) [
        | inl empty ↦ absurd (ground arith)
        | inr some_entries ↦
            let read = s.clock st.world in
            let st1 : State W = record { world = read.0; calls = st.calls } in
            elim (Result-cases (in_range calendar fresh_id s read.1)) [
              | inr (y, bad) ↦ inl (st.world, ground arith)
              | inl (now, good) ↦ elim (Result-cases (seed calendar fresh_id s s.entries now)) [
                | inr (y, bad) ↦
                    seed-IsTimeError s.entries now x (λ k e at. (k, at)) (st.world, good)
                      (ground arith)
                | inl (cursors, fine) ↦ loop-IsTimeError fuel cursors st1 x (ground arith)
              ]
            ]
      ]
