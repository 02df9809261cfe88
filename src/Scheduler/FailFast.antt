-- ===== src/Scheduler/FailFast.antt =====
-- Without the resilient mode: what a failing store does to the daemon.
use worklane.Base.{
  ℕ, zero, suc, ◌-◌, ◌≡◌, refl, Bool, true, false, List, [], ◌∷◌, max, arith, Bool-cases,
  Option-cases, inl, inr, is_nil,
}
use worklane.Base.Int.{pos}
use worklane.Base.Logged.{perform, quietly}
use worklane.Core.Duration.{from_secs, from_millis}
use worklane.Core.Error.{ok, err, Result-cases}
use worklane.Core.Envelope.{JobId}
use worklane.Scheduler.State.{Calendar, ScheduleEntry, Scheduler}
use worklane.Scheduler.Daemon.{
  Claim, claims, State, in_range, now_utc, advance, fire, visit, job_for, is_ok, is_clean, fire_due,
  seed, earliest, fire_round, pass, loop, run,
}

-- Did every claim get an answer?
unfoldable pub all_answered : List Claim → Bool
all_answered [] = true
all_answered (claims id t job (ok taken) ∷ calls) = all_answered calls
all_answered (claims id t job (err x) ∷ calls) = false

-- Did every claim but the newest get an answer?
unfoldable pub all_but_newest : List Claim → Bool
unfolding all_answered
all_but_newest [] = true
all_but_newest (claim ∷ calls) = all_answered calls

all_answered_newest : (calls : List Claim) → all_answered calls ≡ true → all_but_newest calls ≡ true
unfolding all_answered all_but_newest
all_answered_newest [] h = refl
all_answered_newest (claims id t job (ok taken) ∷ calls) h = h
all_answered_newest (claims id t job (err x) ∷ calls) h = absurd (ground arith)

module _ {W Cron Tz : Type 0} (calendar : Calendar Cron Tz) (fresh_id : W → W × JobId)
    (s : Scheduler W Cron Tz) where
  -- Without the resilient mode.
  module _ (fast : s.resilient ≡ false) where
    -- A step keeps the claims answered, or fails at its newest claim.
    visit-answered :
        (e : ScheduleEntry Cron Tz) (c now : ℕ) (st : State W)
        → all_answered st.calls ≡ true
        → let out = visit calendar fresh_id s e c now st in
          (all_but_newest out.0.calls ≡ true)
          × (is_ok out.1 ≡ true → all_answered out.0.calls ≡ true)
    unfolding visit fire advance now_utc perform quietly all_answered all_but_newest
    visit-answered e c now st a =
        let newest = all_answered_newest st.calls a in
        let drawn = fresh_id st.world in
        let answer =
          (s.store.enqueue_scheduled e.id (pos c) (job_for calendar fresh_id s e c drawn.1)
            drawn.0).1 in
        elim (Result-cases answer) [
          | inl (taken, good) ↦ ground (arith, newest)
          | inr (x, bad) ↦ ground (arith, newest)
        ]

    fire_due-answered :
        (entries : List (ScheduleEntry Cron Tz)) (cursors : List ℕ) (now : ℕ) (st : State W)
        → all_answered st.calls ≡ true
        → let out = fire_due calendar fresh_id s entries cursors now st in
          (all_but_newest out.0.calls ≡ true)
          × (is_ok out.1 ≡ true → all_answered out.0.calls ≡ true)
    unfolding fire_due
    fire_due-answered [] cursors now st a = (all_answered_newest st.calls a, λ h. a)
    fire_due-answered (e ∷ entries) [] now st a = (all_answered_newest st.calls a, λ h. a)
    fire_due-answered (e ∷ entries) (c ∷ cursors) now st a =
        let (one, kept) = visit-answered e c now st a in
        let first = visit calendar fresh_id s e c now st in
        elim (Result-cases first.1) [
          | inr (x, bad) ↦ ground (arith, one)
          | inl (next, good) ↦
              let (all, more) =
                fire_due-answered entries cursors now first.0 (kept (ground (arith, good))) in
              (ground (arith, all), λ h. ground (arith, more))
        ]

    module _ (wait : ℕ → W → W × Bool) (await_shutdown : W → W) where
      pass-answered :
          (first : ℕ) (cursors : List ℕ) (st : State W)
          → all_answered st.calls ≡ true
          → let out = pass calendar fresh_id s wait await_shutdown first cursors st in
            (all_but_newest out.0.calls ≡ true)
            × (is_ok out.1 ≡ true → all_answered out.0.calls ≡ true)
      unfolding pass fire_round now_utc quietly
      pass-answered first cursors st a =
          let newest = all_answered_newest st.calls a in
          let read = s.clock st.world in
          elim (Result-cases (in_range calendar fresh_id s read.1)) [
            | inr (x, bad) ↦ ground (arith, newest)
            | inl (now, good) ↦
                let slept = wait (max (from_secs first - now) (from_millis 1)) read.0 in
                let later = s.clock slept.0 in
                let st3 : State W = record { world = later.0; calls = st.calls } in
                elim (Result-cases (in_range calendar fresh_id s later.1)) [
                  | inr (x, bad) ↦ ground (arith, newest)
                  | inl (due, fine) ↦
                      let (all, kept) = fire_due-answered s.entries cursors due st3 a in
                      elim (Result-cases
                        (fire_due calendar fresh_id s s.entries cursors due st3).1) [
                          | inr (x, lost) ↦ ground (arith, newest, all)
                          | inl (next, held) ↦ ground (arith, newest, all, kept)
                        ]
                ]
          ]

      loop-answered :
          (fuel : ℕ) (cursors : List ℕ) (st : State W)
          → all_answered st.calls ≡ true
          → let out = loop calendar fresh_id s wait await_shutdown fuel cursors st in
            (all_but_newest out.0.calls ≡ true)
            × (is_clean out.1 ≡ true → all_answered out.0.calls ≡ true)
      unfolding loop is_clean
      loop-answered zero cursors st a = (all_answered_newest st.calls a, λ h. a)
      loop-answered (suc fuel) cursors st a = elim (Option-cases (earliest cursors)) [
        | inl absent ↦ ground (arith, all_answered_newest st.calls a)
        | inr (first, found) ↦
            let out = pass calendar fresh_id s wait await_shutdown first cursors st in
            let (one, kept) = pass-answered first cursors st a in
            elim (Result-cases out.1) [
              | inr (x, bad) ↦ ground (arith, one)
              | inl (p, fine) ↦
                  let held = kept (ground (arith, fine)) in
                  elim (Option-cases p) [
                    | inl stopped ↦ ground (arith, one, held)
                    | inr (next, again) ↦ ground (arith, loop-answered fuel next out.0 held)
                  ]
            ]
      ]

      -- Without the resilient mode the daemon fails fast: no claim follows one that the store did
      -- not answer, and after such a claim the daemon has ended with an error.
      pub run-all_but_newest :
          (fuel : ℕ) (w : W)
          → let out =
              run calendar fresh_id s wait await_shutdown fuel (record { world = w; calls = [] }) in
            (all_but_newest out.0.calls ≡ true)
            × (is_clean out.1 ≡ true → all_answered out.0.calls ≡ true)
      unfolding run now_utc quietly is_clean all_but_newest all_answered
      run-all_but_newest fuel w = elim (Bool-cases (is_nil s.entries)) [
        | inl empty ↦ ground arith
        | inr some_entries ↦
            let read = s.clock w in
            let st1 : State W = record { world = read.0; calls = [] } in
            elim (Result-cases (in_range calendar fresh_id s read.1)) [
              | inr (x, bad) ↦ ground arith
              | inl (now, good) ↦ elim (Result-cases (seed calendar fresh_id s s.entries now)) [
                | inr (x, bad) ↦ ground arith
                | inl (cursors, fine) ↦ ground (arith, loop-answered fuel cursors st1 refl)
              ]
            ]
      ]
