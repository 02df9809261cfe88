-- ===== src/Scheduler/Due.antt =====
-- Which occurrences a pass of the daemon claims.
use worklane.Base.{
  ℕ, ◌≡◌, ◌≤◌, refl, Bool, true, ◌&&◌, List, [], ◌∷◌, leb, ltb, arith, length, Bool-cases, inl, inr,
  if◌then◌else◌,
}
use worklane.Base.Text.{Text}
use worklane.Base.Logged.{perform, quietly}
use worklane.Core.Duration.{from_secs}
use worklane.Core.Error.{ok, Result-cases}
use worklane.Core.Envelope.{JobId}
use worklane.Scheduler.State.{Calendar, ScheduleEntry, Scheduler}
use worklane.Scheduler.Daemon.{Claim, claims, State, fire, visit, fire_due, job_for}
use worklane.Scheduler.Order.{IsCalendar, IsMonotone, advance-later}

-- The schedules and occurrences that were claimed; the newest stands first.
unfoldable pub claimed : List Claim → List (Text × ℕ)
claimed [] = []
claimed (claims id t job answer ∷ calls) = (id, t) ∷ claimed calls

-- Those that are due at a time, put one after the other onto those that are there.
unfoldable pub due_onto :
    {Cron Tz : Type 0}
    → List (ScheduleEntry Cron Tz)
    → List ℕ
    → ℕ
    → List (Text × ℕ)
    → List (Text × ℕ)
due_onto (e ∷ entries) (c ∷ cursors) now before =
    due_onto entries cursors now (if leb (from_secs c) now then (e.id, c) ∷ before else before)
due_onto _ _ now before = before

-- Does every cursor lie past a time?
unfoldable pub all_past : List ℕ → ℕ → Bool
all_past [] now = true
all_past (c ∷ cursors) now = ltb now (from_secs c) && all_past cursors now

module _ {W Cron Tz : Type 0} (calendar : Calendar Cron Tz) (fresh_id : W → W × JobId)
    (s : Scheduler W Cron Tz) (floor : W → ℕ) (lawful : IsCalendar calendar)
    (monotone : IsMonotone s fresh_id floor) where
  open monotone use {fresh_floor, store_floor}

  visit-claimed :
      (e : ScheduleEntry Cron Tz) (c now next : ℕ) (st : State W)
      → now ≤ floor st.world
      → let out = visit calendar fresh_id s e c now st in
        out.1 ≡ ok next
        → (claimed out.0.calls
            ≡ (if leb (from_secs c) now then (e.id, c) ∷ claimed st.calls else claimed st.calls))
          × (ltb now (from_secs next) ≡ true)
          × (floor st.world ≤ floor out.0.world)
  unfolding visit fire perform quietly claimed
  visit-claimed e c now next st h done = elim (Bool-cases (leb (from_secs c) now)) [
    | inr early ↦ (ground arith, ground arith, ground arith)
    | inl due ↦
        let fired = (fire calendar fresh_id s e c st).0 in
        let drawn = fresh_id st.world in
        let job = job_for calendar fresh_id s e c drawn.1 in
        let up : floor st.world ≤ floor fired.world =
          ground (arith, fresh_floor st.world, store_floor e.id c job drawn.0) in
        let (same, on, later) = advance-later calendar fresh_id s floor lawful monotone e fired in
        (ground (arith, same), ground (arith, up, later next), ground (arith, up, on))
  ]

  -- Where a pass over the schedules at a time comes to its end, it has claimed, by a call of the
  -- store whatever it answers, once and in the order of the schedules, the occurrence at the cursor
  -- of each schedule whose cursor is due by then, and nothing else; and there is a cursor for each
  -- schedule again, each past that time, so the occurrences between are skipped. Each has a cursor
  -- before, the clock has reached the time, clock and store do not go back in time, and cron's next
  -- occurrence is later than the time it is asked for.
  pub fire_due-claimed :
      (entries : List (ScheduleEntry Cron Tz)) (cursors next : List ℕ) (now : ℕ) (st : State W)
      → now ≤ floor st.world
      → length cursors ≡ length entries
      → let out = fire_due calendar fresh_id s entries cursors now st in
        out.1 ≡ ok next
        → (claimed out.0.calls ≡ due_onto entries cursors now (claimed st.calls))
          × (length next ≡ length entries)
          × (all_past next now ≡ true)
  unfolding fire_due due_onto all_past
  fire_due-claimed [] [] next now st h n done = (refl, ground arith, ground arith)
  fire_due-claimed [] (c ∷ cursors) next now st h n done = absurd (omega arith)
  fire_due-claimed (e ∷ entries) [] next now st h n done = absurd (omega arith)
  fire_due-claimed (e ∷ entries) (c ∷ cursors) next now st h n done =
      let first = visit calendar fresh_id s e c now st in
      elim (Result-cases first.1) [
        | inr (x, bad) ↦ absurd (ground arith)
        | inl (d, good) ↦
            elim (Result-cases (fire_due calendar fresh_id s entries cursors now first.0).1) [
              | inr (x, bad) ↦ absurd (ground arith)
              | inl (rest, fine) ↦
                  let (one, past, up) = visit-claimed e c now d st h good in
                  let (all, many, others) =
                    fire_due-claimed entries cursors rest now first.0 (omega arith) (omega arith)
                      fine in
                  (ground (arith, one, all), ground (arith, many), ground (arith, past, others))
            ]
      ]
