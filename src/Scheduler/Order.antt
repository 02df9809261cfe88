-- ===== src/Scheduler/Order.antt =====
-- No occurrence of a schedule is claimed twice by one daemon, and none out of order.
use worklane.Base.{
  ℕ, ◌+◌, ◌/◌, ◌%◌, ◌≡◌, ◌≤◌, ◌<◌, refl, Bool, true, false, ◌&&◌, some, List, [], ◌∷◌, ◌==◌, leb,
  arith, Bool-cases, Option-cases, inl, inr,
}
use worklane.Base.Text.{Text, text_Eq}
use worklane.Base.Int.{pos}
use worklane.Base.Logged.{perform, quietly}
use worklane.Core.Duration.{from_secs, nanos_per_sec}
use worklane.Core.Error.{ok, Result-cases}
use worklane.Core.Envelope.{JobId, NewJob}
use worklane.Scheduler.State.{Calendar, ScheduleEntry, Scheduler}
use worklane.Scheduler.Daemon.{
  Claim, State, in_range, now_utc, next_after, job_for, fire, advance, visit, fire_due,
}
use worklane.Scheduler.Ids.{has_id, AllDistinct, below, is_ordered, below_mono, differ_sym}

-- What cron and chrono promise: the next occurrence is strictly later than the instant, and an
-- instant is what its seconds and nanoseconds say.
pub record IsCalendar {Cron Tz : Type 0} (calendar : Calendar Cron Tz) : Type 0 where
  pub after_later :
      (cron : Cron) (tz : Tz) (t u : ℕ) → calendar.after cron tz t ≡ some u → t < from_secs u
  pub from_timestamp_lem :
      (secs nanos t : ℕ) → calendar.from_timestamp secs nanos ≡ some t → t ≡ from_secs secs + nanos

-- The clock does not go back: `floor` is a time that it has reached.
pub record IsMonotone {W Cron Tz : Type 0} (s : Scheduler W Cron Tz) (fresh_id : W → W × JobId)
    (floor : W → ℕ) : Type 0 where
  pub clock_later : (w : W) → floor w ≤ (s.clock w).1
  pub clock_floor : (w : W) → (s.clock w).1 ≤ floor (s.clock w).0
  pub fresh_floor : (w : W) → floor w ≤ floor (fresh_id w).0
  pub store_floor :
      (id : Text) (t : ℕ) (job : NewJob) (w : W)
      → floor w ≤ floor (s.store.enqueue_scheduled id (pos t) job w).0

-- Every claim for an entry is of an occurrence before its cursor.
unfoldable pub all_below :
    {Cron Tz : Type 0} → List (ScheduleEntry Cron Tz) → List ℕ → List Claim → Bool
unfolding below
all_below [] [] calls = true
all_below (e ∷ entries) (c ∷ cursors) calls = below e.id c calls && all_below entries cursors calls
all_below _ _ calls = false

module _ {W Cron Tz : Type 0} (calendar : Calendar Cron Tz) (fresh_id : W → W × JobId)
    (s : Scheduler W Cron Tz) (floor : W → ℕ) (lawful : IsCalendar calendar)
    (monotone : IsMonotone s fresh_id floor) where
  open lawful use {after_later, from_timestamp_lem}
  open monotone use {clock_later, clock_floor, fresh_floor, store_floor}

  pub in_range_lem : (x t : ℕ) → in_range calendar fresh_id s x ≡ ok t → t ≡ x
  unfolding in_range
  in_range_lem x t h =
      elim (Option-cases (calendar.from_timestamp (x / nanos_per_sec) (x % nanos_per_sec))) [
        | inl absent ↦ absurd (ground arith)
        | inr (u, e) ↦
            ground (arith, from_timestamp_lem (x / nanos_per_sec) (x % nanos_per_sec) u e)
      ]

  -- A new cursor lies past every instant that the clock had reached.
  pub advance-later :
      (e : ScheduleEntry Cron Tz) (st : State W)
      → let out = advance calendar fresh_id s e st in
        (out.0.calls ≡ st.calls)
        × (floor st.world ≤ floor out.0.world)
        × ((next : ℕ) → out.1 ≡ ok next → floor st.world < from_secs next)
  unfolding advance now_utc quietly next_after
  advance-later e st =
      let up = clock_later st.world in
      let on = clock_floor st.world in
      (
        ground arith,
        ground (arith, up, on),
        λ next h. elim (Result-cases (in_range calendar fresh_id s (s.clock st.world).1)) [
          | inr (x, bad) ↦ absurd (ground arith)
          | inl (t, good) ↦ elim (Option-cases (calendar.after e.cron e.tz t)) [
            | inl absent ↦ absurd (ground arith)
            | inr (u, found) ↦ ground (
              arith,
              up,
              in_range_lem (s.clock st.world).1 t good,
              after_later e.cron e.tz t u found,
            )
          ]
        ],
      )

  -- One entry: a claim goes into the log only at the entry's cursor, and moves the cursor on.
  visit-below :
      (e : ScheduleEntry Cron Tz) (c now : ℕ) (st : State W)
      → now ≤ floor st.world
      → is_ordered st.calls ≡ true
      → below e.id c st.calls ≡ true
      → let out = visit calendar fresh_id s e c now st in
        (is_ordered out.0.calls ≡ true)
        × (floor st.world ≤ floor out.0.world)
        × ((next : ℕ) → out.1 ≡ ok next → below e.id next out.0.calls ≡ true)
        × ((id : Text) (t : ℕ)
            → (e.id == id) ≡ false
            → below id t out.0.calls ≡ below id t st.calls)
  unfolding visit fire perform quietly below is_ordered
  visit-below e c now st h o b = elim (Bool-cases (leb (from_secs c) now)) [
    | inr early ↦
        (ground (arith, o), ground arith, λ next eq. ground (arith, b), λ id t differ. ground arith)
    | inl due ↦
        let fired = (fire calendar fresh_id s e c st).0 in
        let drawn = fresh_id st.world in
        let job = job_for calendar fresh_id s e c drawn.1 in
        let up : floor st.world ≤ floor fired.world =
          ground (arith, fresh_floor st.world, store_floor e.id c job drawn.0) in
        let (same, on, later) = advance-later e fired in
        (
          ground (arith, o, b, same),
          ground (arith, up, on),
          λ next eq. ground (arith, b, same, up, later next, below_mono e.id c next st.calls),
          λ id t differ. ground (arith, same),
        )
  ]

  all_below-same :
      (id : Text) (entries : List (ScheduleEntry Cron Tz)) (cursors : List ℕ)
      (calls more : List Claim)
      → has_id id entries ≡ false
      → ((other : Text) (t : ℕ) → (id == other) ≡ false → below other t more ≡ below other t calls)
      → all_below entries cursors more ≡ all_below entries cursors calls
  unfolding all_below
  all_below-same id [] [] calls more h same = refl
  all_below-same id [] (c ∷ cursors) calls more h same = refl
  all_below-same id (e ∷ entries) [] calls more h same = refl
  all_below-same id (e ∷ entries) (c ∷ cursors) calls more h same =
      let differ = differ_sym e.id id (ground arith) in
      ground (
        arith,
        same e.id c differ,
        all_below-same id entries cursors calls more (ground arith) same,
      )

  pub fire_due-below :
      (entries : List (ScheduleEntry Cron Tz)) (cursors : List ℕ) (now : ℕ) (st : State W)
      → AllDistinct entries
      → now ≤ floor st.world
      → is_ordered st.calls ≡ true
      → all_below entries cursors st.calls ≡ true
      → let out = fire_due calendar fresh_id s entries cursors now st in
        (is_ordered out.0.calls ≡ true)
        × ((next : List ℕ) → out.1 ≡ ok next → all_below entries next out.0.calls ≡ true)
        × ((id : Text) (t : ℕ)
            → has_id id entries ≡ false
            → below id t out.0.calls ≡ below id t st.calls)
  unfolding fire_due all_below
  fire_due-below [] [] now st d h o b = (o, λ next eq. ground (arith, b), λ id t differ. refl)
  fire_due-below [] (c ∷ cursors) now st d h o b = absurd (ground arith)
  fire_due-below (e ∷ entries) [] now st d h o b = absurd (ground arith)
  fire_due-below (e ∷ entries) (c ∷ cursors) now st (new, d) h o b =
      let (one, on, moved, frame) = visit-below e c now st h o (ground (arith, b)) in
      let first = visit calendar fresh_id s e c now st in
      let keep = all_below-same e.id entries cursors st.calls first.0.calls new frame in
      let (all, others, still) =
        fire_due-below entries cursors now first.0 d (omega arith) one (ground (arith, b, keep)) in
      elim (Result-cases first.1) [
        | inr (x, bad) ↦ (
          ground (arith, one),
          λ next eq. absurd (ground arith),
          λ id t differ. ground (arith, frame id t (ground arith)),
        )
        | inl (next, good) ↦
            let at = still e.id next new in
            (
              ground (arith, all),
              λ after eq.
                  elim (Result-cases (fire_due calendar fresh_id s entries cursors now first.0).1) [
                    | inr (x, bad) ↦ absurd (ground arith)
                    | inl (rest, fine) ↦ ground (arith, at, moved next good, others rest fine)
                  ],
              λ id t differ. ground (arith, frame id t (ground arith), still id t (ground arith)),
            )
      ]
