-- ===== src/Scheduler/Ids.antt =====
-- The ids of the schedules, and the occurrences that were claimed for an id.
use worklane.Base.{
  ℕ, ◌≡◌, ◌≤◌, refl, Bool, true, false, not, ◌&&◌, ◌||◌, List, [], ◌∷◌, ◌++◌, ◌==◌, any, ltb, arith,
  Bool-cases, ◌⊎◌, inl, inr, ==_refl, ==_iff, ◌∙◌, subst,
}
use worklane.Base.Text.{Text, text_Eq}
use worklane.Core.Error.{Result, ok, Result-cases}
use worklane.Core.Envelope.{Lane, Bytes}
use worklane.Scheduler.State.{Calendar, ScheduleEntry, Scheduler, add}
use worklane.Scheduler.Daemon.{Claim, claims}

pub differ_sym : (a b : Text) → (a == b) ≡ false → (b == a) ≡ false
differ_sym a b h = elim (Bool-cases (b == a)) [
  | inl same ↦ absurd (ground (arith, (==_iff b a).0 same, ==_refl a, same))
  | inr differ ↦ differ
]

module _ {Cron Tz : Type 0} where
  abbrev pub has_id : Text → List (ScheduleEntry Cron Tz) → Bool
  has_id id entries = any (λ (e : ScheduleEntry Cron Tz). e.id == id) entries

  abbrev pub AllDistinct : List (ScheduleEntry Cron Tz) → Type 0
  AllDistinct [] = Unit
  AllDistinct (e ∷ entries) = (has_id e.id entries ≡ false) × AllDistinct entries

  has_id-++ :
      (id : Text) (xs ys : List (ScheduleEntry Cron Tz))
      → has_id id (xs ++ ys) ≡ has_id id xs || has_id id ys
  has_id-++ id [] ys = refl
  has_id-++ id (x ∷ xs) ys = ground (arith, has_id-++ id xs ys)

  AllDistinct-snoc :
      (entries : List (ScheduleEntry Cron Tz)) (e : ScheduleEntry Cron Tz)
      → AllDistinct entries
      → has_id e.id entries ≡ false
      → AllDistinct (entries ++ (e ∷ []))
  AllDistinct-snoc [] e d h = (refl, tt)
  AllDistinct-snoc (x ∷ entries) e (new, d) h =
      let other = differ_sym x.id e.id (ground arith) in
      (
        has_id-++ x.id entries (e ∷ []) ∙ ground (arith, other),
        AllDistinct-snoc entries e d (ground arith),
      )

parse_cases :
    {Cron : Type 0} (r : Text ⊎ Cron)
    → ((x : Text) × (r ≡ inl x)) ⊎ ((cron : Cron) × (r ≡ inr cron))
parse_cases (inl x) = inl (x, refl)
parse_cases (inr cron) = inr (cron, refl)

module _ {W Cron Tz : Type 0} (calendar : Calendar Cron Tz) where
  -- Registering a schedule keeps the ids of the schedules distinct: an id that is there is refused.
  pub add-AllDistinct :
      (id cron_expr : Text) (lane : Lane) (dedup : Bool) (kind : Text) (encoded : Result Bytes)
      (s t : Scheduler W Cron Tz)
      → AllDistinct s.entries
      → add calendar id cron_expr lane dedup kind encoded s ≡ ok t
      → AllDistinct t.entries
  unfolding add
  add-AllDistinct id cron_expr lane dedup kind encoded s t d h =
      elim (Bool-cases (has_id id s.entries)) [
        | inl there ↦ absurd (ground arith)
        | inr fresh ↦ elim (parse_cases (calendar.from_str cron_expr)) [
          | inl (x, bad) ↦ absurd (ground arith)
          | inr (cron, parsed) ↦ elim (Result-cases encoded) [
            | inr (x, bad) ↦ absurd (ground arith)
            | inl (payload, good) ↦
                let entry : ScheduleEntry Cron Tz = record {
                  id = id;
                  cron = cron;
                  tz = s.timezone;
                  lane = lane;
                  kind = kind;
                  payload = payload;
                  max_attempts = s.default_max_attempts;
                  dedup = dedup;
                } in
                let same : s.entries ++ (entry ∷ []) ≡ t.entries = ground arith in
                subst AllDistinct same (AllDistinct-snoc s.entries entry d fresh)
          ]
        ]
      ]

-- Every claim for this id is of an occurrence before this one.
unfoldable pub below : Text → ℕ → List Claim → Bool
below id t [] = true
below id t (claims other u job answer ∷ calls) = (not (other == id) || ltb u t) && below id t calls

-- The occurrences claimed for one id are in strictly increasing order; the newest stands first.
unfoldable pub is_ordered : List Claim → Bool
unfolding below
is_ordered [] = true
is_ordered (claims id t job answer ∷ calls) = below id t calls && is_ordered calls

pub below_mono :
    (id : Text) (t u : ℕ) (calls : List Claim)
    → t ≤ u
    → below id t calls ≡ true
    → below id u calls ≡ true
unfolding below
below_mono id t u [] h b = refl
below_mono id t u (claims other v job answer ∷ calls) h b =
    ground (arith, below_mono id t u calls h)
