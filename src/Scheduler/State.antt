-- ===== src/Scheduler/State.antt =====
-- crates/worklane-scheduler/src/lib.rs: the scheduler, its schedules and their registration. The
-- crates cron, chrono and chrono-tz are a parameter, `Calendar`.
use worklane.Base.{
  ℕ, ◌⊎◌, inl, inr, Bool, true, false, Option, none, some, List, [], ◌∷◌, ◌++◌, ◌==◌, any,
  if◌then◌else◌,
}
use worklane.Base.Text.{Text, codes, text_Eq, debug}
use worklane.Core.Error.{Result, ok, err, broker, registration, map_ok}
use worklane.Core.Envelope.{Lane, Bytes, NewJob}
use worklane.Core.Lane.{default_lane}
use worklane.Core.Traits.{ScheduledStore}
use worklane.Client.State.{default_attempts}

-- What is parsed of a cron expression and its occurrences, and the timezones. An instant is a number
-- of nanoseconds since the Unix epoch, an occurrence a number of whole seconds since then.
-- `from_str` answers the text of its error, or a schedule; `from_timestamp` takes the seconds and the nanoseconds of an instant.
pub record Calendar (Cron Tz : Type 0) : Type 0 where
  pub from_str : Text → Text ⊎ Cron
  pub after : Cron → Tz → ℕ → Option ℕ
  pub from_timestamp : ℕ → ℕ → Option ℕ
  pub utc : Tz

pub record ScheduleEntry (Cron Tz : Type 0) : Type 0 where
  pub id : Text
  pub cron : Cron
  pub tz : Tz
  pub lane : Lane
  pub kind : Text
  pub payload : Bytes
  pub max_attempts : ℕ
  pub dedup : Bool

-- The clock tells the time since the epoch.
pub record Scheduler (W Cron Tz : Type 0) : Type 0 where
  pub store : ScheduledStore W
  pub clock : W → W × ℕ
  pub default_max_attempts : ℕ
  pub lane : Lane
  pub timezone : Tz
  pub entries : List (ScheduleEntry Cron Tz)
  pub resilient : Bool
  pub pre_dispatch : Option (NewJob → NewJob)

module _ {W Cron Tz : Type 0} (calendar : Calendar Cron Tz) (wall_clock : W → W × ℕ) where
  unfoldable pub with_scheduled_store : ScheduledStore W → Scheduler W Cron Tz
  with_scheduled_store store = record {
    store = store;
    clock = wall_clock;
    default_max_attempts = default_attempts;
    lane = default_lane;
    timezone = calendar.utc;
    entries = [];
    resilient = false;
    pre_dispatch = none;
  }

  -- `new`, for what the broker's `scheduled_store` returns.
  unfoldable pub new : Option (ScheduledStore W) → Result (Scheduler W Cron Tz)
  unfolding with_scheduled_store
  new none = err (broker (codes "broker does not support scheduled enqueue"))
  new (some store) = ok (with_scheduled_store store)

module _ {W Cron Tz : Type 0} where
  unfoldable pub with_timezone : Tz → Scheduler W Cron Tz → Scheduler W Cron Tz
  with_timezone tz s = record s { timezone = tz }

  unfoldable pub with_pre_dispatch : (NewJob → NewJob) → Scheduler W Cron Tz → Scheduler W Cron Tz
  with_pre_dispatch hook s = record s { pre_dispatch = some hook }

  unfoldable pub with_resilient : Bool → Scheduler W Cron Tz → Scheduler W Cron Tz
  with_resilient resilient s = record s { resilient = resilient }

  unfoldable pub with_clock : (W → W × ℕ) → Scheduler W Cron Tz → Scheduler W Cron Tz
  with_clock clock s = record s { clock = clock }

  unfoldable pub with_max_attempts : ℕ → Scheduler W Cron Tz → Scheduler W Cron Tz
  with_max_attempts max_attempts s = record s { default_max_attempts = max_attempts }

  unfoldable pub with_lane : Lane → Scheduler W Cron Tz → Scheduler W Cron Tz
  with_lane lane s = record s { lane = lane }

module _ {W Cron Tz : Type 0} (calendar : Calendar Cron Tz) where
  -- A payload comes encoded, with the error of its encoding if it has one.
  unfoldable pub add :
      Text
      → Text
      → Lane
      → Bool
      → Text
      → Result Bytes
      → Scheduler W Cron Tz
      → Result (Scheduler W Cron Tz)
  add id cron_expr lane dedup kind encoded s =
      if any (λ (e : ScheduleEntry Cron Tz). e.id == id) s.entries
      then err (
          registration
            (codes "a schedule with id " ++ (debug id ++ codes " is already registered")))
      else elim (calendar.from_str cron_expr) [
        | inl e ↦ err (
            registration
              (codes "invalid cron expression " ++ (debug cron_expr ++ (codes ": " ++ e))))
        | inr cron ↦
            map_ok
              (λ payload.
                let entry : ScheduleEntry Cron Tz = record {
                  id = id;
                  cron = cron;
                  tz = s.timezone;
                  lane = lane;
                  kind = kind;
                  payload = payload;
                  max_attempts = s.default_max_attempts;
                  dedup = dedup;
                } in
                record s { entries = s.entries ++ (entry ∷ []) })
              encoded
      ]

  unfoldable pub schedule :
      Text → Text → Text → Result Bytes → Scheduler W Cron Tz → Result (Scheduler W Cron Tz)
  unfolding add
  schedule id cron_expr kind encoded s = add id cron_expr s.lane false kind encoded s

  unfoldable pub schedule_to :
      Text → Text → Lane → Text → Result Bytes → Scheduler W Cron Tz → Result (Scheduler W Cron Tz)
  unfolding add
  schedule_to id cron_expr lane kind encoded s = add id cron_expr lane false kind encoded s

  unfoldable pub schedule_unique :
      Text → Text → Text → Result Bytes → Scheduler W Cron Tz → Result (Scheduler W Cron Tz)
  unfolding add
  schedule_unique id cron_expr kind encoded s = add id cron_expr s.lane true kind encoded s
