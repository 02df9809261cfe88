-- ===== src/Sqlite/Calls.antt =====
-- crates/worklane-sqlite: the calls that change the database, and runs of them.
use worklane.Base.{ℕ, Bool, true, false, Option, List, [], ◌∷◌}
use worklane.Base.Int.{ℤ}
use worklane.Base.Text.{Text}
use worklane.Core.Codec.{Json}
use worklane.Core.Envelope.{JobId, Receipt, Lane, Bytes, NewJob}
use worklane.Sqlite.Broker
use worklane.Sqlite.Broker.{SqliteBroker}
use worklane.Sqlite.Session.{Session, Sql, pure, ◌>>=◌, empty_database}
use worklane.Sqlite.Stores

pub data Call : Type 0 where
  enqueue : NewJob → Call
  enqueue_batch : List NewJob → Call
  reserve : Lane → Receipt → Call
  ack : Receipt → Call
  retry : Receipt → ℕ → Call
  defer : Receipt → ℕ → Call
  fail : Receipt → Text → Call
  extend : Receipt → Call
  requeue : JobId → Call
  purge_dead_letters : Lane → Call
  enqueue_scheduled : Text → ℤ → NewJob → Call
  remove_schedule : Text → Call
  store : JobId → Bytes → Call

abbrev pub is_reserve : Call → Bool
is_reserve (reserve lane receipt) = true
is_reserve _ = false

abbrev pub discard : {A : Type 0} → Sql A → Sql (Unit {0})
discard m = m >>= λ _. pure tt

module _ (json : Json) (b : SqliteBroker) (now : ℕ) where
  unfoldable pub issue : Call → Sql (Unit {0})
  issue (enqueue job) = discard (Broker.enqueue json job now)
  issue (enqueue_batch jobs) = discard (Broker.enqueue_batch json jobs now)
  issue (reserve lane receipt) = discard (Broker.reserve json b lane now receipt)
  issue (ack receipt) = Broker.ack json receipt now
  issue (retry receipt delay) = Broker.retry json receipt delay now
  issue (defer receipt delay) = Broker.defer json receipt delay now
  issue (fail receipt error) = Broker.fail json b receipt error now
  issue (extend receipt) = Broker.extend json b receipt now
  issue (requeue id) = Stores.requeue json id now
  issue (purge_dead_letters lane) = discard (Stores.purge_dead_letters lane)
  issue (enqueue_scheduled id occurrence job) =
      discard (Stores.enqueue_scheduled json id occurrence job now)
  issue (remove_schedule id) = Stores.remove_schedule id
  issue (store id blob) = Stores.store id blob

-- A run from a session, each call at its own time, failed calls included.
abbrev pub issue_all : Json → SqliteBroker → List (ℕ × Call) → Session → Session
issue_all json b [] s = s
issue_all json b ((now, c) ∷ rest) s = issue_all json b rest (issue json b now c s).0

-- A new database, with what the driver will answer.
abbrev pub opened : List (Option Text) → Session
opened answers = record { db = empty_database; answers = answers; warned = false }
