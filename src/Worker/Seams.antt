-- ===== src/Worker/Seams.antt =====
-- crates/worklane/src/worker: what a worker calls: the broker, the stores, the observer, the circuit
-- breaker and the runtime. `Tracked` is their world with a log of the calls that the worker makes.
use worklane.Base.{ℕ, Bool, Option}
use worklane.Base.Text.{Text}
use worklane.Base.Logged.{Logged}
use worklane.Core.Error.{Result}
use worklane.Core.Envelope.{JobId, Receipt, Lane, Bytes, TraceContext}
unfoldable pub use worklane.Base.Logged.{perform, notify}
pub use worklane.Core.Traits.{Answer, Broker, ResultStore, PayloadStore, JobObserver, JobOutcome}

pub data Call : Type 0 where
  acks : Receipt → Answer → Call
  retries : Receipt → ℕ → Answer → Call
  defers : Receipt → ℕ → Answer → Call
  fails : Receipt → Text → Answer → Call
  extends : Receipt → Answer → Call
  stores : JobId → Bytes → Call
  gets deletes : Bytes → Call
  admits : Text → Call
  records : Text → Bool → Call
  starts stops : Lane → Text → Call
  finishes : Lane → Text → JobOutcome → ℕ → Call
  dispatches : Text → Call
  cancels : Call

abbrev pub Tracked : Type 0 → Type 0
Tracked W = Logged Call W

pub record Breaker (W : Type 0) : Type 0 where
  pub admit : Text → W → W × Option ℕ
  pub note : Text → Bool → W → W

-- What a handler is told of its job; the cancellation flag is part of the world.
pub record JobContext : Type 0 where
  pub id : JobId
  pub lane : Lane
  pub attempts : ℕ
  pub max_attempts : ℕ
  pub priority : ℕ
  pub kind : Text
  pub trace_context : TraceContext

-- What a panic carries: a string literal, a `String`, or anything else.
pub data Panic : Type 0 where
  str string : Text → Panic
  other : Panic

-- How a handler's future ends.
pub data Ended : Type 0 where
  returned : Result Bytes → Ended
  panicked : Panic → Ended

abbrev pub Handler : Type 0 → Type 0
Handler W = JobContext → Bytes → W → W × Ended

-- A middleware is given the rest of the chain.
abbrev pub Middleware : Type 0 → Type 0
Middleware W = Handler W → Handler W

-- How the race of a handler's task against the deadline ends: joined, aborted, or out of time.
pub data Race : Type 0 where
  joined : Ended → Race
  aborted deadline : Race

-- The async runtime and the standard library: the race, the number of heartbeat ticks before it
-- ends, the clock, the hash of an id that seeds the jitter, and `{:?}` of a duration.
pub record Runtime (W : Type 0) : Type 0 where
  pub race : (W → W × Ended) → Option ℕ → W → W × Race
  pub ticks : ℕ → W → W × ℕ
  pub cancel : W → W
  pub instant_now : W → W × ℕ
  pub hash_id : JobId → ℕ
  pub debug_duration : ℕ → Text
