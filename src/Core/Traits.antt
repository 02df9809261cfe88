-- ===== src/Core/Traits.antt =====
-- crates/worklane-core: the traits that the backends implement. They act on a world `W` of their
-- own, which also takes in what other tasks do between two calls.
use worklane.Base.{ℕ, Bool, Option, List}
use worklane.Base.Text.{Text}
use worklane.Base.Int.{ℤ}
use worklane.Core.Error.{Result}
use worklane.Core.Envelope.{JobId, Receipt, Lane, Bytes, NewJob, Reservation}
use worklane.Core.Spi.{JobState}

abbrev pub Answer : Type 0
Answer = Result (Unit {0})

-- `Broker`, with the `BatchEnqueue` capability that it may have.
pub record Broker (W : Type 0) : Type 0 where
  pub enqueue : NewJob → W → W × Result JobId
  pub reserve : Lane → W → W × Result (Option Reservation)
  pub ack : Receipt → W → W × Answer
  pub retry : Receipt → ℕ → W → W × Answer
  pub defer : Receipt → ℕ → W → W × Answer
  pub extend : Receipt → W → W × Answer
  pub fail : Receipt → Text → W → W × Answer
  pub classify : JobId → W → W × Result JobState
  pub batch_enqueue : Option (List NewJob → W → W × Result (List JobId))

pub record ScheduledStore (W : Type 0) : Type 0 where
  pub enqueue_scheduled : Text → ℤ → NewJob → W → W × Result Bool
  pub remove_schedule : Text → W → W × Answer

pub record ResultStore (W : Type 0) : Type 0 where
  pub store : JobId → Bytes → W → W × Answer
  pub get : JobId → W → W × Result (Option Bytes)

pub record PayloadStore (W : Type 0) : Type 0 where
  pub put : Bytes → W → W × Result Bytes
  pub get : Bytes → W → W × Result (Option Bytes)
  pub delete : Bytes → W → W × Answer

pub data JobOutcome : Type 0 where
  acked retried dead_lettered : JobOutcome

pub record JobObserver (W : Type 0) : Type 0 where
  pub on_job_started : Lane → Text → W → W
  pub on_job_stopped : Lane → Text → W → W
  pub on_job_finished : Lane → Text → JobOutcome → ℕ → W → W
