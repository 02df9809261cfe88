-- ===== src/Core/Envelope.antt =====
-- crates/worklane-core/src/envelope.rs and id.rs: a job before and after it is stored. An
-- identifier or a receipt is a UUID, given by its canonical text; where the code draws a new one,
-- the model takes it as an argument.
use worklane.Base.{ℕ, Option, none, some, List}
use worklane.Base.Text.{Text}

abbrev pub JobId : Type 0
JobId = Text

abbrev pub Receipt : Type 0
Receipt = Text

abbrev pub Lane : Type 0
Lane = Text

abbrev pub Bytes : Type 0
Bytes = List ℕ

abbrev pub TraceContext : Type 0
TraceContext = Option (List (Text × Text))

pub record NewJob : Type 0 where
  pub id : JobId
  pub lane : Lane
  pub kind : Text
  pub payload : Bytes
  pub max_attempts : ℕ
  pub delay : ℕ
  pub unique_key : Option Text
  pub priority : ℕ
  pub trace_context : TraceContext

pub record JobEnvelope : Type 0 where
  pub id : JobId
  pub lane : Lane
  pub kind : Text
  pub payload : Bytes
  pub attempts : ℕ
  pub max_attempts : ℕ
  pub priority : ℕ
  pub trace_context : TraceContext

pub record Reservation : Type 0 where
  pub envelope : JobEnvelope
  pub receipt : Receipt
  pub lease : ℕ

pub record DeadLetter : Type 0 where
  pub envelope : JobEnvelope
  pub error : Text

-- `NewJob::new`, with the fresh id as an argument.
unfoldable pub new_job : JobId → Lane → Text → Bytes → ℕ → NewJob
new_job id lane kind payload max_attempts = record {
  id = id;
  lane = lane;
  kind = kind;
  payload = payload;
  max_attempts = max_attempts;
  delay = 0;
  unique_key = none;
  priority = 0;
  trace_context = none;
}

-- The builder methods of `NewJob`.
unfoldable pub with_delay : ℕ → NewJob → NewJob
with_delay delay job = record job { delay = delay }

unfoldable pub with_unique_key : Text → NewJob → NewJob
with_unique_key key job = record job { unique_key = some key }

unfoldable pub with_priority : ℕ → NewJob → NewJob
with_priority priority job = record job { priority = priority }

unfoldable pub with_trace_context : List (Text × Text) → NewJob → NewJob
with_trace_context trace_context job = record job { trace_context = some trace_context }

-- `JobEnvelope::new`.
unfoldable pub new_envelope : JobId → Lane → Text → Bytes → ℕ → ℕ → TraceContext → JobEnvelope
new_envelope id lane kind payload max_attempts priority trace_context = record {
  id = id;
  lane = lane;
  kind = kind;
  payload = payload;
  attempts = 0;
  max_attempts = max_attempts;
  priority = priority;
  trace_context = trace_context;
}

unfoldable pub into_envelope : NewJob → JobEnvelope
unfolding new_envelope
into_envelope j =
    new_envelope j.id j.lane j.kind j.payload j.max_attempts j.priority j.trace_context
