-- ===== src/Memory/Calls.antt =====
-- crates/worklane-memory/src/lib.rs: every method that changes the broker, as one step.
use worklane.Base.{ℕ, List}
use worklane.Base.Text.{Text}
use worklane.Base.Int.{ℤ}
use worklane.Core.Envelope.{JobId, Receipt, Lane, NewJob}
use worklane.Memory.State.{InMemoryBroker}
use worklane.Memory.Ops
use worklane.Memory.Stores

-- The calls of a client, with what the clock reads and, for a reservation, the receipt drawn.
pub data Call : Type 0 where
  enqueues : NewJob → ℕ → Call
  batches : List NewJob → ℕ → Call
  reserves : Lane → ℕ → Receipt → Call
  acks : Receipt → ℕ → Call
  retries defers : Receipt → ℕ → ℕ → Call
  fails : Receipt → Text → ℕ → Call
  extends : Receipt → ℕ → Call
  requeues : JobId → ℕ → Call
  purges : Lane → Call
  schedules : Text → ℤ → NewJob → ℕ → Call
  unschedules : Text → Call

unfoldable pub step : InMemoryBroker → Call → InMemoryBroker
step b (enqueues job now) = (Ops.enqueue b job now).0
step b (batches jobs now) = (Ops.enqueue_batch b jobs now).0
step b (reserves lane now receipt) = (Ops.reserve b lane now receipt).0
step b (acks receipt now) = (Ops.ack b receipt now).0
step b (retries receipt delay now) = (Ops.retry b receipt delay now).0
step b (defers receipt delay now) = (Ops.defer b receipt delay now).0
step b (fails receipt error now) = (Ops.fail b receipt error now).0
step b (extends receipt now) = (Ops.extend b receipt now).0
step b (requeues id now) = (Stores.requeue b id now).0
step b (purges lane) = (Stores.purge_dead_letters b lane).0
step b (schedules id occurrence job now) = (Stores.enqueue_scheduled b id occurrence job now).0
step b (unschedules id) = Stores.remove_schedule b id
