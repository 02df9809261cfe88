-- ===== src/Memory/EnqueueExamples.antt =====
-- Enqueueing and schedules at concrete brokers.
use worklane.Base.{◌≡◌, refl, none, some, List, [], ◌∷◌, true, false}
use worklane.Base.Text.{codes, text_eq}
use worklane.Base.Assoc.{lookup, insert}
use worklane.Base.Int.{pos}
use worklane.Core.Error.{ok}
use worklane.Core.Envelope.{NewJob}
use worklane.Memory.State
use worklane.Memory.State.{InMemoryBroker}
use worklane.Memory.Ops.{enqueue, enqueue_batch}
use worklane.Memory.Stores.{enqueue_scheduled}
use worklane.Memory.Calls.{Call}
use worklane.Memory.Invariant.Runs.{new-Inv}
use worklane.Memory.Enqueue.{
  IsEnqueued, enqueue-IsEnqueued, all_or_nothing, enqueue_each, enqueue_batch-eq,
}
use worklane.Memory.Schedules.{run, all_kept, enqueue_scheduled-once}

abbrev job : NewJob
job = record {
  id = codes "a";
  lane = codes "mail";
  kind = codes "send";
  payload = 1 ∷ [];
  max_attempts = 5;
  delay = 0;
  unique_key = some (codes "k");
  priority = 1;
  trace_context = none;
}

one_job : InMemoryBroker
unfolding enqueue State.new lookup insert
one_job = (enqueue State.new job 3).0

accepted : enqueue State.new job 3 ≡ (one_job, ok (codes "a"))
unfolding one_job
accepted = refl

enqueue-IsEnqueued_example : IsEnqueued one_job (codes "a") job
enqueue-IsEnqueued_example = enqueue-IsEnqueued State.new one_job job 3 (codes "a") new-Inv accepted

enqueue_batch-eq_example :
    enqueue_batch State.new (job ∷ job ∷ []) 3
    ≡ all_or_nothing State.new (enqueue_each State.new (job ∷ job ∷ []) 3)
enqueue_batch-eq_example = enqueue_batch-eq State.new (job ∷ job ∷ []) 3

abbrev between : List Call
between = Call.schedules (codes "daily") (pos 9) job 4 ∷ Call.unschedules (codes "hourly") ∷ []

between_kept : all_kept (codes "daily") between ≡ true
unfolding all_kept text_eq
between_kept = refl

enqueue_scheduled-once_example :
    let c = run (enqueue_scheduled State.new (codes "daily") (pos 7) job 3).0 between in
    enqueue_scheduled c (codes "daily") (pos 7) job 5 ≡ (c, ok false)
enqueue_scheduled-once_example =
    enqueue_scheduled-once State.new (codes "daily") (pos 7) (pos 7) job job 3 5 between
      between_kept refl
