-- ===== src/Worker/Examples.antt =====
-- Workers over a small world, and the theorems of the worker at them. The world counts its calls.
use worklane.Base.{
  ℕ, suc, ◌≡◌, refl, true, false, none, some, [], ◌∷◌, ◌*◌, ◌^◌, min, max, arith, if◌then◌else◌,
  ltb,
}
use worklane.Base.Text.{codes, text_Eq}
use worklane.Core.Spi.{JobState}
use worklane.Core.Error.{ok, err, stale_reservation}
use worklane.Core.Envelope.{Reservation}
use worklane.Core.Retry.{FloatOps}
use worklane.Worker.Seams.{
  Tracked, Broker, JobObserver, Breaker, Handler, panicked, str, joined, Runtime,
}
use worklane.Worker.Process.{ProcessCtx}
use worklane.Worker.Run.{process}
use worklane.Worker.Once.{IsSettled, settled, process-IsSettled}
use worklane.Worker.Order.{in_order, has_attempt_left, process-in_order}
use worklane.Worker.Config.{Settings, ready, idle_wait}
use worklane.Worker.Idle.{idle_wait-eq}
use worklane.Worker.CircuitBreaker.{
  Sigorta, CircuitBreaker, admitted, rejected, success, failure, entry, ask_all, alone, admits,
  records, entry-ask_all,
}
use worklane.Worker.CircuitBreaker

abbrev floats : FloatOps
floats = record {
  F64 = ℕ;
  is_finite = λ _. true;
  is_positive = λ j. ltb 0 j;
  clamp_unit = λ j. min j 1;
  shorten = λ nanos j frac. nanos;
}

abbrev runtime : Runtime ℕ
runtime = record {
  race = λ h timeout w. ((h w).0, joined (h w).1);
  ticks = λ every w. (w, 1);
  cancel = suc;
  instant_now = λ w. (w, w);
  hash_id = λ id. 7;
  debug_duration = λ d. codes "1s";
}

abbrev broker : Broker ℕ
broker = record {
  enqueue = λ job w. (w, ok job.id);
  reserve = λ lane w. (w, ok none);
  ack = λ receipt w. (suc w, ok tt);
  retry = λ receipt delay w. (suc w, ok tt);
  defer = λ receipt delay w. (suc w, ok tt);
  fail = λ receipt reason w. (suc w, err (stale_reservation receipt));
  extend = λ receipt w. (suc w, ok tt);
  classify = λ id w. (w, ok JobState.live);
  batch_enqueue = none;
}

abbrev breaker : Breaker ℕ
breaker = record { admit = λ kind w. (w, none); note = λ kind success w. suc w }

abbrev observer : JobObserver ℕ
observer = record {
  on_job_started = λ lane kind w. w;
  on_job_stopped = λ lane kind w. w;
  on_job_finished = λ lane kind outcome elapsed w. w;
}

abbrev ctx : ProcessCtx ℕ ℕ
ctx = record {
  broker = broker;
  result_store = none;
  payload_store = none;
  observer = some observer;
  circuit_breaker = some breaker;
  middleware = [];
  retry = record { base = 100; factor = 2; cap = 1000; jitter = 0 };
  handler_timeout = none;
  lease_keepalive = true;
}

abbrev job : Reservation
job = record {
  envelope = record {
    id = codes "a";
    lane = codes "mail";
    kind = codes "send";
    payload = 1 ∷ [];
    attempts = 0;
    max_attempts = 3;
    priority = 0;
    trace_context = none;
  };
  receipt = codes "r";
  lease = 900;
}

abbrev panics : Handler ℕ
panics c payload w = (w, panicked (str (codes "oops")))

abbrev start : Tracked ℕ
start = record { world = 5; calls = [] }

process-IsSettled_example :
    IsSettled
      (settled start.calls)
      (settled (process floats runtime ctx (some panics) job start).0.calls)
      (process floats runtime ctx (some panics) job start).1
process-IsSettled_example = process-IsSettled floats runtime ctx (some panics) job start

process-in_order_example :
    in_order
      (has_attempt_left job.envelope)
      (process floats runtime ctx (some panics) job (record { world = 5; calls = [] })).0.calls
    ≡ true
process-in_order_example = process-in_order floats runtime ctx (some panics) job 5

abbrev settings : Settings ℕ ℕ
settings = record {
  broker = broker;
  result_store = none;
  payload_store = none;
  observer = none;
  circuit_breaker = none;
  middleware = [];
  handlers = (codes "send", panics) ∷ [];
  retry = record { base = 100; factor = 2; cap = 1000; jitter = 0 };
  lane = codes "mail";
  poll_interval = 100;
  idle_backoff_cap = 1000;
  resilient = false;
  concurrency = 1;
  handler_timeout = none;
  lease_keepalive = false;
  shutdown_timeout = none;
}

idle_wait-eq_example : idle_wait (ready settings) 4 ≡ min (100 * 2 ^ 4) (max 1000 100)
idle_wait-eq_example = idle_wait-eq settings 4 (omega arith) (omega arith)

waits_double : idle_wait (ready settings) 3 ≡ 800
unfolding idle_wait
waits_double = refl

-- A breaker that opens at its first failure.
abbrev hair_trigger : Sigorta
hair_trigger = record {
  Core = ℕ;
  new = λ threshold duration. 0;
  admit = λ core now. if ltb 0 core then rejected core 30 else admitted core;
  record_event = λ core event now. elim event [ success ↦ 0 | failure ↦ suc core ];
}

abbrev closed : CircuitBreaker ℕ
closed = record { policy = CircuitBreaker.default_policy; states = [] }

entry-ask_all_example :
    entry hair_trigger
      (ask_all hair_trigger closed
        (records (codes "a") false 1 ∷ admits (codes "b") 2 ∷ admits (codes "a") 3 ∷ []))
      (codes "b")
    ≡ alone hair_trigger
        (codes "b")
        (entry hair_trigger closed (codes "b"))
        (records (codes "a") false 1 ∷ admits (codes "b") 2 ∷ admits (codes "a") 3 ∷ [])
entry-ask_all_example =
    entry-ask_all hair_trigger closed (codes "b")
      (records (codes "a") false 1 ∷ admits (codes "b") 2 ∷ admits (codes "a") 3 ∷ [])
