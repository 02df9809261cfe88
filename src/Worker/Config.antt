-- ===== src/Worker/Config.antt =====
-- crates/worklane/src/worker/mod.rs and config.rs: the worker's configuration. Its two phases are
-- two types here: `Building` is configured and registered, `Ready` runs.
use worklane.Base.{
  ℕ, zero, suc, max, min, Bool, true, false, Option, none, some, List, [], ◌∷◌, ◌++◌, leb,
  if◌then◌else◌,
}
use worklane.Base.Text.{Text, codes, text_Eq}
use worklane.Base.Assoc.{lookup, insert}
use worklane.Core.Duration.{from_secs, saturating_mul}
use worklane.Core.Error.{Result, ok, err, registration}
use worklane.Core.Envelope.{Lane, Reservation}
use worklane.Core.Retry.{FloatOps, RetryPolicy}
use worklane.Worker.Seams.{
  Answer, Tracked, Broker, ResultStore, PayloadStore, JobObserver, Breaker, Handler, Middleware,
  Runtime,
}
use worklane.Worker.Process.{ProcessCtx}
use worklane.Worker.Run.{process}

abbrev pub default_poll_interval : ℕ
default_poll_interval = from_secs 1

pub record Settings (W F64 : Type 0) : Type 0 where
  pub broker : Broker W
  pub result_store : Option (ResultStore W)
  pub payload_store : Option (PayloadStore W)
  pub observer : Option (JobObserver W)
  pub circuit_breaker : Option (Breaker W)
  pub middleware : List (Middleware W)
  pub handlers : List (Text × Handler W)
  pub retry : RetryPolicy F64
  pub lane : Lane
  pub poll_interval : ℕ
  pub idle_backoff_cap : ℕ
  pub resilient : Bool
  pub concurrency : ℕ
  pub handler_timeout : Option ℕ
  pub lease_keepalive : Bool
  pub shutdown_timeout : Option ℕ

pub data Building (W F64 : Type 0) : Type 0 where
  building : Settings W F64 → Building W F64

pub data Ready (W F64 : Type 0) : Type 0 where
  ready : Settings W F64 → Ready W F64

-- The `for` loop of `idle_wait`.
unfoldable pub idle_loop : ℕ → ℕ → ℕ → ℕ
unfolding saturating_mul
idle_loop top zero wait = min wait top
idle_loop top (suc empties) wait =
    let rest = idle_loop top empties (saturating_mul wait 2) in if leb top wait then top else rest

module _ {W F64 : Type 0} where
  -- `Worker::new`; `no_jitter` is the float 0.0, the default policy's jitter.
  unfoldable pub new : Broker W → F64 → Building W F64
  new broker no_jitter = building record {
    broker = broker;
    result_store = none;
    payload_store = none;
    observer = none;
    circuit_breaker = none;
    middleware = [];
    handlers = [];
    retry = record { base = from_secs 1; factor = 2; cap = from_secs 60; jitter = no_jitter };
    lane = codes "default";
    poll_interval = default_poll_interval;
    idle_backoff_cap = default_poll_interval;
    resilient = false;
    concurrency = 1;
    handler_timeout = none;
    lease_keepalive = false;
    shutdown_timeout = none;
  }

  unfoldable pub build : Building W F64 → Result (Ready W F64)
  build (building s) = elim s.handlers [
    | [] ↦ err (
        registration
          (codes "worker has no registered handlers; register at least one before build()"))
    | _ ∷ _ ↦ ok (ready s)
  ]

  -- `Worker::register`: the worker comes back with the result.
  unfoldable pub register : Text → Handler W → Building W F64 → Building W F64 × Answer
  unfolding lookup insert
  register kind h (building s) = elim (lookup kind s.handlers) [
    | some _ ↦ (building s, err (registration (codes "duplicate handler for kind " ++ kind)))
    | none ↦ (building (record s { handlers = insert kind h s.handlers }), ok tt)
  ]

  unfoldable pub with_shutdown_timeout : ℕ → Building W F64 → Building W F64
  with_shutdown_timeout timeout (building s) =
      building (record s { shutdown_timeout = some timeout })

  unfoldable pub with_result_store : ResultStore W → Building W F64 → Building W F64
  with_result_store store (building s) = building (record s { result_store = some store })

  unfoldable pub with_payload_store : PayloadStore W → Building W F64 → Building W F64
  with_payload_store store (building s) = building (record s { payload_store = some store })

  unfoldable pub with_observer : JobObserver W → Building W F64 → Building W F64
  with_observer observer (building s) = building (record s { observer = some observer })

  -- The breaker that the policy makes is given.
  unfoldable pub with_circuit_breaker : Breaker W → Building W F64 → Building W F64
  with_circuit_breaker breaker (building s) = building (record s { circuit_breaker = some breaker })

  unfoldable pub with_middleware : Middleware W → Building W F64 → Building W F64
  with_middleware mw (building s) = building (record s { middleware = s.middleware ++ (mw ∷ []) })

  unfoldable pub with_retry_policy : RetryPolicy F64 → Building W F64 → Building W F64
  with_retry_policy retry (building s) = building (record s { retry = retry })

  unfoldable pub with_lane : Lane → Building W F64 → Building W F64
  with_lane lane (building s) = building (record s { lane = lane })

  unfoldable pub with_poll_interval : ℕ → Building W F64 → Building W F64
  with_poll_interval poll_interval (building s) =
      building (record s { poll_interval = poll_interval })

  unfoldable pub with_idle_backoff : ℕ → ℕ → Building W F64 → Building W F64
  with_idle_backoff base top (building s) =
      building (record s { poll_interval = base; idle_backoff_cap = max top base })

  unfoldable pub with_resilient : Bool → Building W F64 → Building W F64
  with_resilient resilient (building s) = building (record s { resilient = resilient })

  unfoldable pub with_concurrency : ℕ → Building W F64 → Building W F64
  with_concurrency concurrency (building s) =
      building (record s { concurrency = max concurrency 1 })

  unfoldable pub with_handler_timeout : ℕ → Building W F64 → Building W F64
  with_handler_timeout timeout (building s) = building (record s { handler_timeout = some timeout })

  unfoldable pub with_lease_keepalive : Bool → Building W F64 → Building W F64
  with_lease_keepalive keepalive (building s) = building (record s { lease_keepalive = keepalive })

  unfoldable pub process_ctx : Ready W F64 → ProcessCtx W F64
  process_ctx (ready s) = record {
    broker = s.broker;
    result_store = s.result_store;
    payload_store = s.payload_store;
    observer = s.observer;
    circuit_breaker = s.circuit_breaker;
    middleware = s.middleware;
    retry = s.retry;
    handler_timeout = s.handler_timeout;
    lease_keepalive = s.lease_keepalive;
  }

  unfoldable pub idle_wait : Ready W F64 → ℕ → ℕ
  unfolding idle_loop
  idle_wait (ready s) empties =
      idle_loop (max s.idle_backoff_cap s.poll_interval) empties s.poll_interval

module _ {W : Type 0} (floats : FloatOps) (runtime : Runtime W) where
  unfoldable pub process_reserved :
      Ready W floats.F64 → Reservation → Tracked W → Tracked W × Answer
  unfolding process process_ctx lookup
  process_reserved (ready s) r tracked =
      process floats runtime (process_ctx (ready s)) (lookup r.envelope.kind s.handlers) r tracked

  unfoldable pub process_next : Ready W floats.F64 → Tracked W → Tracked W × Result Bool
  unfolding process_reserved
  process_next (ready s) tracked =
      let (w, reserved) = s.broker.reserve s.lane tracked.world in
      let here = record tracked { world = w } in
      elim reserved [
        | err e ↦ (here, err e)
        | ok none ↦ (here, ok false)
        | ok (some r) ↦
            let (after, result) = process_reserved (ready s) r here in
            elim result [ ok _ ↦ (after, ok true) | err e ↦ (after, err e) ]
      ]
