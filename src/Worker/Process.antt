-- ===== src/Worker/Process.antt =====
-- crates/worklane/src/worker/execution.rs and middleware.rs: one reserved job, from its dispatch to
-- its resolution. Tracing is left out.
use worklane.Base.{
  ℕ, ◌-◌, Bool, true, false, Option, none, some, List, [], ◌∷◌, ◌++◌, ltb, if◌then◌else◌,
}
use worklane.Base.Text.{Text, codes}
use worklane.Core.Duration.{saturating_add_u32}
use worklane.Core.Error.{Error, Result, ok, err, to_string, handler, stale_reservation}
use worklane.Core.Envelope.{Receipt, Bytes, JobEnvelope}
use worklane.Core.Retry.{FloatOps, RetryPolicy, delay_for_seeded}
use worklane.Core.Redact.{redact_credentials}
use worklane.Core.ClaimCheck.{reference_key}
use worklane.Worker.Seams.{
  Answer, JobOutcome, Call, Tracked, perform, notify, Broker, ResultStore, PayloadStore,
  JobObserver, Breaker, JobContext, Panic, str, string, other, Handler, Middleware, Runtime,
}

unfoldable pub panic_message : Panic → Text
panic_message (str s) = codes "handler panicked: " ++ s
panic_message (string s) = codes "handler panicked: " ++ s
panic_message other = codes "handler panicked: handler panicked"

pub data HandlerOutcome : Type 0 where
  completed : Result Bytes → HandlerOutcome
  timed_out : ℕ → HandlerOutcome

unfoldable pub context_of : JobEnvelope → JobContext
context_of e = record {
  id = e.id;
  lane = e.lane;
  attempts = e.attempts;
  max_attempts = e.max_attempts;
  priority = e.priority;
  kind = e.kind;
  trace_context = e.trace_context;
}

pub record ProcessCtx (W F64 : Type 0) : Type 0 where
  pub broker : Broker W
  pub result_store : Option (ResultStore W)
  pub payload_store : Option (PayloadStore W)
  pub observer : Option (JobObserver W)
  pub circuit_breaker : Option (Breaker W)
  pub middleware : List (Middleware W)
  pub retry : RetryPolicy F64
  pub handler_timeout : Option ℕ
  pub lease_keepalive : Bool

-- `Next::run`.
unfoldable pub run_next : {W : Type 0} → List (Middleware W) → Handler W → Handler W
run_next [] h = h
run_next (mw ∷ rest) h = mw (run_next rest h)

abbrev pub is_some : {A : Type 0} → Option A → Bool
is_some none = false
is_some (some x) = true

abbrev pub or_zero : Option ℕ → ℕ
or_zero none = 0
or_zero (some n) = n

-- A result whose error is worth reporting: a stale rejection is not.
unfoldable pub unless_stale : Answer → Answer
unless_stale (ok tt) = ok tt
unless_stale (err (stale_reservation msg)) = ok tt
unless_stale (err e) = err e

module _ {W : Type 0} (floats : FloatOps) (runtime : Runtime W) where
  module _ (ctx : ProcessCtx W floats.F64) where
    open ctx use {broker}

    unfoldable pub record_breaker : Text → Bool → Tracked W → Tracked W
    unfolding notify
    record_breaker kind success s = elim ctx.circuit_breaker [
      | none ↦ s
      | some b ↦ notify (Call.records kind success) (b.note kind success) s
    ]

    unfoldable pub delete_payload : Bytes → Tracked W → Tracked W
    unfolding perform
    delete_payload payload s = elim (reference_key payload) [
      | none ↦ s
      | some key ↦ elim ctx.payload_store [
        | none ↦ s
        | some store ↦ (perform (λ _. Call.deletes key) (store.delete key) s).0
      ]
    ]

    unfoldable pub fetched : Bytes → Result (Option Bytes) → Result Bytes
    fetched key (err e) = err e
    fetched key (ok (some bytes)) = ok bytes
    fetched key (ok none) =
        err (handler (codes "claim-check payload " ++ (key ++ codes " is missing from the store")))

    unfoldable pub resolve_payload : Bytes → Tracked W → Tracked W × Result Bytes
    unfolding perform fetched
    resolve_payload payload s = elim (reference_key payload) [
      | none ↦ (s, ok payload)
      | some key ↦ elim ctx.payload_store [
        | none ↦ (
          s,
          err (
              handler (
                codes
                  "job payload is a claim-check reference but the worker has no payload store configured (call Worker::with_payload_store)")),
        )
        | some store ↦
            let got = perform (λ _. Call.gets key) (store.get key) s in (got.0, fetched key got.1)
      ]
    ]

    unfoldable pub report : JobEnvelope → JobOutcome → ℕ → Tracked W → Tracked W
    unfolding notify
    report e outcome started s = elim ctx.observer [
      | none ↦ s
      | some o ↦
          let (w, now) = runtime.instant_now s.world in
          notify (Call.finishes e.lane e.kind outcome (now - started))
            (o.on_job_finished e.lane e.kind outcome (now - started)) (record s { world = w })
    ]

    -- The answer of the resolution comes with the state after it.
    unfoldable pub resolve : JobEnvelope → JobOutcome → ℕ → Tracked W × Answer → Tracked W × Answer
    unfolding report unless_stale
    resolve e outcome started (s, ok tt) = (report e outcome started s, ok tt)
    resolve e outcome started (s, err error) = (s, unless_stale (err error))

    unfoldable pub handle_failure :
        JobEnvelope → Receipt → ℕ → Error → Tracked W → Tracked W × Answer
    unfolding resolve perform
    handle_failure e receipt started error s =
        let spent = saturating_add_u32 e.attempts 1 in
        let delay = delay_for_seeded floats ctx.retry e.attempts (runtime.hash_id e.id) in
        let reason = redact_credentials (to_string error) in
        let again =
          resolve e JobOutcome.retried started
            (perform (Call.retries receipt delay) (broker.retry receipt delay) s) in
        let dead =
          resolve e JobOutcome.dead_lettered started
            (perform (Call.fails receipt reason) (broker.fail receipt reason) s) in
        if ltb spent e.max_attempts then again else dead
