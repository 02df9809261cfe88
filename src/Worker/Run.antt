-- ===== src/Worker/Run.antt =====
-- crates/worklane/src/worker/execution.rs: `run_maintained` and `process`, and the dispatcher of a
-- registered job (mod.rs). The heartbeat's ticks come before the race that they run beside, and
-- the runtime says how many there are.
use worklane.Base.{
  ℕ, zero, suc, ◌/◌, max, true, false, ◌||◌, Option, none, some, ◌++◌, if◌then◌else◌,
}
use worklane.Base.Text.{Text, codes}
use worklane.Core.Duration.{from_millis}
use worklane.Core.Error.{Error, Result, ok, err, to_string, serialization, handler, output_encode}
use worklane.Core.Envelope.{Receipt, Bytes, JobEnvelope, Reservation}
use worklane.Core.Retry.{FloatOps}
use worklane.Core.Redact.{redact_credentials}
use worklane.Worker.Seams.{
  Answer, JobOutcome, Call, Tracked, perform, notify, JobContext, Panic, Ended, returned, panicked,
  Handler, joined, aborted, deadline, Runtime,
}
use worklane.Worker.Process.{
  ProcessCtx, HandlerOutcome, completed, timed_out, panic_message, context_of, run_next, is_some,
  or_zero, unless_stale, record_breaker, delete_payload, resolve_payload, resolve, handle_failure,
}

-- How the body of a job ends: with its output, with an error of its own, or in a panic.
pub data JobEnd (Output : Type 0) : Type 0 where
  done : Output → JobEnd Output
  failed : Text → JobEnd Output
  unwound : Panic → JobEnd Output

-- `JobDispatcher::dispatch`, over the payload's decoder and the output's encoder.
unfoldable pub dispatch :
    {W Payload Output : Type 0}
    → (Bytes → Result Payload)
    → (Output → Result Bytes)
    → (JobContext → Payload → W → W × JobEnd Output)
    → Handler W
unfolding to_string
dispatch from_payload to_payload run c bytes w = elim (from_payload bytes) [
  | err e ↦ (w, returned (err e))
  | ok payload ↦
      let (w1, end) = run c payload w in
      elim end [
        | failed msg ↦ (w1, returned (err (handler msg)))
        | unwound p ↦ (w1, panicked p)
        | done output ↦ elim (to_payload output) [
          | ok encoded ↦ (w1, returned (ok encoded))
          | err e ↦ (w1, returned (err (output_encode (to_string e))))
        ]
      ]
]

-- An unwinding handler is a failed one.
unfoldable pub caught : Ended → Result Bytes
unfolding panic_message
caught (returned r) = r
caught (panicked p) = err (handler (panic_message p))

module _ {W : Type 0} (floats : FloatOps) (runtime : Runtime W) where
  module _ (ctx : ProcessCtx W floats.F64) where
    open ctx use {broker, handler_timeout, lease_keepalive, result_store, circuit_breaker}

    -- The first tick whose extension is refused is the last one.
    unfoldable pub heartbeat : Receipt → ℕ → Tracked W → Tracked W
    unfolding perform notify
    heartbeat receipt zero s = s
    heartbeat receipt (suc n) s =
        let (s1, answer) = perform (Call.extends receipt) (broker.extend receipt) s in
        elim answer [
          | ok _ ↦ heartbeat receipt n s1
          | err _ ↦ notify Call.cancels runtime.cancel s1
        ]

    unfoldable pub run_maintained :
        Text → (W → W × Ended) → Receipt → ℕ → Tracked W → Tracked W × HandlerOutcome
    unfolding heartbeat perform notify caught
    run_maintained kind h receipt lease s =
        let (w, n) = runtime.ticks (max (lease / 3) (from_millis 50)) s.world in
        let s1 = heartbeat receipt n (record s { world = w }) in
        let (s2, race) = perform (λ _. Call.dispatches kind) (runtime.race h handler_timeout) s1 in
        elim race [
          | joined ended ↦ (s2, completed (caught ended))
          | aborted ↦ (s2, completed (err (handler (codes "handler task ended without a result"))))
          | deadline ↦ (notify Call.cancels runtime.cancel s2, timed_out (or_zero handler_timeout))
        ]

    unfoldable pub run_handler :
        Handler W → JobEnvelope → Bytes → Receipt → ℕ → Tracked W → Tracked W × HandlerOutcome
    unfolding run_maintained run_next perform caught context_of
    run_handler h e payload receipt lease s =
        let chain = run_next ctx.middleware h (context_of e) payload in
        if is_some handler_timeout || lease_keepalive
        then run_maintained e.kind chain receipt lease s
        else (let (s1, ended) = perform (λ _. Call.dispatches e.kind) chain s in
            (s1, completed (caught ended)))

    -- The tail of a success: the acknowledgement, and what follows only if it is accepted.
    unfoldable pub acknowledge : JobEnvelope → Receipt → ℕ → Tracked W → Tracked W × Answer
    unfolding perform record_breaker delete_payload resolve
    acknowledge e receipt started s =
        let (s1, acked) = perform (Call.acks receipt) (broker.ack receipt) s in
        elim acked [
          | ok tt ↦ resolve floats runtime ctx e JobOutcome.acked started (
            delete_payload floats runtime ctx e.payload
                (record_breaker floats runtime ctx e.kind true s1),
            ok tt,
          )
          | err error ↦ resolve floats runtime ctx e JobOutcome.acked started (s1, err error)
        ]

    unfoldable pub fail_with : JobEnvelope → Receipt → ℕ → Text → Tracked W → Tracked W × Answer
    unfolding perform resolve
    fail_with e receipt started reason s =
        resolve floats runtime ctx e JobOutcome.dead_lettered started
          (perform (Call.fails receipt reason) (broker.fail receipt reason) s)

    -- A failed attempt: the breaker learns of it.
    unfoldable pub attempt_failed :
        JobEnvelope → Receipt → ℕ → Error → Tracked W → Tracked W × Answer
    unfolding record_breaker handle_failure
    attempt_failed e receipt started error s =
        handle_failure floats runtime ctx e receipt started error
          (record_breaker floats runtime ctx e.kind false s)

    unfoldable pub conclude :
        JobEnvelope → Receipt → ℕ → HandlerOutcome → Tracked W → Tracked W × Answer
    unfolding acknowledge fail_with attempt_failed perform
    conclude e receipt started (completed (ok output)) s = elim result_store [
      | none ↦ acknowledge e receipt started s
      | some st ↦
          let (s1, stored) = perform (λ _. Call.stores e.id output) (st.store e.id output) s in
          elim stored [
            | ok _ ↦ acknowledge e receipt started s1
            | err error ↦ attempt_failed e receipt started error s1
          ]
    ]
    conclude e receipt started (completed (err (serialization msg))) s =
        fail_with e receipt started (redact_credentials (codes "serialization error: " ++ msg)) s
    conclude e receipt started (completed (err error)) s = attempt_failed e receipt started error s
    conclude e receipt started (timed_out timeout) s =
        attempt_failed e receipt started
          (handler (codes "handler timed out after " ++ runtime.debug_duration timeout)) s

    -- The rest of an admitted job, once its payload is fetched.
    unfoldable pub run_fetched :
        Handler W → Reservation → ℕ → Tracked W × Result Bytes → Tracked W × Answer
    unfolding run_handler conclude handle_failure
    run_fetched h reservation started (s, err error) =
        handle_failure floats runtime ctx envelope receipt started error s
      where
        open reservation use {envelope, receipt}
    run_fetched h reservation started (s, ok bytes) =
        let (s1, outcome) = run_handler h envelope bytes receipt lease s in
        conclude envelope receipt started outcome s1
      where
        open reservation use {envelope, receipt, lease}

    unfoldable pub attempt : Handler W → Reservation → ℕ → Tracked W → Tracked W × Answer
    unfolding resolve_payload run_fetched
    attempt h reservation started s =
        run_fetched h reservation started
          (resolve_payload floats runtime ctx reservation.envelope.payload s)

    unfoldable pub admit : JobEnvelope → Tracked W → Tracked W × Option ℕ
    unfolding perform
    admit e s = elim circuit_breaker [
      | none ↦ (s, none)
      | some b ↦ perform (λ _. Call.admits e.kind) (b.admit e.kind) s
    ]

    unfoldable pub process_started :
        Option (Handler W) → Reservation → ℕ → Tracked W → Tracked W × Answer
    unfolding fail_with admit attempt perform unless_stale
    process_started none reservation started s =
        fail_with envelope reservation.receipt started (codes "unknown job kind: " ++ envelope.kind)
          s
      where
        open reservation use {envelope}
    process_started (some h) reservation started s =
        let (s1, admitted) = admit reservation.envelope s in
        elim admitted [
          | none ↦ attempt h reservation started s1
          | some delay ↦
              let (s2, answer) =
                perform (Call.defers reservation.receipt delay)
                  (broker.defer reservation.receipt delay) s1 in
              (s2, unless_stale answer)
        ]

    unfoldable pub in_flight_new : JobEnvelope → Tracked W → Tracked W
    unfolding notify
    in_flight_new e s = elim ctx.observer [
      | none ↦ s
      | some o ↦ notify (Call.starts e.lane e.kind) (o.on_job_started e.lane e.kind) s
    ]

    unfoldable pub in_flight_drop : JobEnvelope → Tracked W → Tracked W
    unfolding notify
    in_flight_drop e s = elim ctx.observer [
      | none ↦ s
      | some o ↦ notify (Call.stops e.lane e.kind) (o.on_job_stopped e.lane e.kind) s
    ]

    unfoldable pub process : Option (Handler W) → Reservation → Tracked W → Tracked W × Answer
    unfolding process_started in_flight_new in_flight_drop
    process handler_of reservation s =
        let (w, started) = runtime.instant_now s.world in
        let s1 = in_flight_new reservation.envelope (record s { world = w }) in
        let (s2, answer) = process_started handler_of reservation started s1 in
        (in_flight_drop reservation.envelope s2, answer)
