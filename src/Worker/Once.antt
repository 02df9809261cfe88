-- ===== src/Worker/Once.antt =====
-- Each processed job is resolved once, and what the worker reports of it follows that resolution.
use worklane.Base.{
  ℕ, zero, suc, max, ◌/◌, ◌≡◌, refl, Bool, false, Option, none, some, List, [], ◌∷◌, ◌++◌, arith,
}
use worklane.Base.Text.{Text, codes}
use worklane.Core.Duration.{from_millis}
use worklane.Core.Error.{Error, Result, ok, err}
use worklane.Core.Envelope.{Receipt, Bytes, JobEnvelope, Reservation}
use worklane.Core.Retry.{FloatOps}
use worklane.Worker.Seams.{Answer, JobOutcome, Call, Tracked, perform, notify, Handler, Runtime}
use worklane.Worker.Process.{
  ProcessCtx, HandlerOutcome, unless_stale, record_breaker, delete_payload, resolve_payload, report,
  resolve, handle_failure,
}
use worklane.Worker.Run.{
  heartbeat, run_maintained, run_handler, acknowledge, fail_with, attempt_failed, conclude,
  run_fetched, attempt, admit, process_started, in_flight_new, in_flight_drop, process,
}

-- The answers of the resolutions in a log, the newest first.
unfoldable pub settled : List Call → List Answer
settled [] = []
settled (Call.acks _ a ∷ calls) = a ∷ settled calls
settled (Call.retries _ _ a ∷ calls) = a ∷ settled calls
settled (Call.defers _ _ a ∷ calls) = a ∷ settled calls
settled (Call.fails _ _ a ∷ calls) = a ∷ settled calls
settled (_ ∷ calls) = settled calls

abbrev pub newest : List Answer → Answer
newest [] = ok tt
newest (a ∷ older) = a

-- One more resolution than before, and the result is its answer, a stale rejection aside.
abbrev pub IsSettled : List Answer → List Answer → Answer → Type 0
IsSettled before after result =
    (after ≡ newest after ∷ before) × (result ≡ unless_stale (newest after))

module _ {W : Type 0} (floats : FloatOps) (runtime : Runtime W) where
  module _ (ctx : ProcessCtx W floats.F64) where
    record_breaker-settled :
        (kind : Text) (success : Bool) (s : Tracked W)
        → settled (record_breaker floats runtime ctx kind success s).calls ≡ settled s.calls
    unfolding settled record_breaker notify
    record_breaker-settled kind success s = ground arith

    delete_payload-settled :
        (payload : Bytes) (s : Tracked W)
        → settled (delete_payload floats runtime ctx payload s).calls ≡ settled s.calls
    unfolding settled delete_payload perform
    delete_payload-settled payload s = ground arith

    resolve_payload-settled :
        (payload : Bytes) (s : Tracked W)
        → settled (resolve_payload floats runtime ctx payload s).0.calls ≡ settled s.calls
    unfolding settled resolve_payload perform
    resolve_payload-settled payload s = ground arith

    heartbeat-settled :
        (receipt : Receipt) (n : ℕ) (s : Tracked W)
        → settled (heartbeat floats runtime ctx receipt n s).calls ≡ settled s.calls
    unfolding settled heartbeat perform notify
    heartbeat-settled receipt zero s = refl
    heartbeat-settled receipt (suc n) s = ground (
      arith,
      heartbeat-settled receipt n (perform (Call.extends receipt) (ctx.broker.extend receipt) s).0,
    )

    resolve-IsSettled :
        (e : JobEnvelope) (outcome : JobOutcome) (started : ℕ) (before : List Answer)
        (s : Tracked W) (answer : Answer)
        → settled s.calls ≡ answer ∷ before
        → IsSettled before
            (settled (resolve floats runtime ctx e outcome started (s, answer)).0.calls)
            (resolve floats runtime ctx e outcome started (s, answer)).1
    unfolding settled resolve report notify unless_stale
    resolve-IsSettled e outcome started before s (ok tt) h = ground arith
    resolve-IsSettled e outcome started before s (err error) h = ground arith

    run_handler-settled :
        (h : Handler W) (e : JobEnvelope) (payload : Bytes) (receipt : Receipt) (lease : ℕ)
        (s : Tracked W)
        → settled (run_handler floats runtime ctx h e payload receipt lease s).0.calls
          ≡ settled s.calls
    unfolding settled run_handler run_maintained perform notify
    run_handler-settled h e payload receipt lease s =
        let beat = runtime.ticks (max (lease / 3) (from_millis 50)) s.world in
        ground
          (arith, heartbeat-settled receipt beat.1 (record { world = beat.0; calls = s.calls }))

    handle_failure-IsSettled :
        (e : JobEnvelope) (receipt : Receipt) (started : ℕ) (error : Error) (s : Tracked W)
        → IsSettled
            (settled s.calls)
            (settled (handle_failure floats runtime ctx e receipt started error s).0.calls)
            (handle_failure floats runtime ctx e receipt started error s).1
    unfolding handle_failure resolve report notify unless_stale perform settled
    handle_failure-IsSettled e receipt started error s = ground arith

    fail_with-IsSettled :
        (e : JobEnvelope) (receipt : Receipt) (started : ℕ) (reason : Text) (s : Tracked W)
        → IsSettled
            (settled s.calls)
            (settled (fail_with floats runtime ctx e receipt started reason s).0.calls)
            (fail_with floats runtime ctx e receipt started reason s).1
    unfolding fail_with resolve report notify unless_stale perform settled
    fail_with-IsSettled e receipt started reason s = ground arith

    acknowledge-IsSettled :
        (e : JobEnvelope) (receipt : Receipt) (started : ℕ) (s : Tracked W)
        → IsSettled
            (settled s.calls)
            (settled (acknowledge floats runtime ctx e receipt started s).0.calls)
            (acknowledge floats runtime ctx e receipt started s).1
    unfolding acknowledge resolve report notify unless_stale perform settled record_breaker
        delete_payload
    acknowledge-IsSettled e receipt started s = ground arith

    attempt_failed-IsSettled :
        (e : JobEnvelope) (receipt : Receipt) (started : ℕ) (error : Error) (s : Tracked W)
        → IsSettled
            (settled s.calls)
            (settled (attempt_failed floats runtime ctx e receipt started error s).0.calls)
            (attempt_failed floats runtime ctx e receipt started error s).1
    unfolding attempt_failed
    attempt_failed-IsSettled e receipt started error s = ground (
      arith,
      record_breaker-settled e.kind false s,
      handle_failure-IsSettled e receipt started error
          (record_breaker floats runtime ctx e.kind false s),
    )

    conclude-IsSettled :
        (e : JobEnvelope) (receipt : Receipt) (started : ℕ) (outcome : HandlerOutcome)
        (s : Tracked W)
        → IsSettled
            (settled s.calls)
            (settled (conclude floats runtime ctx e receipt started outcome s).0.calls)
            (conclude floats runtime ctx e receipt started outcome s).1
    unfolding conclude perform settled
    conclude-IsSettled e receipt started outcome s = ground (
      arith,
      λ (t : Tracked W). acknowledge-IsSettled e receipt started t,
      λ (error : Error) (t : Tracked W). attempt_failed-IsSettled e receipt started error t,
      λ (reason : Text). fail_with-IsSettled e receipt started reason s,
    )

    run_fetched-IsSettled :
        (h : Handler W) (reservation : Reservation) (started : ℕ) (s : Tracked W)
        (payload : Result Bytes)
        → IsSettled
            (settled s.calls)
            (settled (run_fetched floats runtime ctx h reservation started (s, payload)).0.calls)
            (run_fetched floats runtime ctx h reservation started (s, payload)).1
    unfolding run_fetched
    run_fetched-IsSettled h r started s (err error) =
        handle_failure-IsSettled r.envelope r.receipt started error s
    run_fetched-IsSettled h r started s (ok bytes) =
        let out = run_handler floats runtime ctx h r.envelope bytes r.receipt r.lease s in
        ground (
          arith,
          run_handler-settled h r.envelope bytes r.receipt r.lease s,
          conclude-IsSettled r.envelope r.receipt started out.1 out.0,
        )

    process_started-IsSettled :
        (handler_of : Option (Handler W)) (reservation : Reservation) (started : ℕ) (s : Tracked W)
        → IsSettled
            (settled s.calls)
            (settled (process_started floats runtime ctx handler_of reservation started s).0.calls)
            (process_started floats runtime ctx handler_of reservation started s).1
    unfolding process_started attempt admit perform settled unless_stale
    process_started-IsSettled none r started s =
        fail_with-IsSettled r.envelope r.receipt started
          (codes "unknown job kind: " ++ r.envelope.kind) s
    process_started-IsSettled (some h) r started s =
        let s1 = (admit floats runtime ctx r.envelope s).0 in
        let got = resolve_payload floats runtime ctx r.envelope.payload s1 in
        ground (
          arith,
          resolve_payload-settled r.envelope.payload s1,
          run_fetched-IsSettled h r started got.0 got.1,
        )

    -- Processing a reserved job makes exactly one resolving call (ack, retry, defer or fail) of
    -- the broker, whatever the handler, the stores and the broker do, and `process` fails only
    -- with that call's error, and not if the call was rejected as stale.
    pub process-IsSettled :
        (handler_of : Option (Handler W)) (reservation : Reservation) (s : Tracked W)
        → IsSettled
            (settled s.calls)
            (settled (process floats runtime ctx handler_of reservation s).0.calls)
            (process floats runtime ctx handler_of reservation s).1
    unfolding process in_flight_new in_flight_drop notify settled
    process-IsSettled handler_of r s =
        let (w, started) = runtime.instant_now s.world in
        let s1 =
          in_flight_new floats runtime ctx r.envelope (record { world = w; calls = s.calls }) in
        ground (arith, process_started-IsSettled handler_of r started s1)
