-- ===== src/Worker/Order.antt =====
-- The order of the calls that one processed job makes.
use worklane.Base.{
  ℕ, zero, suc, max, ◌/◌, ltb, ◌≡◌, refl, Bool, true, false, not, ◌&&◌, Option, none, some, List,
  [], ◌∷◌, ◌++◌, arith, inl, inr, Option-cases,
}
use worklane.Base.Text.{Text, codes}
use worklane.Core.Duration.{from_millis, saturating_add_u32}
use worklane.Core.Error.{Error, Result, ok, err, handler, Result-cases}
use worklane.Core.Envelope.{Receipt, Bytes, JobEnvelope, Reservation}
use worklane.Core.Retry.{FloatOps}
use worklane.Worker.Seams.{JobOutcome, Call, Tracked, perform, notify, Handler, Runtime}
use worklane.Worker.Process.{
  ProcessCtx, HandlerOutcome, completed, timed_out, record_breaker, delete_payload, resolve_payload,
  report, resolve, handle_failure,
}
use worklane.Worker.Run.{
  heartbeat, run_maintained, run_handler, acknowledge, fail_with, attempt_failed, conclude,
  run_fetched, attempt, admit, process_started, in_flight_new, in_flight_drop, process,
}

-- Does the log have an accepted acknowledgement, retry or failure, or a run of the handler?
unfoldable pub has_acked : List Call → Bool
has_acked [] = false
has_acked (Call.acks _ (ok _) ∷ older) = true
has_acked (_ ∷ older) = has_acked older

unfoldable pub has_retried : List Call → Bool
has_retried [] = false
has_retried (Call.retries _ _ (ok _) ∷ older) = true
has_retried (_ ∷ older) = has_retried older

unfoldable pub has_failed : List Call → Bool
has_failed [] = false
has_failed (Call.fails _ _ (ok _) ∷ older) = true
has_failed (_ ∷ older) = has_failed older

unfoldable pub has_run : List Call → Bool
has_run [] = false
has_run (Call.dispatches _ ∷ older) = true
has_run (_ ∷ older) = has_run older

-- Was the handler run, or the job deferred?
unfoldable pub has_begun : List Call → Bool
has_begun [] = false
has_begun (Call.dispatches _ ∷ older) = true
has_begun (Call.defers _ _ _ ∷ older) = true
has_begun (_ ∷ older) = has_begun older

-- May the call be made after those of the log? `may_retry` says whether an attempt is left.
unfoldable pub is_due : Bool → Call → List Call → Bool
unfolding has_acked has_retried has_failed has_run has_begun
is_due may_retry (Call.records _ true) older = has_acked older
is_due may_retry (Call.records _ false) older = has_run older
is_due may_retry (Call.deletes _) older = has_acked older
is_due may_retry (Call.finishes _ _ JobOutcome.acked _) older = has_acked older
is_due may_retry (Call.finishes _ _ JobOutcome.retried _) older = has_retried older
is_due may_retry (Call.finishes _ _ JobOutcome.dead_lettered _) older = has_failed older
is_due may_retry (Call.acks _ _) older = has_run older
is_due may_retry (Call.stores _ _) older = has_run older
is_due may_retry (Call.retries _ _ _) older = may_retry
is_due may_retry (Call.defers _ _ _) older = not (has_begun older)
is_due may_retry (Call.dispatches _) older = not (has_begun older)
is_due may_retry _ older = true

unfoldable pub in_order : Bool → List Call → Bool
unfolding is_due
in_order may_retry [] = true
in_order may_retry (call ∷ older) = is_due may_retry call older && in_order may_retry older

unfoldable pub has_attempt_left : JobEnvelope → Bool
has_attempt_left e = ltb (saturating_add_u32 e.attempts 1) e.max_attempts

module _ {W : Type 0} (floats : FloatOps) (runtime : Runtime W) where
  module _ (ctx : ProcessCtx W floats.F64) (e : JobEnvelope) where
    Ordered : Tracked W → Type 0
    Ordered s = in_order (has_attempt_left e) s.calls ≡ true

    handle_failure-Ordered :
        (receipt : Receipt) (started : ℕ) (error : Error) (s : Tracked W)
        → Ordered s
        → Ordered (handle_failure floats runtime ctx e receipt started error s).0
    unfolding Ordered has_attempt_left in_order is_due has_retried has_failed handle_failure resolve
        report notify perform
    handle_failure-Ordered receipt started error s h = ground arith

    fail_with-Ordered :
        (receipt : Receipt) (started : ℕ) (reason : Text) (s : Tracked W)
        → Ordered s
        → Ordered (fail_with floats runtime ctx e receipt started reason s).0
    unfolding Ordered in_order is_due has_failed fail_with resolve report notify perform
    fail_with-Ordered receipt started reason s h = ground arith

    acknowledge-Ordered :
        (receipt : Receipt) (started : ℕ) (s : Tracked W)
        → Ordered s
        → has_run s.calls ≡ true
        → Ordered (acknowledge floats runtime ctx e receipt started s).0
    unfolding Ordered in_order is_due has_acked has_run acknowledge resolve report notify perform
        record_breaker delete_payload
    acknowledge-Ordered receipt started s h ran = ground arith

    attempt_failed-Ordered :
        (receipt : Receipt) (started : ℕ) (error : Error) (s : Tracked W)
        → Ordered s
        → has_run s.calls ≡ true
        → Ordered (attempt_failed floats runtime ctx e receipt started error s).0
    unfolding Ordered in_order is_due attempt_failed record_breaker notify
    attempt_failed-Ordered receipt started error s h ran = ground (
      arith,
      handle_failure-Ordered receipt started error
          (record_breaker floats runtime ctx e.kind false s),
    )

    conclude-Ordered :
        (receipt : Receipt) (started : ℕ) (outcome : HandlerOutcome) (s : Tracked W)
        → Ordered s
        → has_run s.calls ≡ true
        → Ordered (conclude floats runtime ctx e receipt started outcome s).0
    unfolding Ordered in_order is_due has_run has_begun conclude perform
    conclude-Ordered receipt started (completed (ok output)) s h ran =
        elim (Option-cases ctx.result_store) [
          | inl absent ↦ ground (arith, acknowledge-Ordered receipt started s)
          | inr (st, present) ↦
              let s1 = (perform (λ _. Call.stores e.id output) (st.store e.id output) s).0 in
              elim (Result-cases (st.store e.id output s.world).1) [
                | inl (a, accepted) ↦ ground (arith, acknowledge-Ordered receipt started s1)
                | inr (error, refused) ↦
                    ground (arith, attempt_failed-Ordered receipt started error s1)
              ]
        ]
    conclude-Ordered receipt started (completed (err error)) s h ran = ground (
      arith,
      attempt_failed-Ordered receipt started error s,
      λ (reason : Text). fail_with-Ordered receipt started reason s,
    )
    conclude-Ordered receipt started (timed_out timeout) s h ran = ground (
      arith,
      attempt_failed-Ordered receipt started
          (handler (codes "handler timed out after " ++ runtime.debug_duration timeout)) s,
    )

    heartbeat-Ordered :
        (receipt : Receipt) (n : ℕ) (s : Tracked W)
        → Ordered s
        → has_begun s.calls ≡ false
        → Ordered (heartbeat floats runtime ctx receipt n s)
          × (has_begun (heartbeat floats runtime ctx receipt n s).calls ≡ false)
    unfolding Ordered in_order is_due has_run has_begun heartbeat perform notify
    heartbeat-Ordered receipt zero s h none_ran = (h, none_ran)
    heartbeat-Ordered receipt (suc n) s h none_ran = ground (
      arith,
      heartbeat-Ordered receipt n (perform (Call.extends receipt) (ctx.broker.extend receipt) s).0,
    )

    run_handler-Ordered :
        (h : Handler W) (payload : Bytes) (receipt : Receipt) (lease : ℕ) (s : Tracked W)
        → Ordered s
        → has_begun s.calls ≡ false
        → Ordered (run_handler floats runtime ctx h e payload receipt lease s).0
          × (has_run (run_handler floats runtime ctx h e payload receipt lease s).0.calls ≡ true)
    unfolding Ordered in_order is_due has_run has_begun run_handler run_maintained perform notify
    run_handler-Ordered h payload receipt lease s ordered none_ran =
        let beat = runtime.ticks (max (lease / 3) (from_millis 50)) s.world in
        ground
          (arith, heartbeat-Ordered receipt beat.1 (record { world = beat.0; calls = s.calls }))

    resolve_payload-Ordered :
        (payload : Bytes) (s : Tracked W)
        → Ordered s
        → has_begun s.calls ≡ false
        → Ordered (resolve_payload floats runtime ctx payload s).0
          × (has_begun (resolve_payload floats runtime ctx payload s).0.calls ≡ false)
    unfolding Ordered in_order is_due has_run has_begun resolve_payload perform
    resolve_payload-Ordered payload s ordered none_ran = ground arith

    run_fetched-Ordered :
        (h : Handler W) (r : Reservation) (started : ℕ) (s : Tracked W) (payload : Result Bytes)
        → r.envelope ≡ e
        → Ordered s
        → has_begun s.calls ≡ false
        → Ordered (run_fetched floats runtime ctx h r started (s, payload)).0
    unfolding run_fetched
    run_fetched-Ordered h r started s (err error) same ordered none_ran =
        ground (arith, handle_failure-Ordered r.receipt started error s)
    run_fetched-Ordered h r started s (ok bytes) same ordered none_ran =
        let out = run_handler floats runtime ctx h e bytes r.receipt r.lease s in
        ground (
          arith,
          run_handler-Ordered h bytes r.receipt r.lease s ordered none_ran,
          conclude-Ordered r.receipt started out.1 out.0,
        )

  module _ (ctx : ProcessCtx W floats.F64) where
    process_started-Ordered :
        (handler_of : Option (Handler W)) (r : Reservation) (started : ℕ) (s : Tracked W)
        → in_order (has_attempt_left r.envelope) s.calls ≡ true
        → has_begun s.calls ≡ false
        → in_order
            (has_attempt_left r.envelope)
            (process_started floats runtime ctx handler_of r started s).0.calls
          ≡ true
    unfolding process_started attempt admit perform in_order is_due has_run has_begun Ordered
    process_started-Ordered none r started s ordered none_ran =
        fail_with-Ordered ctx r.envelope r.receipt started
          (codes "unknown job kind: " ++ r.envelope.kind) s ordered
    process_started-Ordered (some h) r started s ordered none_ran =
        let s1 = (admit floats runtime ctx r.envelope s).0 in
        let got = resolve_payload floats runtime ctx r.envelope.payload s1 in
        ground (
          arith,
          resolve_payload-Ordered ctx r.envelope r.envelope.payload s1,
          run_fetched-Ordered ctx r.envelope h r started got.0 got.1 refl,
        )

    -- The calls that processing one reserved job makes come in order: the handler runs at most
    -- once, and never for a job that is deferred; a result is stored and a job acknowledged only
    -- after the handler ran; the breaker is credited, the payload's blob deleted and the job
    -- reported as acknowledged only after an acknowledgement that the broker accepted; the breaker
    -- is told of a failure only after a run; a retry is asked for only while an attempt is left;
    -- and a job is reported as retried or dead-lettered only after the broker accepted that.
    pub process-in_order :
        (handler_of : Option (Handler W)) (r : Reservation) (w : W)
        → in_order
            (has_attempt_left r.envelope)
            (process floats runtime ctx handler_of r (record { world = w; calls = [] })).0.calls
          ≡ true
    unfolding process in_flight_new in_flight_drop notify in_order is_due has_run has_begun
    process-in_order handler_of r w0 =
        let (w, started) = runtime.instant_now w0 in
        let s1 = in_flight_new floats runtime ctx r.envelope (record { world = w; calls = [] }) in
        ground (arith, process_started-Ordered handler_of r started s1)
