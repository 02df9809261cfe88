-- ===== src/Workflow/Watcher.antt =====
-- crates/worklane/src/workflow.rs: the watcher of a fan-in, and the continuations of a sequence. The
-- crate lengkap, which decides over an assembly, is a parameter, and so is the JSON of payloads.
use worklane.Base.{
  ℕ, none, some, List, [], ◌∷◌, ◌++◌, length, leb, nat_eq, get_elem?, not, if◌then◌else◌,
}
use worklane.Base.Text.{Text, codes}
use worklane.Base.Logged.{Logged, perform}
use worklane.Core.Duration.{decimal, saturating_add_u32}
use worklane.Core.Error.{Error, Result, ok, err, map_ok}
use worklane.Core.Envelope.{JobId, Lane, Bytes, NewJob, new_job}
use worklane.Core.Lane.{Validated, valid, rejected, validated}
use worklane.Core.Spi.{JobState}
use worklane.Core.Traits.{ResultStore}
use worklane.Client.State.{
  Act, Call, Client, check_lane, maybe_offload, cleanup_offload, enqueue_batch,
}
use worklane.Client.Builder.{
  build_job, draw_id, enqueue_inner, with_lane, with_unique_key, with_priority,
}
use worklane.Client.FanIn.{watcher_kind}
use worklane.Workflow.Payload.{FanInWatcherPayload, Complaint, validate, lane_error_text}
use worklane.Workflow.Slots.{Slots, restore, checkpoint}

pub data FanInImpossible : Type 0 where
  dead_lettered missing_result : JobId → FanInImpossible

pub data Finding : Type 0 where
  produced : Bytes → Finding
  impossible : FanInImpossible → Finding

-- What lengkap decides: not yet, the outputs in the order of the slots, or never.
pub data Decision (A : Type 0) : Type 0 where
  pending : A → Decision A
  ready : List Bytes → Decision A
  never : FanInImpossible → Decision A
  inconsistent : Text → Decision A

-- lengkap's `Assembly<Vec<u8>>`. `inconsistent` stands for an error of `adjudicate`.
pub record Lengkap (A : Type 0) : Type 0 where
  pub from_slots : Slots → A
  pub into_slots : A → Slots
  pub unresolved_slots : A → List ℕ
  pub adjudicate : A → List (ℕ × Finding) → Decision A

pub data HandlerError : Type 0 where
  message : Text → HandlerError
  raised : Error → HandlerError
  index_panic : HandlerError

pub data Ending (T : Type 0) : Type 0 where
  done : T → Ending T
  failed : HandlerError → Ending T

abbrev pub ending : {T : Type 0} → Result T → Ending T
ending (ok t) = done t
ending (err e) = failed (raised e)

-- A part of the handler: it changes the world, and may end the handler.
abbrev pub Step : Type 0 → Type 0 → Type 0
Step W T = Logged Call W → Logged Call W × Ending T

module _ {W : Type 0} where
  abbrev pub pure : {T : Type 0} → T → Step W T
  pure t s = (s, done t)

  abbrev pub stop_with : {T : Type 0} → HandlerError → Step W T
  stop_with e s = (s, failed e)

  abbrev pub and_then : {T U : Type 0} → Ending T → (T → Step W U) → Step W U
  and_then (done t) f s = f t s
  and_then (failed e) f s = (s, failed e)

  infixl 5 ◌>>=◌ ◌>>◌
  abbrev pub ◌>>=◌ : {T U : Type 0} → Step W T → (T → Step W U) → Step W U
  ◌>>=◌ m f s = and_then (m s).1 f (m s).0

  abbrev pub ◌>>◌ : {T U : Type 0} → Step W T → Step W U → Step W U
  m >> n = m >>= λ _. n

  -- `action.await?`.
  abbrev pub ask : {T : Type 0} → Act W T → Step W T
  ask act s = ((act s).0, ending (act s).1)

  -- `result?`.
  abbrev pub try : {T : Type 0} → Result T → Step W T
  try r s = (s, ending r)

-- The watcher's own key for a generation, and the callback's.
unfoldable pub generation_key : Text → ℕ → Text
generation_key fanin_id generation = codes "fiw:" ++ (fanin_id ++ (codes ":" ++ decimal generation))

unfoldable pub callback_key : Text → Text
callback_key fanin_id = codes "fanin:" ++ (fanin_id ++ codes ":callback")

unfoldable pub impossible_text : Text → FanInImpossible → Text
impossible_text fanin_id (dead_lettered dep) =
    codes "Fan-in "
    ++ (fanin_id ++ (codes " cannot complete: dependency " ++ (dep ++ codes " was dead-lettered")))
impossible_text fanin_id (missing_result dep) =
    codes "Fan-in "
    ++ (fanin_id
        ++ (codes " cannot aggregate: dependency "
            ++ (dep
                ++ codes
                    " completed but its result was evicted before capture (increase the result TTL)")))

module _ {W : Type 0} (client : Client W) (fresh_id : W → W × JobId) where
  -- `build_continuation`, for a job whose context has this id and lane.
  unfoldable pub build_continuation : JobId → Lane → Text → Result Bytes → Act W NewJob
  unfolding build_job with_lane with_unique_key
  build_continuation id lane kind encoded s =
      let (s1, built) = build_job client fresh_id kind encoded s in
      (
        s1,
        map_ok
            (λ job.
              with_unique_key (codes "sequence:" ++ (id ++ (codes ":" ++ kind)))
                (with_lane lane job))
            built,
      )

  unfoldable pub build_continuation_keyed : Text → Text → Result Bytes → Act W NewJob
  unfolding build_job with_unique_key
  build_continuation_keyed key kind encoded s =
      let (s1, built) = build_job client fresh_id kind encoded s in
      (s1, map_ok (with_unique_key key) built)

module _ {W A : Type 0} (client : Client W) (results : ResultStore W) (lengkap : Lengkap A) where
  -- The `for` loop over the unresolved slots.
  unfoldable pub discover : List JobId → List ℕ → Step W (List (ℕ × Finding))
  unfolding perform
  discover dependencies [] = pure []
  discover dependencies (slot ∷ slots) = elim (get_elem? dependencies slot) [
    | none ↦ stop_with index_panic
    | some dep ↦ do
      state ← ask (perform (Call.classifies dep) (client.broker.classify dep))
      elim state [
        | JobState.dead_lettered ↦ pure ((slot, impossible (dead_lettered dep)) ∷ [])
        | JobState.live ↦ discover dependencies slots
        | JobState.completed_or_unknown ↦ do
          found ← ask (perform (λ _. Call.reads dep) (results.get dep))
          elim found [
            | none ↦ pure ((slot, impossible (missing_result dep)) ∷ [])
            | some bytes ↦ do
              others ← discover dependencies slots
              pure ((slot, produced bytes) ∷ others)
          ]
      ]
  ]

  abbrev pub accept : Complaint → Step W (Unit {0})
  accept none = pure tt
  accept (some text) = stop_with (message text)

  -- Up to the decision.
  unfoldable pub poll : FanInWatcherPayload → Step W (Decision A)
  unfolding validate restore discover
  poll payload = do
    accept (validate payload)
    slots ← try (restore payload.dependencies payload.collected)
    let assembly = lengkap.from_slots slots
    findings ← discover payload.dependencies (lengkap.unresolved_slots assembly)
    pure (lengkap.adjudicate assembly findings)

  -- The payload of the next generation.
  unfoldable pub next_payload : FanInWatcherPayload → A → Result FanInWatcherPayload
  unfolding checkpoint saturating_add_u32
  next_payload payload assembly =
      map_ok
        (λ collected. record payload {
          generation = saturating_add_u32 payload.generation 1;
          collected = collected;
        })
        (checkpoint payload.dependencies payload.collected (lengkap.into_slots assembly))

  module _ (fresh_id : W → W × JobId) (encode : FanInWatcherPayload → Result Bytes) where
    unfoldable pub reschedule : Lane → FanInWatcherPayload → A → Step W (Unit {0})
    unfolding next_payload generation_key enqueue_inner
    reschedule lane payload assembly =
        if leb payload.max_generations payload.generation
        then stop_with (
            message (
              codes "Fan-in "
              ++ (payload.fanin_id
                  ++ (codes " exceeded max generations ("
                      ++ (decimal payload.max_generations ++ codes ")")))))
        else (do
          next ← try (next_payload payload assembly)
          ask (
              enqueue_inner client fresh_id watcher_kind (encode next) lane payload.poll_delay_secs
                (some (generation_key payload.fanin_id next.generation)))
          pure tt)

    abbrev pub parsed : Validated → Step W Lane
    parsed (valid lane) = pure lane
    parsed (rejected e) = stop_with (message (lane_error_text e))

    -- The enqueue of the callback, with the cleanup of its blob.
    unfoldable pub submit_callback : NewJob → Step W (Unit {0})
    unfolding enqueue_batch cleanup_offload
    submit_callback job s =
        let (s1, answer) = enqueue_batch client (job ∷ []) s in
        elim answer [
          | ok _ ↦ (s1, done tt)
          | err e ↦ (cleanup_offload client job.payload s1, failed (raised e))
        ]

    module _ (fan_in_results_payload : Bytes → List Bytes → Result Bytes) where
      unfoldable pub deliver : FanInWatcherPayload → List Bytes → Step W (Unit {0})
      unfolding validated check_lane maybe_offload draw_id new_job with_unique_key with_priority
          submit_callback callback_key
      deliver payload outputs =
          if not (nat_eq (length outputs) (length payload.dependencies))
          then stop_with (
              message (
                codes "fan-in "
                ++ (payload.fanin_id
                    ++ (codes " internal inconsistency: ready result count "
                        ++ (decimal (length outputs)
                            ++ (codes " differs from dependency count "
                                ++ decimal (length payload.dependencies)))))))
          else (do
            spliced ← try (fan_in_results_payload payload.callback_payload outputs)
            lane ← parsed (validated payload.callback_lane)
            try (check_lane client lane)
            offloaded ← ask (maybe_offload client spliced)
            id ← ask (draw_id client fresh_id)
            submit_callback (
                with_priority payload.callback_priority (
                  with_unique_key (callback_key payload.fanin_id) (
                    new_job id lane payload.callback_kind offloaded
                      payload.callback_max_attempts))))

      -- `FanInWatcherJob::run`, for a context on this lane.
      unfoldable pub run : Lane → FanInWatcherPayload → Step W (Unit {0})
      unfolding poll reschedule impossible_text deliver
      run lane payload = do
        decision ← poll payload
        elim decision [
          | pending assembly ↦ reschedule lane payload assembly
          | ready outputs ↦ deliver payload outputs
          | never cause ↦ stop_with (message (impossible_text payload.fanin_id cause))
          | inconsistent why ↦ stop_with (
              message (
                codes "fan-in "
                ++ (payload.fanin_id ++ (codes " internal adjudication inconsistency: " ++ why))))
        ]
