-- ===== src/Client/Builder.antt =====
-- crates/worklane/src/client_builder.rs, and the methods of client.rs that go through it: one job,
-- one job to many lanes, and reading a result. A payload comes encoded, with the error of its
-- encoding if it has one; `fresh_id` draws a job's id.
use worklane.Base.{
  ℕ, Bool, true, false, ◌&&◌, Option, none, some, List, [], ◌∷◌, length, ltb, map, if◌then◌else◌,
}
use worklane.Base.Text.{Text, codes}
use worklane.Base.Logged.{Logged, perform, quietly}
use worklane.Core.Error.{Error, Result, ok, err, broker, result_store}
use worklane.Core.Envelope.{JobId, Lane, Bytes, NewJob, new_job}
use worklane.Core.Spi.{JobState}
use worklane.Client.State.{
  Act, pure, throw, lift, ◌>>=◌, ◌>>◌, Call, Client, check_lane, check_lanes, maybe_offload,
  cleanup_offload, cleanup_deduped_offload, cleanup_offloads, enqueue_batch,
}

unfoldable pub with_lane : Lane → NewJob → NewJob
with_lane lane job = record job { lane = lane }

unfoldable pub with_delay : ℕ → NewJob → NewJob
with_delay delay job = record job { delay = delay }

unfoldable pub with_unique_key : Text → NewJob → NewJob
with_unique_key key job = record job { unique_key = some key }

unfoldable pub with_priority : ℕ → NewJob → NewJob
with_priority priority job = record job { priority = priority }

abbrev pub is_keyed : NewJob → Bool
is_keyed job = elim job.unique_key [ none ↦ false | some _ ↦ true ]

abbrev pub entry_of : NewJob → JobId × Bytes
entry_of job = (job.id, job.payload)

module _ {W : Type 0} (client : Client W) where
  -- `JobBuilder::enqueue` after the payload is offloaded.
  unfoldable pub submit : NewJob → Act W JobId
  unfolding perform cleanup_offload cleanup_deduped_offload
  submit job s =
      let (s1, answer) = perform (Call.enqueues job) (client.broker.enqueue job) s in
      elim answer [
        | ok returned ↦ (cleanup_deduped_offload client job.id returned job.payload s1, ok returned)
        | err e ↦ (cleanup_offload client job.payload s1, err e)
      ]

  unfoldable pub enqueue_job : NewJob → Act W JobId
  unfolding check_lane maybe_offload submit
  enqueue_job job = do
    lift (check_lane client job.lane)
    payload ← maybe_offload client job.payload
    submit (record job { payload = payload })

  -- The `for` loop that offloads the payloads of a batch.
  unfoldable pub offload_all : List NewJob → Act W (List NewJob)
  unfolding maybe_offload
  offload_all [] = pure []
  offload_all (job ∷ jobs) = do
    payload ← maybe_offload client job.payload
    others ← offload_all jobs
    pure (record job { payload = payload } ∷ others)

  -- The `for` loop over the ids that a batch came back with.
  unfoldable pub cleanup_deduped : List NewJob → List JobId → Logged Call W → Logged Call W
  unfolding cleanup_deduped_offload
  cleanup_deduped [] ids s = s
  cleanup_deduped (job ∷ jobs) [] s = s
  cleanup_deduped (job ∷ jobs) (id ∷ ids) s =
      cleanup_deduped jobs ids (cleanup_deduped_offload client job.id id job.payload s)

  -- A batch, with the cleanup of its blobs if it is refused.
  unfoldable pub submit_batch : List NewJob → Act W (List JobId)
  unfolding enqueue_batch cleanup_offloads
  submit_batch jobs s =
      let (s1, answer) = enqueue_batch client jobs s in
      elim answer [
        | ok returned ↦ (s1, ok returned)
        | err e ↦ (cleanup_offloads client (map entry_of jobs) s1, err e)
      ]

  unfoldable pub submit_lanes : List NewJob → Act W (List JobId)
  unfolding submit_batch cleanup_deduped
  submit_lanes jobs = do
    returned ← submit_batch jobs
    λ s. (cleanup_deduped jobs returned s, ok returned)

  -- `get_result`, with the decoder of the output.
  unfoldable pub get_result : {T : Type 0} → (Bytes → Result T) → JobId → Act W (Option T)
  unfolding perform
  get_result from_payload id = elim client.result_store [
    | none ↦ throw (result_store (codes "no result store configured"))
    | some store ↦ do
      state ← perform (Call.classifies id) (client.broker.classify id)
      elim state [
        | JobState.completed_or_unknown ↦ do
          found ← perform (λ _. Call.reads id) (store.get id)
          elim found [
            | none ↦ pure none
            | some bytes ↦ do value ← lift (from_payload bytes); pure (some value)
          ]
        | _ ↦ pure none
      ]
  ]

  module _ (fresh_id : W → W × JobId) where
    unfoldable pub draw_id : Act W JobId
    unfolding quietly
    draw_id s = let (s1, id) = quietly fresh_id s in (s1, ok id)

    unfoldable pub build_job : Text → Result Bytes → Act W NewJob
    unfolding draw_id new_job with_priority
    build_job kind encoded = do
      bytes ← lift encoded
      id ← draw_id
      pure (
          with_priority client.priority
            (new_job id client.lane kind bytes client.default_max_attempts))

    -- The jobs that `enqueue_to_lanes` makes of one, each with an id of its own.
    unfoldable pub one_per_lane : NewJob → List Lane → Act W (List NewJob)
    unfolding draw_id
    one_per_lane job [] = pure []
    one_per_lane job (lane ∷ lanes) = do
      id ← draw_id
      others ← one_per_lane job lanes
      pure (record job { id = id; lane = lane } ∷ others)

    unfoldable pub shared_key_error : Error
    shared_key_error = broker (
        codes
          "a unique_key cannot be combined with multi-lane fan-out: the shared key would deduplicate the per-lane jobs down to one; enqueue per lane instead")

    unfoldable pub enqueue_job_to_lanes : NewJob → List Lane → Act W (List JobId)
    unfolding one_per_lane check_lanes offload_all submit_lanes
    enqueue_job_to_lanes job lanes = do
      jobs ← one_per_lane job lanes
      lift (check_lanes client jobs)
      if is_keyed job && ltb 1 (length jobs) then throw shared_key_error else pure tt
      offloaded ← offload_all jobs
      submit_lanes offloaded

    unfoldable pub enqueue_inner : Text → Result Bytes → Lane → ℕ → Option Text → Act W JobId
    unfolding build_job with_lane with_delay with_unique_key enqueue_job
    enqueue_inner kind encoded lane delay unique_key = do
      built ← build_job kind encoded
      let job = with_delay delay (with_lane lane built)
      enqueue_job (elim unique_key [ none ↦ job | some key ↦ with_unique_key key job ])

    unfoldable pub enqueue_to : Text → Result Bytes → Lane → Act W JobId
    unfolding enqueue_inner
    enqueue_to kind encoded lane = enqueue_inner kind encoded lane 0 none

    unfoldable pub enqueue : Text → Result Bytes → Act W JobId
    unfolding enqueue_to
    enqueue kind encoded = enqueue_to kind encoded client.lane

    unfoldable pub enqueue_to_lanes : Text → Result Bytes → List Lane → Act W (List JobId)
    unfolding build_job enqueue_job_to_lanes
    enqueue_to_lanes kind encoded lanes = do
      job ← build_job kind encoded
      enqueue_job_to_lanes job lanes

    unfoldable pub enqueue_in : Text → Result Bytes → ℕ → Act W JobId
    unfolding enqueue_inner
    enqueue_in kind encoded delay = enqueue_inner kind encoded client.lane delay none

    unfoldable pub enqueue_unique : Text → Result Bytes → Text → Act W JobId
    unfolding enqueue_inner
    enqueue_unique kind encoded key = enqueue_inner kind encoded client.lane 0 (some key)
