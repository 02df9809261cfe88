-- ===== src/Client/FanIn.antt =====
-- crates/worklane/src/client.rs: `fan_in` and `fan_in_with_policy`. The dependencies come as the jobs
-- of their builders; the callback's context comes encoded, with the error of its encoding if it has
-- one, and `encode` writes a watcher's payload.
use worklane.Base.{List, [], ◌∷◌, ◌++◌, nat_eq, if◌then◌else◌}
use worklane.Base.Text.{Text, codes}
use worklane.Core.Error.{Error, Result, ok, err, broker, map_ok}
use worklane.Core.Envelope.{JobId, Bytes, NewJob}
use worklane.Workflow.Payload.{FanInPolicy, FanInWatcherPayload, default_policy, has}
use worklane.Workflow.Payload
use worklane.Client.State.{Act, pure, throw, lift, ◌>>=◌, ◌>>◌, Client, check_lanes}
use worklane.Client.Builder.{build_job, offload_all, submit_batch, is_keyed}

abbrev pub watcher_kind : Text
watcher_kind = codes "worklane:fan_in_watcher"

unfoldable pub keyed_error : Error
keyed_error = broker (
    codes
      "a fan-in dependency must not set a unique_key: the atomic batch enqueue could deduplicate the member away, leaving the watcher with a dependency id that was never persisted")

unfoldable pub repeated_error : JobId → Error
repeated_error id = broker (codes "a fan-in dependency id appears more than once: " ++ id)

unfoldable pub delay_error : Error
delay_error = broker (
    codes
      "FanInPolicy.poll_delay_secs must be >= 1; a zero delay would re-poll with no wait between generations")

-- The `for` loop over the dependencies, with the ids seen so far.
unfoldable pub dependency_ids : List JobId → List NewJob → Result (List JobId)
unfolding keyed_error repeated_error
dependency_ids seen [] = ok []
dependency_ids seen (job ∷ jobs) =
    let rest = dependency_ids (job.id ∷ seen) jobs in
    if is_keyed job
    then err keyed_error
    else if has job.id seen
    then err (repeated_error job.id)
    else map_ok (λ ids. job.id ∷ ids) rest

module _ {W : Type 0} (client : Client W) (fresh_id : W → W × JobId)
    (encode : FanInWatcherPayload → Result Bytes) where
  -- Once the dependencies and the watcher are made.
  unfoldable pub submit_topology : List NewJob → Act W (Unit {0})
  unfolding check_lanes offload_all submit_batch
  submit_topology batch = do
    lift (check_lanes client batch)
    offloaded ← offload_all client batch
    submit_batch client offloaded
    pure tt

  unfoldable pub fan_in_with_policy :
      Text → Text → List NewJob → Result Bytes → FanInPolicy → Act W (Unit {0})
  unfolding dependency_ids delay_error Payload.new build_job submit_topology
  fan_in_with_policy callback_kind fanin_id dependencies context policy = do
    if nat_eq policy.poll_delay_secs 0 then throw delay_error else pure tt
    dep_ids ← lift (dependency_ids [] dependencies)
    bytes ← lift context
    watcher ← lift (
        Payload.new fanin_id dep_ids client.lane callback_kind bytes client.default_max_attempts
          client.priority policy.poll_delay_secs policy.max_generations)
    watcher_job ← build_job client fresh_id watcher_kind (encode watcher)
    submit_topology (dependencies ++ (watcher_job ∷ []))

  unfoldable pub fan_in : Text → Text → List NewJob → Result Bytes → Act W (Unit {0})
  unfolding fan_in_with_policy
  fan_in callback_kind fanin_id dependencies context =
      fan_in_with_policy callback_kind fanin_id dependencies context default_policy
