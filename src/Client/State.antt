-- ===== src/Client/State.antt =====
-- crates/worklane/src/client.rs: the client, what it calls, and its checks before a job is submitted.
use worklane.Base.{
  ℕ, ◌*◌, ◌==◌, Bool, true, Option, none, some, List, [], ◌∷◌, ◌++◌, length, ltb, if◌then◌else◌,
}
use worklane.Base.Text.{codes, text_Eq}
use worklane.Base.Logged.{Logged, perform}
use worklane.Core.Duration.{decimal}
use worklane.Core.Error.{
  Error, Result, ok, err, serialization, unknown_lane, unsupported_capability,
}
use worklane.Core.Envelope.{JobId, Lane, Bytes, NewJob}
use worklane.Core.Spi.{JobState, max_envelope_bytes}
use worklane.Core.Traits.{Broker, ResultStore, PayloadStore}
use worklane.Core.ClaimCheck.{make_reference, reference_key}
use worklane.Core.Lane.{LaneRegistry, contains_lane, default_lane}

pub data Call : Type 0 where
  puts : Result Bytes → Call
  deletes : Bytes → Call
  enqueues : NewJob → Result JobId → Call
  batches : List NewJob → Result (List JobId) → Call
  classifies : JobId → Result JobState → Call
  reads : JobId → Call

-- An action of the client: it changes the world, and may fail. The changes stay when it does.
abbrev pub Act : Type 0 → Type 0 → Type 0
Act W A = Logged Call W → Logged Call W × Result A

module _ {W : Type 0} where
  abbrev pub pure : {A : Type 0} → A → Act W A
  pure a s = (s, ok a)

  abbrev pub throw : {A : Type 0} → Error → Act W A
  throw e s = (s, err e)

  -- `result?`.
  abbrev pub lift : {A : Type 0} → Result A → Act W A
  lift r s = (s, r)

  abbrev pub and_then : {A B : Type 0} → Result A → (A → Act W B) → Act W B
  and_then (ok a) f s = f a s
  and_then (err e) f s = (s, err e)

  infixl 5 ◌>>=◌ ◌>>◌
  abbrev pub ◌>>=◌ : {A B : Type 0} → Act W A → (A → Act W B) → Act W B
  ◌>>=◌ m f s = and_then (m s).1 f (m s).0

  abbrev pub ◌>>◌ : {A B : Type 0} → Act W A → Act W B → Act W B
  m >> n = m >>= λ _. n

pub record Client (W : Type 0) : Type 0 where
  pub broker : Broker W
  pub result_store : Option (ResultStore W)
  pub payload_store : Option (PayloadStore W)
  pub offload_threshold : ℕ
  pub default_max_attempts : ℕ
  pub lane : Lane
  pub priority : ℕ
  pub lane_registry : Option LaneRegistry

abbrev pub default_offload_threshold : ℕ
default_offload_threshold = 64 * 1024

abbrev pub default_attempts : ℕ
default_attempts = 5

module _ {W : Type 0} where
  unfoldable pub new : Broker W → Client W
  new broker = record {
    broker = broker;
    result_store = none;
    payload_store = none;
    offload_threshold = default_offload_threshold;
    default_max_attempts = default_attempts;
    lane = default_lane;
    priority = 0;
    lane_registry = none;
  }

  unfoldable pub with_result_store : ResultStore W → Client W → Client W
  with_result_store store c = record c { result_store = some store }

  unfoldable pub with_payload_store : PayloadStore W → Client W → Client W
  with_payload_store store c = record c { payload_store = some store }

  unfoldable pub with_offload_threshold : ℕ → Client W → Client W
  with_offload_threshold threshold c = record c { offload_threshold = threshold }

  unfoldable pub with_max_attempts : ℕ → Client W → Client W
  with_max_attempts max_attempts c = record c { default_max_attempts = max_attempts }

  unfoldable pub with_lane : Lane → Client W → Client W
  with_lane lane c = record c { lane = lane }

  unfoldable pub with_priority : ℕ → Client W → Client W
  with_priority priority c = record c { priority = priority }

  unfoldable pub with_lane_registry : LaneRegistry → Client W → Client W
  with_lane_registry registry c = record c { lane_registry = some registry }

module _ {W : Type 0} (client : Client W) where
  open client use {broker, payload_store, offload_threshold, lane_registry}

  unfoldable pub is_known : Lane → Bool
  is_known lane = elim lane_registry [ none ↦ true | some registry ↦ contains_lane registry lane ]

  unfoldable pub check_lane : Lane → Result (Unit {0})
  unfolding is_known
  check_lane lane = if is_known lane then ok tt else err (unknown_lane lane)

  -- The `for` loop over the jobs of a batch.
  unfoldable pub check_lanes : List NewJob → Result (Unit {0})
  unfolding check_lane
  check_lanes [] = ok tt
  check_lanes (job ∷ jobs) =
      let rest = check_lanes jobs in elim (check_lane job.lane) [ ok _ ↦ rest | err e ↦ err e ]

  unfoldable pub inline_or_reject : Bytes → Act W Bytes
  inline_or_reject payload =
      if ltb max_envelope_bytes (length payload)
      then throw (
          serialization (
            codes "job payload is "
            ++ (decimal (length payload)
                ++ (codes " bytes, over the "
                    ++ (decimal max_envelope_bytes
                        ++ codes
                            "-byte inline limit; configure a PayloadStore to offload large payloads")))))
      else pure payload

  unfoldable pub maybe_offload : Bytes → Act W Bytes
  unfolding inline_or_reject perform
  maybe_offload payload = elim payload_store [
    | none ↦ inline_or_reject payload
    | some store ↦
        if ltb offload_threshold (length payload)
        then (do key ← perform Call.puts (store.put payload); pure (make_reference key))
        else inline_or_reject payload
  ]

  -- A failed deletion is logged and ignored.
  unfoldable pub cleanup_offload : Bytes → Logged Call W → Logged Call W
  unfolding perform
  cleanup_offload payload s = elim payload_store [
    | none ↦ s
    | some store ↦ elim (reference_key payload) [
      | none ↦ s
      | some key ↦ (perform (λ _. Call.deletes key) (store.delete key) s).0
    ]
  ]

  unfoldable pub cleanup_deduped_offload : JobId → JobId → Bytes → Logged Call W → Logged Call W
  unfolding cleanup_offload
  cleanup_deduped_offload submitted returned payload s =
      if submitted == returned then s else cleanup_offload payload s

  unfoldable pub cleanup_offloads : List (JobId × Bytes) → Logged Call W → Logged Call W
  unfolding cleanup_offload
  cleanup_offloads [] s = s
  cleanup_offloads (entry ∷ rest) s = cleanup_offloads rest (cleanup_offload entry.1 s)

  unfoldable pub enqueue_batch : List NewJob → Act W (List JobId)
  unfolding perform
  enqueue_batch jobs = elim broker.batch_enqueue [
    | none ↦ throw (unsupported_capability (codes "batch enqueue"))
    | some cap ↦ perform (Call.batches jobs) (cap jobs)
  ]
