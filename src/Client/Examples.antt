-- ===== src/Client/Examples.antt =====
-- Clients over a small world, and the theorems of the client at them. The world counts the blobs that
-- were stored. The payload store mints the key `k`, and takes one blob at most.
use worklane.Base.{
  ℕ, suc, ◌≡◌, refl, subst, true, false, Option, none, some, List, [], ◌∷◌, ◌++◌, map, any, ltb,
  Bool-cases, inl, inr, ap, ◌∙◌, arith, if◌then◌else◌,
}
use worklane.Base.Text.{codes, text_eq}
use worklane.Base.Logged.{Logged}
use worklane.Core.Error.{Error, Result, ok, err}
use worklane.Core.Envelope.{JobId, Bytes, NewJob, new_job}
use worklane.Core.Lane.{default_lane}
use worklane.Core.Spi.{JobState}
use worklane.Core.Traits.{Broker, PayloadStore}
use worklane.Core.ClaimCheck.{is_utf8, make_reference, reference_key}
use worklane.Client.State.{Call, Client}
use worklane.Client.Builder.{enqueue_job, enqueue_job_to_lanes, offload_all, is_keyed}
use worklane.Client.Offload.{stored, dropped, MintsText, is_kept, enqueue_job-dropped}
use worklane.Client.Batch.{has_batch}
use worklane.Client.Lanes.{enqueue_job_to_lanes-has_batch}
use worklane.Client.FanIn.{fan_in_with_policy, watcher_kind}
use worklane.Client.Topology.{sent, ids_of, fan_in_with_policy-sent}
use worklane.Workflow.Payload.{FanInWatcherPayload, default_policy}
use worklane.Workflow.RoundTrip.{AllDistinct}

abbrev full : Error
full = Error.broker (codes "full")

abbrev put_below : ℕ → Bytes → ℕ → ℕ × Result Bytes
put_below room payload w = if ltb w room then (suc w, ok (107 ∷ [])) else (w, err full)

abbrev store : ℕ → PayloadStore ℕ
store room = record {
  put = put_below room;
  get = λ key w. (w, ok none);
  delete = λ key w. (w, ok tt);
}

-- Every enqueue is deduplicated to another job, and a batch is refused.
abbrev broker : Broker ℕ
broker = record {
  enqueue = λ job w. (w, ok (codes "other"));
  reserve = λ lane w. (w, ok none);
  ack = λ receipt w. (w, ok tt);
  retry = λ receipt delay w. (w, ok tt);
  defer = λ receipt delay w. (w, ok tt);
  fail = λ receipt reason w. (w, ok tt);
  extend = λ receipt w. (w, ok tt);
  classify = λ id w. (w, ok JobState.live);
  batch_enqueue = some (λ jobs w. (w, err full));
}

abbrev client : ℕ → Client ℕ
client room = record {
  broker = broker;
  result_store = none;
  payload_store = some (store room);
  offload_threshold = 3;
  default_max_attempts = 5;
  lane = default_lane;
  priority = 0;
  lane_registry = none;
}

-- A broker that takes batches.
abbrev accepting : Client ℕ
accepting = record (client 9) {
  broker = record broker {
    batch_enqueue = some (λ jobs w. (w, ok (map (λ (job : NewJob). job.id) jobs)));
  };
}

key-text : is_utf8 (107 ∷ []) ≡ true
unfolding is_utf8
key-text = refl

put-text :
    (room w : ℕ) (payload key : Bytes) → (put_below room payload w).1 ≡ ok key → is_utf8 key ≡ true
put-text room w payload key h = elim (Bool-cases (ltb w room)) [
  | inl free ↦
      let same : 107 ∷ [] ≡ key = ground arith in subst (λ k. is_utf8 k ≡ true) same key-text
  | inr taken ↦ absurd (ground arith)
]

abbrev putting : Option (PayloadStore ℕ) → Bytes → ℕ → Result Bytes
putting none payload w = err full
putting (some st) payload w = (st.put payload w).1

mints : (room : ℕ) → MintsText (client room)
mints room st payload w key present h =
    put-text room w payload key (ap (λ o. putting o payload w) present ∙ h)

abbrev letter : NewJob
letter = new_job (codes "job") default_lane (codes "send") (1 ∷ 2 ∷ 3 ∷ 4 ∷ []) 5

plain : reference_key letter.payload ≡ none
unfolding reference_key new_job
plain = refl

-- A fresh id is always `x`.
abbrev fresh_id : ℕ → ℕ × JobId
fresh_id w = (w, codes "x")

abbrev empty : Logged Call ℕ
empty = record { world = 0; calls = [] }

abbrev encode : FanInWatcherPayload → Result Bytes
encode payload = ok (1 ∷ 2 ∷ 3 ∷ 4 ∷ [])

refused :
    (enqueue_job_to_lanes (client 9) fresh_id letter (codes "a" ∷ codes "b" ∷ []) empty).1
    ≡ err full
unfolding enqueue_job_to_lanes new_job
refused = refl

batched :
    has_batch
      (enqueue_job_to_lanes (client 9) fresh_id letter (codes "a" ∷ codes "b" ∷ []) empty).0.calls
    ≡ true
unfolding enqueue_job_to_lanes has_batch new_job reference_key make_reference is_utf8
batched = refl

no_room :
    (enqueue_job_to_lanes (client 1) fresh_id letter (codes "a" ∷ codes "b" ∷ []) empty).1
    ≡ err full
unfolding enqueue_job_to_lanes new_job
no_room = refl

unsent :
    has_batch
      (enqueue_job_to_lanes (client 1) fresh_id letter (codes "a" ∷ codes "b" ∷ []) empty).0.calls
    ≡ false
unfolding enqueue_job_to_lanes has_batch new_job
unsent = refl

fanned_in :
    (fan_in_with_policy accepting fresh_id encode
      (codes "sum")
      (codes "f")
      (letter ∷ [])
      (ok (123 ∷ 125 ∷ []))
      default_policy
      empty).1
    ≡ ok tt
unfolding fan_in_with_policy new_job
fanned_in = refl

enqueue_job-dropped_example :
    let out = enqueue_job (client 1) letter empty in
    dropped out.0.calls ≡ (if is_kept letter.id out.1 then [] else stored out.0.calls)
enqueue_job-dropped_example = enqueue_job-dropped (client 1) letter 0 (mints 1) plain

deleted_again : dropped (enqueue_job (client 1) letter empty).0.calls ≡ (107 ∷ []) ∷ []
unfolding enqueue_job dropped new_job text_eq reference_key make_reference is_utf8
deleted_again = refl

-- A fan-out to two lanes, whose second payload finds no room: the first one stays behind.
enqueue_job_to_lanes-has_batch_example :
    dropped
      (enqueue_job_to_lanes (client 1) fresh_id letter (codes "a" ∷ codes "b" ∷ []) empty).0.calls
    ≡ []
enqueue_job_to_lanes-has_batch_example =
    enqueue_job_to_lanes-has_batch (client 1) fresh_id letter (codes "a" ∷ codes "b" ∷ []) 0 full
      (λ jobs w. (w, err full)) (mints 1) plain refl no_room unsent

left_behind :
    stored
      (enqueue_job_to_lanes (client 1) fresh_id letter (codes "a" ∷ codes "b" ∷ []) empty).0.calls
    ≡ (107 ∷ []) ∷ []
unfolding enqueue_job_to_lanes stored new_job
left_behind = refl

fan_in_with_policy-sent_example :
    let out =
      fan_in_with_policy accepting fresh_id encode
        (codes "sum")
        (codes "f")
        (letter ∷ [])
        (ok (123 ∷ 125 ∷ []))
        default_policy
        empty in
    (watcher : FanInWatcherPayload) × (last : NewJob) × (batch : List NewJob) × (sent out.0.calls
      ≡ batch ∷ [])
    × (ids_of batch ≡ watcher.dependencies ++ (last.id ∷ []))
    × (AllDistinct watcher.dependencies)
    × (any is_keyed batch ≡ false)
    × (last.kind ≡ watcher_kind)
    × (last.lane ≡ accepting.lane)
    × (last.max_attempts ≡ accepting.default_max_attempts)
    × (last.priority ≡ accepting.priority)
    × (last.delay ≡ 0)
    × (encode watcher ≡ ok last.payload)
    × ((offload_all accepting ((letter ∷ []) ++ (last ∷ [])) empty).1 ≡ ok batch)
fan_in_with_policy-sent_example =
    fan_in_with_policy-sent accepting fresh_id encode (codes "sum") (codes "f") (letter ∷ [])
      (ok (123 ∷ 125 ∷ [])) default_policy 0 tt fanned_in
