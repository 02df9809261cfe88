-- ===== src/Client/Topology.antt =====
-- What a fan-in sends to the broker.
use worklane.Base.{
  ℕ, ◌≡◌, refl, sym, subst, true, false, ◌||◌, List, [], ◌∷◌, ◌++◌, map, any, ◌==◌, ==_iff, ==_refl,
  nat_eq, arith, Bool-cases, Option-cases, inl, inr,
}
use worklane.Base.Text.{Text, text_Eq}
use worklane.Base.Logged.{Logged, perform, quietly}
use worklane.Core.Error.{Result, ok, Result-cases}
use worklane.Core.Envelope.{JobId, Bytes, NewJob, new_job}
use worklane.Client.State.{
  Call, Client, check_lanes, maybe_offload, inline_or_reject, cleanup_offload, cleanup_offloads,
  enqueue_batch,
}
use worklane.Client.Builder.{
  build_job, draw_id, offload_all, submit_batch, is_keyed, entry_of, with_priority,
}
use worklane.Client.FanIn.{dependency_ids, fan_in_with_policy, watcher_kind, submit_topology}
use worklane.Workflow.Payload.{FanInPolicy, FanInWatcherPayload, has}
use worklane.Workflow.Payload
use worklane.Workflow.RoundTrip.{AllDistinct}

-- What was sent to the broker, call by call, a single job as a batch of one; the newest stands
-- first.
unfoldable pub sent : List Call → List (List NewJob)
sent [] = []
sent (Call.batches jobs answer ∷ calls) = jobs ∷ sent calls
sent (Call.enqueues job answer ∷ calls) = (job ∷ []) ∷ sent calls
sent (_ ∷ calls) = sent calls

abbrev pub ids_of : List NewJob → List JobId
ids_of jobs = map (λ (job : NewJob). job.id) jobs

-- The accepted dependencies: their ids in order, none twice, and no job with a key.
dependency_ids_lem :
    (seen : List JobId) (jobs : List NewJob) (ids : List JobId)
    → dependency_ids seen jobs ≡ ok ids
    → (ids_of jobs ≡ ids)
      × (any is_keyed jobs ≡ false)
      × AllDistinct ids
      × ((id : JobId) → has id seen ≡ true → has id ids ≡ false)
unfolding dependency_ids
dependency_ids_lem seen [] ids h =
    let e : [] ≡ ids = ground arith in (e, refl, subst AllDistinct e tt, λ id there. ground arith)
dependency_ids_lem seen (job ∷ jobs) ids h =
    elim (Result-cases (dependency_ids (job.id ∷ seen) jobs)) [
      | inr (x, bad) ↦ absurd (ground arith)
      | inl (rest, good) ↦
          let (same, plain, distinct, fresh) = dependency_ids_lem (job.id ∷ seen) jobs rest good in
          let new : has job.id seen ≡ false = ground arith in
          let e : job.id ∷ rest ≡ ids = ground arith in
          (
            ground (arith, same),
            ground (arith, plain),
            subst AllDistinct e (fresh job.id (ground (arith, ==_refl job.id)), distinct),
            λ id there. elim (Bool-cases (job.id == id)) [
              | inl equal ↦ absurd (ground (arith, (==_iff job.id id).0 equal, new, there))
              | inr differ ↦ ground (arith, e, differ, fresh id)
            ],
          )
    ]

new_lem :
    (fanin_id : Text) (deps : List JobId) (lane kind : Text) (payload : Bytes)
    (attempts priority delay generations : ℕ) (watcher : FanInWatcherPayload)
    → Payload.new fanin_id deps lane kind payload attempts priority delay generations ≡ ok watcher
    → watcher.dependencies ≡ deps
unfolding Payload.new
new_lem fanin_id [] lane kind payload attempts priority delay generations watcher h =
    absurd (ground arith)
new_lem fanin_id (d ∷ deps) lane kind payload attempts priority delay generations watcher h =
    ground arith

module _ {W : Type 0} (client : Client W) where
  -- Offloading keeps everything but the payloads, and sends nothing.
  maybe_offload-sent :
      (payload : Bytes) (s : Logged Call W)
      → sent (maybe_offload client payload s).0.calls ≡ sent s.calls
  unfolding maybe_offload inline_or_reject perform sent
  maybe_offload-sent payload s = ground arith

  offload_all-sent :
      (jobs : List NewJob) (s : Logged Call W)
      → let out = offload_all client jobs s in
        (sent out.0.calls ≡ sent s.calls)
        × ((batch : List NewJob)
            → out.1 ≡ ok batch
            → (ids_of batch ≡ ids_of jobs) × (any is_keyed batch ≡ any is_keyed jobs))
  unfolding offload_all
  offload_all-sent [] s = (refl, λ batch h. ground arith)
  offload_all-sent (job ∷ jobs) s =
      let first = maybe_offload client job.payload s in
      let one = maybe_offload-sent job.payload s in
      let (rest, others) = offload_all-sent jobs first.0 in
      elim (Result-cases first.1) [
        | inr (x, failed) ↦ (ground (arith, one), λ batch h. absurd (ground arith))
        | inl (payload, done) ↦ elim (Result-cases (offload_all client jobs first.0).1) [
          | inr (x, failed) ↦ (ground (arith, one, rest), λ batch h. absurd (ground arith))
          | inl (more, also) ↦
              (ground (arith, one, rest), λ batch h. ground (arith, others more also))
        ]
      ]

  cleanup_offloads-sent :
      (jobs : List NewJob) (s : Logged Call W)
      → sent (cleanup_offloads client (map entry_of jobs) s).calls ≡ sent s.calls
  unfolding cleanup_offloads cleanup_offload perform sent
  cleanup_offloads-sent [] s = refl
  cleanup_offloads-sent (job ∷ jobs) s =
      ground (arith, cleanup_offloads-sent jobs (cleanup_offload client job.payload s))

  submit_batch-sent :
      (jobs : List NewJob) (ids : List JobId) (s : Logged Call W)
      → (submit_batch client jobs s).1 ≡ ok ids
      → sent (submit_batch client jobs s).0.calls ≡ jobs ∷ sent s.calls
  unfolding submit_batch enqueue_batch perform sent
  submit_batch-sent jobs ids s h = elim (Option-cases client.broker.batch_enqueue) [
    | inl absent ↦ absurd (ground arith)
    | inr (cap, present) ↦ ground arith
  ]

  snoc_ids :
      (jobs : List NewJob) (job : NewJob)
      → (ids_of (jobs ++ (job ∷ [])) ≡ ids_of jobs ++ (job.id ∷ []))
        × (any is_keyed (jobs ++ (job ∷ [])) ≡ any is_keyed jobs || is_keyed job)
  snoc_ids [] job = (refl, ground arith)
  snoc_ids (j ∷ jobs) job = ground (arith, snoc_ids jobs job)

  submit_topology-sent :
      (fresh_id : W → W × JobId) (encode : FanInWatcherPayload → Result Bytes) (jobs : List NewJob)
      (s : Logged Call W) (t : Unit {0})
      → let out = submit_topology client fresh_id encode jobs s in
        out.1 ≡ ok t
        → (batch : List NewJob) × (sent out.0.calls ≡ batch ∷ sent s.calls)
          × (ids_of batch ≡ ids_of jobs)
          × (any is_keyed batch ≡ any is_keyed jobs)
          × ((offload_all client jobs s).1 ≡ ok batch)
  unfolding submit_topology
  submit_topology-sent fresh_id encode jobs s t h = elim (Result-cases (check_lanes client jobs)) [
    | inr (x, bad) ↦ absurd (ground arith)
    | inl (u, known) ↦
        let stored = offload_all client jobs s in
        let (none_yet, kept) = offload_all-sent jobs s in
        elim (Result-cases stored.1) [
          | inr (x, bad) ↦ absurd (ground arith)
          | inl (batch, good) ↦ elim (Result-cases (submit_batch client batch stored.0).1) [
            | inr (x, bad) ↦ absurd (ground arith)
            | inl (ids, taken) ↦
                let (same, plain) = kept batch good in
                (
                  batch,
                  ground (arith, none_yet, submit_batch-sent batch ids stored.0 taken),
                  same,
                  plain,
                  good,
                )
          ]
        ]
  ]

  -- A fan-in that succeeds has sent one batch, and no other batch or single job: the dependencies
  -- in order, then the watcher. The watcher is of the watcher's kind, on the lane, with the
  -- attempts and the priority of the client, and without a delay. Its payload names just the ids
  -- of the jobs before it, none of them twice, and no job of the batch has a unique key that could
  -- deduplicate it away; the payloads may be offloaded.
  pub fan_in_with_policy-sent :
      (fresh_id : W → W × JobId) (encode : FanInWatcherPayload → Result Bytes)
      (callback_kind fanin_id : Text) (deps : List NewJob) (context : Result Bytes)
      (policy : FanInPolicy) (w : W) (t : Unit {0})
      → let out =
          fan_in_with_policy client fresh_id encode callback_kind fanin_id deps context policy
            (record { world = w; calls = [] }) in
        out.1 ≡ ok t
        → (watcher : FanInWatcherPayload) × (job : NewJob) × (batch : List NewJob) × (sent
              out.0.calls
            ≡ batch ∷ [])
          × (ids_of batch ≡ watcher.dependencies ++ (job.id ∷ []))
          × (AllDistinct watcher.dependencies)
          × (any is_keyed batch ≡ false)
          × (job.kind ≡ watcher_kind)
          × (job.lane ≡ client.lane)
          × (job.max_attempts ≡ client.default_max_attempts)
          × (job.priority ≡ client.priority)
          × (job.delay ≡ 0)
          × (encode watcher ≡ ok job.payload)
          × ((offload_all client
                (deps ++ (job ∷ []))
                (record { world = (fresh_id w).0; calls = [] })).1
              ≡ ok batch)
  unfolding fan_in_with_policy build_job draw_id quietly sent new_job with_priority
  fan_in_with_policy-sent fresh_id encode callback_kind fanin_id deps context policy w t h =
      let watcher_of = λ (ids : List JobId) (bytes : Bytes).
        Payload.new fanin_id ids client.lane callback_kind bytes client.default_max_attempts
          client.priority policy.poll_delay_secs policy.max_generations in
      elim (Bool-cases (nat_eq policy.poll_delay_secs 0)) [
        | inl idle ↦ absurd (ground arith)
        | inr polls ↦ elim (Result-cases (dependency_ids [] deps)) [
          | inr (x, bad) ↦ absurd (ground arith)
          | inl (ids, good) ↦ elim (Result-cases context) [
            | inr (x, bad) ↦ absurd (ground arith)
            | inl (bytes, encoded) ↦ elim (Result-cases (watcher_of ids bytes)) [
              | inr (x, bad) ↦ absurd (ground arith)
              | inl (watcher, made) ↦ elim (Result-cases (encode watcher)) [
                | inr (x, bad) ↦ absurd (ground arith)
                | inl (written, coded) ↦
                    let (same, plain, distinct, _) = dependency_ids_lem [] deps ids good in
                    let s1 : Logged Call W = record { world = (fresh_id w).0; calls = [] } in
                    let job = with_priority client.priority (
                      new_job (fresh_id w).1 client.lane watcher_kind written
                        client.default_max_attempts) in
                    let named =
                      new_lem fanin_id ids client.lane callback_kind bytes
                        client.default_max_attempts client.priority policy.poll_delay_secs
                        policy.max_generations watcher made in
                    let ends = snoc_ids deps job in
                    let (batch, one, ids_same, keys_same, offloaded) =
                      submit_topology-sent fresh_id encode (deps ++ (job ∷ [])) s1 t
                        (ground arith) in
                    (
                      watcher,
                      job,
                      batch,
                      ground (arith, one),
                      ground (arith, ids_same, ends, same, named),
                      subst AllDistinct (sym named) distinct,
                      ground (arith, keys_same, ends, plain),
                      refl,
                      refl,
                      refl,
                      refl,
                      refl,
                      ground arith,
                      offloaded,
                    )
              ]
            ]
          ]
        ]
      ]
