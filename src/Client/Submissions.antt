-- ===== src/Client/Submissions.antt =====
-- How many jobs the client asks the broker to enqueue.
use worklane.Base.{
  ℕ, suc, ◌+◌, length, ◌≡◌, ◌≤◌, Bool, true, false, Option, List, [], ◌∷◌, arith, Option-cases, inl,
  inr,
}
use worklane.Base.Text.{Text}
use worklane.Base.Logged.{Logged, perform, quietly}
use worklane.Core.Error.{Result, ok, err, Result-cases}
use worklane.Core.Envelope.{JobId, Lane, Bytes, NewJob, new_job}
use worklane.Client.State.{
  Call, Client, check_lane, maybe_offload, inline_or_reject, cleanup_offload,
  cleanup_deduped_offload,
}
use worklane.Client.Builder.{
  build_job, draw_id, submit, enqueue_job, enqueue_inner, with_unique_key, with_priority, with_lane,
  with_delay,
}

-- How many jobs was the broker asked to enqueue, one by one or in batches?
unfoldable pub submissions : List Call → ℕ
submissions [] = 0
submissions (Call.enqueues job answer ∷ calls) = suc (submissions calls)
submissions (Call.batches jobs answer ∷ calls) = length jobs + submissions calls
submissions (_ ∷ calls) = submissions calls

abbrev pub is_ok : {A : Type 0} → Result A → Bool
is_ok (ok a) = true
is_ok (err x) = false

module _ {W : Type 0} (client : Client W) where
  pub maybe_offload-submissions :
      (payload : Bytes) (s : Logged Call W)
      → submissions (maybe_offload client payload s).0.calls ≡ submissions s.calls
  unfolding maybe_offload inline_or_reject perform submissions
  maybe_offload-submissions payload s = ground arith

  pub cleanup_offload-submissions :
      (payload : Bytes) (s : Logged Call W)
      → submissions (cleanup_offload client payload s).calls ≡ submissions s.calls
  unfolding cleanup_offload perform submissions
  cleanup_offload-submissions payload s = ground arith

  pub submit-submissions :
      (job : NewJob) (s : Logged Call W)
      → submissions (submit client job s).0.calls ≡ suc (submissions s.calls)
  unfolding submit cleanup_deduped_offload perform submissions
  submit-submissions job s =
      let (s1, answer) = perform (Call.enqueues job) (client.broker.enqueue job) s in
      ground (arith, cleanup_offload-submissions job.payload s1)

  pub enqueue_job-submissions :
      (job : NewJob) (s : Logged Call W)
      → let out = enqueue_job client job s in
        (submissions out.0.calls ≤ suc (submissions s.calls))
        × (is_ok out.1 ≡ true → submissions out.0.calls ≡ suc (submissions s.calls))
  unfolding enqueue_job
  enqueue_job-submissions job s =
      let offloaded = maybe_offload client job.payload s in
      let same = maybe_offload-submissions job.payload s in
      elim (Result-cases (check_lane client job.lane)) [
        | inr (x, bad) ↦ ground arith
        | inl (t, good) ↦ elim (Result-cases offloaded.1) [
          | inr (x, lost) ↦ ground (arith, same)
          | inl (payload, kept) ↦
              ground
                (arith, same, submit-submissions (record job { payload = payload }) offloaded.0)
        ]
      ]

  module _ (fresh_id : W → W × JobId) where
    pub enqueue_inner-submissions :
        (kind : Text) (encoded : Result Bytes) (lane : Lane) (delay : ℕ) (key : Option Text)
        (s : Logged Call W)
        → let out = enqueue_inner client fresh_id kind encoded lane delay key s in
          (submissions out.0.calls ≤ suc (submissions s.calls))
          × (is_ok out.1 ≡ true → submissions out.0.calls ≡ suc (submissions s.calls))
    unfolding enqueue_inner build_job draw_id quietly
    enqueue_inner-submissions kind encoded lane delay key s = elim (Result-cases encoded) [
      | inr (x, bad) ↦ ground arith
      | inl (bytes, good) ↦
          let drawn = fresh_id s.world in
          let s1 : Logged Call W = record { world = drawn.0; calls = s.calls } in
          let built =
            with_priority client.priority
              (new_job drawn.1 client.lane kind bytes client.default_max_attempts) in
          let job = with_delay delay (with_lane lane built) in
          elim (Option-cases key) [
            | inl absent ↦ ground (arith, enqueue_job-submissions job s1)
            | inr (k, present) ↦ ground (arith, enqueue_job-submissions (with_unique_key k job) s1)
          ]
    ]
