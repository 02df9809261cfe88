-- ===== src/Client/Lanes.antt =====
-- Fan-out to many lanes: what becomes of the blobs, on every way that it may fail.
use worklane.Base.{
  ◌≡◌, refl, true, false, ◌&&◌, some, List, [], ◌∷◌, arith, Bool-cases, inl, inr, length, ltb,
}
use worklane.Base.Logged.{Logged, quietly}
use worklane.Core.Error.{Error, Result, ok, err, Result-cases}
use worklane.Core.Envelope.{JobId, Lane, NewJob}
use worklane.Client.State.{Call, Client, check_lanes}
use worklane.Client.Builder.{
  offload_all, submit_batch, submit_lanes, one_per_lane, draw_id, enqueue_job_to_lanes, is_keyed,
}
use worklane.Client.Offload.{stored, dropped, MintsText, IsPlain}
use worklane.Client.Batch.{
  AllPlain, has_batch, offload_all-stored, offloaded-failed, submit_batch-batched,
}

module _ {W : Type 0} (client : Client W) (fresh_id : W → W × JobId) where
  one_per_lane-log :
      (job : NewJob) (lanes : List Lane) (s : Logged Call W)
      → IsPlain job
      → let out = one_per_lane client fresh_id job lanes s in
        (out.0.calls ≡ s.calls) × ((jobs : List NewJob) × (out.1 ≡ ok jobs) × AllPlain jobs)
  unfolding one_per_lane draw_id quietly
  one_per_lane-log job [] s plain = (refl, ([], refl, tt))
  one_per_lane-log job (lane ∷ lanes) s plain =
      let drawn = fresh_id s.world in
      let (same, (jobs, e, all)) =
        one_per_lane-log job lanes (record { world = drawn.0; calls = s.calls }) plain in
      (
        ground (arith, same),
        (record job { id = drawn.1; lane = lane } ∷ jobs, ground (arith, e), (plain, all)),
      )

  -- If a fan-out fails after its batch went to the broker, every blob that was stored for it is
  -- deleted again.
  pub enqueue_job_to_lanes-dropped :
      (job : NewJob) (lanes : List Lane) (w : W) (e : Error)
      → MintsText client
      → IsPlain job
      → let out =
          enqueue_job_to_lanes client fresh_id job lanes (record { world = w; calls = [] }) in
        out.1 ≡ err e → has_batch out.0.calls ≡ true → dropped out.0.calls ≡ stored out.0.calls
  unfolding enqueue_job_to_lanes submit_lanes stored dropped has_batch
  enqueue_job_to_lanes-dropped job lanes w e mints plain failed batched =
      let (same, (jobs, made, all)) =
        one_per_lane-log job lanes (record { world = w; calls = [] }) plain in
      let s = (one_per_lane client fresh_id job lanes (record { world = w; calls = [] })).0 in
      let h = offload_all-stored client mints jobs s all in
      elim (Result-cases (check_lanes client jobs)) [
        | inr (x, unknown) ↦ absurd (ground (arith, made, same))
        | inl (t, known) ↦ elim (Bool-cases (is_keyed job && ltb 1 (length jobs))) [
          | inl shared ↦ absurd (ground (arith, made, same))
          | inr fine ↦ elim (Result-cases (offload_all client jobs s).1) [
            | inr (x, lost) ↦ absurd (ground (arith, made, same, h.1))
            | inl (offloaded, done) ↦ ground (
              arith,
              made,
              same,
              offloaded-failed client mints jobs offloaded s e all (ground (arith, same))
                  (ground (arith, same)) done,
            )
          ]
        ]
      ]

  -- With a broker that takes batches, a fan-out that fails before its batch goes there deletes
  -- nothing: the blobs that it stored before the payload store failed stay behind.
  pub enqueue_job_to_lanes-has_batch :
      (job : NewJob) (lanes : List Lane) (w : W) (e : Error)
      (cap : List NewJob → W → W × Result (List JobId))
      → MintsText client
      → IsPlain job
      → client.broker.batch_enqueue ≡ some cap
      → let out =
          enqueue_job_to_lanes client fresh_id job lanes (record { world = w; calls = [] }) in
        out.1 ≡ err e → has_batch out.0.calls ≡ false → dropped out.0.calls ≡ []
  unfolding enqueue_job_to_lanes submit_lanes dropped has_batch
  enqueue_job_to_lanes-has_batch job lanes w e cap mints plain takes failed unsubmitted =
      let (same, (jobs, made, all)) =
        one_per_lane-log job lanes (record { world = w; calls = [] }) plain in
      let s = (one_per_lane client fresh_id job lanes (record { world = w; calls = [] })).0 in
      let h = offload_all-stored client mints jobs s all in
      elim (Result-cases (check_lanes client jobs)) [
        | inr (x, unknown) ↦ ground (arith, made, same)
        | inl (t, known) ↦ elim (Bool-cases (is_keyed job && ltb 1 (length jobs))) [
          | inl shared ↦ ground (arith, made, same)
          | inr fine ↦ elim (Result-cases (offload_all client jobs s).1) [
            | inr (x, lost) ↦ ground (arith, made, same, h.0)
            | inl (offloaded, done) ↦
                let middle = (offload_all client jobs s).0 in
                let sent = submit_batch-batched client mints offloaded middle cap takes in
                elim (Result-cases (submit_batch client offloaded middle).1) [
                  | inl (ids, accepted) ↦ absurd (ground (arith, made, same))
                  | inr (x, refused) ↦ absurd (ground (arith, made, same, sent))
                ]
          ]
        ]
      ]
