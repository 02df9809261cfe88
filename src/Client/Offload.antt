-- ===== src/Client/Offload.antt =====
-- The blobs that the client puts into the payload store, against those that it deletes again.
use worklane.Base.{
  ◌≡◌, refl, Bool, true, false, none, some, List, [], ◌∷◌, arith, Option-cases, inl, inr, ◌==◌,
  if◌then◌else◌,
}
use worklane.Base.Text.{text_Eq}
use worklane.Base.Logged.{perform}
use worklane.Core.Error.{Result, ok, err, Result-cases}
use worklane.Core.Envelope.{JobId, Bytes, NewJob}
use worklane.Core.Traits.{PayloadStore}
use worklane.Core.ClaimCheck.{is_utf8, make_reference, reference_key}
use worklane.Core.ClaimCheck.Laws.{reference_key_iff}
use worklane.Client.State.{
  Call, Client, check_lane, maybe_offload, inline_or_reject, cleanup_offload,
  cleanup_deduped_offload,
}
use worklane.Client.Builder.{submit, enqueue_job}

-- The keys under which blobs were stored, and those that were deleted; the newest first.
unfoldable pub stored : List Call → List Bytes
stored [] = []
stored (Call.puts (ok key) ∷ calls) = key ∷ stored calls
stored (_ ∷ calls) = stored calls

unfoldable pub dropped : List Call → List Bytes
dropped [] = []
dropped (Call.deletes key ∷ calls) = key ∷ dropped calls
dropped (_ ∷ calls) = dropped calls

-- A payload store mints keys that are well-formed text, as their type in the source says.
abbrev pub MintsText : {W : Type 0} → Client W → Type 0
MintsText {W} client =
    (store : PayloadStore W) (payload : Bytes) (w : W) (key : Bytes)
    → client.payload_store ≡ some store
    → (store.put payload w).1 ≡ ok key
    → is_utf8 key ≡ true

-- A job's own payload is not a reference, as no JSON text is.
abbrev pub IsPlain : NewJob → Type 0
IsPlain job = reference_key job.payload ≡ none

abbrev pub is_kept : JobId → Result JobId → Bool
is_kept id (ok returned) = id == returned
is_kept id (err e) = false

pub reference_key-make :
    (key : Bytes) → is_utf8 key ≡ true → reference_key (make_reference key) ≡ some key
reference_key-make key h = (reference_key_iff (make_reference key) key).1 (refl, h)

module _ {W : Type 0} (client : Client W) where
  -- An enqueue keeps the blob that it stored for its job exactly if the broker took the job under
  -- its own id: where the enqueue fails, or is deduplicated to another job, the same blob is
  -- deleted again, and otherwise nothing is.
  pub enqueue_job-dropped :
      (job : NewJob) (w : W)
      → MintsText client
      → IsPlain job
      → let out = enqueue_job client job (record { world = w; calls = [] }) in
        dropped out.0.calls ≡ (if is_kept job.id out.1 then [] else stored out.0.calls)
  unfolding enqueue_job submit check_lane maybe_offload inline_or_reject perform
      cleanup_deduped_offload cleanup_offload stored dropped
  enqueue_job-dropped job w mints plain = elim (Option-cases client.payload_store) [
    | inl absent ↦ ground arith
    | inr (store, present) ↦ elim (Result-cases (store.put job.payload w).1) [
      | inl (key, put) ↦
          ground (arith, reference_key-make key (mints store job.payload w key present put))
      | inr (e, failed) ↦ ground arith
    ]
  ]
