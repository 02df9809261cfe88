-- ===== src/Client/Batch.antt =====
-- The blobs of a batch: stored one after the other, deleted together if the batch is refused.
use worklane.Base.{
  ◌≡◌, refl, Bool, true, false, Option, none, some, List, [], ◌∷◌, arith, Option-cases, inl, inr,
  map,
}
use worklane.Base.Text.{text_Eq}
use worklane.Base.Logged.{Logged, perform}
use worklane.Core.Error.{Error, Result, ok, err, Result-cases}
use worklane.Core.Envelope.{JobId, Bytes, NewJob}
use worklane.Core.ClaimCheck.{reference_key}
use worklane.Client.State.{
  Call, Client, maybe_offload, inline_or_reject, cleanup_offload, cleanup_offloads, enqueue_batch,
}
use worklane.Client.Builder.{offload_all, submit_batch, entry_of}
use worklane.Client.Offload.{stored, dropped, MintsText, IsPlain, reference_key-make}

abbrev pub AllPlain : List NewJob → Type 0
AllPlain [] = Unit
AllPlain (job ∷ jobs) = IsPlain job × AllPlain jobs

-- The keys that the payloads refer to, put one after the other onto those that are there.
abbrev pub key_onto : Option Bytes → List Bytes → List Bytes
key_onto none keys = keys
key_onto (some key) keys = key ∷ keys

unfoldable pub keys_onto : List NewJob → List Bytes → List Bytes
keys_onto [] keys = keys
keys_onto (job ∷ jobs) keys = keys_onto jobs (key_onto (reference_key job.payload) keys)

-- Was the broker asked to enqueue a batch?
unfoldable pub has_batch : List Call → Bool
has_batch [] = false
has_batch (Call.batches _ _ ∷ calls) = true
has_batch (_ ∷ calls) = has_batch calls

module _ {W : Type 0} (client : Client W) (mints : MintsText client) where
  -- One payload: what is stored is what its offloaded form refers to.
  maybe_offload-stored :
      (payload : Bytes) (s : Logged Call W)
      → reference_key payload ≡ none
      → let out = maybe_offload client payload s in
        (dropped out.0.calls ≡ dropped s.calls)
        × (has_batch out.0.calls ≡ has_batch s.calls)
        × ((offloaded : Bytes)
            → out.1 ≡ ok offloaded
            → stored out.0.calls ≡ key_onto (reference_key offloaded) (stored s.calls))
  unfolding maybe_offload inline_or_reject perform stored dropped has_batch
  maybe_offload-stored payload s plain = elim (Option-cases client.payload_store) [
    | inl absent ↦ (ground arith, ground arith, λ offloaded h. ground arith)
    | inr (store, present) ↦ elim (Result-cases (store.put payload s.world).1) [
      | inl (key, put) ↦
          let minted = reference_key-make key (mints store payload s.world key present put) in
          (ground arith, ground arith, λ offloaded h. ground (arith, minted))
      | inr (e, failed) ↦ (ground arith, ground arith, λ offloaded h. ground arith)
    ]
  ]

  pub offload_all-stored :
      (jobs : List NewJob) (s : Logged Call W)
      → AllPlain jobs
      → let out = offload_all client jobs s in
        (dropped out.0.calls ≡ dropped s.calls)
        × (has_batch out.0.calls ≡ has_batch s.calls)
        × ((offloaded : List NewJob)
            → out.1 ≡ ok offloaded
            → stored out.0.calls ≡ keys_onto offloaded (stored s.calls))
  unfolding offload_all keys_onto
  offload_all-stored [] s plain = (refl, refl, λ offloaded h. ground arith)
  offload_all-stored (job ∷ jobs) s plain =
      let first = maybe_offload client job.payload s in
      let one = maybe_offload-stored job.payload s plain.0 in
      let rest = offload_all-stored jobs first.0 plain.1 in
      elim (Result-cases first.1) [
        | inr (e, failed) ↦
            (ground (arith, one.0), ground (arith, one.1), λ offloaded h. ground arith)
        | inl (payload, done) ↦ elim (Result-cases (offload_all client jobs first.0).1) [
          | inr (e, failed) ↦ (
            ground (arith, one.0, rest.0),
            ground (arith, one.1, rest.1),
            λ offloaded h. ground arith,
          )
          | inl (others, also) ↦ (
            ground (arith, one.0, rest.0),
            ground (arith, one.1, rest.1),
            λ offloaded h. ground (arith, one.2 payload done, rest.2 others also),
          )
        ]
      ]

  -- Without a payload store nothing is stored or deleted.
  maybe_offload-absent :
      (payload : Bytes) (s : Logged Call W)
      → client.payload_store ≡ none
      → stored (maybe_offload client payload s).0.calls ≡ stored s.calls
  unfolding maybe_offload inline_or_reject
  maybe_offload-absent payload s absent = ground arith

  offload_all-absent :
      (jobs : List NewJob) (s : Logged Call W)
      → client.payload_store ≡ none
      → stored (offload_all client jobs s).0.calls ≡ stored s.calls
  unfolding offload_all
  offload_all-absent [] s absent = refl
  offload_all-absent (job ∷ jobs) s absent = ground (
    arith,
    maybe_offload-absent job.payload s absent,
    offload_all-absent jobs (maybe_offload client job.payload s).0 absent,
  )

  -- The log of a cleanup.
  pub cleanup_offloads-log :
      (jobs : List NewJob) (s : Logged Call W)
      → let after = cleanup_offloads client (map entry_of jobs) s in
        (stored after.calls ≡ stored s.calls)
        × (has_batch after.calls ≡ has_batch s.calls)
        × (dropped after.calls ≡ (elim client.payload_store [
          | none ↦ dropped s.calls
          | some _ ↦ keys_onto jobs (dropped s.calls)
        ]))
  unfolding cleanup_offloads cleanup_offload perform stored has_batch dropped keys_onto
  cleanup_offloads-log [] s = (refl, refl, ground arith)
  cleanup_offloads-log (job ∷ jobs) s =
      ground (arith, cleanup_offloads-log jobs (cleanup_offload client job.payload s))

  submit_batch-failed :
      (jobs : List NewJob) (s : Logged Call W) (e : Error)
      → (submit_batch client jobs s).1 ≡ err e
      → dropped s.calls ≡ []
      → stored s.calls ≡ (elim client.payload_store [ none ↦ [] | some _ ↦ keys_onto jobs [] ])
      → let after = (submit_batch client jobs s).0 in dropped after.calls ≡ stored after.calls
  unfolding submit_batch enqueue_batch perform stored dropped has_batch
  submit_batch-failed jobs s e failed clean same = elim (Option-cases client.broker.batch_enqueue) [
    | inl absent ↦ ground (arith, cleanup_offloads-log jobs s)
    | inr (cap, present) ↦
        ground (arith, cleanup_offloads-log jobs (perform (Call.batches jobs) (cap jobs) s).0)
  ]

  -- Jobs whose payloads were all offloaded: if the broker refuses them, or takes no batches, every
  -- blob that was stored for them is deleted.
  pub offloaded-failed :
      (jobs offloaded : List NewJob) (s : Logged Call W) (e : Error)
      → AllPlain jobs
      → stored s.calls ≡ []
      → dropped s.calls ≡ []
      → (offload_all client jobs s).1 ≡ ok offloaded
      → let middle = (offload_all client jobs s).0 in
        let out = submit_batch client offloaded middle in
        out.1 ≡ err e → dropped out.0.calls ≡ stored out.0.calls
  offloaded-failed jobs offloaded s e plain start clean done failed =
      let h = offload_all-stored jobs s plain in
      let middle = (offload_all client jobs s).0 in
      submit_batch-failed offloaded middle e failed (ground (arith, h.0))
        (elim (Option-cases client.payload_store) [
          | inl absent ↦ ground (arith, offload_all-absent jobs s absent)
          | inr (st, present) ↦ ground (arith, h.2 offloaded done)
        ])

  pub submit_batch-batched :
      (jobs : List NewJob) (s : Logged Call W) (cap : List NewJob → W → W × Result (List JobId))
      → client.broker.batch_enqueue ≡ some cap
      → has_batch (submit_batch client jobs s).0.calls ≡ true
  unfolding submit_batch enqueue_batch perform has_batch
  submit_batch-batched jobs s cap takes =
      ground (arith, cleanup_offloads-log jobs (perform (Call.batches jobs) (cap jobs) s).0)
