-- ===== src/Memory/Enqueue.antt =====
-- Enqueueing: under an id or a key that is taken, and in batches.
use worklane.Base.{
  ℕ, ◌≡◌, refl, sym, ◌∙◌, Option, Option-cases, true, none, some, List, [], ◌∷◌, arith, any,
  any-append, ==_refl, inl, inr,
}
use mathlib.Core.Path.{subst₂}
use worklane.Base.Text.{Text, text_Eq}
use worklane.Core.Error.{Result, ok, err, Result-cases}
use worklane.Core.Envelope.{JobId, NewJob, into_envelope, new_envelope}
use worklane.Core.Spi.{JobState}
use worklane.Memory.State.{
  StoredJob, Inner, InMemoryBroker, has_id, holder, insert_one, stored, check_payload_size,
}
use worklane.Memory.Ops.{enqueue, enqueue_batch, check_all, insert_all, classify}
use worklane.Memory.Invariant.{Inv, owner}

-- The holder of a key is a live job.
any-owner :
    (k : Text) (js : List StoredJob) (id : JobId) → owner k js ≡ some id → any (has_id id) js ≡ true
unfolding owner
any-owner k [] id h = ground arith
any-owner k (j ∷ js) id h = ground (arith, any-owner k js id, ==_refl j.envelope.id)

stored-id : (job : NewJob) (now : ℕ) → (stored job now).envelope.id ≡ job.id
unfolding stored into_envelope new_envelope
stored-id job now = refl

has_id-stored : (job : NewJob) (now : ℕ) → has_id job.id (stored job now) ≡ true
has_id-stored job now = rw (stored-id job now) (==_refl job.id)

holder-live :
    (key : Option Text) (s : Inner) (id : JobId)
    → Inv s
    → holder key s.unique ≡ some id
    → any (has_id id) s.jobs ≡ true
unfolding holder
holder-live none s id v h = ground arith
holder-live (some k) s id v h = any-owner k s.jobs id (sym (v.index k) ∙ h)

insert_one-live :
    (s : Inner) (job : NewJob) (now : ℕ)
    → Inv s
    → any (has_id (insert_one s job now).1) (insert_one s job now).0.jobs ≡ true
unfolding insert_one
insert_one-live s job now v = elim (Option-cases (holder job.unique_key s.unique)) [
  | inl free ↦
      ground (arith, any-append (has_id job.id) s.jobs (stored job now ∷ []), has_id-stored job now)
  | inr (id, held) ↦ ground (arith, holder-live job.unique_key s id v held)
]

insert_one-again :
    (s : Inner) (job : NewJob) (now later : ℕ)
    → insert_one (insert_one s job now).0 job later ≡ insert_one s job now
unfolding insert_one
insert_one-again s job now later =
    ground (arith, any-append (has_id job.id) s.jobs (stored job now ∷ []), has_id-stored job now)

-- What an accepted enqueue gives its caller.
pub record IsEnqueued (c : InMemoryBroker) (id : JobId) (job : NewJob) : Type 0 where
  pub live : classify c id ≡ JobState.live
  pub again : (later : ℕ) → enqueue c job later ≡ (c, ok id)

enqueued :
    (b : InMemoryBroker) (job : NewJob) (now : ℕ)
    → Inv b.inner
    → check_payload_size job ≡ ok tt
    → let out = insert_one b.inner job now in IsEnqueued (record b { inner = out.0 }) out.1 job
unfolding classify enqueue
enqueued b job now v fits = record {
  live = ground (arith, insert_one-live b.inner job now v);
  again = λ later. ground (arith, insert_one-again b.inner job now later);
}

-- In a broker that keeps the invariant, the id that an accepted enqueue answers is the id of a
-- live job, and enqueueing the same job again at any later time answers the same id and changes
-- nothing.
pub enqueue-IsEnqueued :
    (b c : InMemoryBroker) (job : NewJob) (now : ℕ) (id : JobId)
    → Inv b.inner
    → enqueue b job now ≡ (c, ok id)
    → IsEnqueued c id job
unfolding enqueue
enqueue-IsEnqueued b c job now id v h = elim (Result-cases (check_payload_size job)) [
  | inl (t, fits) ↦
      subst₂ (λ x y. IsEnqueued x y job) (ground arith) (ground arith) (enqueued b job now v fits)
  | inr (e, refused) ↦ absurd (ground arith)
]

-- The jobs of a batch enqueued one after the other, up to the first that is refused.
unfoldable pub enqueue_each :
    InMemoryBroker → List NewJob → ℕ → InMemoryBroker × Result (List JobId)
unfolding enqueue
enqueue_each b [] now = (b, ok [])
enqueue_each b (job ∷ jobs) now =
    let (b1, first) = enqueue b job now in
    let (b2, others) = enqueue_each b1 jobs now in
    elim first [
      | err e ↦ (b1, err e)
      | ok id ↦ elim others [ err e ↦ (b2, err e) | ok ids ↦ (b2, ok (id ∷ ids)) ]
    ]

-- A batch that is refused leaves the broker as it was.
unfoldable pub all_or_nothing :
    InMemoryBroker → InMemoryBroker × Result (List JobId) → InMemoryBroker × Result (List JobId)
all_or_nothing b (c, ok ids) = (c, ok ids)
all_or_nothing b (c, err e) = (b, err e)

-- Enqueueing a batch is enqueueing its jobs one after the other at the same time, all or nothing:
-- if one of them is refused the batch is refused with the first such error and the broker stays as
-- it was.
pub enqueue_batch-eq :
    (b : InMemoryBroker) (jobs : List NewJob) (now : ℕ)
    → enqueue_batch b jobs now ≡ all_or_nothing b (enqueue_each b jobs now)
unfolding enqueue_batch check_all insert_all enqueue_each all_or_nothing enqueue
enqueue_batch-eq b [] now = refl
enqueue_batch-eq b (job ∷ jobs) now =
    let b1 = record b { inner = (insert_one b.inner job now).0 } in
    ground (arith, enqueue_batch-eq b1 jobs now)
