-- ===== src/Memory/Invariant/Runs.antt =====
-- The invariant over every sequence of calls.
use worklane.Base.{ℕ, ◌≡◌, refl, false, none, List, [], ◌∷◌, inl, inr, any, Bool-cases}
use worklane.Base.Text.{Text, text_Eq}
use worklane.Base.Int.{ℤ}
use worklane.Core.Error.{Result, ok, err}
use worklane.Core.Envelope.{JobId, NewJob}
use worklane.Memory.State.{
  DeadEntry, Inner, InMemoryBroker, has_id, holder, insert_one, new, check_payload_size, with_lease,
  with_max_deliveries, with_dead_letter_retention,
}
use worklane.Core.Retention.{RetentionPolicy}
use worklane.Memory.Ops
use worklane.Memory.Ops.{insert_all, check_all}
use worklane.Memory.Stores
use worklane.Memory.Stores.{revive, revived, is_new_occurrence}
use worklane.Base.Assoc.{lookup}
use worklane.Memory.Cases.{requeue_cases}
use worklane.Memory.Calls.{Call, step}
use worklane.Memory.Invariant.{Inv, owner}
use worklane.Memory.Invariant.Edits.{append-IsIndexed}
use worklane.Memory.Invariant.Methods.{
  insert_one-Inv, reserve-Inv, with_current-Inv, IsFresh, remove_job-Keeps, fail_job-Keeps,
  retry_job-Keeps, defer_job-Keeps, extend_job-Keeps,
}

pub new-Inv : Inv new.inner
unfolding new owner lookup
new-Inv = record { ids = tt; keys = tt; receipts = tt; paired = tt; index = λ k. refl }

insert_all-Inv : (s : Inner) (jobs : List NewJob) (now : ℕ) → Inv s → Inv (insert_all s jobs now).0
unfolding insert_all
insert_all-Inv s [] now v = v
insert_all-Inv s (job ∷ jobs) now v =
    insert_all-Inv (insert_one s job now).0 jobs now (insert_one-Inv s job now v)

enqueue-Inv :
    (b : InMemoryBroker) (job : NewJob) (now : ℕ)
    → Inv b.inner
    → Inv (Ops.enqueue b job now).0.inner
unfolding Ops.enqueue
enqueue-Inv b job now v = go (check_payload_size job) refl
  where
    go : (r : Result (Unit {0})) → check_payload_size job ≡ r → Inv (Ops.enqueue b job now).0.inner
    go (ok _) e = rw (e, Ops.enqueue) (insert_one-Inv b.inner job now v)
    go (err x) e = rw (e, Ops.enqueue) v

enqueue_batch-Inv :
    (b : InMemoryBroker) (jobs : List NewJob) (now : ℕ)
    → Inv b.inner
    → Inv (Ops.enqueue_batch b jobs now).0.inner
unfolding Ops.enqueue_batch
enqueue_batch-Inv b jobs now v = go (check_all jobs) refl
  where
    go : (r : Result (Unit {0})) → check_all jobs ≡ r → Inv (Ops.enqueue_batch b jobs now).0.inner
    go (ok _) e = rw (e, Ops.enqueue_batch) (insert_all-Inv b.inner jobs now v)
    go (err x) e = rw (e, Ops.enqueue_batch) v

revive-Inv :
    (s : Inner) (pos : ℕ) (d : DeadEntry) (id : JobId) (now : ℕ)
    → Inv s
    → d.letter.envelope.id ≡ id
    → any (has_id id) s.jobs ≡ false
    → holder d.unique_key s.unique ≡ none
    → Inv (revive s pos d id now)
unfolding revive revived
revive-Inv s pos d id now v e new free =
    rw (← e) (append-IsIndexed v (revived d now) (rw e new) free refl refl)

requeue-Inv :
    (b : InMemoryBroker) (id : JobId) (now : ℕ)
    → Inv b.inner
    → Inv (Stores.requeue b id now).0.inner
requeue-Inv b id now v =
    requeue_cases (λ r. Inv r.0.inner) b id now (λ _. v) (λ _ _ _ _ _. v) (λ _ _ _ _ _ _. v)
      (λ i d _ e new free. revive-Inv b.inner i d id now v e new free)

schedule-Inv :
    (b : InMemoryBroker) (id : Text) (occurrence : ℤ) (job : NewJob) (now : ℕ)
    → Inv b.inner
    → Inv (Stores.enqueue_scheduled b id occurrence job now).0.inner
unfolding Stores.enqueue_scheduled
schedule-Inv b id occurrence job now v =
    elim (Bool-cases (is_new_occurrence (lookup id b.inner.schedules) occurrence)) [
      | inl e ↦ rw (e, Stores.enqueue_scheduled) (insert_one-Inv _ job now v)
      | inr e ↦ rw (e, Stores.enqueue_scheduled) v
    ]

-- A reservation draws a receipt that no live job has; every other call is free.
abbrev pub Allowed : InMemoryBroker → Call → Type 0
Allowed b (Call.reserves lane now receipt) = IsFresh receipt b.inner
Allowed b _ = Unit

-- Every method of the broker, on every branch, keeps the invariant.
pub step-Inv : (b : InMemoryBroker) (c : Call) → Allowed b c → Inv b.inner → Inv (step b c).inner
unfolding step Ops.ack Ops.retry Ops.defer Ops.fail Ops.extend Stores.purge_dead_letters
    Stores.remove_schedule
step-Inv b (Call.enqueues job now) f v = enqueue-Inv b job now v
step-Inv b (Call.batches jobs now) f v = enqueue_batch-Inv b jobs now v
step-Inv b (Call.reserves lane now receipt) f v = reserve-Inv b lane now receipt v f
step-Inv b (Call.acks receipt now) f v =
    with_current-Inv Ops.remove_job remove_job-Keeps b receipt now v
step-Inv b (Call.retries receipt delay now) f v =
    with_current-Inv (Ops.retry_job delay now) (retry_job-Keeps delay now) b receipt now v
step-Inv b (Call.defers receipt delay now) f v =
    with_current-Inv (Ops.defer_job delay now) (defer_job-Keeps delay now) b receipt now v
step-Inv b (Call.fails receipt error now) f v =
    with_current-Inv (Ops.fail_job error now) (fail_job-Keeps error now) b receipt now v
step-Inv b (Call.extends receipt now) f v =
    with_current-Inv (Ops.extend_job now) (extend_job-Keeps now) b receipt now v
step-Inv b (Call.requeues id now) f v = requeue-Inv b id now v
step-Inv b (Call.purges lane) f v = v
step-Inv b (Call.schedules id occurrence job now) f v = schedule-Inv b id occurrence job now v
step-Inv b (Call.unschedules id) f v = v

-- The brokers that calls lead to.
pub data Reach (b : InMemoryBroker) : InMemoryBroker → Type 0 where
  here : Reach b b
  next : {c : InMemoryBroker} → Reach b c → (call : Call) → Allowed c call → Reach b (step c call)

pub Reach-Inv : {b c : InMemoryBroker} → Inv b.inner → Reach b c → Inv c.inner
Reach-Inv v here = v
Reach-Inv v (next {c = c} r call f) = step-Inv c call f (Reach-Inv v r)

-- The brokers that a program can set up.
pub data IsConfigured : InMemoryBroker → Type 0 where
  plain : IsConfigured new
  lease : {b : InMemoryBroker} (d : ℕ) → IsConfigured b → IsConfigured (with_lease b d)
  deliveries :
      {b : InMemoryBroker} (m : ℕ) → IsConfigured b → IsConfigured (with_max_deliveries b m)
  retention :
      {b : InMemoryBroker} (p : RetentionPolicy)
      → IsConfigured b
      → IsConfigured (with_dead_letter_retention b p)

configured-Inv : {b : InMemoryBroker} → IsConfigured b → Inv b.inner
unfolding with_lease with_max_deliveries with_dead_letter_retention
configured-Inv plain = new-Inv
configured-Inv (lease d c) = configured-Inv c
configured-Inv (deliveries m c) = configured-Inv c
configured-Inv (retention p c) = configured-Inv c

-- Whatever calls are made on a new broker, however it is set up, as long as each reservation draws
-- a receipt that no live job has: no two live jobs share an id, a unique key or a receipt, a job
-- has a receipt exactly while it has a lease, and the table of unique keys maps exactly the keys
-- of the live jobs, each to the id of its holder.
pub reachable-Inv : {b c : InMemoryBroker} → IsConfigured b → Reach b c → Inv c.inner
reachable-Inv s r = Reach-Inv (configured-Inv s) r
