-- ===== src/Memory/Schedules.antt =====
-- Scheduled occurrences: the watermark of a schedule over the calls that follow.
use worklane.Base.{
  ℕ, ◌≡◌, refl, Bool, true, false, not, ◌&&◌, none, some, List, [], ◌∷◌, arith, ◌==◌, ==_iff, ap,
  ◌∙◌, Option-cases, ==_refl, inl, inr,
}
use worklane.Base.Text.{Text, text_Eq}
use worklane.Base.Assoc.{lookup, insert, lookup-insert, lookup-remove}
use worklane.Base.Int.{ℤ, ltb_ℤ}
use worklane.Core.Error.{ok}
use worklane.Core.Envelope.{NewJob, Receipt, Lane}
use worklane.Memory.State.{StoredJob, Inner, InMemoryBroker, insert_one}
use worklane.Memory.Ops
use worklane.Memory.Ops.{
  with_current, reserve_loop, hand_out, put_job, sweep_one, insert_all, remove_job, retry_job,
  defer_job, extend_job, fail_job, release_lapsed,
}
use worklane.Memory.Dead.{dead_letter_at}
use worklane.Memory.Stores
use worklane.Memory.Stores.{enqueue_scheduled, is_new_occurrence, revive}
use worklane.Memory.Cases.{reserve_loop_rule, with_current_cases}
use worklane.Memory.Calls.{Call, step}

-- Is the schedule's watermark at the occurrence or later?
unfoldable pub is_recorded : Text → ℤ → List (Text × ℤ) → Bool
is_recorded id occurrence schedules = elim (lookup id schedules) [
  | none ↦ false
  | some last ↦ not (ltb_ℤ last occurrence)
]

ltb_ℤ-trans : (x y z : ℤ) → ltb_ℤ x y ≡ false → ltb_ℤ x z ≡ true → ltb_ℤ z y ≡ false
ltb_ℤ-trans x y z g h = ground arith

insert_one-schedules :
    (s : Inner) (job : NewJob) (now : ℕ) → (insert_one s job now).0.schedules ≡ s.schedules
unfolding insert_one
insert_one-schedules s job now = ground arith

insert_all-schedules :
    (s : Inner) (jobs : List NewJob) (now : ℕ) → (insert_all s jobs now).0.schedules ≡ s.schedules
unfolding insert_all
insert_all-schedules s [] now = refl
insert_all-schedules s (job ∷ jobs) now =
    ground (
      arith,
      insert_one-schedules s job now,
      insert_all-schedules (insert_one s job now).0 jobs now,
    )

reserve-schedules :
    (b : InMemoryBroker) (lane : Lane) (now : ℕ) (receipt : Receipt)
    → (Ops.reserve b lane now receipt).0.inner.schedules ≡ b.inner.schedules
unfolding Ops.reserve sweep_one hand_out put_job dead_letter_at
reserve-schedules b lane now receipt =
    reserve_loop_rule (λ c. c.inner.schedules ≡ b.inner.schedules)
      (λ x. x.0.inner.schedules ≡ b.inner.schedules) lane now receipt (λ c e. e) (λ c i w e _ _. e)
      (λ c i w e _ _. e) 128
      (record b { inner = record (b.inner) { jobs = release_lapsed now b.inner.jobs } }) refl

with_current-schedules :
    (b : InMemoryBroker) (receipt : Receipt) (now : ℕ)
    (change : InMemoryBroker → ℕ → StoredJob → InMemoryBroker)
    → ((i : ℕ) (j : StoredJob) → (change b i j).inner.schedules ≡ b.inner.schedules)
    → (with_current b receipt now change).0.inner.schedules ≡ b.inner.schedules
unfolding put_job
with_current-schedules b receipt now change same =
    with_current_cases (λ x. x.0.inner.schedules ≡ b.inner.schedules) b receipt now change
      (λ _. refl) (λ i j _ _ _. refl) (λ i j _ _ _. same i j)

ack-schedules :
    (b : InMemoryBroker) (receipt : Receipt) (now : ℕ)
    → (Ops.ack b receipt now).0.inner.schedules ≡ b.inner.schedules
unfolding Ops.ack remove_job
ack-schedules b receipt now = with_current-schedules b receipt now remove_job (λ i j. refl)

retry-schedules :
    (b : InMemoryBroker) (receipt : Receipt) (delay now : ℕ)
    → (Ops.retry b receipt delay now).0.inner.schedules ≡ b.inner.schedules
unfolding Ops.retry retry_job put_job
retry-schedules b receipt delay now =
    with_current-schedules b receipt now (retry_job delay now) (λ i j. refl)

defer-schedules :
    (b : InMemoryBroker) (receipt : Receipt) (delay now : ℕ)
    → (Ops.defer b receipt delay now).0.inner.schedules ≡ b.inner.schedules
unfolding Ops.defer defer_job put_job
defer-schedules b receipt delay now =
    with_current-schedules b receipt now (defer_job delay now) (λ i j. refl)

extend-schedules :
    (b : InMemoryBroker) (receipt : Receipt) (now : ℕ)
    → (Ops.extend b receipt now).0.inner.schedules ≡ b.inner.schedules
unfolding Ops.extend extend_job put_job
extend-schedules b receipt now = with_current-schedules b receipt now (extend_job now) (λ i j. refl)

fail-schedules :
    (b : InMemoryBroker) (receipt : Receipt) (error : Text) (now : ℕ)
    → (Ops.fail b receipt error now).0.inner.schedules ≡ b.inner.schedules
unfolding Ops.fail fail_job dead_letter_at
fail-schedules b receipt error now =
    with_current-schedules b receipt now (fail_job error now) (λ i j. refl)

purge-schedules :
    (b : InMemoryBroker) (lane : Lane)
    → (Stores.purge_dead_letters b lane).0.inner.schedules ≡ b.inner.schedules
unfolding Stores.purge_dead_letters
purge-schedules b lane = refl

requeue-schedules :
    (b : InMemoryBroker) (job : Text) (now : ℕ)
    → (Stores.requeue b job now).0.inner.schedules ≡ b.inner.schedules
unfolding Stores.requeue revive
requeue-schedules b job now = ground arith

enqueue-schedules :
    (b : InMemoryBroker) (job : NewJob) (now : ℕ)
    → (Ops.enqueue b job now).0.inner.schedules ≡ b.inner.schedules
unfolding Ops.enqueue
enqueue-schedules b job now = ground (arith, insert_one-schedules b.inner job now)

enqueue_batch-schedules :
    (b : InMemoryBroker) (jobs : List NewJob) (now : ℕ)
    → (Ops.enqueue_batch b jobs now).0.inner.schedules ≡ b.inner.schedules
unfolding Ops.enqueue_batch
enqueue_batch-schedules b jobs now = ground (arith, insert_all-schedules b.inner jobs now)

enqueue_scheduled-recorded :
    (id : Text) (occurrence : ℤ) (b : InMemoryBroker) (sid : Text) (at : ℤ) (job : NewJob) (now : ℕ)
    → is_recorded id occurrence b.inner.schedules ≡ true
    → is_recorded id occurrence (enqueue_scheduled b sid at job now).0.inner.schedules ≡ true
unfolding enqueue_scheduled is_recorded is_new_occurrence
enqueue_scheduled-recorded id occurrence b sid at job now h = ground (
  arith,
  lookup-insert sid id at b.inner.schedules,
  ==_iff sid id,
  λ (s : Inner). insert_one-schedules s job now,
  λ (last : ℤ). ltb_ℤ-trans last occurrence at,
)

remove_schedule-recorded :
    (id : Text) (occurrence : ℤ) (b : InMemoryBroker) (sid : Text)
    → not (sid == id) ≡ true
    → is_recorded id occurrence b.inner.schedules ≡ true
    → is_recorded id occurrence (Stores.remove_schedule b sid).inner.schedules ≡ true
unfolding Stores.remove_schedule is_recorded
remove_schedule-recorded id occurrence b sid other h =
    ground (arith, lookup-remove sid id b.inner.schedules)

-- The calls but for the removal of the schedule.
unfoldable pub is_kept : Text → Call → Bool
is_kept id (Call.unschedules other) = not (other == id)
is_kept id _ = true

unfoldable pub all_kept : Text → List Call → Bool
unfolding is_kept
all_kept id [] = true
all_kept id (call ∷ calls) = is_kept id call && all_kept id calls

unfoldable pub run : InMemoryBroker → List Call → InMemoryBroker
unfolding step
run b [] = b
run b (call ∷ calls) = run (step b call) calls

abbrev Recorded : Text → ℤ → InMemoryBroker → Type 0
Recorded id occurrence b = is_recorded id occurrence b.inner.schedules ≡ true

same_schedules :
    (id : Text) (occurrence : ℤ) {before after : List (Text × ℤ)}
    → after ≡ before
    → is_recorded id occurrence before ≡ true
    → is_recorded id occurrence after ≡ true
same_schedules id occurrence same h = ap (is_recorded id occurrence) same ∙ h

step-Recorded :
    (id : Text) (occurrence : ℤ) (b : InMemoryBroker) (call : Call)
    → is_kept id call ≡ true
    → Recorded id occurrence b
    → Recorded id occurrence (step b call)
unfolding step is_kept
step-Recorded id occurrence b (Call.enqueues job now) k h =
    same_schedules id occurrence (enqueue-schedules b job now) h
step-Recorded id occurrence b (Call.batches jobs now) k h =
    same_schedules id occurrence (enqueue_batch-schedules b jobs now) h
step-Recorded id occurrence b (Call.reserves lane now receipt) k h =
    same_schedules id occurrence (reserve-schedules b lane now receipt) h
step-Recorded id occurrence b (Call.acks receipt now) k h =
    same_schedules id occurrence (ack-schedules b receipt now) h
step-Recorded id occurrence b (Call.retries receipt delay now) k h =
    same_schedules id occurrence (retry-schedules b receipt delay now) h
step-Recorded id occurrence b (Call.defers receipt delay now) k h =
    same_schedules id occurrence (defer-schedules b receipt delay now) h
step-Recorded id occurrence b (Call.fails receipt error now) k h =
    same_schedules id occurrence (fail-schedules b receipt error now) h
step-Recorded id occurrence b (Call.extends receipt now) k h =
    same_schedules id occurrence (extend-schedules b receipt now) h
step-Recorded id occurrence b (Call.requeues job now) k h =
    same_schedules id occurrence (requeue-schedules b job now) h
step-Recorded id occurrence b (Call.purges lane) k h =
    same_schedules id occurrence (purge-schedules b lane) h
step-Recorded id occurrence b (Call.schedules sid at job now) k h =
    enqueue_scheduled-recorded id occurrence b sid at job now h
step-Recorded id occurrence b (Call.unschedules sid) k h =
    remove_schedule-recorded id occurrence b sid k h

run-Recorded :
    (id : Text) (occurrence : ℤ) (b : InMemoryBroker) (calls : List Call)
    → all_kept id calls ≡ true
    → Recorded id occurrence b
    → Recorded id occurrence (run b calls)
unfolding run all_kept
run-Recorded id occurrence b [] k h = h
run-Recorded id occurrence b (call ∷ calls) k h =
    run-Recorded id occurrence (step b call) calls (ground arith)
      (step-Recorded id occurrence b call (ground arith) h)

claimed-Recorded :
    (b : InMemoryBroker) (id : Text) (occurrence : ℤ) (job : NewJob) (now : ℕ)
    → Recorded id occurrence (enqueue_scheduled b id occurrence job now).0
unfolding enqueue_scheduled is_recorded is_new_occurrence
claimed-Recorded b id occurrence job now =
    let s = record (b.inner) { schedules = insert id occurrence b.inner.schedules } in
    ground (
      arith,
      lookup-insert id id occurrence b.inner.schedules,
      ==_refl id,
      insert_one-schedules s job now,
    )

-- A scheduled occurrence is enqueued at most once: once it was offered, whatever calls follow, as
-- long as the schedule is not removed, offering it or an earlier occurrence of the schedule again
-- answers false and changes nothing.
pub enqueue_scheduled-once :
    (b : InMemoryBroker) (id : Text) (occurrence earlier : ℤ) (job again : NewJob) (now later : ℕ)
    (calls : List Call)
    → all_kept id calls ≡ true
    → ltb_ℤ occurrence earlier ≡ false
    → let c = run (enqueue_scheduled b id occurrence job now).0 calls in
      enqueue_scheduled c id earlier again later ≡ (c, ok false)
unfolding enqueue_scheduled is_new_occurrence is_recorded
enqueue_scheduled-once b id occurrence earlier job again now later calls k h =
    let first = (enqueue_scheduled b id occurrence job now).0 in
    let kept =
      run-Recorded id occurrence first calls k (claimed-Recorded b id occurrence job now) in
    elim (Option-cases (lookup id (run first calls).inner.schedules)) [
      | inl none_found ↦ absurd (ground arith)
      | inr (last, found) ↦ ground (arith, found, kept, ltb_ℤ-trans last occurrence earlier)
    ]
