-- ===== src/Memory/Invariant/Methods.antt =====
-- Every method of the in-memory broker keeps the invariant.
use worklane.Base.{
  ℕ, ◌≡◌, refl, true, false, none, some, any, map, get_elem?, arith, map-set, Option-cases,
  Bool-cases, inl, inr, map-set_same, map-erase_idx,
}
use worklane.Base.Text.{Text, text_Eq}
use worklane.Base.Keyed.{contains, Distinct-set, contains-erase_idx}
use worklane.Core.Envelope.{Receipt, Lane, NewJob}
use worklane.Memory.State.{StoredJob, Inner, InMemoryBroker, has_id, holder, insert_one, stored}
use worklane.Memory.Dead.{dead_letter_at}
use worklane.Memory.Ops
use worklane.Memory.Ops.{
  retry_job, defer_job, extend_job, with_current, put_job, remove_job, fail_job, unlease, retried,
  deferred, extended, leased, has_receipt, has_lapsed, sweep_one, hand_out, reserve_loop, is_spent,
  release_lapsed,
}
use worklane.Memory.Cases.{with_current_cases, reserve_loop_rule}
use worklane.Memory.Invariant.{Inv, receipt_of}
use worklane.Memory.Invariant.Edits.{
  set-IsIndexed, erase-IsIndexed, append-IsIndexed, lapsed-IsIndexed, contains_lapsed,
}

-- A job that loses its lease and its receipt.
put_unleased-Inv :
    (b : InMemoryBroker) (i : ℕ) (j w : StoredJob)
    → Inv b.inner
    → get_elem? b.inner.jobs i ≡ some j
    → w.unique_key ≡ j.unique_key
    → w.envelope.id ≡ j.envelope.id
    → w.receipt ≡ none
    → w.leased_until ≡ none
    → Inv (put_job b i w).inner
unfolding put_job
put_unleased-Inv b i j w v h k e r l =
    set-IsIndexed v i j w h k e
      (rw (map-set receipt_of b.inner.jobs i w, r)
        (Distinct-set (map receipt_of b.inner.jobs) i none v.receipts tt))
      ((λ _. l), (λ _. r))

-- A change of the job that its receipt finds keeps the invariant.
abbrev pub Keeps : (InMemoryBroker → ℕ → StoredJob → InMemoryBroker) → Type 0
Keeps change =
    (b : InMemoryBroker) (i : ℕ) (j : StoredJob)
    → Inv b.inner
    → get_elem? b.inner.jobs i ≡ some j
    → (j.receipt ≡ none → ⊥)
    → Inv (change b i j).inner

has_receipt-ne-none :
    (receipt : Receipt) (j : StoredJob) → has_receipt receipt j ≡ true → j.receipt ≡ none → ⊥
has_receipt-ne-none receipt j h e = ground arith

pub with_current-Inv :
    (change : InMemoryBroker → ℕ → StoredJob → InMemoryBroker)
    → Keeps change
    → (b : InMemoryBroker) (receipt : Receipt) (now : ℕ) → Inv b.inner
    → Inv (with_current b receipt now change).0.inner
unfolding unlease
with_current-Inv change keeps b receipt now v =
    with_current_cases (λ r. Inv r.0.inner) b receipt now change (λ _. v)
      (λ i j h _ _. put_unleased-Inv b i j (unlease j) v h refl refl refl refl)
      (λ i j h r _. keeps b i j v h (has_receipt-ne-none receipt j r))

pub remove_job-Keeps : Keeps remove_job
unfolding remove_job
remove_job-Keeps b i j v h r = erase-IsIndexed v i j h

pub fail_job-Keeps : (error : Text) (now : ℕ) → Keeps (fail_job error now)
unfolding fail_job dead_letter_at
fail_job-Keeps error now b i j v h r = erase-IsIndexed v i j h

pub retry_job-Keeps : (delay now : ℕ) → Keeps (retry_job delay now)
unfolding retry_job retried
retry_job-Keeps delay now b i j v h r = put_unleased-Inv b i j (retried j _) v h refl refl refl refl

pub defer_job-Keeps : (delay now : ℕ) → Keeps (defer_job delay now)
unfolding defer_job deferred
defer_job-Keeps delay now b i j v h r =
    put_unleased-Inv b i j (deferred j _) v h refl refl refl refl

pub extend_job-Keeps : (now : ℕ) → Keeps (extend_job now)
unfolding extend_job extended put_job
extend_job-Keeps now b i j v h r =
    set-IsIndexed v i j (extended j _) h refl refl
      (rw (map-set_same receipt_of b.inner.jobs i (extended j _) j h refl) v.receipts)
      ((λ e. absurd (r e)), (λ e. ground arith))

pub insert_one-Inv : (s : Inner) (job : NewJob) (now : ℕ) → Inv s → Inv (insert_one s job now).0
unfolding insert_one stored
insert_one-Inv s job now v = elim (Bool-cases (any (has_id job.id) s.jobs)) [
  | inl e ↦ rw (e, insert_one) v
  | inr e ↦ elim (Option-cases (holder job.unique_key s.unique)) [
    | inl f ↦ rw (e, f, insert_one) (append-IsIndexed v (stored job now) e f refl refl)
    | inr (id, f) ↦ rw (e, f, insert_one) v
  ]
]

-- The receipt that a reservation draws is no live job's.
abbrev pub IsFresh : Receipt → Inner → Type 0
IsFresh receipt s = contains receipt (map receipt_of s.jobs) ≡ false

hand_out-Inv :
    (b : InMemoryBroker) (i : ℕ) (j : StoredJob) (now : ℕ) (receipt : Receipt)
    → Inv b.inner
    → IsFresh receipt b.inner
    → get_elem? b.inner.jobs i ≡ some j
    → Inv (hand_out b i j now receipt).0.inner
unfolding hand_out put_job leased
hand_out-Inv b i j now receipt v fresh h =
    set-IsIndexed v i j _ h refl refl
      (rw (map-set receipt_of b.inner.jobs i _)
        (Distinct-set (map receipt_of b.inner.jobs) i (some receipt) v.receipts fresh))
      ((λ e. ground arith), (λ e. ground arith))

sweep_one-Inv :
    (b : InMemoryBroker) (i : ℕ) (j : StoredJob) (now : ℕ)
    → Inv b.inner
    → get_elem? b.inner.jobs i ≡ some j
    → Inv (sweep_one b i j now).inner
unfolding sweep_one dead_letter_at
sweep_one-Inv b i j now v h = erase-IsIndexed v i j h

sweep_one-IsFresh :
    (b : InMemoryBroker) (i : ℕ) (j : StoredJob) (now : ℕ) (receipt : Receipt)
    → IsFresh receipt b.inner
    → IsFresh receipt (sweep_one b i j now).inner
unfolding sweep_one dead_letter_at
sweep_one-IsFresh b i j now receipt f =
    rw (map-erase_idx receipt_of b.inner.jobs i)
      (contains-erase_idx receipt (map receipt_of b.inner.jobs) i f)

pub reserve-Inv :
    (b : InMemoryBroker) (lane : Lane) (now : ℕ) (receipt : Receipt)
    → Inv b.inner
    → IsFresh receipt b.inner
    → Inv (Ops.reserve b lane now receipt).0.inner
unfolding Ops.reserve
reserve-Inv b lane now receipt v f =
    reserve_loop_rule (λ c. Inv c.inner × IsFresh receipt c.inner) (λ r. Inv r.0.inner) lane now
      receipt (λ c p. p.0)
      (λ c i j p h _. (sweep_one-Inv c i j now p.0 h.0, sweep_one-IsFresh c i j now receipt p.1))
      (λ c i j p h _. hand_out-Inv c i j now receipt p.0 p.1 h.0) 128 _
      (lapsed-IsIndexed now v, contains_lapsed now receipt b.inner.jobs f)
