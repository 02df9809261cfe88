-- ===== src/Memory/Receipts.antt =====
-- What a reservation receipt is good for.
use worklane.Base.{
  ℕ, ◌≡◌, refl, sym, ap, ◌∙◌, true, false, Option, none, some, List, [], ◌∷◌, any, map, set,
  any_of_get, erase_idx, get_elem?, arith, subst, map-set, map-erase_idx, get_elem?-map,
}
use mathlib.Core.Bool.{false≢true}
use worklane.Base.Text.{Text, text_eq_iff}
use worklane.Base.Keyed.{contains, contains-set_self, contains-erase_idx_self}
use worklane.Core.Error.{Result, ok, err}
use worklane.Core.Envelope.{Receipt}
use worklane.Core.Spi.{stale}
use worklane.Memory.State.{StoredJob, InMemoryBroker}
use worklane.Memory.Dead.{dead_letter_at}
use worklane.Memory.Ops
use worklane.Memory.Ops.{
  with_current, has_receipt, put_job, remove_job, fail_job, retry_job, defer_job, retried, deferred,
}
use worklane.Memory.Cases.{with_current_cases}
use worklane.Memory.Invariant.{Inv, receipt_of}

-- The ways to end a reservation.
pub data Resolution : Type 0 where
  acking : Resolution
  retrying deferring : ℕ → Resolution
  failing : Text → Resolution

unfoldable pub resolve :
    InMemoryBroker → Resolution → Receipt → ℕ → InMemoryBroker × Result (Unit {0})
resolve b Resolution.acking receipt now = Ops.ack b receipt now
resolve b (Resolution.retrying delay) receipt now = Ops.retry b receipt delay now
resolve b (Resolution.deferring delay) receipt now = Ops.defer b receipt delay now
resolve b (Resolution.failing error) receipt now = Ops.fail b receipt error now

change_of : Resolution → ℕ → InMemoryBroker → ℕ → StoredJob → InMemoryBroker
change_of Resolution.acking now = remove_job
change_of (Resolution.retrying delay) now = retry_job delay now
change_of (Resolution.deferring delay) now = defer_job delay now
change_of (Resolution.failing error) now = fail_job error now

resolve-with_current :
    (b : InMemoryBroker) (res : Resolution) (receipt : Receipt) (now : ℕ)
    → resolve b res receipt now ≡ with_current b receipt now (change_of res now)
unfolding resolve change_of Ops.ack Ops.retry Ops.defer Ops.fail
resolve-with_current b Resolution.acking receipt now = refl
resolve-with_current b (Resolution.retrying delay) receipt now = refl
resolve-with_current b (Resolution.deferring delay) receipt now = refl
resolve-with_current b (Resolution.failing error) receipt now = refl

-- No live job carries the receipt.
abbrev pub IsDead : Receipt → InMemoryBroker → Type 0
IsDead receipt b = any (has_receipt receipt) b.inner.jobs ≡ false

any-contains :
    (receipt : Receipt) (js : List StoredJob)
    → any (has_receipt receipt) js ≡ contains receipt (map receipt_of js)
any-contains receipt [] = refl
any-contains receipt (j ∷ js) = ground (arith, any-contains receipt js)

receipt-eq :
    (receipt : Receipt) (j : StoredJob) → has_receipt receipt j ≡ true → receipt_of j ≡ some receipt
receipt-eq receipt j h = go j.receipt refl
  where
    go : (o : Option Text) → j.receipt ≡ o → receipt_of j ≡ some receipt
    go none e = ground arith
    go (some r) e = ground (arith, text_eq_iff r receipt)

module _ (b : InMemoryBroker) (v : Inv b.inner) (i : ℕ) (j : StoredJob) (receipt : Receipt)
    (at : get_elem? (map receipt_of b.inner.jobs) i ≡ some (some receipt)) where
  erased-IsDead : any (has_receipt receipt) (erase_idx b.inner.jobs i) ≡ false
  erased-IsDead =
      rw (any-contains receipt (erase_idx b.inner.jobs i), map-erase_idx receipt_of b.inner.jobs i)
        (contains-erase_idx_self (map receipt_of b.inner.jobs) i receipt v.receipts at)

  unleased-IsDead :
      (w : StoredJob) → w.receipt ≡ none → any (has_receipt receipt) (set b.inner.jobs i w) ≡ false
  unleased-IsDead w e =
      rw (any-contains receipt (set b.inner.jobs i w), map-set receipt_of b.inner.jobs i w, e)
        (contains-set_self (map receipt_of b.inner.jobs) i receipt v.receipts at)

  change-IsDead : (res : Resolution) (now : ℕ) → IsDead receipt (change_of res now b i j)
  unfolding change_of remove_job retry_job defer_job fail_job dead_letter_at retried deferred
      put_job
  change-IsDead Resolution.acking now = erased-IsDead
  change-IsDead (Resolution.retrying delay) now = unleased-IsDead _ refl
  change-IsDead (Resolution.deferring delay) now = unleased-IsDead _ refl
  change-IsDead (Resolution.failing error) now = erased-IsDead

unknown_is_stale :
    (b : InMemoryBroker) (receipt : Receipt) (now : ℕ)
    (change : InMemoryBroker → ℕ → StoredJob → InMemoryBroker)
    → IsDead receipt b
    → with_current b receipt now change ≡ (b, err (stale receipt))
unknown_is_stale b receipt now change d =
    with_current_cases (λ r. r ≡ (b, err (stale receipt))) b receipt now change (λ _. refl)
      (λ i j g e _. absurd (known i j g e)) (λ i j g e _. absurd (known i j g e))
  where
    known :
        (i : ℕ) (j : StoredJob)
        → get_elem? b.inner.jobs i ≡ some j
        → has_receipt receipt j ≡ true
        → ⊥
    known i j g e = false≢true (sym d ∙ any_of_get (has_receipt receipt) b.inner.jobs i j g e)

resolved-IsDead :
    (b c : InMemoryBroker) (res : Resolution) (receipt : Receipt) (now : ℕ)
    → Inv b.inner
    → with_current b receipt now (change_of res now) ≡ (c, ok tt)
    → IsDead receipt c
resolved-IsDead b c res receipt now v =
    with_current_cases (λ r. r ≡ (c, ok tt) → IsDead receipt c) b receipt now (change_of res now)
      (λ _ e. cc) (λ i j _ _ _ e. cc)
      (λ i j g e _ h. subst (IsDead receipt) (ap (λ r. r.0) h) (
        change-IsDead b v i j receipt
          (get_elem?-map receipt_of b.inner.jobs i j g ∙ ap some (receipt-eq receipt j e)) res now))

-- Once a reservation is acknowledged, retried, deferred or failed, its receipt is spent: every
-- further resolution and every extension of it is rejected as stale and changes nothing.
pub resolve_once :
    (b c : InMemoryBroker) (first : Resolution) (receipt : Receipt) (now : ℕ)
    → Inv b.inner
    → resolve b first receipt now ≡ (c, ok tt)
    → (second : Resolution) (later : ℕ)
    → (resolve c second receipt later ≡ (c, err (stale receipt)))
      × (Ops.extend c receipt later ≡ (c, err (stale receipt)))
unfolding Ops.extend
resolve_once b c first receipt now v h second later =
    let dead =
      resolved-IsDead b c first receipt now v
        (sym (resolve-with_current b first receipt now) ∙ h) in
    (
      resolve-with_current c second receipt later
          ∙ unknown_is_stale c receipt later (change_of second later) dead,
      unknown_is_stale c receipt later (Ops.extend_job later) dead,
    )
