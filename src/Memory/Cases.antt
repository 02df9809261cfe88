-- ===== src/Memory/Cases.antt =====
-- The ways that a resolution by receipt can go, and those of a reservation.
use worklane.Base.{
  ℕ, zero, suc, ◌≡◌, refl, true, false, Option, none, some, inl, inr, any, get_elem?, arith,
  position, Bool-cases, Option-cases, position_sound, position-none_iff, ==_iff,
}
use worklane.Base.Text.{text_Eq}
use worklane.Core.Error.{Result, ok, err}
use worklane.Core.Envelope.{JobId, Receipt, Lane, Reservation}
use worklane.Core.Spi.{stale}
use worklane.Memory.Stores.{requeue, dead_has_id, no_dead_letter, id_conflict, key_conflict, revive}
use worklane.Memory.State.{has_id, holder, DeadEntry, StoredJob, InMemoryBroker, pick_best}
use worklane.Memory.Ops.{
  with_current, find_current_receipt, has_receipt, has_lapsed, unlease, put_job, reserve_loop,
  sweep_one, hand_out, is_spent,
}
use worklane.Memory.Pick.{pick_best-IsChoice, IsChoice}

module _ (b : InMemoryBroker) (receipt : Receipt) (now : ℕ)
    (change : InMemoryBroker → ℕ → StoredJob → InMemoryBroker) where
  unknown_receipt :
      position (has_receipt receipt) b.inner.jobs ≡ none
      → with_current b receipt now change ≡ (b, err (stale receipt))
  unfolding with_current find_current_receipt
  unknown_receipt e = ground arith

  lapsed_receipt :
      (i : ℕ) (j : StoredJob)
      → position (has_receipt receipt) b.inner.jobs ≡ some (i, j)
      → has_lapsed now j ≡ true
      → with_current b receipt now change ≡ (put_job b i (unlease j), err (stale receipt))
  unfolding with_current find_current_receipt put_job
  lapsed_receipt i j e l = ground arith

  current_receipt :
      (i : ℕ) (j : StoredJob)
      → position (has_receipt receipt) b.inner.jobs ≡ some (i, j)
      → has_lapsed now j ≡ false
      → with_current b receipt now change ≡ (change b i j, ok tt)
  unfolding with_current find_current_receipt
  current_receipt i j e l = ground arith

-- The receipt is nobody's, or its lease has run out and is released, or the change is made.
pub with_current_cases {ℓ} :
    (P : InMemoryBroker × Result (Unit {0}) → Type ℓ) (b : InMemoryBroker) (receipt : Receipt)
    (now : ℕ) (change : InMemoryBroker → ℕ → StoredJob → InMemoryBroker)
    → (any (has_receipt receipt) b.inner.jobs ≡ false → P (b, err (stale receipt)))
    → ((i : ℕ) (j : StoredJob)
        → get_elem? b.inner.jobs i ≡ some j
        → has_receipt receipt j ≡ true
        → has_lapsed now j ≡ true
        → P (put_job b i (unlease j), err (stale receipt)))
    → ((i : ℕ) (j : StoredJob)
        → get_elem? b.inner.jobs i ≡ some j
        → has_receipt receipt j ≡ true
        → has_lapsed now j ≡ false
        → P (change b i j, ok tt))
    → P (with_current b receipt now change)
with_current_cases P b receipt now change unknown lapsed current =
    elim (Option-cases (position (has_receipt receipt) b.inner.jobs)) [
      | inl e ↦
          rw (unknown_receipt b receipt now change e)
            (unknown ((position-none_iff _ b.inner.jobs).0 e))
      | inr ((i, j), e) ↦
          let found = position_sound (has_receipt receipt) b.inner.jobs i j e in
          elim (Bool-cases (has_lapsed now j)) [
            | inl l ↦
                rw (lapsed_receipt b receipt now change i j e l) (lapsed i j found.0 found.1 l)
            | inr l ↦
                rw (current_receipt b receipt now change i j e l) (current i j found.0 found.1 l)
          ]
    ]

-- The loop of `reserve`: what every pass of the sweep keeps holds of what is handed out.
module _ {ℓ κ} (P : InMemoryBroker → Type ℓ) (Q : InMemoryBroker × Option Reservation → Type κ)
    (lane : Lane) (now : ℕ) (receipt : Receipt) (empty : (b : InMemoryBroker) → P b → Q (b, none))
    (sweep : (b : InMemoryBroker) (i : ℕ) (j : StoredJob)
      → P b
      → IsChoice b.inner.jobs lane now (some (i, j))
      → is_spent b.max_deliveries j ≡ true
      → P (sweep_one b i j now))
    (hand : (b : InMemoryBroker) (i : ℕ) (j : StoredJob)
      → P b
      → IsChoice b.inner.jobs lane now (some (i, j))
      → is_spent b.max_deliveries j ≡ false
      → Q (hand_out b i j now receipt)) where
  pub reserve_loop_pass :
      (left : ℕ) (b : InMemoryBroker) (r : Option (ℕ × StoredJob))
      → pick_best b.inner.jobs lane now ≡ r
      → IsChoice b.inner.jobs lane now r
      → P b
      → ((b' : InMemoryBroker) → P b' → Q (reserve_loop left b' lane now receipt))
      → Q (reserve_loop (suc left) b lane now receipt)
  unfolding reserve_loop
  reserve_loop_pass left b none e c p again = rw (e, reserve_loop) (empty b p)
  reserve_loop_pass left b (some (i, j)) e c p again =
      elim (Bool-cases (is_spent b.max_deliveries j)) [
        | inl s ↦ rw (e, s, reserve_loop) (again (sweep_one b i j now) (sweep b i j p c s))
        | inr s ↦ rw (e, s, reserve_loop) (hand b i j p c s)
      ]

  pub reserve_loop_rule :
      (left : ℕ) (b : InMemoryBroker) → P b → Q (reserve_loop left b lane now receipt)
  unfolding reserve_loop
  reserve_loop_rule zero b p = empty b p
  reserve_loop_rule (suc left) b p =
      reserve_loop_pass left b (pick_best b.inner.jobs lane now) refl
        (pick_best-IsChoice b.inner.jobs lane now) p (reserve_loop_rule left)

module _ (b : InMemoryBroker) (id : JobId) (now : ℕ) where
  requeue_unknown :
      position (dead_has_id id) b.inner.dead ≡ none
      → requeue b id now ≡ (b, err (no_dead_letter id))
  unfolding requeue
  requeue_unknown e = ground arith

  module _ (i : ℕ) (d : DeadEntry)
      (found : position (dead_has_id id) b.inner.dead ≡ some (i, d)) where
    requeue_conflict :
        any (has_id id) b.inner.jobs ≡ true → requeue b id now ≡ (b, err (id_conflict id))
    unfolding requeue
    requeue_conflict e = ground arith

    requeue_held :
        (other : JobId)
        → any (has_id id) b.inner.jobs ≡ false
        → holder d.unique_key b.inner.unique ≡ some other
        → requeue b id now ≡ (b, err (key_conflict id d.unique_key))
    unfolding requeue
    requeue_held other e f = ground arith

    requeue_revives :
        any (has_id id) b.inner.jobs ≡ false
        → holder d.unique_key b.inner.unique ≡ none
        → requeue b id now ≡ (record b { inner = revive b.inner i d id now }, ok tt)
    unfolding requeue
    requeue_revives e f = ground arith

-- A requeue finds no dead letter, or meets a live job with the id or with the key, or revives.
pub requeue_cases {ℓ} :
    (P : InMemoryBroker × Result (Unit {0}) → Type ℓ) (b : InMemoryBroker) (id : JobId) (now : ℕ)
    → (any (dead_has_id id) b.inner.dead ≡ false → P (b, err (no_dead_letter id)))
    → ((i : ℕ) (d : DeadEntry)
        → get_elem? b.inner.dead i ≡ some d
        → d.letter.envelope.id ≡ id
        → any (has_id id) b.inner.jobs ≡ true
        → P (b, err (id_conflict id)))
    → ((i : ℕ) (d : DeadEntry)
        → get_elem? b.inner.dead i ≡ some d
        → d.letter.envelope.id ≡ id
        → any (has_id id) b.inner.jobs ≡ false
        → (holder d.unique_key b.inner.unique ≡ none → ⊥)
        → P (b, err (key_conflict id d.unique_key)))
    → ((i : ℕ) (d : DeadEntry)
        → get_elem? b.inner.dead i ≡ some d
        → d.letter.envelope.id ≡ id
        → any (has_id id) b.inner.jobs ≡ false
        → holder d.unique_key b.inner.unique ≡ none
        → P (record b { inner = revive b.inner i d id now }, ok tt))
    → P (requeue b id now)
requeue_cases P b id now unknown conflict held revives =
    elim (Option-cases (position (dead_has_id id) b.inner.dead)) [
      | inl e ↦ rw (requeue_unknown b id now e) (unknown ((position-none_iff _ b.inner.dead).0 e))
      | inr ((i, d), e) ↦
          let found = position_sound (dead_has_id id) b.inner.dead i d e in
          let same = (==_iff d.letter.envelope.id id).0 found.1 in
          elim (Bool-cases (any (has_id id) b.inner.jobs)) [
            | inl c ↦ rw (requeue_conflict b id now i d e c) (conflict i d found.0 same c)
            | inr c ↦ elim (Option-cases (holder d.unique_key b.inner.unique)) [
              | inl f ↦ rw (requeue_revives b id now i d e c f) (revives i d found.0 same c f)
              | inr (other, f) ↦
                  rw (requeue_held b id now i d e other c f)
                    (held i d found.0 same c (λ n. ground arith))
            ]
          ]
    ]
