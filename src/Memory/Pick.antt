-- ===== src/Memory/Pick.antt =====
-- crates/worklane-memory/src/lib.rs, `pick_best`: the scan against what it is to find.
use worklane.Base.{
  ℕ, zero, suc, ◌+◌, ◌≤◌, ◌<◌, ◌≡◌, refl, true, false, Option, none, some, List, [], ◌∷◌, ◌⊎◌, inl,
  inr, get_elem?, arith, Bool-cases, subst, sym, ◌∙◌,
}
use native.Mathlib.Nat.{add-zero, zero-add, add-suc, suc-add}
use worklane.Core.Envelope.{Lane}
use worklane.Memory.State.{StoredJob, is_visible, is_better, take_better, pick_from, pick_best}

-- The job `j` at `i` goes before the job `c` at `k`, or is it: by priority, then by the time at
-- which it became available, then by position.
abbrev pub Precedes : ℕ → StoredJob → ℕ → StoredJob → Type 0
Precedes i j k c =
    (c.envelope.priority < j.envelope.priority)
    ⊎ ((c.envelope.priority ≡ j.envelope.priority)
        × ((j.available_at < c.available_at) ⊎ ((j.available_at ≡ c.available_at) × (i ≤ k))))

abbrev Covers : Option (ℕ × StoredJob) → ℕ → StoredJob → Type 0
Covers none k c = ⊥
Covers (some (i, j)) k c = Precedes i j k c

abbrev Below : ℕ → Option (ℕ × StoredJob) → Type 0
Below n none = Unit
Below n (some (i, j)) = i < n

Covers-take :
    (n : ℕ) (j : StoredJob) (best : Option (ℕ × StoredJob)) (k : ℕ) (c : StoredJob)
    → Covers best k c
    → Covers (take_better n j best) k c
unfolding take_better is_better
Covers-take n j none k c h = absurd h
Covers-take n j (some (b, bj)) k c h = ground arith

Covers-take_self :
    (n : ℕ) (j : StoredJob) (best : Option (ℕ × StoredJob))
    → Below n best
    → Covers (take_better n j best) n j
unfolding take_better is_better
Covers-take_self n j none h = ground arith
Covers-take_self n j (some (b, bj)) h = ground arith

Below-take :
    (n : ℕ) (j : StoredJob) (best : Option (ℕ × StoredJob))
    → Below n best
    → Below (suc n) (take_better n j best)
unfolding take_better
Below-take n j none h = omega arith
Below-take n j (some (b, bj)) h = ground arith

Below-suc : (n : ℕ) (best : Option (ℕ × StoredJob)) → Below n best → Below (suc n) best
Below-suc n none h = tt
Below-suc n (some (b, bj)) h = omega arith

take-cases :
    (n : ℕ) (j : StoredJob) (best : Option (ℕ × StoredJob))
    → (take_better n j best ≡ some (n, j)) ⊎ (take_better n j best ≡ best)
unfolding take_better
take-cases n j none = inl refl
take-cases n j (some (b, bj)) = ground arith

module _ (lane : Lane) (now : ℕ) where
  Covers-pick :
      (n : ℕ) (best : Option (ℕ × StoredJob)) (js : List StoredJob) (k : ℕ) (c : StoredJob)
      → Covers best k c
      → Covers (pick_from lane now n best js) k c
  unfolding pick_from
  Covers-pick n best [] k c h = h
  Covers-pick n best (j ∷ js) k c h = elim (Bool-cases (is_visible lane now j)) [
    | inl e ↦ rw e (Covers-pick (suc n) _ js k c (Covers-take n j best k c h))
    | inr e ↦ rw e (Covers-pick (suc n) best js k c h)
  ]

  pick-Covers :
      (n : ℕ) (best : Option (ℕ × StoredJob)) (js : List StoredJob) (k : ℕ) (c : StoredJob)
      → Below n best
      → get_elem? js k ≡ some c
      → is_visible lane now c ≡ true
      → Covers (pick_from lane now n best js) (n + k) c
  unfolding pick_from
  pick-Covers n best [] k c b h v = ground arith
  pick-Covers n best (j ∷ js) zero c b h v =
      let same : j ≡ c = ground arith in
      let seen : is_visible lane now j ≡ true = rw same v in
      rw (add-zero n, seen)
        (subst (Covers (pick_from lane now (suc n) (take_better n j best) js) n) same
          (Covers-pick (suc n) (take_better n j best) js n j (Covers-take_self n j best b)))
  pick-Covers n best (j ∷ js) (suc k) c b h v = elim (Bool-cases (is_visible lane now j)) [
    | inl e ↦
        rw (add-suc n k, ← suc-add n k, e)
          (pick-Covers (suc n) (take_better n j best) js k c (Below-take n j best b) h v)
    | inr e ↦
        rw (add-suc n k, ← suc-add n k, e)
          (pick-Covers (suc n) best js k c (Below-suc n best b) h v)
  ]

  -- What the scan returns was there before, or is a visible job of the list.
  abbrev Comes : ℕ → Option (ℕ × StoredJob) → List StoredJob → Option (ℕ × StoredJob) → Type 0
  Comes n best js none = best ≡ none
  Comes n best js (some (i, j)) =
      (best ≡ some (i, j))
      ⊎ ((d : ℕ) × (i ≡ n + d) × (get_elem? js d ≡ some j) × (is_visible lane now j ≡ true))

  Comes-take :
      (n : ℕ) (j : StoredJob) (best : Option (ℕ × StoredJob)) (js : List StoredJob)
      → is_visible lane now j ≡ true
      → (r : Option (ℕ × StoredJob)) → Comes (suc n) (take_better n j best) js r
      → Comes n best (j ∷ js) r
  unfolding take_better
  Comes-take n j none js v none h = ground arith
  Comes-take n j (some (b, bj)) js v none h = ground arith
  Comes-take n j best js v (some (i, k)) (inr (d, e, g, w)) = inr (suc d, omega arith, g, w)
  Comes-take n j best js v (some (i, k)) (inl e) = elim (take-cases n j best) [
    | inl new ↦ inr (0, ground arith, ground arith, ground arith)
    | inr old ↦ inl (sym old ∙ e)
  ]

  Comes-skip :
      (n : ℕ) (j : StoredJob) (best : Option (ℕ × StoredJob)) (js : List StoredJob)
      (r : Option (ℕ × StoredJob))
      → Comes (suc n) best js r
      → Comes n best (j ∷ js) r
  Comes-skip n j best js none h = h
  Comes-skip n j best js (some (i, k)) (inl e) = inl e
  Comes-skip n j best js (some (i, k)) (inr (d, e, g, v)) = inr (suc d, omega arith, g, v)

  pick-Comes :
      (n : ℕ) (best : Option (ℕ × StoredJob)) (js : List StoredJob)
      → Comes n best js (pick_from lane now n best js)
  unfolding pick_from
  pick-Comes n none [] = refl
  pick-Comes n (some b) [] = inl refl
  pick-Comes n best (j ∷ js) = elim (Bool-cases (is_visible lane now j)) [
    | inl e ↦ rw e (Comes-take n j best js e _ (pick-Comes (suc n) (take_better n j best) js))
    | inr e ↦ rw e (Comes-skip n j best js _ (pick-Comes (suc n) best js))
  ]

-- What `pick_best` promises: a visible job that goes before every visible job, or the news that
-- no job is visible.
abbrev pub IsChoice : List StoredJob → Lane → ℕ → Option (ℕ × StoredJob) → Type 0
IsChoice jobs lane now none =
    (k : ℕ) (c : StoredJob) → get_elem? jobs k ≡ some c → is_visible lane now c ≡ false
IsChoice jobs lane now (some (i, j)) =
    (get_elem? jobs i ≡ some j)
    × (is_visible lane now j ≡ true)
    × ((k : ℕ) (c : StoredJob)
        → get_elem? jobs k ≡ some c
        → is_visible lane now c ≡ true
        → Precedes i j k c)

IsChoice-of :
    (jobs : List StoredJob) (lane : Lane) (now : ℕ) (r : Option (ℕ × StoredJob))
    → ((k : ℕ) (c : StoredJob)
        → get_elem? jobs k ≡ some c
        → is_visible lane now c ≡ true
        → Covers r k c)
    → Comes lane now 0 none jobs r
    → IsChoice jobs lane now r
IsChoice-of jobs lane now none all e =
    λ k c h. elim (Bool-cases (is_visible lane now c)) [ inl v ↦ absurd (all k c h v) | inr v ↦ v ]
IsChoice-of jobs lane now (some (i, j)) all (inl e) = ground arith
IsChoice-of jobs lane now (some (i, j)) all (inr (d, e, g, v)) = (rw (e, zero-add d) g, v, all)

-- The scan of `pick_best` finds the visible job of the lane with the highest priority, the earliest
-- of these by the time at which they became available, and the first of these in the store; it
-- finds none exactly when no job of the lane is visible.
pub pick_best-IsChoice :
    (jobs : List StoredJob) (lane : Lane) (now : ℕ)
    → IsChoice jobs lane now (pick_best jobs lane now)
unfolding pick_best
pick_best-IsChoice jobs lane now =
    IsChoice-of jobs lane now _
      (λ k c h v. rw (← zero-add k) (pick-Covers lane now 0 none jobs k c tt h v))
      (pick-Comes lane now 0 none jobs)
