-- ===== src/Workflow/Progress.antt =====
-- The payload that a watcher leaves to the next generation.
use worklane.Base.{
  ℕ, zero, suc, ◌≡◌, ◌≤◌, ◌<◌, refl, ap, ◌∙◌, subst, true, false, Option, none, some, List, [], ◌∷◌,
  ◌++◌, get_elem?, set, length, nat_eq, ◌==◌, ==_iff, ==_refl, arith, Bool-cases, Option-cases, inl,
  inr,
}
use worklane.Base.Text.{Text, text_Eq}
use worklane.Core.Duration.{saturating_add_u32, u32_max}
use worklane.Core.Error.{ok}
use worklane.Core.Envelope.{JobId, Bytes}
use worklane.Core.Traits.{ResultStore}
use worklane.Client.State.{Client}
use worklane.Workflow.Payload.{
  FanInWatcherPayload, has, validate, check_dependencies, check_captured,
}
use worklane.Workflow.Slots.{
  Slots, Captured, index_of, fill, no_slots, restore, captured_of, checkpoint,
}
use worklane.Workflow.RoundTrip.{AllDistinct, restore-checkpoint}
use worklane.Workflow.Total.{
  IsFilled, take_previous-total, get_elem?-set_here, get_elem?-set_other, slot_at, length-set_slot,
}
use worklane.Workflow.Watcher.{Lengkap, next_payload}

-- Dependencies that pass their check are distinct.
check_dependencies_lem :
    (fanin_id : Text) (seen deps : List JobId)
    → check_dependencies fanin_id seen deps ≡ none
    → AllDistinct deps × ((id : JobId) → has id seen ≡ true → has id deps ≡ false)
unfolding check_dependencies
check_dependencies_lem fanin_id seen [] h = (tt, λ id there. refl)
check_dependencies_lem fanin_id seen (dep ∷ deps) h = elim (Bool-cases (has dep seen)) [
  | inl there ↦ absurd (ground arith)
  | inr new ↦
      let (distinct, fresh) = check_dependencies_lem fanin_id (dep ∷ seen) deps (ground arith) in
      (
        (fresh dep (ground (arith, ==_refl dep)), distinct),
        λ id there. elim (Bool-cases (dep == id)) [
          | inl equal ↦ absurd (ground (arith, (==_iff dep id).0 equal, new, there))
          | inr differ ↦ ground (arith, differ, fresh id)
        ],
      )
]

-- Every id that was seen has its slot filled.
abbrev Marks : List JobId → List JobId → Slots → Type 0
Marks deps seen slots =
    (id : JobId) (i : ℕ) → has id seen ≡ true → index_of id deps ≡ some i → IsFilled slots i

index_of-has :
    (id : JobId) (deps : List JobId) (i : ℕ) → index_of id deps ≡ some i → has id deps ≡ true
index_of-has id [] i h = absurd (ground arith)
index_of-has id (dep ∷ deps) i h = elim (Option-cases (index_of id deps)) [
  | inl absent ↦ ground arith
  | inr (j, found) ↦ ground (arith, index_of-has id deps j found)
]

Marks-step :
    (deps seen : List JobId) (slots : Slots) (dep : JobId) (k : ℕ) (bytes : Bytes)
    (u : Option Bytes)
    → index_of dep deps ≡ some k
    → get_elem? slots k ≡ some u
    → Marks deps seen slots
    → Marks deps (dep ∷ seen) (set slots k (some bytes))
Marks-step deps seen slots dep k bytes u found at m id i there place =
    elim (Bool-cases (nat_eq k i)) [
      | inl here ↦
          let same : k ≡ i = ground arith in
          (
            bytes,
            subst (λ x. get_elem? (set slots k (some bytes)) x ≡ some (some bytes)) same
                (get_elem?-set_here slots k u (some bytes) at),
          )
      | inr other ↦ elim (Bool-cases (dep == id)) [
        | inl equal ↦
            absurd
              (ground (arith, ap (λ x. index_of x deps) ((==_iff dep id).0 equal), found, place))
        | inr differ ↦
            let (v, held) = m id i (ground (arith, there, differ)) place in
            (v, get_elem?-set_other slots k i (some bytes) other ∙ held)
      ]
    ]

-- What restores passes the check of captured entries.
fill-check_captured :
    (fanin_id : Text) (deps seen : List JobId) (entries : Captured) (slots full : Slots)
    → length slots ≡ length deps
    → Marks deps seen slots
    → fill deps entries slots ≡ ok full
    → check_captured fanin_id deps seen entries ≡ none
unfolding fill check_captured
fill-check_captured fanin_id deps seen [] slots full n m h = refl
fill-check_captured fanin_id deps seen ((dep, bytes) ∷ entries) slots full n m h =
    elim (Option-cases (index_of dep deps)) [
      | inl absent ↦ absurd (ground arith)
      | inr (k, found) ↦
          let (u, at) = slot_at dep deps slots k n found in
          let known = index_of-has dep deps k found in
          elim (Bool-cases (has dep seen)) [
            | inl there ↦ let (v, held) = m dep k there found in absurd (ground (arith, held))
            | inr new ↦ elim (Option-cases u) [
              | inr (v, taken) ↦ absurd (ground (arith, at, taken))
              | inl empty ↦ ground (
                arith,
                known,
                new,
                fill-check_captured fanin_id deps (dep ∷ seen) entries (set slots k (some bytes))
                    full (length-set_slot slots k (some bytes) ∙ n)
                    (Marks-step deps seen slots dep k bytes u found at m)
                    (ground (arith, at, empty)),
              )
            ]
          ]
    ]

no_slots-nothing : (deps : List JobId) (i : ℕ) → IsFilled (no_slots deps) i → ⊥
no_slots-nothing [] i (v, h) = ground arith
no_slots-nothing (dep ∷ deps) zero (v, h) = ground arith
no_slots-nothing (dep ∷ deps) (suc i) (v, h) = no_slots-nothing deps i (v, h)

length-no_slots : (deps : List JobId) → length (no_slots deps) ≡ length deps
length-no_slots [] = refl
length-no_slots (dep ∷ deps) = ap suc (length-no_slots deps)

-- A payload that validates stays valid with new entries that restore, at a generation in range.
validate-again :
    (payload : FanInWatcherPayload) (entries : Captured) (full : Slots) (generation : ℕ)
    → validate payload ≡ none
    → restore payload.dependencies entries ≡ ok full
    → suc zero ≤ generation
    → generation ≤ payload.max_generations
    → validate (record payload { generation = generation; collected = entries }) ≡ none
unfolding validate restore
validate-again payload entries full generation valid restored low high =
    let deps = payload.dependencies in
    let captured =
      fill-check_captured payload.fanin_id deps [] entries (no_slots deps) full
        (length-no_slots deps) (λ id i there place. absurd (ground arith)) restored in
    ground (arith, captured)

module _ {W A : Type 0} (client : Client W) (results : ResultStore W) (lengkap : Lengkap A) where
  -- A watcher whose payload validates, below the last generation, leaves a payload that validates
  -- too: it is of the next generation, has the same dependencies, and restores the assembly that was
  -- decided over. The assembly has a slot for each dependency, and the slots that were filled before
  -- are filled in it; the number of generations fits a `u32`.
  pub next_payload-validate :
      (payload : FanInWatcherPayload) (assembly : A) (full : Slots)
      → validate payload ≡ none
      → payload.generation < payload.max_generations
      → payload.max_generations ≤ u32_max
      → restore payload.dependencies payload.collected ≡ ok full
      → length (lengkap.into_slots assembly) ≡ length payload.dependencies
      → ((i : ℕ) → IsFilled full i → IsFilled (lengkap.into_slots assembly) i)
      → (next : FanInWatcherPayload) × (next_payload client results lengkap payload assembly
          ≡ ok next)
        × (validate next ≡ none)
        × (next.generation ≡ suc payload.generation)
        × (next.dependencies ≡ payload.dependencies)
        × (restore next.dependencies next.collected ≡ ok (lengkap.into_slots assembly))
  unfolding next_payload validate restore checkpoint saturating_add_u32
  next_payload-validate payload assembly full valid below bounded restored sized kept =
      let deps = payload.dependencies in
      let slots = lengkap.into_slots assembly in
      let checked : check_dependencies payload.fanin_id [] deps ≡ none = ground arith in
      let (distinct, _) = check_dependencies_lem payload.fanin_id [] deps checked in
      let (first, remaining, took, keys) =
        take_previous-total deps payload.collected (no_slots deps) slots full (length-no_slots deps)
          restored (λ i filled. inr (kept i filled)) in
      let collected = first ++ captured_of deps remaining in
      let written : checkpoint deps payload.collected slots ≡ ok collected = ground (arith, took) in
      let again =
        restore-checkpoint deps payload.collected collected slots distinct sized written in
      (
        record payload { generation = suc payload.generation; collected = collected },
        ground (arith, written),
        validate-again payload collected slots (suc payload.generation) valid again (omega arith)
            (omega arith),
        refl,
        refl,
        again,
      )
