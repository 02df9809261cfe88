-- ===== src/Workflow/RoundTrip.antt =====
-- A checkpoint restores the assembly that it was made of.
use worklane.Base.{
  ℕ, zero, suc, ◌≡◌, refl, false, Option, none, some, List, [], ◌∷◌, ◌++◌, arith, map, get_elem?,
  set, length, Option-cases, inl, inr, ◌⊎◌, subst, ==_iff, ==_refl,
}
use worklane.Base.Text.{text_Eq}
use worklane.Core.Error.{ok, ◌>>=◌, Result-cases}
use worklane.Core.Envelope.{JobId, Bytes}
use worklane.Workflow.Payload.{has}
use worklane.Workflow.Slots.{
  Slots, Captured, index_of, fill, no_slots, restore, take_previous, captured_of, checkpoint,
}

-- No dependency is listed twice.
abbrev pub AllDistinct : List JobId → Type 0
AllDistinct [] = Unit
AllDistinct (dep ∷ deps) = (has dep deps ≡ false) × AllDistinct deps

-- One slot of the assembly is either filled already or still left to fill, not both.
abbrev Joins : Option Bytes → Option Bytes → Option Bytes → Type 0
Joins none left full = left ≡ full
Joins (some value) left full = (left ≡ none) × (full ≡ some value)

abbrev Splits : Slots → Slots → Slots → Type 0
Splits [] [] [] = Unit
Splits (d ∷ done) (l ∷ left) (f ∷ full) = Joins d l f × Splits done left full
Splits _ _ _ = ⊥

take-Splits :
    (i : ℕ) (done left full : Slots) (value : Bytes)
    → Splits done left full
    → get_elem? left i ≡ some (some value)
    → (get_elem? done i ≡ some none) × Splits (set done i (some value)) (set left i none) full
take-Splits i [] [] [] value s h = ground arith
take-Splits i [] [] (f ∷ full) value s h = absurd s
take-Splits i [] (l ∷ left) full value s h = absurd s
take-Splits i (d ∷ done) [] full value s h = absurd s
take-Splits i (d ∷ done) (l ∷ left) [] value s h = absurd s
take-Splits zero (none ∷ done) (l ∷ left) (f ∷ full) value s h = ground arith
take-Splits zero (some d ∷ done) (l ∷ left) (f ∷ full) value s h = absurd (ground arith)
take-Splits (suc i) (d ∷ done) (l ∷ left) (f ∷ full) value s h =
    let (a, b) = take-Splits i done left full value s.1 h in (a, (s.0, b))

slot-cases :
    (o : Option (Option Bytes))
    → ((value : Bytes) × (o ≡ some (some value))) ⊎ ((o ≡ none) ⊎ (o ≡ some none))
slot-cases none = inr (inl refl)
slot-cases (some none) = inr (inr refl)
slot-cases (some (some value)) = inl (value, refl)

-- The entries kept from the former checkpoint fill the slots that they were taken from.
fill-take_previous :
    (deps : List JobId) (previous rest : Captured) (done left full : Slots) (kept : Captured)
    (remaining : Slots)
    → Splits done left full
    → take_previous deps previous left ≡ ok (kept, remaining)
    → (filled : Slots) × (fill deps (kept ++ rest) done ≡ fill deps rest filled)
      × Splits filled remaining full
unfolding take_previous fill
fill-take_previous deps [] rest done left full kept remaining s h =
    (done, ground arith, subst (λ r. Splits done r full) (ground arith) s)
fill-take_previous deps ((dep, bytes) ∷ previous) rest done left full kept remaining s h =
    elim (Option-cases (index_of dep deps)) [
      | inl absent ↦ absurd (ground arith)
      | inr (i, found) ↦ elim (slot-cases (get_elem? left i)) [
        | inr empty ↦ absurd (elim empty [ inl e ↦ ground arith | inr e ↦ ground arith ])
        | inl (value, held) ↦
            let moved = take-Splits i done left full value s held in
            let after = take_previous deps previous (set left i none) in
            elim (Result-cases after) [
              | inr (e, failed) ↦ absurd (ground arith)
              | inl (pair, taken) ↦
                  let (filled, same, split) =
                    fill-take_previous deps previous rest (set done i (some value))
                      (set left i none) full pair.0 pair.1 moved.1 taken in
                  (
                    filled,
                    ground (arith, moved.0, same),
                    subst (λ r. Splits filled r full) (ground arith) split,
                  )
            ]
      ]
    ]

-- A dependency that no entry names can be set aside.
fill-other :
    (dep : JobId) (deps : List JobId) (entries : Captured) (slot : Option Bytes) (slots : Slots)
    → has dep (map (λ e. e.0) entries) ≡ false
    → fill (dep ∷ deps) entries (slot ∷ slots)
      ≡ (fill deps entries slots >>= λ filled. ok (slot ∷ filled))
unfolding fill
fill-other dep deps [] slot slots h = refl
fill-other dep deps ((other, bytes) ∷ entries) slot slots h =
    elim (Option-cases (index_of other deps)) [
      | inl absent ↦ ground (arith, ==_iff dep other, ==_iff other dep)
      | inr (i, found) ↦ ground (
        arith,
        ==_iff dep other,
        ==_iff other dep,
        fill-other dep deps entries slot (set slots i (some bytes)),
      )
    ]

has-captured_of :
    (id : JobId) (deps : List JobId) (slots : Slots)
    → has id deps ≡ false
    → has id (map (λ e. e.0) (captured_of deps slots)) ≡ false
unfolding captured_of
has-captured_of id [] slots h = refl
has-captured_of id (dep ∷ deps) [] h = refl
has-captured_of id (dep ∷ deps) (none ∷ slots) h = ground (arith, has-captured_of id deps slots)
has-captured_of id (dep ∷ deps) (some value ∷ slots) h =
    ground (arith, has-captured_of id deps slots)

-- What is left is filled by the entries that are appended.
fill-captured_of :
    (deps : List JobId) (done left full : Slots)
    → AllDistinct deps
    → length full ≡ length deps
    → Splits done left full
    → fill deps (captured_of deps left) done ≡ ok full
unfolding fill captured_of
fill-captured_of [] [] [] [] d n s = refl
fill-captured_of [] [] [] (f ∷ full) d n s = absurd s
fill-captured_of [] [] (l ∷ left) full d n s = absurd s
fill-captured_of [] (x ∷ done) [] full d n s = absurd s
fill-captured_of [] (x ∷ done) (l ∷ left) [] d n s = absurd s
fill-captured_of [] (x ∷ done) (l ∷ left) (f ∷ full) d n s = absurd (ground arith)
fill-captured_of (dep ∷ deps) [] [] [] d n s = absurd (ground arith)
fill-captured_of (dep ∷ deps) [] [] (f ∷ full) d n s = absurd s
fill-captured_of (dep ∷ deps) [] (l ∷ left) full d n s = absurd s
fill-captured_of (dep ∷ deps) (x ∷ done) [] full d n s = absurd s
fill-captured_of (dep ∷ deps) (x ∷ done) (l ∷ left) [] d n s = absurd s
fill-captured_of (dep ∷ deps) (x ∷ done) (none ∷ left) (f ∷ full) d n s = ground (
  arith,
  fill-other dep deps (captured_of deps left) x done (has-captured_of dep deps left d.0),
  fill-captured_of deps done left full d.1 (omega arith) s.1,
)
fill-captured_of (dep ∷ deps) (none ∷ done) (some value ∷ left) (f ∷ full) d n s = ground (
  arith,
  ==_refl dep,
  fill-other dep deps (captured_of deps left) (some value) done (has-captured_of dep deps left d.0),
  fill-captured_of deps done left full d.1 (omega arith) s.1,
)
fill-captured_of (dep ∷ deps) (some y ∷ done) (some value ∷ left) (f ∷ full) d n s =
    absurd (ground arith)

Splits-nothing :
    (deps : List JobId) (full : Slots)
    → length full ≡ length deps
    → Splits (no_slots deps) full full
Splits-nothing [] [] n = tt
Splits-nothing [] (f ∷ full) n = absurd (ground arith)
Splits-nothing (dep ∷ deps) [] n = absurd (ground arith)
Splits-nothing (dep ∷ deps) (f ∷ full) n = (refl, Splits-nothing deps full (omega arith))

-- For distinct dependencies and an assembly with a slot for each of them: whatever checkpoint is
-- written of it, on top of whatever former checkpoint, restores the same assembly.
pub restore-checkpoint :
    (deps : List JobId) (previous collected : Captured) (slots : Slots)
    → AllDistinct deps
    → length slots ≡ length deps
    → checkpoint deps previous slots ≡ ok collected
    → restore deps collected ≡ ok slots
unfolding checkpoint restore
restore-checkpoint deps previous collected slots d n h =
    elim (Result-cases (take_previous deps previous slots)) [
      | inr (e, failed) ↦ absurd (ground arith)
      | inl (kept, taken) ↦
          let rest = captured_of deps kept.1 in
          let (filled, same, split) =
            fill-take_previous deps previous rest (no_slots deps) slots slots kept.0 kept.1
              (Splits-nothing deps slots n) taken in
          ground (arith, same, fill-captured_of deps filled kept.1 slots d n split)
    ]
