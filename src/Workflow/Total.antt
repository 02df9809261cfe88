-- ===== src/Workflow/Total.antt =====
-- A payload that validates restores, and what extends it can be written back.
use worklane.Base.{
  ℕ, zero, suc, ◌≡◌, refl, ap, ◌∙◌, false, Option, none, some, List, [], ◌∷◌, ◌⊎◌, arith, map,
  get_elem?, set, length, Option-cases, Bool-cases, inl, inr, nat_eq, subst,
}
use worklane.Base.Text.{text_Eq}
use worklane.Core.Error.{ok}
use worklane.Core.Envelope.{JobId, Bytes}
use worklane.Workflow.Slots.{Slots, Captured, index_of, fill, take_previous}

-- The slot at an index is filled.
abbrev pub IsFilled : Slots → ℕ → Type 0
IsFilled slots i = (value : Bytes) × (get_elem? slots i ≡ some (some value))

pub get_elem?-set_other :
    (slots : Slots) (i j : ℕ) (v : Option Bytes)
    → nat_eq i j ≡ false
    → get_elem? (set slots i v) j ≡ get_elem? slots j
get_elem?-set_other [] i j v h = refl
get_elem?-set_other (s ∷ slots) zero zero v h = absurd (ground arith)
get_elem?-set_other (s ∷ slots) zero (suc j) v h = refl
get_elem?-set_other (s ∷ slots) (suc i) zero v h = refl
get_elem?-set_other (s ∷ slots) (suc i) (suc j) v h = get_elem?-set_other slots i j v (ground arith)

pub get_elem?-set_here :
    (slots : Slots) (i : ℕ) (u v : Option Bytes)
    → get_elem? slots i ≡ some u
    → get_elem? (set slots i v) i ≡ some v
get_elem?-set_here [] i u v h = ground arith
get_elem?-set_here (s ∷ slots) zero u v h = refl
get_elem?-set_here (s ∷ slots) (suc i) u v h = get_elem?-set_here slots i u v h

-- A slot once filled stays as it is.
fill-keeps :
    (deps : List JobId) (entries : Captured) (slots full : Slots) (i : ℕ) (value : Bytes)
    → fill deps entries slots ≡ ok full
    → get_elem? slots i ≡ some (some value)
    → get_elem? full i ≡ some (some value)
unfolding fill
fill-keeps deps [] slots full i value h g = ground arith
fill-keeps deps ((dep, bytes) ∷ entries) slots full i value h g =
    elim (Option-cases (index_of dep deps)) [
      | inl absent ↦ absurd (ground arith)
      | inr (k, found) ↦ elim (Bool-cases (nat_eq k i)) [
        | inl here ↦ absurd (ground arith)
        | inr other ↦
            let same = get_elem?-set_other slots k i (some bytes) other in
            ground (arith, same, fill-keeps deps entries (set slots k (some bytes)) full i value)
      ]
    ]

-- Where the slots that the entries fill are filled in `left` too, the entries can be taken.
abbrev pub Covers : Slots → Slots → Slots → Type 0
Covers done left full = (i : ℕ) → IsFilled full i → (IsFilled done i) ⊎ (IsFilled left i)

pub slot_at :
    (dep : JobId) (deps : List JobId) (slots : Slots) (k : ℕ)
    → length slots ≡ length deps
    → index_of dep deps ≡ some k
    → (u : Option Bytes) × (get_elem? slots k ≡ some u)
slot_at dep [] slots k n h = absurd (ground arith)
slot_at dep (d ∷ deps) [] k n h = absurd (ground arith)
slot_at dep (d ∷ deps) (s ∷ slots) zero n h = (s, refl)
slot_at dep (d ∷ deps) (s ∷ slots) (suc k) n h = elim (Option-cases (index_of dep deps)) [
  | inl absent ↦ absurd (ground arith)
  | inr (i, found) ↦
      let (u, e) = slot_at dep deps slots i (omega arith) found in (u, ground (arith, e))
]

pub length-set_slot :
    (slots : Slots) (i : ℕ) (v : Option Bytes) → length (set slots i v) ≡ length slots
length-set_slot [] i v = refl
length-set_slot (s ∷ slots) zero v = refl
length-set_slot (s ∷ slots) (suc i) v = ap suc (length-set_slot slots i v)

Covers-step :
    (done left full : Slots) (k : ℕ) (v : Bytes) (u : Option Bytes)
    → get_elem? done k ≡ some u
    → Covers done left full
    → Covers (set done k (some v)) (set left k none) full
Covers-step done left full k v u at c i filled = elim (Bool-cases (nat_eq k i)) [
  | inl here ↦
      let same : k ≡ i = ground arith in
      inl (
        v,
        subst (λ x. get_elem? (set done k (some v)) x ≡ some (some v)) same
            (get_elem?-set_here done k u (some v) at),
      )
  | inr other ↦ elim (c i filled) [
    | inl (w, e) ↦ inl (w, get_elem?-set_other done k i (some v) other ∙ e)
    | inr (w, e) ↦ inr (w, get_elem?-set_other left k i none other ∙ e)
  ]
]

-- The entries that filled an assembly can be taken from any assembly that has those slots filled,
-- and keep their order.
pub take_previous-total :
    (deps : List JobId) (entries : Captured) (done left full : Slots)
    → length done ≡ length deps
    → fill deps entries done ≡ ok full
    → Covers done left full
    → (kept : Captured) × (remaining : Slots) × (take_previous deps entries left
        ≡ ok (kept, remaining))
      × (map (λ e. e.0) kept ≡ map (λ e. e.0) entries)
unfolding fill take_previous
take_previous-total deps [] done left full n h c = ([], left, refl, refl)
take_previous-total deps ((dep, bytes) ∷ entries) done left full n h c =
    elim (Option-cases (index_of dep deps)) [
      | inl absent ↦ absurd (ground arith)
      | inr (k, found) ↦
          let (u, at) = slot_at dep deps done k n found in
          let next = set done k (some bytes) in
          let filled = fill-keeps deps entries next full k bytes in
          let here = get_elem?-set_here done k u (some bytes) at in
          elim (c k (bytes, filled (ground (arith, at)) here)) [
            | inl (w, taken) ↦ absurd (ground (arith, taken))
            | inr (w, held) ↦
                let (kept, remaining, took, same) =
                  take_previous-total deps entries next (set left k none) full
                    (length-set_slot done k (some bytes) ∙ n) (ground (arith, at))
                    (Covers-step done left full k bytes u at c) in
                ((dep, w) ∷ kept, remaining, ground (arith, held, took), ground (arith, same))
          ]
    ]
