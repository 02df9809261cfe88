-- ===== src/Workflow/Slots.antt =====
-- crates/worklane/src/workflow.rs: the assembly of a fan-in restored from its checkpoint, and
-- written back. A dependency's slot is its place among the dependencies; the assembly has as many
-- slots as there are dependencies, so that no slot is out of range.
use worklane.Base.{
  ℕ, suc, Option, none, some, List, [], ◌∷◌, ◌++◌, ◌==◌, map, get_elem?, set, if◌then◌else◌,
}
use worklane.Base.Text.{codes, text_Eq}
use worklane.Core.Error.{Error, Result, ok, err, broker, ◌>>=◌}
use worklane.Core.Envelope.{JobId, Bytes}

abbrev pub Slots : Type 0
Slots = List (Option Bytes)

abbrev pub Captured : Type 0
Captured = List (JobId × Bytes)

abbrev pub shift : Option ℕ → Option ℕ
shift none = none
shift (some i) = some (suc i)

-- `iter().position(..)`.
abbrev pub index_of : JobId → List JobId → Option ℕ
index_of id [] = none
index_of id (dep ∷ deps) = let rest = index_of id deps in if dep == id then some 0 else shift rest

unfoldable pub unknown_error : JobId → Error
unknown_error dep = broker (codes "fan-in checkpoint contains unknown dependency " ++ dep)

unfoldable pub repeat_error : JobId → Error
repeat_error dep = broker (codes "fan-in checkpoint repeats dependency " ++ dep)

unfoldable pub lost_error : JobId → Error
lost_error dep = broker (codes "fan-in checkpoint lost previously captured dependency " ++ dep)

-- The `for` loop of `restore_fan_in_assembly`.
unfoldable pub fill : List JobId → Captured → Slots → Result Slots
unfolding unknown_error repeat_error
fill deps [] slots = ok slots
fill deps ((dep, bytes) ∷ entries) slots = elim (index_of dep deps) [
  | none ↦ err (unknown_error dep)
  | some i ↦ elim (get_elem? slots i) [
    | some (some _) ↦ err (repeat_error dep)
    | _ ↦ fill deps entries (set slots i (some bytes))
  ]
]

abbrev pub no_slots : List JobId → Slots
no_slots deps = map (λ _. none) deps

unfoldable pub restore : List JobId → Captured → Result Slots
unfolding fill
restore deps collected = fill deps collected (no_slots deps)

-- The `for` loop of `checkpoint_fan_in_assembly`: the entries kept, and the slots left.
unfoldable pub take_previous : List JobId → Captured → Slots → Result (Captured × Slots)
unfolding unknown_error lost_error
take_previous deps [] slots = ok ([], slots)
take_previous deps ((dep, bytes) ∷ previous) slots = elim (index_of dep deps) [
  | none ↦ err (unknown_error dep)
  | some i ↦ elim (get_elem? slots i) [
    | some (some value) ↦ take_previous deps previous (set slots i none) >>= λ rest.
        ok ((dep, value) ∷ rest.0, rest.1)
    | _ ↦ err (lost_error dep)
  ]
]

-- `zip` and `filter_map`.
unfoldable pub captured_of : List JobId → Slots → Captured
captured_of [] slots = []
captured_of (dep ∷ deps) [] = []
captured_of (dep ∷ deps) (none ∷ slots) = captured_of deps slots
captured_of (dep ∷ deps) (some value ∷ slots) = (dep, value) ∷ captured_of deps slots

unfoldable pub checkpoint : List JobId → Captured → Slots → Result Captured
unfolding take_previous captured_of
checkpoint deps previous slots =
    take_previous deps previous slots >>= λ kept. ok (kept.0 ++ captured_of deps kept.1)
