-- ===== src/Workflow/Ready.antt =====
-- A watcher whose dependencies have all completed.
use worklane.Base.{
  ℕ, suc, ◌≡◌, Option, none, some, List, [], ◌∷◌, map, get_elem?, nat_eq, if◌then◌else◌,
}
use worklane.Base.Text.{text_Eq}
use worklane.Base.Logged.{Logged}
use worklane.Core.Error.{ok}
use worklane.Core.Envelope.{JobId, Bytes}
use worklane.Core.Spi.{JobState}
use worklane.Core.Traits.{ResultStore}
use worklane.Client.State.{Client}
use worklane.Workflow.Slots.{Slots, Captured}
use worklane.Workflow.Watcher.{Lengkap, Finding, produced, impossible, ready}

-- The indices of the empty slots, where the first slot has the index `n`.
unfoldable pub open_from : ℕ → Slots → List ℕ
open_from n [] = []
open_from n (none ∷ slots) = n ∷ open_from (suc n) slots
open_from n (some value ∷ slots) = open_from (suc n) slots

unfoldable pub value_at : ℕ → List (ℕ × Finding) → Option Bytes
value_at n [] = none
value_at n ((slot, impossible cause) ∷ findings) = value_at n findings
value_at n ((slot, produced bytes) ∷ findings) =
    let rest = value_at n findings in if nat_eq slot n then some bytes else rest

-- The slots with what was found for the empty ones.
unfoldable pub resolved : ℕ → Slots → List (ℕ × Finding) → Slots
unfolding value_at
resolved n [] findings = []
resolved n (some value ∷ slots) findings = some value ∷ resolved (suc n) slots findings
resolved n (none ∷ slots) findings = value_at n findings ∷ resolved (suc n) slots findings

-- What lengkap documents: which slots are unresolved, and that it is ready when each slot has a
-- value, with the values in the order of the slots.
pub record IsLengkap {A : Type 0} (lengkap : Lengkap A) : Type 0 where
  pub unresolved_lem :
      (slots : Slots) → lengkap.unresolved_slots (lengkap.from_slots slots) ≡ open_from 0 slots
  pub ready_lem :
      (slots : Slots) (findings : List (ℕ × Finding)) (outputs : List Bytes)
      → resolved 0 slots findings ≡ map some outputs
      → lengkap.adjudicate (lengkap.from_slots slots) findings ≡ ready outputs

module _ (output : JobId → Bytes) where
  -- What was captured of a dependency is its output.
  abbrev pub AllFrom : Captured → Type 0
  AllFrom [] = Unit
  AllFrom ((dep, bytes) ∷ entries) = (bytes ≡ output dep) × AllFrom entries

  abbrev Agrees : List JobId → Slots → Type 0
  Agrees [] [] = Unit
  Agrees (dep ∷ deps) (none ∷ slots) = Agrees deps slots
  Agrees (dep ∷ deps) (some value ∷ slots) = (value ≡ output dep) × Agrees deps slots
  Agrees _ _ = ⊥

  -- What is found for the empty slots, where the first slot has the index `n`.
  found_from : ℕ → List JobId → Slots → List (ℕ × Finding)
  found_from n (dep ∷ deps) (none ∷ slots) =
      (n, produced (output dep)) ∷ found_from (suc n) deps slots
  found_from n (dep ∷ deps) (some value ∷ slots) = found_from (suc n) deps slots
  found_from n _ _ = []

  -- The dependencies have completed and their results are kept, in every world that is settled: one
  -- that asking for the dependencies leads to.
  pub record HasResults {W : Type 0} (client : Client W) (results : ResultStore W)
      (deps : List JobId) (Settled : W → Type 0) : Type 0 where
    pub completed :
        (i : ℕ) (dep : JobId) (w : W)
        → get_elem? deps i ≡ some dep
        → Settled w
        → ((client.broker.classify dep w).1 ≡ ok JobState.completed_or_unknown)
          × Settled (client.broker.classify dep w).0
    pub kept :
        (i : ℕ) (dep : JobId) (w : W)
        → get_elem? deps i ≡ some dep
        → Settled w
        → ((results.get dep w).1 ≡ ok (some (output dep))) × Settled (results.get dep w).0
