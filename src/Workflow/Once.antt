-- ===== src/Workflow/Once.antt =====
-- How many jobs a watcher submits.
use worklane.Base.{◌≡◌, ◌⊎◌, refl, Bool, true, false, List, inl, inr}
use worklane.Base.Text.{Text}
use worklane.Base.Logged.{Logged}
use worklane.Core.Envelope.{Lane, Bytes}
use worklane.Client.State.{Client}
use worklane.Workflow.Watcher.{
  HandlerError, FanInImpossible, Decision, pending, ready, never, inconsistent, Ending, done,
  failed,
}

abbrev pub is_done : {T : Type 0} → Ending T → Bool
is_done (done t) = true
is_done (failed x) = false

pub ending_cases :
    {T : Type 0} (end : Ending T)
    → ((t : T) × (end ≡ done t)) ⊎ ((x : HandlerError) × (end ≡ failed x))
ending_cases (done t) = inl (t, refl)
ending_cases (failed x) = inr (x, refl)

pub decision_cases :
    {A : Type 0} (d : Decision A)
    → ((a : A) × (d ≡ pending a))
      ⊎ (((outputs : List Bytes) × (d ≡ ready outputs))
          ⊎ (((cause : FanInImpossible) × (d ≡ never cause))
              ⊎ ((why : Text) × (d ≡ inconsistent why))))
decision_cases (pending a) = inl (a, refl)
decision_cases (ready outputs) = inr (inl (outputs, refl))
decision_cases (never cause) = inr (inr (inl (cause, refl)))
decision_cases (inconsistent why) = inr (inr (inr (why, refl)))
