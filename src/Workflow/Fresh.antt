-- ===== src/Workflow/Fresh.antt =====
-- The payload that a fan-in gives to its first watcher.
use worklane.Base.{
  ℕ, ◌≡◌, refl, true, false, none, List, [], ◌∷◌, ◌==◌, ==_iff, ==_refl, arith, Bool-cases, inl,
  inr, is_nil,
}
use worklane.Base.Text.{Text, text_Eq}
use worklane.Core.Error.{ok}
use worklane.Core.Envelope.{JobId, Bytes}
use worklane.Workflow.Payload.{
  FanInWatcherPayload, new, has, validate, check_callback_lane, check_dependencies, check_captured,
}
use worklane.Workflow.RoundTrip.{AllDistinct}

distinct-check_dependencies :
    (fanin_id : Text) (seen deps : List JobId)
    → AllDistinct deps
    → ((id : JobId) → has id deps ≡ true → has id seen ≡ false)
    → check_dependencies fanin_id seen deps ≡ none
unfolding check_dependencies
distinct-check_dependencies fanin_id seen [] d apart = refl
distinct-check_dependencies fanin_id seen (dep ∷ deps) (new, d) apart =
    let fresh = apart dep (ground (arith, ==_refl dep)) in
    let rest = distinct-check_dependencies fanin_id (dep ∷ seen) deps d λ id there.
      elim (Bool-cases (dep == id)) [
        | inl equal ↦ absurd (ground (arith, (==_iff dep id).0 equal, new, there))
        | inr differ ↦ ground (arith, differ, apart id, there)
      ] in
    ground (arith, fresh, rest)

-- The constructor does not check everything that the watcher does: of a payload that it makes for
-- distinct dependencies, with the name of a lane and of a kind, the watcher refuses exactly the one
-- whose id is empty.
pub new-validate :
    (fanin_id : Text) (deps : List JobId) (lane kind : Text) (payload : Bytes)
    (attempts priority delay generations : ℕ) (watcher : FanInWatcherPayload)
    → AllDistinct deps
    → check_callback_lane fanin_id lane ≡ none
    → is_nil kind ≡ false
    → new fanin_id deps lane kind payload attempts priority delay generations ≡ ok watcher
    → (validate watcher ≡ none → is_nil fanin_id ≡ false)
      × (is_nil fanin_id ≡ false → validate watcher ≡ none)
unfolding new validate check_captured
new-validate fanin_id [] lane kind payload attempts priority delay generations watcher d l k h =
    absurd (ground arith)
new-validate fanin_id (dep ∷ deps) lane kind payload attempts priority delay generations watcher d l
      k h =
    let checked = distinct-check_dependencies fanin_id [] (dep ∷ deps) d λ id there. refl in
    (λ valid. ground arith, λ named. ground (arith, checked))
