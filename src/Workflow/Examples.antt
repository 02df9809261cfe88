-- ===== src/Workflow/Examples.antt =====
-- Fan-ins over a small world, and the theorems of the watcher at them. The world counts calls; a
-- job's output is its id. The assembly is the list of its slots.
use worklane.Base.{
  ℕ, zero, suc, ◌≡◌, refl, false, Option, none, some, List, [], ◌∷◌, map, is_nil, arith, leb, ◌&&◌,
  if◌then◌else◌,
}
use worklane.Base.Text.{codes, text_eq}
use worklane.Core.Error.{Result, ok}
use worklane.Core.Envelope.{JobId, Bytes}
use worklane.Core.Lane.{default_lane, is_whitespace}
use worklane.Core.Spi.{JobState}
use worklane.Core.Traits.{Broker, ResultStore}
use worklane.Client.State.{Client}
use worklane.Workflow.Payload.{FanInWatcherPayload, new, validate, check_callback_lane, has}
use worklane.Workflow.Slots.{Slots, Captured, restore, checkpoint}
use worklane.Workflow.RoundTrip.{AllDistinct, restore-checkpoint}
use worklane.Workflow.Total.{IsFilled}
use worklane.Workflow.Watcher.{Lengkap, Decision, pending, ready, done, next_payload, run}
use worklane.Workflow.Progress.{next_payload-validate}
use worklane.Workflow.Fresh.{new-validate}
use worklane.Workflow.Ready.{open_from, resolved}

abbrev a : JobId
a = codes "a"

abbrev b : JobId
b = codes "b"

abbrev c : JobId
c = codes "c"

abbrev deps : List JobId
deps = a ∷ b ∷ c ∷ []

abbrev captured : Captured
captured = (b, 98 ∷ []) ∷ []

-- The slots with a value for `a` too.
abbrev two_filled : Slots
two_filled = some (97 ∷ []) ∷ some (98 ∷ []) ∷ none ∷ []

abbrev later : Captured
later = (b, 98 ∷ []) ∷ (a, 97 ∷ []) ∷ []

deps-AllDistinct : AllDistinct deps
unfolding text_eq
deps-AllDistinct = (refl, (refl, (refl, tt)))

checkpointed : checkpoint deps captured two_filled ≡ ok later
unfolding checkpoint text_eq
checkpointed = refl

restore-checkpoint_example : restore deps later ≡ ok two_filled
restore-checkpoint_example =
    restore-checkpoint deps captured later two_filled deps-AllDistinct refl checkpointed

abbrev broker : Broker ℕ
broker = record {
  enqueue = λ job w. (suc w, ok job.id);
  reserve = λ lane w. (w, ok none);
  ack = λ receipt w. (w, ok tt);
  retry = λ receipt delay w. (w, ok tt);
  defer = λ receipt delay w. (w, ok tt);
  fail = λ receipt reason w. (w, ok tt);
  extend = λ receipt w. (w, ok tt);
  classify = λ id w. (suc w, ok JobState.completed_or_unknown);
  batch_enqueue = some (λ jobs w. (suc w, ok (map (λ job. job.id) jobs)));
}

abbrev client : Client ℕ
client = record {
  broker = broker;
  result_store = none;
  payload_store = none;
  offload_threshold = 100;
  default_max_attempts = 5;
  lane = default_lane;
  priority = 0;
  lane_registry = none;
}

abbrev results : ResultStore ℕ
results = record { store = λ id bytes w. (w, ok tt); get = λ id w. (suc w, ok (some id)) }

-- The values of the slots, if each has one.
abbrev values : Slots → Option (List Bytes)
values [] = some []
values (none ∷ slots) = none
values (some value ∷ slots) = elim (values slots) [ none ↦ none | some rest ↦ some (value ∷ rest) ]

abbrev judged : Slots → Decision Slots
judged slots = elim (values slots) [ none ↦ pending slots | some outputs ↦ ready outputs ]

-- An assembly that is ready when every slot has a value.
abbrev lengkap : Lengkap Slots
lengkap = record {
  from_slots = λ slots. slots;
  into_slots = λ assembly. assembly;
  unresolved_slots = open_from 0;
  adjudicate = λ assembly findings. judged (resolved 0 assembly findings);
}

abbrev fresh_id : ℕ → ℕ × JobId
fresh_id w = (suc w, 48 ∷ [])

abbrev encode : FanInWatcherPayload → Result Bytes
encode payload = ok (payload.fanin_id)

abbrev splice : Bytes → List Bytes → Result Bytes
splice context outputs = ok context

abbrev first_payload : FanInWatcherPayload
first_payload = record {
  fanin_id = codes "f";
  dependencies = deps;
  generation = 1;
  poll_delay_secs = 10;
  max_generations = 3;
  collected = captured;
  callback_lane = codes "default";
  callback_kind = codes "sum";
  callback_payload = 123 ∷ 125 ∷ [];
  callback_max_attempts = 5;
  callback_priority = 0;
}

valid : validate first_payload ≡ none
unfolding validate text_eq is_whitespace
valid = refl

restored : restore deps captured ≡ ok (none ∷ some (98 ∷ []) ∷ none ∷ [])
unfolding restore text_eq
restored = refl

-- The run ends without an error.
delivered :
    (run client results lengkap fresh_id encode splice default_lane first_payload
      (record { world = 0; calls = [] })).1
    ≡ done tt
unfolding run text_eq is_whitespace open_from resolved
delivered = refl

-- From the tenth call on the three dependencies have completed; every other job is live.
abbrev settling : Client ℕ
settling = record client {
  broker = record broker {
    classify = λ id w. (
      suc w,
      ok (if leb 10 w && has id deps then JobState.completed_or_unknown else JobState.live),
    );
  };
}

abbrev of_deps : ResultStore ℕ
of_deps = record results {
  get = λ id w. (suc w, ok (if leb 10 w && has id deps then some id else none));
}

kept : (i : ℕ) → IsFilled (none ∷ some (98 ∷ []) ∷ none ∷ []) i → IsFilled two_filled i
kept zero (v, h) = absurd (ground arith)
kept (suc zero) (v, h) = (98 ∷ [], refl)
kept (suc (suc zero)) (v, h) = absurd (ground arith)
kept (suc (suc (suc i))) (v, h) = absurd (ground arith)

next_payload-validate_example :
    (next : FanInWatcherPayload) × (next_payload client results lengkap first_payload two_filled
      ≡ ok next)
    × (validate next ≡ none)
    × (next.generation ≡ suc first_payload.generation)
    × (next.dependencies ≡ first_payload.dependencies)
    × (restore next.dependencies next.collected ≡ ok two_filled)
next_payload-validate_example =
    next_payload-validate client results lengkap first_payload two_filled
      (none ∷ some (98 ∷ []) ∷ none ∷ []) valid (omega arith) (omega arith) restored refl kept

-- The payload that a fan-in with an empty id makes.
abbrev nameless : FanInWatcherPayload
nameless = record first_payload { fanin_id = []; collected = [] }

lane_fine : check_callback_lane [] (codes "default") ≡ none
unfolding check_callback_lane is_whitespace text_eq
lane_fine = refl

made : new [] deps (codes "default") (codes "sum") (123 ∷ 125 ∷ []) 5 0 10 3 ≡ ok nameless
unfolding new
made = refl

new-validate_example :
    (validate nameless ≡ none → is_nil nameless.fanin_id ≡ false)
    × (is_nil nameless.fanin_id ≡ false → validate nameless ≡ none)
new-validate_example =
    new-validate [] deps (codes "default") (codes "sum") (123 ∷ 125 ∷ []) 5 0 10 3 nameless
      deps-AllDistinct lane_fine refl made
