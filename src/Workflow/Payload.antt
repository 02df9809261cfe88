-- ===== src/Workflow/Payload.antt =====
-- crates/worklane/src/workflow.rs: the payload of a fan-in's watcher, its validation, and the slots
-- of the dependencies between a payload and the assembly that decides over them.
use worklane.Base.{
  ℕ, Bool, not, ◌||◌, Option, none, some, List, [], ◌∷◌, ◌++◌, ◌==◌, ltb, nat_eq, any, is_nil,
  if◌then◌else◌,
}
use worklane.Base.Text.{Text, codes, text_Eq}
use worklane.Core.Duration.{decimal}
use worklane.Core.Error.{Result, ok, err, broker}
use worklane.Core.Envelope.{JobId, Bytes}
use worklane.Core.Lane.{LaneError, valid, rejected, validated}

pub record FanInPolicy : Type 0 where
  pub poll_delay_secs : ℕ
  pub max_generations : ℕ

abbrev pub default_policy : FanInPolicy
default_policy = record { poll_delay_secs = 10; max_generations = 8640 }

pub record FanInWatcherPayload : Type 0 where
  pub fanin_id : Text
  pub dependencies : List JobId
  pub generation : ℕ
  pub poll_delay_secs : ℕ
  pub max_generations : ℕ
  pub collected : List (JobId × Bytes)
  pub callback_lane : Text
  pub callback_kind : Text
  pub callback_payload : Bytes
  pub callback_max_attempts : ℕ
  pub callback_priority : ℕ

unfoldable pub new :
    Text → List JobId → Text → Text → Bytes → ℕ → ℕ → ℕ → ℕ → Result FanInWatcherPayload
new fanin_id [] lane kind payload max_attempts priority poll_delay_secs max_generations =
    err (broker (codes "a fan-in must have at least one dependency"))
new fanin_id (dep ∷ deps) lane kind payload max_attempts priority poll_delay_secs max_generations =
    if nat_eq max_generations 0
    then err
        (broker (codes "a fan-in watcher needs at least one generation (max_generations >= 1)"))
    else ok record {
      fanin_id = fanin_id;
      dependencies = dep ∷ deps;
      generation = 1;
      poll_delay_secs = poll_delay_secs;
      max_generations = max_generations;
      collected = [];
      callback_lane = lane;
      callback_kind = kind;
      callback_payload = payload;
      callback_max_attempts = max_attempts;
      callback_priority = priority;
    }

-- `HashSet::contains`, on the elements inserted so far.
abbrev pub has : JobId → List JobId → Bool
has id ids = any (λ other. other == id) ids

-- What is wrong with a payload, if something is.
abbrev pub Complaint : Type 0
Complaint = Option Text

abbrev pub or_next : Complaint → Complaint → Complaint
or_next (some c) next = some c
or_next none next = next

unfoldable pub malformed : Text → Text → Text
malformed fanin_id what =
    codes "fan-in watcher payload for " ++ (fanin_id ++ (codes " is malformed: " ++ what))

abbrev pub lane_error_text : LaneError → Text
lane_error_text LaneError.empty = codes "lane name must not be empty"
lane_error_text LaneError.too_long = codes "lane name must not exceed 256 bytes"
lane_error_text LaneError.invalid_char =
    codes "lane name must not contain control characters or leading/trailing whitespace"

unfoldable pub check_callback_lane : Text → Text → Complaint
unfolding validated malformed
check_callback_lane fanin_id lane = elim (validated lane) [
  | valid _ ↦ none
  | rejected e ↦ some (malformed fanin_id (codes "invalid callback lane: " ++ lane_error_text e))
]

unfoldable pub check_dependencies : Text → List JobId → List JobId → Complaint
unfolding malformed
check_dependencies fanin_id seen [] = none
check_dependencies fanin_id seen (dep ∷ deps) =
    let rest = check_dependencies fanin_id (dep ∷ seen) deps in
    if has dep seen then some (malformed fanin_id (codes "duplicate dependency " ++ dep)) else rest

unfoldable pub check_captured : Text → List JobId → List JobId → List (JobId × Bytes) → Complaint
unfolding malformed
check_captured fanin_id dependencies seen [] = none
check_captured fanin_id dependencies seen ((dep, bytes) ∷ entries) =
    let rest = check_captured fanin_id dependencies (dep ∷ seen) entries in
    if not (has dep dependencies)
    then some (malformed fanin_id (codes "captured unknown dependency " ++ dep))
    else if has dep seen
    then some (malformed fanin_id (codes "duplicate captured dependency " ++ dep))
    else rest

unfoldable pub validate : FanInWatcherPayload → Complaint
unfolding malformed check_callback_lane check_dependencies check_captured
validate p =
    if is_nil p.fanin_id
    then some (codes "fan-in watcher payload is malformed: fanin_id is empty")
    else if is_nil p.dependencies
    then some (malformed p.fanin_id (codes "no dependencies"))
    else if nat_eq p.generation 0
    then some (malformed p.fanin_id (codes "generation must be positive"))
    else if nat_eq p.max_generations 0 || ltb p.max_generations p.generation
    then some (
        malformed p.fanin_id (
          codes "generation "
          ++ (decimal p.generation ++ (codes " exceeds max " ++ decimal p.max_generations))))
    else if is_nil p.callback_kind
    then some (malformed p.fanin_id (codes "callback kind is empty"))
    else or_next (check_callback_lane p.fanin_id p.callback_lane) (
        or_next (check_dependencies p.fanin_id [] p.dependencies)
          (check_captured p.fanin_id p.dependencies [] p.collected))
