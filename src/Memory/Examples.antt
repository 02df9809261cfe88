-- ===== src/Memory/Examples.antt =====
-- Runs of the in-memory broker, and its theorems at concrete brokers.
use worklane.Base.{ℕ, ◌≤◌, ◌≡◌, refl, Option, none, some, List, [], ◌∷◌, length, ◌⊎◌}
use worklane.Base.Text.{codes, text_eq}
use worklane.Core.Error.{ok, err}
use worklane.Core.Envelope.{NewJob, Lane, Receipt, Reservation}
use worklane.Base.Assoc.{lookup, insert}
use worklane.Core.Retention.{RetentionPolicy}
use worklane.Core.Spi.{stale, default_lease}
use worklane.Memory.State
use worklane.Memory.State.{DeadEntry, InMemoryBroker, StoredJob, pick_best, is_visible}
use worklane.Memory.Dead.{prune_dead, dead_count}
use worklane.Memory.Ops
use worklane.Memory.Calls.{Call, step}
use worklane.Memory.Invariant.{Inv}
use worklane.Memory.Invariant.Runs.{IsConfigured, Reach, here, next, reachable-Inv}
use worklane.Memory.Pick.{IsChoice, pick_best-IsChoice}
use worklane.Memory.Receipts.{Resolution, resolve, resolve_once}
use worklane.Memory.Reserve.{IsHandOut, reserve-IsHandOut}
use worklane.Memory.Sweep.{IsSweep, reserve-IsSweep}
use worklane.Memory.Prune.{prune_dead-keeps, of_lane, off_lane, last_ones, young}

abbrev mail : Lane
mail = codes "mail"

abbrev first_job : NewJob
first_job = record {
  id = codes "a";
  lane = mail;
  kind = codes "send";
  payload = 1 ∷ [];
  max_attempts = 5;
  delay = 0;
  unique_key = some (codes "k");
  priority = 1;
  trace_context = none;
}

abbrev urgent_job : NewJob
urgent_job = record first_job { id = codes "b"; unique_key = none; priority = 9 }

abbrev r1 : Receipt
r1 = codes "r1"

-- Two jobs wait; the urgent one is reserved at time 10.
waiting : InMemoryBroker
unfolding step Ops.enqueue State.new text_eq lookup insert
waiting = step (step State.new (Call.enqueues first_job 3)) (Call.enqueues urgent_job 5)

busy : InMemoryBroker
unfolding waiting Ops.reserve
busy = (Ops.reserve waiting mail 10 r1).0

urgent_first : Option (ℕ × StoredJob) → ℕ
urgent_first none = 7
urgent_first (some (i, j)) = i

picks_urgent : urgent_first (pick_best waiting.inner.jobs mail 10) ≡ 1
unfolding waiting urgent_first pick_best
picks_urgent = refl

two_live : length busy.inner.jobs ≡ 2
unfolding busy
two_live = refl

served : Reservation
unfolding State.stored
served = record {
  envelope = (State.stored urgent_job 5).envelope;
  receipt = r1;
  lease = default_lease;
}

reserved : Ops.reserve waiting mail 10 r1 ≡ (busy, ok (some served))
unfolding busy served
reserved = refl

waiting-Reach : Reach State.new waiting
unfolding waiting
waiting-Reach = next (next here (Call.enqueues first_job 3) tt) (Call.enqueues urgent_job 5) tt

busy-Reach : Reach State.new busy
unfolding busy step
busy-Reach = next waiting-Reach (Call.reserves mail 10 r1) (unfold waiting in refl)

reachable-Inv_example : Inv busy.inner
reachable-Inv_example = reachable-Inv IsConfigured.plain busy-Reach

pick_best-IsChoice_example :
    IsChoice waiting.inner.jobs mail 10 (pick_best waiting.inner.jobs mail 10)
pick_best-IsChoice_example = pick_best-IsChoice waiting.inner.jobs mail 10

reserve-IsHandOut_example : IsHandOut waiting mail 10 r1 busy served
reserve-IsHandOut_example = reserve-IsHandOut waiting busy mail 10 r1 served reserved

-- A broker that allows no delivery: both jobs are swept.
exhausted : InMemoryBroker
unfolding waiting
exhausted = record waiting { max_deliveries = some 0 }

both_swept : length (Ops.reserve exhausted mail 10 r1).0.inner.dead ≡ 2
unfolding exhausted Ops.reserve
both_swept = refl

reserve-IsSweep_example :
    let x = Ops.reserve exhausted mail 10 r1 in
    (swept : List DeadEntry) × IsSweep exhausted mail 10 x.0 swept
    × (length swept ≤ 128)
    × (x.1 ≡ ok none → (pick_best x.0.inner.jobs mail 10 ≡ none) ⊎ (length swept ≡ 128))
reserve-IsSweep_example = reserve-IsSweep exhausted mail 10 r1

done : InMemoryBroker
unfolding busy resolve Ops.ack
done = (resolve busy Resolution.acking r1 20).0

resolve_once_example :
    (resolve done (Resolution.retrying 5) r1 21 ≡ (done, err (stale r1)))
    × (Ops.extend done r1 21 ≡ (done, err (stale r1)))
resolve_once_example =
    resolve_once busy done Resolution.acking r1 20 (reachable-Inv IsConfigured.plain busy-Reach)
      (unfold done in refl) (Resolution.retrying 5) 21

-- Three dead letters of one lane and one of another, under a policy that keeps two.
abbrev dead_on : Lane → ℕ → DeadEntry
dead_on lane at = record {
  letter = record {
    envelope = record {
      id = codes "d";
      lane = lane;
      kind = [];
      payload = [];
      attempts = 5;
      max_attempts = 5;
      priority = 0;
      trace_context = none;
    };
    error = [];
  };
  unique_key = none;
  dead_at = at;
}

abbrev graveyard : List DeadEntry
graveyard = dead_on mail 1 ∷ dead_on (codes "sms") 2 ∷ dead_on mail 8 ∷ dead_on mail 9 ∷ []

abbrev two_recent : RetentionPolicy
two_recent = record { max_age = some 5; max_count = some 1 }

prune_dead-keeps_example :
    let kept = prune_dead mail two_recent 10 graveyard in
    (of_lane mail kept ≡ last_ones (some 1) (young (some 5) 10 (of_lane mail graveyard)))
    × (off_lane mail kept ≡ off_lane mail graveyard)
    × ((n : ℕ) → some 1 ≡ some n → dead_count mail kept ≤ n)
prune_dead-keeps_example = prune_dead-keeps mail two_recent 10 graveyard

pruned : prune_dead mail two_recent 10 graveyard ≡ dead_on (codes "sms") 2 ∷ dead_on mail 9 ∷ []
unfolding prune_dead text_eq
pruned = refl
