-- ===== src/Memory/State.antt =====
-- crates/worklane-memory/src/lib.rs: the state of the in-memory broker, the choice of the next job
-- and the one way in. The mutex makes each method one atomic step; the clock's reading is an
-- argument.
use worklane.Base.{
  ℕ, suc, Bool, false, ◌&&◌, ◌||◌, Option, none, some, List, [], ◌∷◌, ◌++◌, ltb, leb, nat_eq, ◌==◌,
  if◌then◌else◌, any, length,
}
use worklane.Base.Text.{Text, codes, text_Eq}
use worklane.Base.Assoc.{lookup, insert}
use worklane.Base.Int.{ℤ}
use worklane.Core.Duration.{saturating_add, decimal}
use worklane.Core.Error.{Result, ok, err, serialization}
use worklane.Core.Envelope.{JobId, Receipt, Lane, NewJob, JobEnvelope, DeadLetter, into_envelope}
use worklane.Core.Spi.{max_envelope_bytes, default_lease}
use worklane.Core.Retention.{RetentionPolicy, is_none}

pub record StoredJob : Type 0 where
  pub envelope : JobEnvelope
  pub available_at : ℕ
  pub leased_until : Option ℕ
  pub receipt : Option Receipt
  pub unique_key : Option Text
  pub deliveries : ℕ

pub record DeadEntry : Type 0 where
  pub letter : DeadLetter
  pub unique_key : Option Text
  pub dead_at : ℕ

pub record Inner : Type 0 where
  pub jobs : List StoredJob
  pub dead : List DeadEntry
  pub unique : List (Text × JobId)
  pub schedules : List (Text × ℤ)

pub record InMemoryBroker : Type 0 where
  pub inner : Inner
  pub lease : ℕ
  pub retention : RetentionPolicy
  -- The flag of `UnboundedDlqWarning`.
  pub dlq_warning : Bool
  pub max_deliveries : Option ℕ

unfoldable pub empty_inner : Inner
empty_inner = record { jobs = []; dead = []; unique = []; schedules = [] }

unfoldable pub new : InMemoryBroker
unfolding empty_inner
new = record {
  inner = empty_inner;
  lease = default_lease;
  retention = record { max_age = none; max_count = none };
  dlq_warning = false;
  max_deliveries = none;
}

abbrev pub job_id : StoredJob → JobId
job_id j = j.envelope.id

abbrev pub has_id : JobId → StoredJob → Bool
has_id id j = j.envelope.id == id

-- The filter of `pick_best`.
unfoldable pub is_visible : Lane → ℕ → StoredJob → Bool
is_visible lane now j =
    j.envelope.lane == lane && (is_none j.leased_until && leb j.available_at now)

-- The comparison of `pick_best`: does `j` come before `best`?
unfoldable pub is_better : StoredJob → StoredJob → Bool
is_better j best =
    ltb best.envelope.priority j.envelope.priority
    || (nat_eq j.envelope.priority best.envelope.priority && ltb j.available_at best.available_at)

-- `best_idx` after the job at `i`; the index is kept with the job that it stands for.
unfoldable pub take_better : ℕ → StoredJob → Option (ℕ × StoredJob) → Option (ℕ × StoredJob)
unfolding is_better
take_better i j none = some (i, j)
take_better i j (some (b, best)) = if is_better j best then some (i, j) else some (b, best)

unfoldable pub pick_from :
    Lane → ℕ → ℕ → Option (ℕ × StoredJob) → List StoredJob → Option (ℕ × StoredJob)
pick_from lane now i best [] = best
pick_from lane now i best (j ∷ js) =
    pick_from lane now (suc i) (if is_visible lane now j then take_better i j best else best) js

unfoldable pub pick_best : List StoredJob → Lane → ℕ → Option (ℕ × StoredJob)
unfolding pick_from is_visible take_better
pick_best jobs lane now = pick_from lane now 0 none jobs

unfoldable pub check_payload_size : NewJob → Result (Unit {0})
unfolding decimal
check_payload_size job =
    if ltb max_envelope_bytes size
    then err (
        serialization (
          codes "job payload is "
          ++ (decimal size
              ++ (codes " bytes, over the "
                  ++ (decimal max_envelope_bytes ++ codes "-byte limit")))))
    else ok tt
  where
    size : ℕ
    size = length job.payload

-- The record that `insert_one` pushes.
unfoldable pub stored : NewJob → ℕ → StoredJob
unfolding into_envelope saturating_add
stored job now = record {
  envelope = into_envelope job;
  available_at = saturating_add now job.delay;
  leased_until = none;
  receipt = none;
  unique_key = job.unique_key;
  deliveries = 0;
}

-- A key that a live job takes, if it takes one.
unfoldable pub claim : Option Text → JobId → List (Text × JobId) → List (Text × JobId)
claim none id m = m
claim (some k) id m = insert k id m

-- The holder of a key, if there is a key.
unfoldable pub holder : Option Text → List (Text × JobId) → Option JobId
holder none m = none
holder (some k) m = lookup k m

unfoldable pub insert_one : Inner → NewJob → ℕ → Inner × JobId
unfolding claim holder stored
insert_one inner job now =
    if any (has_id job.id) inner.jobs
    then (inner, job.id)
    else elim (holder job.unique_key inner.unique) [
      | some existing ↦ (inner, existing)
      | none ↦ (
        record inner {
          jobs = inner.jobs ++ stored job now ∷ [];
          unique = claim job.unique_key job.id inner.unique;
        },
        job.id,
      )
    ]

-- `with_lease`, `with_max_deliveries` and `with_dead_letter_retention`.
unfoldable pub with_lease : InMemoryBroker → ℕ → InMemoryBroker
with_lease b lease = record b { lease = lease }

unfoldable pub with_max_deliveries : InMemoryBroker → ℕ → InMemoryBroker
with_max_deliveries b max = record b { max_deliveries = some max }

unfoldable pub with_dead_letter_retention : InMemoryBroker → RetentionPolicy → InMemoryBroker
with_dead_letter_retention b policy = record b { retention = policy }
