-- ===== src/Memory/Stores.antt =====
-- crates/worklane-memory/src/lib.rs: the `DeadLetterStore`, `QueueStats` and `ScheduledStore`
-- methods.
use worklane.Base.{
  ℕ, ◌-◌, Bool, true, false, not, Option, none, some, List, [], ◌∷◌, ◌++◌, ◌==◌, if◌then◌else◌, any,
  length, map, position, retain, take, erase_idx,
}
use worklane.Base.Text.{Text, codes, text_Eq, debug}
use worklane.Base.Assoc.{lookup, insert, remove}
use worklane.Base.Int.{ℤ, ltb_ℤ}
use worklane.Core.Error.{Error, Result, ok, err, broker, live_job_id_conflict, unique_key_held}
use worklane.Core.Envelope.{JobId, Lane, NewJob, DeadLetter}
use worklane.Memory.State.{
  StoredJob, DeadEntry, Inner, InMemoryBroker, has_id, insert_one, claim, holder,
}
use worklane.Memory.Dead.{on_lane, dead_count}

abbrev pub dead_has_id : JobId → DeadEntry → Bool
dead_has_id id d = d.letter.envelope.id == id

unfoldable pub read_dead_letters : InMemoryBroker → Lane → ℕ → List DeadLetter
read_dead_letters b lane limit =
    map (λ d. d.letter) (take limit (retain (on_lane lane) b.inner.dead))

unfoldable pub count_dead_letters : InMemoryBroker → Lane → ℕ
count_dead_letters b lane = dead_count lane b.inner.dead

unfoldable pub purge_dead_letters : InMemoryBroker → Lane → InMemoryBroker × ℕ
purge_dead_letters b lane =
    (record b { inner = record inner { dead = kept } }, length inner.dead - length kept)
  where
    open b use {inner}

    kept : List DeadEntry
    kept = retain (λ d. not (on_lane lane d)) inner.dead

unfoldable pub pending_count : InMemoryBroker → Lane → ℕ
pending_count b lane = length (retain (λ j. j.envelope.lane == lane) b.inner.jobs)

-- The job that a requeue makes of a dead letter.
unfoldable pub revived : DeadEntry → ℕ → StoredJob
revived d now = record {
  envelope = d.letter.envelope;
  available_at = now;
  leased_until = none;
  receipt = none;
  unique_key = d.unique_key;
  deliveries = 0;
}

unfoldable pub no_dead_letter : JobId → Error
no_dead_letter id = broker (codes "no dead-letter record for job " ++ id)

unfoldable pub id_conflict : JobId → Error
id_conflict id =
    live_job_id_conflict
      (codes "cannot requeue job " ++ (id ++ codes ": a live job with the same id already exists"))

unfoldable pub key_conflict : JobId → Option Text → Error
key_conflict id none = unique_key_held []
key_conflict id (some uk) = unique_key_held (
    codes "cannot requeue job "
    ++ (id ++ (codes ": unique key " ++ (debug uk ++ codes " is held by another live job"))))

unfoldable pub revive : Inner → ℕ → DeadEntry → JobId → ℕ → Inner
unfolding claim revived
revive inner pos d id now = record inner {
  dead = erase_idx inner.dead pos;
  unique = claim d.unique_key id inner.unique;
  jobs = inner.jobs ++ revived d now ∷ [];
}

unfoldable pub requeue : InMemoryBroker → JobId → ℕ → InMemoryBroker × Result (Unit {0})
unfolding revive holder no_dead_letter id_conflict key_conflict
requeue b id now = elim (position (dead_has_id id) inner.dead) [
  | none ↦ (b, err (no_dead_letter id))
  | some (pos, d) ↦
      if any (has_id id) inner.jobs
      then (b, err (id_conflict id))
      else elim (holder d.unique_key inner.unique) [
        | some _ ↦ (b, err (key_conflict id d.unique_key))
        | none ↦ (record b { inner = revive inner pos d id now }, ok tt)
      ]
]
  where
    open b use {inner}

-- A first occurrence is always new; after that only a later one is.
unfoldable pub is_new_occurrence : Option ℤ → ℤ → Bool
is_new_occurrence none occurrence = true
is_new_occurrence (some last) occurrence = ltb_ℤ last occurrence

unfoldable pub enqueue_scheduled :
    InMemoryBroker → Text → ℤ → NewJob → ℕ → InMemoryBroker × Result Bool
unfolding insert_one is_new_occurrence
enqueue_scheduled b schedule_id occurrence job now =
    if is_new_occurrence (lookup schedule_id inner.schedules) occurrence
    then (record b { inner = (insert_one claimed job now).0 }, ok true)
    else (b, ok false)
  where
    open b use {inner}

    claimed : Inner
    claimed = record inner { schedules = insert schedule_id occurrence inner.schedules }

unfoldable pub remove_schedule : InMemoryBroker → Text → InMemoryBroker
remove_schedule b schedule_id = record b {
  inner = record inner { schedules = remove schedule_id inner.schedules };
}
  where
    open b use {inner}
