-- ===== src/Memory/Dead.antt =====
-- crates/worklane-memory/src/lib.rs: into the dead-letter store, and its retention.
use worklane.Base.{
  ℕ, ◌-◌, Bool, true, false, not, ◌&&◌, ◌||◌, Option, none, some, List, [], ◌∷◌, ◌++◌, ltb, leb,
  ◌==◌, if◌then◌else◌, length, retain, erase_idx,
}
use worklane.Base.Text.{Text, text_Eq}
use worklane.Base.Assoc.{remove}
use worklane.Core.Envelope.{JobId, Lane}
use worklane.Core.Retention.{RetentionPolicy, is_unbounded}
use worklane.Memory.State.{StoredJob, DeadEntry, Inner}

abbrev pub on_lane : Lane → DeadEntry → Bool
on_lane lane d = d.letter.envelope.lane == lane

abbrev pub dead_count : Lane → List DeadEntry → ℕ
dead_count lane ds = length (retain (on_lane lane) ds)

-- The first `retain` of `prune_dead`.
unfoldable pub drop_aged : Lane → Option ℕ → ℕ → List DeadEntry → List DeadEntry
drop_aged lane none now ds = ds
drop_aged lane (some max_age) now ds =
    retain (λ d. not (on_lane lane d) || leb (now - max_age) d.dead_at) ds

-- The second `retain`, with `to_drop` as it counts down.
unfoldable pub drop_oldest : Lane → ℕ → List DeadEntry → List DeadEntry
drop_oldest lane to_drop [] = []
drop_oldest lane to_drop (d ∷ ds) = elim (on_lane lane d && ltb 0 to_drop) [
  | true ↦ drop_oldest lane (to_drop - 1) ds
  | false ↦ d ∷ drop_oldest lane to_drop ds
]

unfoldable pub drop_excess : Lane → Option ℕ → List DeadEntry → List DeadEntry
unfolding drop_oldest
drop_excess lane none ds = ds
drop_excess lane (some max_count) ds =
    if ltb max_count (dead_count lane ds)
    then drop_oldest lane (dead_count lane ds - max_count) ds
    else ds

unfoldable pub prune_dead : Lane → RetentionPolicy → ℕ → List DeadEntry → List DeadEntry
unfolding is_unbounded drop_aged drop_excess
prune_dead lane policy now ds =
    if is_unbounded policy
    then ds
    else drop_excess lane policy.max_count (drop_aged lane policy.max_age now ds)

-- A key that a job gives up, if it holds one.
unfoldable pub release : Option Text → List (Text × JobId) → List (Text × JobId)
release none m = m
release (some k) m = remove k m

unfoldable pub dead_entry : StoredJob → Text → ℕ → DeadEntry
dead_entry job error now = record {
  letter = record { envelope = job.envelope; error = error };
  unique_key = job.unique_key;
  dead_at = now;
}

-- `job` is what `jobs.remove(idx)` returns.
unfoldable pub dead_letter_at : Inner → ℕ → StoredJob → Text → ℕ → RetentionPolicy → Inner
unfolding release dead_entry prune_dead
dead_letter_at inner idx job error now retention = record inner {
  jobs = erase_idx inner.jobs idx;
  unique = release job.unique_key inner.unique;
  dead = prune_dead job.envelope.lane retention now (inner.dead ++ dead_entry job error now ∷ []);
}
