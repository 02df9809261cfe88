-- ===== src/Memory/Sweep.antt =====
-- What `reserve` does to the jobs on the way: the sweep of those beyond their delivery budget.
use worklane.Base.{
  ℕ, zero, suc, ◌+◌, ◌≤◌, ◌≡◌, refl, sym, ap, ◌∙◌, subst, Bool-cases, true, Option, none, some,
  List, [], ◌∷◌, ◌++◌, ◌⊎◌, inl, inr, get_elem?, set, erase_idx, arith, length,
}
use mathlib.Core.List.{Perm, perm_middle}
use mathlib.Core.List.Perm
use worklane.Base.Text.{Text}
use worklane.Core.Duration.{saturating_add}
use worklane.Core.Error.{ok}
use worklane.Core.Envelope.{Receipt, Lane, JobEnvelope, Reservation}
use worklane.Core.Retention.{RetentionPolicy}
use worklane.Core.Spi.{max_dead_letter_sweep}
use worklane.Memory.State.{StoredJob, DeadEntry, InMemoryBroker, is_visible, pick_best}
use worklane.Memory.Dead.{dead_letter_at, dead_entry, prune_dead}
use worklane.Memory.Pick.{IsChoice, pick_best-IsChoice}
use worklane.Memory.Ops.{
  reserve, reserve_loop, sweep_one, hand_out, leased, put_job, is_spent, spent_error,
  release_lapsed, unlease,
}
use worklane.Memory.Reserve.{refreshed, Stems-lapsed, Sweeping, sweep_one-Sweeping, spent-refreshed}

abbrev pub envelopes : List StoredJob → List JobEnvelope
envelopes [] = []
envelopes (j ∷ js) = j.envelope ∷ envelopes js

abbrev pub swept_envelopes : List DeadEntry → List JobEnvelope
swept_envelopes [] = []
swept_envelopes (d ∷ ds) = d.letter.envelope ∷ swept_envelopes ds

-- The dead letters after some more came to their end, one after the other and the newest first in
-- the list, each pruned by the retention policy of its lane.
unfoldable pub buried : RetentionPolicy → ℕ → List DeadEntry → List DeadEntry → List DeadEntry
buried policy now dead [] = dead
buried policy now dead (d ∷ swept) =
    prune_dead d.letter.envelope.lane policy now (buried policy now dead swept ++ d ∷ [])

-- A dead letter that was a visible job of the lane, beyond its delivery budget.
pub record IsSpentJob (b : InMemoryBroker) (lane : Lane) (now : ℕ) (d : DeadEntry) : Type 0 where
  pub index : ℕ
  pub job : StoredJob
  pub stood : get_elem? b.inner.jobs index ≡ some job
  pub visible : is_visible lane now (refreshed now job) ≡ true
  pub beyond : is_spent b.max_deliveries job ≡ true
  pub entry : d ≡ dead_entry job (spent_error b.max_deliveries) now

abbrev pub AllSpent : InMemoryBroker → Lane → ℕ → List DeadEntry → Type 0
AllSpent b lane now [] = Unit
AllSpent b lane now (d ∷ swept) = IsSpentJob b lane now d × AllSpent b lane now swept

-- How the broker stands after the jobs were swept; the newest stands first.
pub record IsSweep (b : InMemoryBroker) (lane : Lane) (now : ℕ) (c : InMemoryBroker)
    (swept : List DeadEntry) : Type 0 where
  pub jobs : Perm (envelopes b.inner.jobs) (swept_envelopes swept ++ envelopes c.inner.jobs)
  pub dead : c.inner.dead ≡ buried b.retention now b.inner.dead swept
  pub spent : AllSpent b lane now swept

envelopes-erase_idx :
    (js : List StoredJob) (i : ℕ) (j : StoredJob)
    → get_elem? js i ≡ some j
    → Perm (envelopes js) (j.envelope ∷ envelopes (erase_idx js i))
envelopes-erase_idx [] i j h = absurd (ground arith)
envelopes-erase_idx (k ∷ js) zero j h =
    let e : k ≡ j = ground arith in
    subst (λ x. Perm (k.envelope ∷ envelopes js) (x.envelope ∷ envelopes js)) e Perm.rfl
envelopes-erase_idx (k ∷ js) (suc i) j h =
    Perm.trans (Perm.cons k.envelope (envelopes-erase_idx js i j h))
      (Perm.swap j.envelope k.envelope (envelopes (erase_idx js i)))

envelopes-set :
    (js : List StoredJob) (i : ℕ) (j k : StoredJob)
    → get_elem? js i ≡ some j
    → k.envelope ≡ j.envelope
    → envelopes (set js i k) ≡ envelopes js
envelopes-set [] i j k h e = absurd (ground arith)
envelopes-set (l ∷ js) zero j k h e = ground arith
envelopes-set (l ∷ js) (suc i) j k h e = ap (λ x. l.envelope ∷ x) (envelopes-set js i j k h e)

envelopes-lapsed :
    (now : ℕ) (js : List StoredJob) → envelopes (release_lapsed now js) ≡ envelopes js
unfolding release_lapsed unlease
envelopes-lapsed now [] = refl
envelopes-lapsed now (j ∷ js) = ground (arith, envelopes-lapsed now js)

dead_entry-refreshed :
    (now : ℕ) (j : StoredJob) (error : Text)
    → dead_entry (refreshed now j) error now ≡ dead_entry j error now
unfolding dead_entry unlease
dead_entry-refreshed now j error = ground arith

-- The sweep on its way.
record Passing (b : InMemoryBroker) (lane : Lane) (now : ℕ) (c : InMemoryBroker)
    (swept : List DeadEntry) : Type 0 where
  sweep : IsSweep b lane now c swept
  shares : Sweeping now b c
  policy : c.retention ≡ b.retention

sweep_one-Passing :
    (b : InMemoryBroker) (lane : Lane) (now : ℕ) (c : InMemoryBroker) (swept : List DeadEntry)
    (i : ℕ) (w : StoredJob)
    → Passing b lane now c swept
    → get_elem? c.inner.jobs i ≡ some w
    → is_visible lane now w ≡ true
    → is_spent c.max_deliveries w ≡ true
    → Passing b lane now
        (sweep_one c i w now)
        (dead_entry w (spent_error c.max_deliveries) now ∷ swept)
unfolding sweep_one dead_letter_at buried
sweep_one-Passing b lane now c swept i w p here seen spent =
    let (k, j, g, same) = p.shares.stems i w here in
    record {
      sweep = record {
        jobs = Perm.trans p.sweep.jobs (
            Perm.trans
              (Perm.append_left (swept_envelopes swept) (envelopes-erase_idx c.inner.jobs i w here))
              (perm_middle (swept_envelopes swept) (envelopes (erase_idx c.inner.jobs i))));
        dead = unfold dead_entry in ground (arith, p.sweep.dead, p.policy);
        spent = (
          record {
            index = k;
            job = j;
            stood = g;
            visible = rw same at seen;
            beyond =
                sym (spent-refreshed now b.max_deliveries j)
                ∙ (ap (λ x. is_spent b.max_deliveries x) (sym same)
                    ∙ (ap (λ m. is_spent m w) (sym p.shares.budget) ∙ spent));
            entry =
                ap (λ x. dead_entry x (spent_error c.max_deliveries) now) same
                ∙ (dead_entry-refreshed now j (spent_error c.max_deliveries)
                    ∙ ap (λ m. dead_entry j (spent_error m) now) p.shares.budget);
          },
          p.sweep.spent,
        );
      };
      shares = sweep_one-Sweeping now b c i w p.shares;
      policy = p.policy;
    }

hand_out-IsSweep :
    (b : InMemoryBroker) (lane : Lane) (now : ℕ) (receipt : Receipt) (c : InMemoryBroker)
    (swept : List DeadEntry) (i : ℕ) (w : StoredJob)
    → IsSweep b lane now c swept
    → get_elem? c.inner.jobs i ≡ some w
    → IsSweep b lane now (hand_out c i w now receipt).0 swept
unfolding hand_out put_job leased
hand_out-IsSweep b lane now receipt c swept i w s here =
    let until = saturating_add now c.lease in
    record {
      jobs =
          subst (λ x. Perm (envelopes b.inner.jobs) (swept_envelopes swept ++ x))
            (sym (envelopes-set c.inner.jobs i w (leased w until receipt) here refl)) s.jobs;
      dead = s.dead;
      spent = s.spent;
    }

-- How a reservation ends that may sweep `limit` jobs.
abbrev Ends : InMemoryBroker → Lane → ℕ → ℕ → InMemoryBroker × Option Reservation → Type 0
Ends b lane now limit x =
    (swept : List DeadEntry) × IsSweep b lane now x.0 swept
    × (length swept ≤ limit)
    × (ok x.1 ≡ ok none → (pick_best x.0.inner.jobs lane now ≡ none) ⊎ (length swept ≡ limit))

module _ (b : InMemoryBroker) (lane : Lane) (now : ℕ) (receipt : Receipt) (limit : ℕ) where
  reserve_loop-Ends_pass :
      (left : ℕ) (c : InMemoryBroker) (swept : List DeadEntry) (r : Option (ℕ × StoredJob))
      → pick_best c.inner.jobs lane now ≡ r
      → IsChoice c.inner.jobs lane now r
      → Passing b lane now c swept
      → length swept + suc left ≡ limit
      → ((d : InMemoryBroker) (more : List DeadEntry)
          → Passing b lane now d more
          → length more + left ≡ limit
          → Ends b lane now limit (reserve_loop left d lane now receipt))
      → Ends b lane now limit (reserve_loop (suc left) c lane now receipt)
  unfolding reserve_loop
  reserve_loop-Ends_pass left c swept none e h p n again =
      rw (e, reserve_loop) (swept, p.sweep, omega arith, λ _. inl e)
  reserve_loop-Ends_pass left c swept (some (i, w)) e h p n again =
      elim (Bool-cases (is_spent c.max_deliveries w)) [
        | inl s ↦
            rw (e, s, reserve_loop)
              (again (sweep_one c i w now) _ (sweep_one-Passing b lane now c swept i w p h.0 h.1 s)
                (omega arith))
        | inr s ↦
            rw (e, s, reserve_loop)
              (
                swept,
                hand_out-IsSweep b lane now receipt c swept i w p.sweep h.0,
                omega arith,
                unfold hand_out in λ q. absurd (ground arith),
              )
      ]

  reserve_loop-Ends :
      (left : ℕ) (c : InMemoryBroker) (swept : List DeadEntry)
      → Passing b lane now c swept
      → length swept + left ≡ limit
      → Ends b lane now limit (reserve_loop left c lane now receipt)
  unfolding reserve_loop
  reserve_loop-Ends zero c swept p n = (swept, p.sweep, omega arith, λ _. inr (omega arith))
  reserve_loop-Ends (suc left) c swept p n =
      reserve_loop-Ends_pass left c swept (pick_best c.inner.jobs lane now) refl
        (pick_best-IsChoice c.inner.jobs lane now) p n (reserve_loop-Ends left)

-- A reservation sweeps at most 128 jobs. Each is a visible job of the lane that is beyond its
-- delivery budget, and becomes a dead letter with the error that says so; the jobs from before are
-- those swept and those that are live now, up to their order. The dead letters are those from
-- before, with the swept ones put at the end one by one, and pruned each time by the retention
-- policy. The reservation comes back empty only when no job of the lane is visible any more, or
-- after 128 swept jobs.
pub reserve-IsSweep :
    (b : InMemoryBroker) (lane : Lane) (now : ℕ) (receipt : Receipt)
    → let x = reserve b lane now receipt in
      (swept : List DeadEntry) × IsSweep b lane now x.0 swept
      × (length swept ≤ max_dead_letter_sweep)
      × (x.1 ≡ ok none
          → (pick_best x.0.inner.jobs lane now ≡ none) ⊎ (length swept ≡ max_dead_letter_sweep))
unfolding reserve buried
reserve-IsSweep b lane now receipt =
    reserve_loop-Ends b lane now receipt 128 128 _ []
      (record {
        sweep = record {
          jobs =
              subst (Perm (envelopes b.inner.jobs)) (sym (envelopes-lapsed now b.inner.jobs))
                Perm.rfl;
          dead = refl;
          spent = tt;
        };
        shares = record { lease = refl; budget = refl; stems = Stems-lapsed now b.inner.jobs };
        policy = refl;
      })
      refl
