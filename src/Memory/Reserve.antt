-- ===== src/Memory/Reserve.antt =====
-- What `reserve` hands out.
use worklane.Base.{
  ℕ, ◌≡◌, refl, sym, ap, ◌∙◌, true, false, Option, none, some, List, get_elem?, arith,
  if◌then◌else◌, get_elem?-erase_idx, get_elem?-map_inv, get_elem?-set_self,
}
use mathlib.Core.Path.{subst₂}
use worklane.Core.Duration.{saturating_add, saturating_add_u32}
use worklane.Core.Error.{Result, ok}
use worklane.Core.Envelope.{Receipt, Lane, Reservation}
use worklane.Memory.State.{StoredJob, InMemoryBroker, is_visible}
use worklane.Memory.Dead.{dead_letter_at}
use worklane.Memory.Pick.{IsChoice}
use worklane.Memory.Ops.{
  reserve, reserve_loop, sweep_one, hand_out, leased, put_job, is_spent, release_lapsed, has_lapsed,
  unlease,
}
use worklane.Memory.Cases.{reserve_loop_rule}

-- A stored job as `reserve` sees it, once the leases that have run out are released.
abbrev pub refreshed : ℕ → StoredJob → StoredJob
refreshed now j = if has_lapsed now j then unlease j else j

-- Every job of the second list is a job of the first, refreshed.
abbrev Stems : ℕ → List StoredJob → List StoredJob → Type 0
Stems now js ks =
    (k : ℕ) (w : StoredJob)
    → get_elem? ks k ≡ some w
    → (i : ℕ) × (j : StoredJob) × (get_elem? js i ≡ some j) × (w ≡ refreshed now j)

pub Stems-lapsed : (now : ℕ) (js : List StoredJob) → Stems now js (release_lapsed now js)
unfolding release_lapsed
Stems-lapsed now js k w h =
    let (j, g, e) = get_elem?-map_inv (refreshed now) js k w h in (k, j, g, e)

-- What the broker that `reserve` works on shares with the broker that it was called on.
pub record Sweeping (now : ℕ) (b c : InMemoryBroker) : Type 0 where
  pub lease : c.lease ≡ b.lease
  pub budget : c.max_deliveries ≡ b.max_deliveries
  pub stems : Stems now b.inner.jobs c.inner.jobs

pub sweep_one-Sweeping :
    (now : ℕ) (b c : InMemoryBroker) (i : ℕ) (j : StoredJob)
    → Sweeping now b c
    → Sweeping now b (sweep_one c i j now)
unfolding sweep_one dead_letter_at
sweep_one-Sweeping now b c i j s = record {
  lease = s.lease;
  budget = s.budget;
  stems = λ k w h. let (n, e) = get_elem?-erase_idx c.inner.jobs i k w h in s.stems n w e;
}

-- The job that was handed out: where it stood, why it could be taken, and how it stands now.
pub record IsHandOut (b : InMemoryBroker) (lane : Lane) (now : ℕ) (receipt : Receipt)
    (c : InMemoryBroker) (r : Reservation) : Type 0 where
  pub index : ℕ
  pub job : StoredJob
  pub stood : get_elem? b.inner.jobs index ≡ some job
  pub visible : is_visible lane now (refreshed now job) ≡ true
  pub within : is_spent b.max_deliveries job ≡ false
  pub envelope : r.envelope ≡ job.envelope
  pub receipt_drawn : r.receipt ≡ receipt
  pub lease_given : r.lease ≡ b.lease
  pub new_index : ℕ
  pub held : StoredJob
  pub stands : get_elem? c.inner.jobs new_index ≡ some held
  pub held_envelope : held.envelope ≡ job.envelope
  pub held_receipt : held.receipt ≡ some receipt
  pub held_until : held.leased_until ≡ some (saturating_add now b.lease)
  pub counted : held.deliveries ≡ saturating_add_u32 job.deliveries 1

abbrev HandsOut : InMemoryBroker → Lane → ℕ → Receipt → InMemoryBroker × Option Reservation → Type 0
HandsOut b lane now receipt (c, none) = Unit
HandsOut b lane now receipt (c, some r) = IsHandOut b lane now receipt c r

pub spent-refreshed :
    (now : ℕ) (max : Option ℕ) (j : StoredJob) → is_spent max (refreshed now j) ≡ is_spent max j
unfolding is_spent unlease
spent-refreshed now none j = refl
spent-refreshed now (some m) j = ground arith

pub envelope-refreshed : (now : ℕ) (j : StoredJob) → (refreshed now j).envelope ≡ j.envelope
unfolding unlease
envelope-refreshed now j = ground arith

deliveries-refreshed : (now : ℕ) (j : StoredJob) → (refreshed now j).deliveries ≡ j.deliveries
unfolding unlease
deliveries-refreshed now j = ground arith

hand_out-IsHandOut :
    (b : InMemoryBroker) (lane : Lane) (now : ℕ) (receipt : Receipt) (c : InMemoryBroker) (i : ℕ)
    (w : StoredJob)
    → Sweeping now b c
    → IsChoice c.inner.jobs lane now (some (i, w))
    → is_spent c.max_deliveries w ≡ false
    → HandsOut b lane now receipt (hand_out c i w now receipt)
unfolding hand_out put_job leased
hand_out-IsHandOut b lane now receipt c i w s choice e =
    let (k, j, g, same) = s.stems i w choice.0 in
    record {
      index = k;
      job = j;
      stood = g;
      visible = rw same at choice.1;
      within =
          sym (spent-refreshed now b.max_deliveries j)
          ∙ (ap (λ x. is_spent b.max_deliveries x) (sym same)
              ∙ (ap (λ m. is_spent m w) (sym s.budget) ∙ e));
      envelope = ap (λ x. x.envelope) same ∙ envelope-refreshed now j;
      receipt_drawn = refl;
      lease_given = s.lease;
      new_index = i;
      held = leased w (saturating_add now c.lease) receipt;
      stands = get_elem?-set_self c.inner.jobs i _ w choice.0;
      held_envelope = ap (λ x. x.envelope) same ∙ envelope-refreshed now j;
      held_receipt = refl;
      held_until = ap (λ l. some (saturating_add now l)) s.lease;
      counted =
          ap (λ x. saturating_add_u32 x.deliveries 1) same
          ∙ ap (λ n. saturating_add_u32 n 1) (deliveries-refreshed now j);
    }

reserve_loop-HandsOut :
    (b : InMemoryBroker) (lane : Lane) (now : ℕ) (receipt : Receipt) (left : ℕ) (c : InMemoryBroker)
    → Sweeping now b c
    → HandsOut b lane now receipt (reserve_loop left c lane now receipt)
reserve_loop-HandsOut b lane now receipt =
    reserve_loop_rule (Sweeping now b) (HandsOut b lane now receipt) lane now receipt (λ c s. tt)
      (λ c i w s _ _. sweep_one-Sweeping now b c i w s)
      (λ c i w s h e. hand_out-IsHandOut b lane now receipt c i w s h e)

unpack :
    (b c : InMemoryBroker) (lane : Lane) (now : ℕ) (receipt : Receipt) (r : Reservation)
    (x : InMemoryBroker × Option Reservation)
    → ◌≡◌ {A = InMemoryBroker × Result (Option Reservation)} (x.0, ok x.1) (c, ok (some r))
    → HandsOut b lane now receipt x
    → IsHandOut b lane now receipt c r
unpack b c lane now receipt r (d, none) e h = cc
unpack b c lane now receipt r (d, some q) e h =
    subst₂ (IsHandOut b lane now receipt) (ap (λ y. y.0) e) (ground arith) h

-- What `reserve` hands out is a live job of the broker that was visible on the lane, its lease if
-- it had one run out, and within its delivery budget. Its envelope is handed out as it is; the job
-- stays in the store with the receipt drawn, leased for the broker's lease from now on, and with
-- one more delivery counted.
pub reserve-IsHandOut :
    (b c : InMemoryBroker) (lane : Lane) (now : ℕ) (receipt : Receipt) (r : Reservation)
    → reserve b lane now receipt ≡ (c, ok (some r))
    → IsHandOut b lane now receipt c r
unfolding reserve
reserve-IsHandOut b c lane now receipt r h = unpack b c lane now receipt r _ h (
    reserve_loop-HandsOut b lane now receipt 128 _
      (record { lease = refl; budget = refl; stems = Stems-lapsed now b.inner.jobs }))
