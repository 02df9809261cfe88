-- ===== src/Memory/Ops.antt =====
-- crates/worklane-memory/src/lib.rs: the `Broker` and `BatchEnqueue` methods. `now` is what the
-- clock reads, and the receipt that `reserve` draws is its last argument.
use worklane.Base.{
  ℕ, zero, suc, Bool, true, false, Option, none, some, List, [], ◌∷◌, ◌++◌, ltb, leb, ◌==◌,
  if◌then◌else◌, any, map, position, set, erase_idx,
}
use worklane.Base.Text.{Text, codes, text_Eq, option_eq}
use worklane.Core.Duration.{saturating_add, saturating_add_u32, decimal}
use worklane.Core.Error.{Result, ok, err, ◌>>=◌}
use worklane.Core.Envelope.{JobId, Receipt, Lane, NewJob, Reservation}
use worklane.Core.Retention.{warn_once}
use worklane.Core.Spi.{stale, JobState, max_dead_letter_sweep}
use worklane.Memory.State.{
  StoredJob, Inner, InMemoryBroker, pick_best, has_id, check_payload_size, insert_one,
}
use worklane.Memory.Dead.{dead_letter_at, release}

-- Without its lease a job is visible again.
unfoldable pub unlease : StoredJob → StoredJob
unlease j = record j { leased_until = none; receipt = none }

-- `leased_until.is_some_and(|until| until <= now)`.
unfoldable pub has_lapsed : ℕ → StoredJob → Bool
has_lapsed now j = elim j.leased_until [ none ↦ false | some until ↦ leb until now ]

abbrev pub has_receipt : Receipt → StoredJob → Bool
has_receipt receipt j = option_eq j.receipt (some receipt)

-- The index comes with the job that stands there.
unfoldable pub find_current_receipt : Inner → Receipt → ℕ → Inner × Result (ℕ × StoredJob)
unfolding unlease has_lapsed stale
find_current_receipt inner receipt now = elim (position (has_receipt receipt) inner.jobs) [
  | none ↦ (inner, err (stale receipt))
  | some (pos, job) ↦
      if has_lapsed now job
      then (record inner { jobs = set inner.jobs pos (unlease job) }, err (stale receipt))
      else (inner, ok (pos, job))
]

-- `find_current_receipt(..)?`, and then a change of the broker.
unfoldable pub with_current :
    InMemoryBroker
    → Receipt
    → ℕ
    → (InMemoryBroker → ℕ → StoredJob → InMemoryBroker)
    → InMemoryBroker × Result (Unit {0})
unfolding find_current_receipt
with_current b receipt now change =
    let (inner, found) = find_current_receipt b.inner receipt now in
    elim found [
      | ok (pos, job) ↦ (change (record b { inner = inner }) pos job, ok tt)
      | err e ↦ (record b { inner = inner }, err e)
    ]

unfoldable pub remove_job : InMemoryBroker → ℕ → StoredJob → InMemoryBroker
unfolding release
remove_job b pos job = record b {
  inner = record inner {
    jobs = erase_idx inner.jobs pos;
    unique = release job.unique_key inner.unique;
  };
}
  where
    open b use {inner}

unfoldable pub put_job : InMemoryBroker → ℕ → StoredJob → InMemoryBroker
put_job b pos job = record b { inner = record inner { jobs = set inner.jobs pos job } }
  where
    open b use {inner}

unfoldable pub retried : StoredJob → ℕ → StoredJob
unfolding saturating_add_u32
retried job at = record job {
  envelope = record (job.envelope) { attempts = saturating_add_u32 job.envelope.attempts 1 };
  available_at = at;
  leased_until = none;
  receipt = none;
}

unfoldable pub deferred : StoredJob → ℕ → StoredJob
deferred job at = record job { available_at = at; leased_until = none; receipt = none }

unfoldable pub extended : StoredJob → ℕ → StoredJob
extended job until = record job { leased_until = some until }

unfoldable pub retry_job : ℕ → ℕ → InMemoryBroker → ℕ → StoredJob → InMemoryBroker
unfolding put_job retried saturating_add
retry_job delay now b pos job = put_job b pos (retried job (saturating_add now delay))

unfoldable pub defer_job : ℕ → ℕ → InMemoryBroker → ℕ → StoredJob → InMemoryBroker
unfolding put_job deferred saturating_add
defer_job delay now b pos job = put_job b pos (deferred job (saturating_add now delay))

unfoldable pub extend_job : ℕ → InMemoryBroker → ℕ → StoredJob → InMemoryBroker
unfolding put_job extended saturating_add
extend_job now b pos job = put_job b pos (extended job (saturating_add now b.lease))

unfoldable pub fail_job : Text → ℕ → InMemoryBroker → ℕ → StoredJob → InMemoryBroker
unfolding dead_letter_at warn_once
fail_job error now b pos job = record b {
  inner = dead_letter_at b.inner pos job error now b.retention;
  dlq_warning = (warn_once b.dlq_warning b.retention).0;
}

unfoldable pub ack : InMemoryBroker → Receipt → ℕ → InMemoryBroker × Result (Unit {0})
unfolding with_current remove_job
ack b receipt now = with_current b receipt now remove_job

unfoldable pub retry : InMemoryBroker → Receipt → ℕ → ℕ → InMemoryBroker × Result (Unit {0})
unfolding with_current retry_job
retry b receipt delay now = with_current b receipt now (retry_job delay now)

unfoldable pub defer : InMemoryBroker → Receipt → ℕ → ℕ → InMemoryBroker × Result (Unit {0})
unfolding with_current defer_job
defer b receipt delay now = with_current b receipt now (defer_job delay now)

unfoldable pub fail : InMemoryBroker → Receipt → Text → ℕ → InMemoryBroker × Result (Unit {0})
unfolding with_current fail_job
fail b receipt error now = with_current b receipt now (fail_job error now)

unfoldable pub extend : InMemoryBroker → Receipt → ℕ → InMemoryBroker × Result (Unit {0})
unfolding with_current extend_job
extend b receipt now = with_current b receipt now (extend_job now)

-- The `for` loop at the head of `reserve`.
unfoldable pub release_lapsed : ℕ → List StoredJob → List StoredJob
unfolding has_lapsed unlease
release_lapsed now = map λ j. if has_lapsed now j then unlease j else j

unfoldable pub is_spent : Option ℕ → StoredJob → Bool
unfolding saturating_add_u32
is_spent none job = false
is_spent (some max) job = ltb max (saturating_add_u32 job.deliveries 1)

unfoldable pub spent_error : Option ℕ → Text
unfolding decimal
spent_error none = []
spent_error (some max) = codes "exceeded max deliveries (" ++ (decimal max ++ codes ")")

unfoldable pub leased : StoredJob → ℕ → Receipt → StoredJob
unfolding saturating_add_u32
leased job until receipt = record job {
  deliveries = saturating_add_u32 job.deliveries 1;
  leased_until = some until;
  receipt = some receipt;
}

unfoldable pub hand_out :
    InMemoryBroker → ℕ → StoredJob → ℕ → Receipt → InMemoryBroker × Option Reservation
unfolding put_job leased saturating_add
hand_out b idx job now receipt = (
  put_job b idx (leased job (saturating_add now b.lease) receipt),
  some (record { envelope = job.envelope; receipt = receipt; lease = b.lease }),
)

unfoldable pub sweep_one : InMemoryBroker → ℕ → StoredJob → ℕ → InMemoryBroker
unfolding dead_letter_at spent_error
sweep_one b idx job now = record b {
  inner = dead_letter_at b.inner idx job (spent_error b.max_deliveries) now b.retention;
}

-- The `loop` of `reserve`, by what is left of the sweep: `MAX_DEAD_LETTER_SWEEP - swept`. At zero
-- the test `swept >= MAX_DEAD_LETTER_SWEEP` has passed.
unfoldable pub reserve_loop :
    ℕ → InMemoryBroker → Lane → ℕ → Receipt → InMemoryBroker × Option Reservation
unfolding pick_best is_spent sweep_one hand_out
reserve_loop zero b lane now receipt = (b, none)
reserve_loop (suc left) b lane now receipt = elim (pick_best b.inner.jobs lane now) [
  | none ↦ (b, none)
  | some (idx, job) ↦ elim (is_spent b.max_deliveries job) [
    | true ↦ reserve_loop left (sweep_one b idx job now) lane now receipt
    | false ↦ hand_out b idx job now receipt
  ]
]

unfoldable pub reserve :
    InMemoryBroker → Lane → ℕ → Receipt → InMemoryBroker × Result (Option Reservation)
unfolding release_lapsed reserve_loop
reserve b lane now receipt =
    let (b', found) =
      reserve_loop max_dead_letter_sweep
        (record b { inner = record inner { jobs = release_lapsed now inner.jobs } }) lane now
        receipt in
    (b', ok found)
  where
    open b use {inner}

unfoldable pub enqueue : InMemoryBroker → NewJob → ℕ → InMemoryBroker × Result JobId
unfolding check_payload_size insert_one
enqueue b job now = elim (check_payload_size job) [
  | err e ↦ (b, err e)
  | ok _ ↦ let (inner', id) = insert_one b.inner job now in (record b { inner = inner' }, ok id)
]

-- The loop that checks every job of a batch.
unfoldable pub check_all : List NewJob → Result (Unit {0})
unfolding check_payload_size
check_all [] = ok tt
check_all (job ∷ jobs) = check_payload_size job >>= λ _. check_all jobs

unfoldable pub insert_all : Inner → List NewJob → ℕ → Inner × List JobId
unfolding insert_one
insert_all inner [] now = (inner, [])
insert_all inner (job ∷ jobs) now =
    let (inner', id) = insert_one inner job now in
    let (inner'', ids) = insert_all inner' jobs now in (inner'', id ∷ ids)

unfoldable pub enqueue_batch :
    InMemoryBroker → List NewJob → ℕ → InMemoryBroker × Result (List JobId)
unfolding check_all insert_all
enqueue_batch b jobs now = elim (check_all jobs) [
  | err e ↦ (b, err e)
  | ok _ ↦ let (inner', ids) = insert_all b.inner jobs now in (record b { inner = inner' }, ok ids)
]

unfoldable pub classify : InMemoryBroker → JobId → JobState
classify b id =
    if any (has_id id) b.inner.jobs
    then JobState.live
    else if any (λ d. d.letter.envelope.id == id) b.inner.dead
    then JobState.dead_lettered
    else JobState.completed_or_unknown
