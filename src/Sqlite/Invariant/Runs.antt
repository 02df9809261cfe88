-- ===== src/Sqlite/Invariant/Runs.antt =====
-- crates/worklane-sqlite: every sequence of calls keeps the tables well-formed, whatever the driver
-- answers.
use worklane.Base.{
  ℕ, ◌≡◌, refl, Bool, true, false, Option, none, some, List, [], ◌∷◌, Option-cases, Bool-cases, inl,
  inr, any, subst, sym,
}
use worklane.Base.Int.{ℤ, ltb_ℤ}
use worklane.Base.Assoc.{lookup}
use worklane.Base.Text.{Text, text_Eq}
use worklane.Core.Codec.{Json, decode_envelope, receipt_key}
use worklane.Core.Envelope.{JobId, Receipt, Lane, Bytes, NewJob}
use worklane.Core.Error.{Error, Result, ok, err}
use worklane.Core.Retention.{nanos}
use worklane.Sqlite.Atomic.{others-IsAtomic}
use worklane.Sqlite.Broker
use worklane.Sqlite.Broker.{
  SqliteBroker, nanos_after, insert_all, remove_job, retry_row, defer_row, warn, extend_key,
  reserve_by, fast_path, bounded_path, lease_unbounded, lease_next, sweep, some_reservation,
  reserve_loop,
}
use worklane.Sqlite.Calls.{Call, discard, issue, issue_all}
use worklane.Sqlite.Invariant.{WellFormed, Inserted, insert_key-WellFormed, dead-WellFormed}
use worklane.Sqlite.Invariant.Methods.{
  Sound, Sound-bind, Sound-query, Sound-lift, Sound-pure, insert_row-Triple, insert_job-Sound,
  insert_all-Sound, find_valid_row-Sound, remove_job-Sound, retry_row-Sound, defer_row-Sound,
  warn-Sound, extend_key-Sound, dead_letter_seq-Sound, reserve_by-Sound, lease_found-WellFormed,
  reserve_loop-Sound,
}
use worklane.Sqlite.Rows.{
  row_has_id, dead_has_id, find, insert_row, insert_key, insert_job, find_valid_row,
}
use worklane.Sqlite.Session.{
  DeadRow, Database, Session, Sql, pure, lift, ◌>>=◌, ask, query, execute, in_transaction, run,
  then_run, answered, first_answer, later_answers, sql_err, checkout_err,
}
use worklane.Sqlite.Session.Rules.{
  Triple, Triple-pure, Triple-lift, Triple-ask, Triple-execute, Triple-bind, Triple-in_transaction,
  Triple-run, PostDb, Keeps, IsAtomic-in_transaction,
}
use worklane.Sqlite.Stores
use worklane.Sqlite.Stores.{
  or_no_record, id_conflict, key_conflict, refuse, refuse_held, reacquire, or_key_conflict,
  or_id_conflict, delete_dead, revive, claim_occurrence, enqueue_changed,
}

refuse-Sound : (test : Database → Bool) (e : Error) → Sound (refuse test e)
unfolding refuse
refuse-Sound test e = Sound-bind (query test) _ (Sound-query test) (λ held. Sound-lift _)

refuse_held-Sound : (id : JobId) (key : Option Text) → Sound (refuse_held id key)
unfolding refuse_held
refuse_held-Sound id none = Sound-pure tt
refuse_held-Sound id (some uk) = refuse-Sound _ _

delete_dead-Sound : (test : DeadRow → Bool) → Sound (delete_dead test)
unfolding delete_dead
delete_dead-Sound test = Triple-execute _ (λ db w. dead-WellFormed test db w)

-- An `INSERT OR IGNORE` of a key, as an assertion on its outcome.
abbrev Tried : Result (Unit {0}) → Database → Type 0
Tried (ok a) db = WellFormed db
Tried (err e) db = Unit

Tried-of : (x : Database × Result (Unit {0})) → PostDb (λ _. WellFormed) x → Tried x.1 x.0
Tried-of (db, ok a) h = h
Tried-of (db, err e) h = tt

or_key_conflict-Triple :
    (id : JobId) (uk : Text) (inserted : Result (Unit {0}))
    → Triple (Tried inserted) (lift (or_key_conflict id uk inserted)) (λ _. WellFormed)
unfolding or_key_conflict
or_key_conflict-Triple id uk (ok a) = Triple-lift (ok tt) (λ b e db w. w)
or_key_conflict-Triple id uk (err e) = record { at = λ s t. tt }

reacquire-Sound :
    (id : JobId) (key : Option Text) (seq : ℕ)
    → Triple (Inserted (some seq)) (reacquire id key seq) (λ _. WellFormed)
unfolding reacquire
reacquire-Sound id none seq = Triple-pure tt (λ db h. h.0)
reacquire-Sound id (some uk) seq =
    Triple-bind Tried (execute (insert_key uk seq)) _
      (Triple-execute (insert_key uk seq)
        (λ db h. Tried-of (insert_key uk seq db) (insert_key-WellFormed uk seq db h)))
      (or_key_conflict-Triple id uk)

or_id_conflict-Triple :
    (id : JobId) (inserted : Option ℕ)
    → Triple (Inserted inserted) (lift (or_id_conflict id inserted)) (λ seq. Inserted (some seq))
unfolding or_id_conflict
or_id_conflict-Triple id none = record { at = λ s t. tt }
or_id_conflict-Triple id (some seq) = record { at = λ s h. h }

claim-WellFormed :
    (id : Text) (occurrence : ℤ) (db : Database)
    → WellFormed db
    → WellFormed (claim_occurrence id occurrence db).0
unfolding claim_occurrence
claim-WellFormed id occurrence db w = elim (Option-cases (lookup id db.schedules)) [
  | inl e ↦
      rw (e, claim_occurrence)
        record { rows = w.rows; keys = w.keys; live = w.live; letters = w.letters }
  | inr (last, e) ↦ elim (Bool-cases (ltb_ℤ last occurrence)) [
    | inl l ↦
        rw (e, l, claim_occurrence)
          record { rows = w.rows; keys = w.keys; live = w.live; letters = w.letters }
    | inr l ↦ rw (e, l, claim_occurrence) w
  ]
]

module _ (json : Json) where
  revive-Sound : (id : JobId) (now : ℕ) (d : DeadRow) → Sound (revive json id now d)
  unfolding revive
  revive-Sound id now d =
      Sound-bind (lift (decode_envelope json d.envelope)) _ (Sound-lift _) λ envelope.
        Triple-bind Inserted
          (execute (insert_row envelope.id d.lane envelope.priority now d.envelope)) _
          (insert_row-Triple envelope.id d.lane envelope.priority now d.envelope)
          λ inserted.
            Triple-bind (λ seq. Inserted (some seq)) (lift (or_id_conflict id inserted)) _
              (or_id_conflict-Triple id inserted)
              λ seq.
                Triple-bind (λ _. WellFormed) (reacquire id d.unique_key seq) _
                  (reacquire-Sound id d.unique_key seq) (λ _. delete_dead-Sound (dead_has_id id))

  requeue-Sound : (id : JobId) (now : ℕ) → Sound (Stores.requeue json id now)
  unfolding Stores.requeue
  requeue-Sound id now = Triple-run _ (
      Triple-in_transaction _ (
        Sound-bind (query λ db. find (dead_has_id id) db.dead) _ (Sound-query _) λ row.
          Sound-bind (lift (or_no_record id row)) _ (Sound-lift _) λ d.
            Sound-bind (refuse (λ db. any (row_has_id id) db.jobs) (id_conflict id)) _
              (refuse-Sound _ _)
              λ _.
                Sound-bind (refuse_held id d.unique_key) _ (refuse_held-Sound id d.unique_key)
                  (λ _. revive-Sound id (nanos now) d)))

  enqueue_changed-Sound :
      (job : NewJob) (now : ℕ) (changed : Bool) → Sound (enqueue_changed json job now changed)
  unfolding enqueue_changed
  enqueue_changed-Sound job now true =
      Sound-bind (insert_job json job (nanos_after now job.delay)) _ (insert_job-Sound json job _)
        (λ _. Sound-pure true)
  enqueue_changed-Sound job now false = Sound-pure false

  on_row-Sound :
      {A : Type 0} (receipt : Receipt) (now : ℕ) (f : ℕ × Bytes → Sql A)
      → ((found : ℕ × Bytes) → Sound (f found))
      → Sound (run (in_transaction (find_valid_row json receipt now >>= f)))
  on_row-Sound receipt now f h = Triple-run _ (
      Triple-in_transaction _
        (Sound-bind (find_valid_row json receipt now) f (find_valid_row-Sound json receipt now) h))

  discard-Sound : {A : Type 0} (m : Sql A) → Sound m → Sound (discard m)
  discard-Sound m h = Sound-bind m _ h (λ _. Sound-pure tt)

  pub issue-Sound : (b : SqliteBroker) (now : ℕ) (c : Call) → Sound (issue json b now c)
  unfolding issue Broker.enqueue Broker.enqueue_batch Broker.reserve Broker.ack Broker.retry
      Broker.defer Broker.fail Broker.extend Stores.purge_dead_letters Stores.enqueue_scheduled
      Stores.remove_schedule Stores.store
  issue-Sound b now (Call.enqueue job) =
      discard-Sound (Broker.enqueue json job now)
        (Triple-run _ (Triple-in_transaction _ (insert_job-Sound json job _)))
  issue-Sound b now (Call.enqueue_batch jobs) =
      discard-Sound (Broker.enqueue_batch json jobs now)
        (Triple-run _ (Triple-in_transaction _ (insert_all-Sound json jobs now)))
  issue-Sound b now (Call.reserve lane receipt) =
      discard-Sound (Broker.reserve json b lane now receipt)
        (Triple-run _ (reserve_by-Sound json b b.max_deliveries lane now receipt))
  issue-Sound b now (Call.ack receipt) =
      on_row-Sound receipt (nanos now) _ (λ found. remove_job-Sound (found.0))
  issue-Sound b now (Call.retry receipt delay) =
      on_row-Sound receipt (nanos now) _ (retry_row-Sound json (nanos_after now delay))
  issue-Sound b now (Call.defer receipt delay) =
      on_row-Sound receipt (nanos now) _
        (λ found. defer_row-Sound (nanos_after now delay) (found.0))
  issue-Sound b now (Call.fail receipt error) =
      Sound-bind (warn b.retention) _ (warn-Sound b.retention) λ _.
        on_row-Sound receipt (nanos now) _
          λ found. dead_letter_seq-Sound json (found.0) (found.1) error (nanos now) b.retention
  issue-Sound b now (Call.extend receipt) = Triple-run _ (
      Sound-bind (lift (receipt_key json receipt)) (extend_key b receipt now) (Sound-lift _)
        (extend_key-Sound b receipt now))
  issue-Sound b now (Call.requeue id) = requeue-Sound id now
  issue-Sound b now (Call.purge_dead_letters lane) =
      discard-Sound (Stores.purge_dead_letters lane)
        (Triple-run _ (Triple-execute _ (λ db w. dead-WellFormed _ db w)))
  issue-Sound b now (Call.enqueue_scheduled id occurrence job) =
      discard-Sound (Stores.enqueue_scheduled json id occurrence job now) (
        Triple-run _ (
          Triple-in_transaction _ (
            Sound-bind (execute (claim_occurrence id occurrence)) _
              (Triple-execute _ (claim-WellFormed id occurrence)) (enqueue_changed-Sound job now))))
  issue-Sound b now (Call.remove_schedule id) = Triple-run _ (
      Triple-execute _
        λ db w. record { rows = w.rows; keys = w.keys; live = w.live; letters = w.letters })
  issue-Sound b now (Call.store id blob) = Triple-run _ (
      Triple-ask _ _
        λ db w. record { rows = w.rows; keys = w.keys; live = w.live; letters = w.letters })

  -- The fast path leases the job and reads it back after that: it may fail with the lease taken.
  read-WellFormed :
      (receipt : Receipt) (lease : ℕ) (x : Session × Result (Option Bytes))
      → WellFormed x.0.db
      → WellFormed (then_run (some_reservation json receipt lease) x).0.db
  unfolding some_reservation
  read-WellFormed receipt lease (s, ok none) w = w
  read-WellFormed receipt lease (s, ok (some blob)) w = w
  read-WellFormed receipt lease (s, err e) w = w

  leased-WellFormed :
      (key : Text) (until now : ℕ) (lane : Lane) (s : Session) (answer : Option Text)
      → WellFormed s.db
      → WellFormed
          (answered sql_err s answer (
            (lease_next key until lane now s.db).0,
            ok ((lease_next key until lane now s.db).1),
          )).0.db
  unfolding lease_next
  leased-WellFormed key until now lane s (some e) w = w
  leased-WellFormed key until now lane s none w = lease_found-WellFormed key until s.db _ w

  key-WellFormed :
      {A : Type 0} (key : Result Text) (f : Text → Sql A) (s : Session)
      → ((k : Text) → WellFormed (f k s).0.db)
      → WellFormed s.db
      → WellFormed ((lift key >>= f) s).0.db
  key-WellFormed (ok k) f s h w = h k
  key-WellFormed (err e) f s h w = w

  run-WellFormed :
      {A : Type 0} (m : Sql A) (s : Session)
      → ((s' : Session) → WellFormed s'.db → WellFormed (m s').0.db)
      → WellFormed s.db
      → WellFormed (run m s).0.db
  unfolding run ask
  run-WellFormed m s h w = checked (first_answer s.answers)
    where
      checked :
          (answer : Option Text)
          → WellFormed (then_run (λ _. m) (answered checkout_err s answer (s.db, ok (tt {0})))).0.db
      checked none = h (record s { answers = later_answers s.answers }) w
      checked (some e) = w

  reserve_by-WellFormed :
      (b : SqliteBroker) (max : Option ℕ) (lane : Lane) (now : ℕ) (receipt : Receipt) (s : Session)
      → WellFormed s.db
      → WellFormed (reserve_by json b max lane now receipt s).0.db
  unfolding reserve_by fast_path bounded_path lease_unbounded sweep execute ask
  reserve_by-WellFormed b none lane now receipt s w =
      key-WellFormed (receipt_key json receipt) (lease_unbounded json b lane now receipt) s
        (λ key. read-WellFormed receipt b.lease _ (
          leased-WellFormed key (nanos_after now b.lease) (nanos now) lane s
            (first_answer s.answers) w))
        w
  reserve_by-WellFormed b (some max) lane now receipt s w =
      key-WellFormed (receipt_key json receipt) (sweep json b max lane now receipt) s
        (λ key.
          Keeps WellFormed (sweep json b max lane now receipt key) s
            (IsAtomic-in_transaction (reserve_loop json b max lane now receipt key 128))
            (Triple-in_transaction _ (reserve_loop-Sound json b max lane now receipt key 128)) w)
        w

  discard-db : {A : Type 0} (x : Session × Result A) → (then_run (λ _. pure tt) x).0.db ≡ x.0.db
  discard-db (s, ok a) = refl
  discard-db (s, err e) = refl

  issue-WellFormed :
      (b : SqliteBroker) (now : ℕ) (c : Call) (s : Session)
      → WellFormed s.db
      → WellFormed (issue json b now c s).0.db
  unfolding issue Broker.reserve
  issue-WellFormed b now (Call.reserve lane receipt) s w =
      subst WellFormed
        (sym (discard-db (run (reserve_by json b b.max_deliveries lane now receipt) s)))
        (run-WellFormed (reserve_by json b b.max_deliveries lane now receipt) s
          (reserve_by-WellFormed b b.max_deliveries lane now receipt) w)
  issue-WellFormed b now c s w =
      Keeps WellFormed (issue json b now c) s (others-IsAtomic json b now c refl)
        (issue-Sound b now c) w

  -- From well-formed tables every sequence of calls, whatever the driver answers and whichever
  -- calls fail, leads to well-formed tables: rowids grow, live jobs and dead letters have distinct
  -- ids, and the unique keys are distinct, one at most for a job, and each of a live job. So a
  -- rowid that SQLite gives out again never inherits a key.
  pub issue_all-WellFormed :
      (b : SqliteBroker) (calls : List (ℕ × Call)) (s : Session)
      → WellFormed s.db
      → WellFormed (issue_all json b calls s).db
  issue_all-WellFormed b [] s w = w
  issue_all-WellFormed b ((now, c) ∷ rest) s w =
      issue_all-WellFormed b rest (issue json b now c s).0 (issue-WellFormed b now c s w)
