-- ===== src/Sqlite/Stores.antt =====
-- crates/worklane-sqlite/src/lib.rs, schedules.rs and result_store.rs: the
-- `DeadLetterStore`, `QueueStats`, `ScheduledStore` and `ResultStore` methods.
use worklane.Base.{
  ℕ, min, Bool, true, false, Option, none, some, List, [], ◌∷◌, ◌++◌, ◌==◌, if◌then◌else◌, any,
  length, take, retain,
}
use worklane.Base.Assoc.{lookup, insert, remove}
use worklane.Base.Int.{ℤ, ltb_ℤ}
use worklane.Base.Text.{Text, codes, text_Eq, debug}
use worklane.Core.Codec.{Json, decode_envelope}
use worklane.Core.Duration.{i64_max}
use worklane.Core.Envelope.{JobId, Lane, Bytes, NewJob, DeadLetter}
use worklane.Core.Error.{
  Error, Result, ok, err, map_ok, broker, live_job_id_conflict, unique_key_held, result_store,
}
use worklane.Core.Redact.{redact_credentials}
use worklane.Core.Retention.{nanos}
use worklane.Sqlite.Broker.{nanos_after}
use worklane.Sqlite.Rows.{
  find, delete, row_has_id, key_is, dead_has_id, dead_on_lane, insert_row, insert_job, insert_key,
}
use worklane.Sqlite.Session.{
  DeadRow, Database, Sql, pure, lift, ◌>>=◌, ◌>>◌, ask, query, execute, in_transaction, run,
}

-- `usize` to `i64`, or `i64::MAX`.
abbrev pub sql_limit : ℕ → ℕ
sql_limit limit = min limit i64_max

unfoldable pub no_dead_letter : JobId → Error
no_dead_letter id = broker (codes "no dead-letter record for job " ++ id)

unfoldable pub id_conflict : JobId → Error
id_conflict id =
    live_job_id_conflict
      (codes "cannot requeue job " ++ (id ++ codes ": a live job with the same id already exists"))

unfoldable pub key_conflict : JobId → Text → Error
key_conflict id uk = unique_key_held (
    codes "cannot requeue job "
    ++ (id ++ (codes ": unique key " ++ (debug uk ++ codes " is held by another live job"))))

unfoldable pub or_no_record : JobId → Option DeadRow → Result DeadRow
unfolding no_dead_letter
or_no_record id none = err (no_dead_letter id)
or_no_record id (some d) = ok d

-- A test of the database that must not hold.
unfoldable pub refuse : (Database → Bool) → Error → Sql (Unit {0})
refuse test e = do held ← query test; lift (if held then err e else ok tt)

unfoldable pub refuse_held : JobId → Option Text → Sql (Unit {0})
unfolding key_conflict
refuse_held id none = pure tt
refuse_held id (some uk) = refuse (λ db. any (key_is uk) db.unique_keys) (key_conflict id uk)

-- `INSERT OR IGNORE INTO unique_keys`, and the error where it is ignored.
unfoldable pub or_key_conflict : JobId → Text → Result (Unit {0}) → Result (Unit {0})
unfolding key_conflict
or_key_conflict id uk (ok _) = ok tt
or_key_conflict id uk (err _) = err (key_conflict id uk)

unfoldable pub reacquire : JobId → Option Text → ℕ → Sql (Unit {0})
unfolding insert_key or_key_conflict
reacquire id none seq = pure tt
reacquire id (some uk) seq = do
  inserted ← execute (insert_key uk seq)
  lift (or_key_conflict id uk inserted)

unfoldable pub or_id_conflict : JobId → Option ℕ → Result ℕ
unfolding id_conflict
or_id_conflict id none = err (id_conflict id)
or_id_conflict id (some seq) = ok seq

unfoldable pub delete_dead : (DeadRow → Bool) → Sql (Unit {0})
delete_dead test = execute λ db. (record db { dead = delete test db.dead }, tt)

-- `ON CONFLICT(schedule_id) DO UPDATE … WHERE schedules.occurrence < excluded.occurrence`.
unfoldable pub claim_occurrence : Text → ℤ → Database → Database × Bool
claim_occurrence schedule_id occurrence db = elim (lookup schedule_id db.schedules) [
  | none ↦ (record db { schedules = insert schedule_id occurrence db.schedules }, true)
  | some last ↦
      if ltb_ℤ last occurrence
      then (record db { schedules = insert schedule_id occurrence db.schedules }, true)
      else (db, false)
]

module _ (json : Json) where
  unfoldable pub letter : DeadRow → Result DeadLetter
  letter d =
      map_ok (λ envelope. record { envelope = envelope; error = d.error })
        (decode_envelope json d.envelope)

  -- The loop that pushes each row, or stops at the first that does not decode.
  unfoldable pub letters : List DeadRow → Result (List DeadLetter)
  unfolding letter
  letters [] = ok []
  letters (d ∷ ds) = elim (letter d) [ err e ↦ err e | ok l ↦ map_ok (λ ls. l ∷ ls) (letters ds) ]

  -- `SqliteBroker::dead_letters`.
  unfoldable pub dead_letters : Sql (List DeadLetter)
  unfolding letters
  dead_letters = run do rows ← query (λ db. db.dead); lift (letters rows)

  unfoldable pub read_dead_letters : Lane → ℕ → Sql (List DeadLetter)
  unfolding letters
  read_dead_letters lane limit = run do
    rows ← query λ db. take (sql_limit limit) (retain (dead_on_lane lane) db.dead)
    lift (letters rows)

  -- From the insertion on.
  unfoldable pub revive : JobId → ℕ → DeadRow → Sql (Unit {0})
  unfolding insert_row or_id_conflict
  revive id now d = do
    envelope ← lift (decode_envelope json d.envelope)
    inserted ← execute (insert_row envelope.id d.lane envelope.priority now d.envelope)
    seq ← lift (or_id_conflict id inserted)
    reacquire id d.unique_key seq
    delete_dead (dead_has_id id)

  unfoldable pub requeue : JobId → ℕ → Sql (Unit {0})
  unfolding or_no_record id_conflict nanos
  requeue id now = run (
      in_transaction do
        row ← query λ db. find (dead_has_id id) db.dead
        d ← lift (or_no_record id row)
        refuse (λ db. any (row_has_id id) db.jobs) (id_conflict id)
        refuse_held id d.unique_key
        revive id (nanos now) d)

  -- The rest of `enqueue_scheduled`, if a schedule's row was inserted or updated.
  unfoldable pub enqueue_changed : NewJob → ℕ → Bool → Sql Bool
  unfolding nanos_after
  enqueue_changed job now true = insert_job json job (nanos_after now job.delay) >>= λ _. pure true
  enqueue_changed job now false = pure false

  unfoldable pub enqueue_scheduled : Text → ℤ → NewJob → ℕ → Sql Bool
  unfolding claim_occurrence
  enqueue_scheduled schedule_id occurrence job now = run (
      in_transaction do
        changed ← execute (claim_occurrence schedule_id occurrence)
        enqueue_changed job now changed)

unfoldable pub count_dead_letters : Lane → Sql ℕ
count_dead_letters lane = run (query λ db. length (retain (dead_on_lane lane) db.dead))

-- `removed` counts the rows that the `DELETE` took.
unfoldable pub purge_dead_letters : Lane → Sql ℕ
purge_dead_letters lane = run (
    execute λ db. (
      record db { dead = delete (dead_on_lane lane) db.dead },
      length (retain (dead_on_lane lane) db.dead),
    ))

unfoldable pub pending_count : Lane → Sql ℕ
pending_count lane = run (query λ db. length (retain (λ r. r.lane == lane) db.jobs))

unfoldable pub remove_schedule : Text → Sql (Unit {0})
remove_schedule schedule_id =
    run (execute λ db. (record db { schedules = remove schedule_id db.schedules }, tt))

-- `sql_err` of result_store.rs.
unfoldable pub result_err : Text → Error
result_err e = result_store (redact_credentials e)

unfoldable pub store : JobId → Bytes → Sql (Unit {0})
unfolding result_err
store job_id blob =
    run (ask result_err λ db. (record db { results = insert job_id blob db.results }, ok tt))

unfoldable pub get : JobId → Sql (Option Bytes)
unfolding result_err
get job_id = run (ask result_err λ db. (db, ok (lookup job_id db.results)))
