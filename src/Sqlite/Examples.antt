-- ===== src/Sqlite/Examples.antt =====
-- The SQLite broker on small databases, with a codec that stores an envelope by its id.
use worklane.Base.{ℕ, ◌+◌, ◌*◌, arith, ◌≡◌, refl, true, false, none, some, List, [], ◌∷◌}
use worklane.Base.Int.{pos}
use worklane.Base.Text.{codes, text_eq}
use worklane.Core.Codec.{
  Json, value, encode_envelope, decode_envelope, receipt_key, check_context, from_json, check_size,
}
use worklane.Core.Duration.{from_secs}
use worklane.Core.Envelope.{Bytes, NewJob, JobEnvelope, Reservation, into_envelope}
use worklane.Core.Error.{err}
use worklane.Core.Lane.{default_lane}
use worklane.Core.Retention.{nanos, is_unbounded}
use worklane.Sqlite.Atomic.{issue-IsAtomic}
use worklane.Sqlite.Blocked.{dead_id, reserve-blocked}
use worklane.Sqlite.Broker
use worklane.Sqlite.Broker.{
  SqliteBroker, nanos_after, warn, reserve_by, bounded_path, sweep, reserve_loop, resolve_row,
  hand_out, some_reservation, reservation, lease_row, leased, next_visible, is_spent,
}
use worklane.Sqlite.Rows.{
  insert_job, holder_of, insert_unless, insert_new, insert_row, after_insert, take_key,
  find_valid_row, dead_letter_seq, free_unique_key, delete_job, prune_dead_letters, insert_dead,
  dead_row, valid_row, or_stale, key_held,
}
use worklane.Sqlite.Calls.{Call, issue, issue_all, opened}
use worklane.Sqlite.Invariant.{WellFormed, empty-WellFormed}
use worklane.Sqlite.Invariant.Runs.{issue_all-WellFormed}
use worklane.Sqlite.Reserve.Lease.{IsLeased, reserve-IsLeased}
use worklane.Sqlite.Session.{
  Database, Session, sql_err, JobRow, DeadRow, run, ask, in_transaction, boundary, execute, query,
  empty_database,
}

abbrev stored_as : Bytes → JobEnvelope
stored_as id = record {
  id = id;
  lane = default_lane;
  kind = codes "k";
  payload = [];
  attempts = 0;
  max_attempts = 3;
  priority = 0;
  trace_context = none;
}

abbrev codec : Json
codec = record {
  to_vec = λ e. value e.id;
  from_slice = λ bytes. value (stored_as bytes);
  to_string = λ receipt. value receipt;
}

abbrev job_a : NewJob
job_a = record {
  id = codes "a";
  lane = default_lane;
  kind = codes "k";
  payload = [];
  max_attempts = 3;
  delay = 0;
  unique_key = none;
  priority = 0;
  trace_context = none;
}

abbrev once : SqliteBroker
once = record {
  lease = from_secs 30;
  retention = record { max_age = none; max_count = none };
  max_deliveries = some 1;
}

-- The job fails, is enqueued again under its id, and its worker crashes.
abbrev crash : List (ℕ × Call)
crash =
    (1, Call.enqueue job_a)
    ∷ (2, Call.reserve default_lane (codes "r1"))
    ∷ (3, Call.fail (codes "r1") (codes "boom"))
    ∷ (4, Call.enqueue job_a)
    ∷ (5, Call.reserve default_lane (codes "r2"))
    ∷ []

abbrev crashed_row : JobRow
crashed_row = record {
  seq = 1;
  id = codes "a";
  receipt = some (codes "r2");
  lane = default_lane;
  priority = 0;
  available_at = 4;
  leased_until = some (30 * 1000000000 + 5);
  envelope = codes "a";
  deliveries = 1;
}

abbrev dead_a : DeadRow
dead_a = record {
  seq = 1;
  id = codes "a";
  lane = default_lane;
  envelope = codes "a";
  error = codes "boom";
  unique_key = none;
  dead_at = 3;
}

abbrev with_rows : List JobRow → List DeadRow → Database
with_rows rows letters = record {
  jobs = rows;
  dead = letters;
  unique_keys = [];
  results = [];
  schedules = [];
  user_version = pos 1;
}

-- The calls of `crash` lead to these rows.
crash-rows :
    let db = (issue_all codec once crash (opened [])).db in
    (db.jobs ≡ crashed_row ∷ []) × (db.dead ≡ dead_a ∷ [])
unfolding issue empty_database run ask in_transaction boundary execute query Broker.reserve
    reserve_by bounded_path sweep reserve_loop resolve_row hand_out some_reservation reservation
    lease_row leased next_visible is_spent receipt_key decode_envelope encode_envelope check_context
    from_json check_size text_eq nanos nanos_after Broker.enqueue insert_job holder_of insert_unless
    insert_new insert_row after_insert take_key into_envelope Broker.fail warn find_valid_row
    dead_letter_seq free_unique_key delete_job prune_dead_letters insert_dead dead_row valid_row
    or_stale key_held is_unbounded
crash-rows = (refl, refl)

reserve-blocked_example :
    Broker.reserve codec once default_lane
      (from_secs 60)
      (codes "r3")
      (record { db = with_rows (crashed_row ∷ []) (dead_a ∷ []); answers = []; warned = true })
    ≡ (
      record { db = with_rows (crashed_row ∷ []) (dead_a ∷ []); answers = []; warned = true },
      err dead_id,
    )
unfolding next_visible receipt_key decode_envelope from_json check_size text_eq nanos is_spent
reserve-blocked_example =
    reserve-blocked codec once default_lane (from_secs 60) 1 (codes "r3") (codes "r3")
      (with_rows (crashed_row ∷ []) (dead_a ∷ [])) true crashed_row (stored_as (codes "a")) refl
      refl refl refl refl refl

-- The disk is full at the commit.
abbrev full : Session
full = opened (none ∷ none ∷ none ∷ some (codes "database or disk is full") ∷ [])

issue-IsAtomic_example : (issue codec once 1 (Call.enqueue job_a) full).0.db ≡ full.db
unfolding issue empty_database run ask in_transaction boundary execute query Broker.enqueue
    insert_job holder_of insert_unless insert_new insert_row after_insert take_key into_envelope
    encode_envelope check_context from_json check_size text_eq nanos nanos_after
issue-IsAtomic_example =
    issue-IsAtomic codec once 1 (Call.enqueue job_a) full
      (issue codec once 1 (Call.enqueue job_a) full).0 (sql_err (codes "database or disk is full"))
      refl (λ e. absurd (ground arith))

issue_all-WellFormed_example : WellFormed (issue_all codec once crash (opened [])).db
issue_all-WellFormed_example = issue_all-WellFormed codec once crash (opened []) empty-WellFormed

abbrev waiting_row : JobRow
waiting_row = record {
  seq = 1;
  id = codes "a";
  receipt = none;
  lane = default_lane;
  priority = 0;
  available_at = 1;
  leased_until = none;
  envelope = codes "a";
  deliveries = 0;
}

abbrev waiting : Session
waiting = record { db = with_rows (waiting_row ∷ []) []; answers = []; warned = false }

abbrev got_a : Reservation
got_a = record { envelope = stored_as (codes "a"); receipt = codes "r1"; lease = from_secs 30 }

reserve-IsLeased_example :
    IsLeased codec once default_lane 2
      (codes "r1")
      (codes "r1")
      waiting.db
      got_a
      (Broker.reserve codec once default_lane 2 (codes "r1") waiting).0.db
unfolding run ask in_transaction boundary execute query Broker.reserve reserve_by bounded_path sweep
    reserve_loop resolve_row hand_out some_reservation reservation lease_row leased next_visible
    is_spent receipt_key decode_envelope encode_envelope check_context from_json check_size text_eq
    nanos nanos_after
reserve-IsLeased_example =
    reserve-IsLeased codec once default_lane 2 (codes "r1") (codes "r1") waiting
      (Broker.reserve codec once default_lane 2 (codes "r1") waiting).0 got_a refl
      (record { rows = (tt, tt); keys = tt; live = tt; letters = tt }) refl
