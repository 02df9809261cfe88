-- ===== src/Sqlite/Broker.antt =====
-- crates/worklane-sqlite/src/lib.rs: the `Broker` and `BatchEnqueue` methods. `now` is what the
-- clock reads, and the receipt that `reserve` draws is an argument.
use worklane.Base.{
  ℕ, zero, suc, ◌+◌, min, Bool, true, false, ◌&&◌, ◌||◌, Option, none, some, List, [], ◌∷◌, ◌++◌,
  ltb, leb, nat_eq, ◌==◌, if◌then◌else◌, any, retain,
}
use worklane.Base.Text.{Text, codes, text_Eq}
use worklane.Base.Int.{ℤ, pos}
use worklane.Core.Codec.{Json, encode_envelope, decode_envelope, receipt_key}
use worklane.Core.Duration.{saturating_add, saturating_add_u32, i64_max, decimal}
use worklane.Core.Envelope.{JobId, Receipt, Lane, Bytes, NewJob, JobEnvelope, Reservation}
use worklane.Core.Error.{Result, ok, err, map_ok}
use worklane.Core.Retention.{RetentionPolicy, nanos, warn_once}
use worklane.Core.Spi.{stale, JobState, classify_state, default_lease, max_dead_letter_sweep}
use worklane.Sqlite.Rows.{
  update, row_has_id, row_has_seq, row_has_receipt, dead_has_id, find_valid_row, insert_job,
  dead_letter_seq, free_unique_key, delete_job,
}
use worklane.Sqlite.Session.{
  JobRow, Database, Sql, pure, lift, ◌>>=◌, ◌>>◌, query, execute, in_transaction, run,
}

pub record SqliteBroker : Type 0 where
  pub lease : ℕ
  pub retention : RetentionPolicy
  pub max_deliveries : Option ℕ

-- `with_pool`.
unfoldable pub with_pool : SqliteBroker
with_pool = record {
  lease = default_lease;
  retention = record { max_age = none; max_count = none };
  max_deliveries = none;
}

unfoldable pub with_lease : SqliteBroker → ℕ → SqliteBroker
with_lease b lease = record b { lease = lease }

unfoldable pub with_dead_letter_retention : SqliteBroker → RetentionPolicy → SqliteBroker
with_dead_letter_retention b policy = record b { retention = policy }

unfoldable pub with_max_deliveries : SqliteBroker → ℕ → SqliteBroker
with_max_deliveries b max = record b { max_deliveries = some max }

-- `nanos(now.saturating_add(delay))`.
unfoldable pub nanos_after : ℕ → ℕ → ℕ
unfolding nanos saturating_add
nanos_after now delay = nanos (saturating_add now delay)

-- The `WHERE` of the `SELECT` in `reserve`.
unfoldable pub is_visible : Lane → ℕ → JobRow → Bool
is_visible lane now r =
    r.lane == lane
    && (leb r.available_at now && elim r.leased_until [ none ↦ true | some until ↦ leb until now ])

-- `ORDER BY priority DESC, available_at ASC, seq ASC`.
unfoldable pub comes_before : JobRow → JobRow → Bool
comes_before r s =
    ltb s.priority r.priority
    || (nat_eq r.priority s.priority
        && (ltb r.available_at s.available_at
            || (nat_eq r.available_at s.available_at && ltb r.seq s.seq)))

-- The `ORDER BY` and `LIMIT 1`.
unfoldable pub first_row : List JobRow → Option JobRow
unfolding comes_before
first_row [] = none
first_row (r ∷ rs) = elim (first_row rs) [
  | none ↦ some r
  | some s ↦ if comes_before s r then some s else some r
]

unfoldable pub next_visible : Lane → ℕ → Database → Option JobRow
unfolding first_row is_visible
next_visible lane now db = first_row (retain (is_visible lane now) db.jobs)

-- The `SET` of both updates in `reserve`.
unfoldable pub leased : Text → ℕ → JobRow → JobRow
leased key until r = record r {
  receipt = some key;
  leased_until = some until;
  deliveries = r.deliveries + 1;
}

unfoldable pub lease_row : Text → ℕ → ℕ → Database → Database
unfolding leased
lease_row key until seq db = record db {
  jobs = update (row_has_seq seq) (leased key until) db.jobs;
}

-- `UPDATE jobs … WHERE seq = (SELECT seq …) RETURNING envelope`.
unfoldable pub lease_found : Text → ℕ → Database → Option JobRow → Database × Option Bytes
unfolding lease_row
lease_found key until db none = (db, none)
lease_found key until db (some r) = (lease_row key until r.seq db, some r.envelope)

unfoldable pub lease_next : Text → ℕ → Lane → ℕ → Database → Database × Option Bytes
unfolding next_visible lease_found
lease_next key until lane now db = lease_found key until db (next_visible lane now db)

unfoldable pub spent_error : ℕ → Text
unfolding decimal
spent_error max = codes "exceeded max deliveries (" ++ (decimal max ++ codes ")")

-- `deliveries.saturating_add(1) > i64::from(max)`.
unfoldable pub is_spent : ℕ → JobRow → Bool
is_spent max r = ltb max (min (r.deliveries + 1) i64_max)

-- The body of `ack` after the row is found.
unfoldable pub remove_job : ℕ → Sql (Unit {0})
remove_job seq = do free_unique_key seq; delete_job seq

unfoldable pub retried : Bytes → ℕ → JobRow → JobRow
retried blob available_at r = record r {
  envelope = blob;
  available_at = available_at;
  leased_until = none;
  receipt = none;
}

unfoldable pub one_more_attempt : JobEnvelope → JobEnvelope
unfolding saturating_add_u32
one_more_attempt envelope = record envelope { attempts = saturating_add_u32 envelope.attempts 1 }

unfoldable pub deferred : ℕ → JobRow → JobRow
deferred available_at r = record r {
  available_at = available_at;
  leased_until = none;
  receipt = none;
}

unfoldable pub defer_row : ℕ → ℕ → Sql (Unit {0})
unfolding deferred
defer_row available_at seq =
    execute
      λ db. (record db { jobs = update (row_has_seq seq) (deferred available_at) db.jobs }, tt)

unfoldable pub warn : RetentionPolicy → Sql (Unit {0})
unfolding warn_once
warn policy s = (record s { warned = (warn_once s.warned policy).0 }, ok tt)

-- `WHERE receipt = ?2 AND leased_until > ?3`.
unfoldable pub is_current : Text → ℕ → JobRow → Bool
is_current key now r =
    row_has_receipt key r && elim r.leased_until [ none ↦ false | some until ↦ ltb now until ]

unfoldable pub extend_rows : Text → ℕ → ℕ → Database → Database × Bool
unfolding is_current
extend_rows key now until db = (
  record db {
    jobs = update (is_current key now) (λ r. record r { leased_until = some until }) db.jobs;
  },
  any (is_current key now) db.jobs,
)

unfoldable pub or_not_current : Receipt → Bool → Result (Unit {0})
unfolding stale
or_not_current receipt changed = if changed then ok tt else err (stale receipt)

unfoldable pub extend_key : SqliteBroker → Receipt → ℕ → Text → Sql (Unit {0})
unfolding nanos nanos_after extend_rows or_not_current
extend_key b receipt now key = do
  changed ← execute (extend_rows key (nanos now) (nanos_after now b.lease))
  lift (or_not_current receipt changed)

module _ (json : Json) where
  unfoldable pub reservation : Receipt → ℕ → Bytes → Result Reservation
  reservation receipt lease blob =
      map_ok (λ envelope. record { envelope = envelope; receipt = receipt; lease = lease })
        (decode_envelope json blob)

  unfoldable pub some_reservation : Receipt → ℕ → Option Bytes → Sql (Option Reservation)
  unfolding reservation
  some_reservation receipt lease none = pure none
  some_reservation receipt lease (some blob) = lift (map_ok some (reservation receipt lease blob))

  -- The fast path, with the key of the receipt.
  unfoldable pub lease_unbounded :
      SqliteBroker → Lane → ℕ → Receipt → Text → Sql (Option Reservation)
  unfolding nanos_after lease_next
  lease_unbounded b lane now receipt key = do
    blob ← execute (lease_next key (nanos_after now b.lease) lane (nanos now))
    some_reservation receipt b.lease blob

  unfoldable pub fast_path : SqliteBroker → Lane → ℕ → Receipt → Sql (Option Reservation)
  fast_path b lane now receipt =
      lift (receipt_key json receipt) >>= lease_unbounded b lane now receipt

  -- The last part of a pass: the row is leased.
  unfoldable pub hand_out : SqliteBroker → ℕ → Receipt → Text → JobRow → Sql (Option Reservation)
  unfolding nanos_after lease_row
  hand_out b now receipt key r = do
    execute λ db. (lease_row key (nanos_after now b.lease) r.seq db, tt)
    some_reservation receipt b.lease (some r.envelope)

  -- What a pass does with the row found; `again` is the rest of the loop.
  unfoldable pub resolve_row :
      SqliteBroker
      → ℕ
      → ℕ
      → Receipt
      → Text
      → Sql (Option Reservation)
      → Option JobRow
      → Sql (Option Reservation)
  unfolding is_spent spent_error nanos
  resolve_row b max now receipt key again none = pure none
  resolve_row b max now receipt key again (some r) = elim (is_spent max r) [
    | true ↦
        dead_letter_seq json r.seq r.envelope (spent_error max) (nanos now) b.retention >>= λ _.
        again
    | false ↦ hand_out b now receipt key r
  ]

  -- The `loop`, by what is left of the sweep: `MAX_DEAD_LETTER_SWEEP - swept`. At zero the test
  -- `swept >= MAX_DEAD_LETTER_SWEEP` has passed.
  unfoldable pub reserve_loop :
      SqliteBroker → ℕ → Lane → ℕ → Receipt → Text → ℕ → Sql (Option Reservation)
  unfolding next_visible nanos
  reserve_loop b max lane now receipt key zero = pure none
  reserve_loop b max lane now receipt key (suc left) = do
    row ← query (next_visible lane (nanos now))
    resolve_row b max now receipt key (reserve_loop b max lane now receipt key left) row

  -- The bounded path, with the key of the receipt.
  unfoldable pub sweep : SqliteBroker → ℕ → Lane → ℕ → Receipt → Text → Sql (Option Reservation)
  sweep b max lane now receipt key =
      in_transaction (reserve_loop b max lane now receipt key max_dead_letter_sweep)

  unfoldable pub bounded_path : SqliteBroker → ℕ → Lane → ℕ → Receipt → Sql (Option Reservation)
  bounded_path b max lane now receipt =
      lift (receipt_key json receipt) >>= sweep b max lane now receipt

  unfoldable pub reserve_by :
      SqliteBroker → Option ℕ → Lane → ℕ → Receipt → Sql (Option Reservation)
  reserve_by b none lane now receipt = fast_path b lane now receipt
  reserve_by b (some max) lane now receipt = bounded_path b max lane now receipt

  unfoldable pub reserve : SqliteBroker → Lane → ℕ → Receipt → Sql (Option Reservation)
  reserve b lane now receipt = run (reserve_by b b.max_deliveries lane now receipt)

  unfoldable pub enqueue_with_tx : NewJob → ℕ → Sql JobId
  unfolding nanos_after
  enqueue_with_tx job now = insert_job json job (nanos_after now job.delay)

  unfoldable pub enqueue : NewJob → ℕ → Sql JobId
  unfolding nanos_after
  enqueue job now = run (in_transaction (insert_job json job (nanos_after now job.delay)))

  -- The `for` loop of `enqueue_batch`.
  unfoldable pub insert_all : List NewJob → ℕ → Sql (List JobId)
  unfolding nanos_after
  insert_all [] now = pure []
  insert_all (job ∷ jobs) now = do
    id ← insert_job json job (nanos_after now job.delay)
    ids ← insert_all jobs now
    pure (id ∷ ids)

  unfoldable pub enqueue_batch : List NewJob → ℕ → Sql (List JobId)
  enqueue_batch jobs now = run (in_transaction (insert_all jobs now))

  unfoldable pub ack : Receipt → ℕ → Sql (Unit {0})
  unfolding nanos
  ack receipt now =
      run (in_transaction do found ← find_valid_row json receipt (nanos now); remove_job (found.0))

  unfoldable pub retry_row : ℕ → ℕ × Bytes → Sql (Unit {0})
  unfolding one_more_attempt retried
  retry_row available_at found = do
    envelope ← lift (decode_envelope json found.1)
    blob ← lift (encode_envelope json (one_more_attempt envelope))
    execute λ db.
        (record db { jobs = update (row_has_seq found.0) (retried blob available_at) db.jobs }, tt)

  unfoldable pub retry : Receipt → ℕ → ℕ → Sql (Unit {0})
  unfolding nanos nanos_after
  retry receipt delay now = run (
      in_transaction
        do found ← find_valid_row json receipt (nanos now); retry_row (nanos_after now delay) found)

  unfoldable pub defer : Receipt → ℕ → ℕ → Sql (Unit {0})
  unfolding nanos nanos_after
  defer receipt delay now = run (
      in_transaction do
        found ← find_valid_row json receipt (nanos now)
        defer_row (nanos_after now delay) (found.0))

  unfoldable pub fail : SqliteBroker → Receipt → Text → ℕ → Sql (Unit {0})
  unfolding nanos
  fail b receipt error now = do
    warn b.retention
    run (
        in_transaction do
          found ← find_valid_row json receipt (nanos now)
          dead_letter_seq json (found.0) (found.1) error (nanos now) b.retention)

  unfoldable pub extend : SqliteBroker → Receipt → ℕ → Sql (Unit {0})
  extend b receipt now = run (lift (receipt_key json receipt) >>= extend_key b receipt now)

-- `SELECT 1 FROM jobs … UNION ALL SELECT 2 FROM dead … LIMIT 1`.
unfoldable pub state_code : JobId → Database → Option ℤ
state_code id db =
    if any (row_has_id id) db.jobs
    then some (pos 1)
    else if any (dead_has_id id) db.dead
    then some (pos 2)
    else none

unfoldable pub classify : JobId → Sql JobState
unfolding state_code classify_state
classify id = run do code ← query (state_code id); pure (classify_state code)
