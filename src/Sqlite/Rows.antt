-- ===== src/Sqlite/Rows.antt =====
-- crates/worklane-sqlite/src/jobs.rs and dead_letters.rs: the statements that the methods share.
-- Where a statement tells the caller only whether it changed a row, its result is a Boolean.
use worklane.Base.{
  ℕ, suc, max, Bool, not, ◌&&◌, Option, none, some, List, [], ◌∷◌, ◌++◌, ltb, nat_eq, ◌==◌,
  if◌then◌else◌, any, map, take, retain,
}
use worklane.Base.Text.{Text, codes, text_Eq, option_eq}
use worklane.Base.Int.{ℤ, pos, ltb_ℤ}
use worklane.Core.Codec.{Json, encode_envelope, decode_envelope, receipt_key}
use worklane.Core.Envelope.{JobId, Receipt, Lane, Bytes, NewJob, JobEnvelope, into_envelope}
use worklane.Core.Error.{Error, Result, ok, err, map_ok}
use worklane.Core.Retention.{RetentionPolicy, is_unbounded, age_cutoff_nanos, keep_count}
use worklane.Core.Spi.{stale}
use worklane.Sqlite.Session.{
  JobRow, DeadRow, KeyRow, Database, Sql, pure, lift, ◌>>=◌, ◌>>◌, ask, query, execute, sql_err,
}
use mathlib.Core.List.{reverse}

-- The first row that passes a test.
abbrev pub find {ℓ} : {A : Type ℓ} → (A → Bool) → List A → Option A
find p [] = none
find p (x ∷ xs) = if p x then some x else find p xs

-- `UPDATE … WHERE`.
abbrev pub update {ℓ} : {A : Type ℓ} → (A → Bool) → (A → A) → List A → List A
update p f = map λ x. if p x then f x else x

-- `DELETE … WHERE`.
abbrev pub delete {ℓ} : {A : Type ℓ} → (A → Bool) → List A → List A
delete p = retain λ x. not (p x)

-- The rowid of the next row: one more than the largest.
abbrev pub next_job : List JobRow → ℕ
next_job [] = 1
next_job (r ∷ rs) = max (suc r.seq) (next_job rs)

abbrev pub next_dead : List DeadRow → ℕ
next_dead [] = 1
next_dead (d ∷ ds) = max (suc d.seq) (next_dead ds)

abbrev pub row_has_id : JobId → JobRow → Bool
row_has_id id r = r.id == id

abbrev pub row_has_seq : ℕ → JobRow → Bool
row_has_seq seq r = nat_eq r.seq seq

abbrev pub row_has_receipt : Text → JobRow → Bool
row_has_receipt key r = option_eq r.receipt (some key)

abbrev pub key_is : Text → KeyRow → Bool
key_is key k = k.unique_key == key

abbrev pub key_of : ℕ → KeyRow → Bool
key_of seq k = nat_eq k.seq seq

abbrev pub dead_has_id : JobId → DeadRow → Bool
dead_has_id id d = d.id == id

abbrev pub dead_on_lane : Lane → DeadRow → Bool
dead_on_lane lane d = d.lane == lane

-- What the driver says of a violated constraint.
abbrev pub violated : Text → Error
violated column = sql_err (codes "UNIQUE constraint failed: " ++ column)

-- `INSERT INTO jobs … ON CONFLICT(id) DO NOTHING`, and `INSERT OR IGNORE`: the new rowid, if a row
-- was inserted.
unfoldable pub insert_row : JobId → Lane → ℕ → ℕ → Bytes → Database → Database × Option ℕ
insert_row id lane priority available_at blob db =
    if any (row_has_id id) db.jobs then (db, none) else (
      record db {
        jobs =
            db.jobs
            ++ record {
              seq = next_job db.jobs;
              id = id;
              receipt = none;
              lane = lane;
              priority = priority;
              available_at = available_at;
              leased_until = none;
              envelope = blob;
              deliveries = 0;
            }
              ∷ [];
      },
      some (next_job db.jobs),
    )

-- `INSERT INTO unique_keys`.
unfoldable pub insert_key : Text → ℕ → Database → Database × Result (Unit {0})
insert_key key seq db =
    if any (key_is key) db.unique_keys
    then (db, err (violated (codes "unique_keys.unique_key")))
    else (
      record db { unique_keys = db.unique_keys ++ record { unique_key = key; seq = seq } ∷ [] },
      ok tt,
    )

-- `FROM unique_keys u JOIN jobs j ON j.seq = u.seq WHERE u.unique_key = ?1`.
unfoldable pub holder_blob : Text → Database → Option Bytes
holder_blob key db = elim (find (key_is key) db.unique_keys) [
  | none ↦ none
  | some k ↦ elim (find (row_has_seq k.seq) db.jobs) [ none ↦ none | some r ↦ some r.envelope ]
]

unfoldable pub holder_of : Option Text → Sql (Option Bytes)
unfolding holder_blob
holder_of none = pure none
holder_of (some key) = query (holder_blob key)

unfoldable pub take_key : Option Text → ℕ → Sql (Unit {0})
unfolding insert_key
take_key none seq = pure tt
take_key (some key) seq = ask sql_err (insert_key key seq)

-- After the `INSERT`: a row that was not inserted is a live job under the same id.
unfoldable pub after_insert : JobId → Option Text → Option ℕ → Sql JobId
after_insert id key none = pure id
after_insert id key (some seq) = do take_key key seq; pure id

unfoldable pub free_unique_key : ℕ → Sql (Unit {0})
free_unique_key seq =
    execute λ db. (record db { unique_keys = delete (key_of seq) db.unique_keys }, tt)

-- `DELETE FROM jobs WHERE seq = ?1`.
unfoldable pub delete_job : ℕ → Sql (Unit {0})
delete_job seq = execute λ db. (record db { jobs = delete (row_has_seq seq) db.jobs }, tt)

-- The rowids that `ORDER BY seq DESC LIMIT keep` selects.
unfoldable pub newest : Lane → ℕ → List DeadRow → List ℕ
newest lane keep ds = take keep (map (λ d. d.seq) (reverse (retain (dead_on_lane lane) ds)))

unfoldable pub drop_aged : Lane → Option ℤ → List DeadRow → List DeadRow
drop_aged lane none ds = ds
drop_aged lane (some cutoff) ds =
    delete (λ d. dead_on_lane lane d && ltb_ℤ (pos d.dead_at) cutoff) ds

unfoldable pub drop_excess : Lane → Option ℕ → List DeadRow → List DeadRow
unfolding newest
drop_excess lane none ds = ds
drop_excess lane (some keep) ds =
    delete (λ d. dead_on_lane lane d && not (any (nat_eq d.seq) (newest lane keep ds))) ds

-- The `if let` around each `DELETE` of `prune_dead_letters`: without a bound, no statement.
unfoldable pub prune_by :
    {A : Type 0} → Option A → (Option A → List DeadRow → List DeadRow) → Sql (Unit {0})
prune_by none step = pure tt
prune_by (some bound) step = execute λ db. (record db { dead = step (some bound) db.dead }, tt)

unfoldable pub prune_dead_letters : Lane → RetentionPolicy → ℕ → Sql (Unit {0})
unfolding is_unbounded age_cutoff_nanos keep_count drop_aged drop_excess
prune_dead_letters lane policy now = if is_unbounded policy then pure tt else do
  prune_by (age_cutoff_nanos policy now) (drop_aged lane)
  prune_by (keep_count policy) (drop_excess lane)

unfoldable pub dead_row : JobEnvelope → Bytes → Text → Option Text → ℕ → List DeadRow → DeadRow
dead_row envelope blob error unique_key now ds = record {
  seq = next_dead ds;
  id = envelope.id;
  lane = envelope.lane;
  envelope = blob;
  error = error;
  unique_key = unique_key;
  dead_at = now;
}

-- `INSERT INTO dead`.
unfoldable pub insert_dead :
    JobEnvelope → Bytes → Text → Option Text → ℕ → Database → Database × Result (Unit {0})
unfolding dead_row
insert_dead envelope blob error unique_key now db =
    if any (dead_has_id envelope.id) db.dead then (db, err (violated (codes "dead.id"))) else (
      record db { dead = db.dead ++ dead_row envelope blob error unique_key now db.dead ∷ [] },
      ok tt,
    )

-- `SELECT unique_key FROM unique_keys WHERE seq = ?1`.
unfoldable pub key_held : ℕ → Database → Option Text
key_held seq db = elim (find (key_of seq) db.unique_keys) [
  | none ↦ none
  | some k ↦ some k.unique_key
]

-- The row of `find_valid_row`: its lease is still running.
unfoldable pub valid_row : ℕ → Option JobRow → Option JobRow
valid_row now none = none
valid_row now (some r) = elim r.leased_until [
  | none ↦ none
  | some until ↦ if ltb now until then some r else none
]

unfoldable pub or_stale : Receipt → Option JobRow → Result (ℕ × Bytes)
unfolding stale
or_stale receipt none = err (stale receipt)
or_stale receipt (some r) = ok (r.seq, r.envelope)

module _ (json : Json) where
  unfoldable pub find_valid_row : Receipt → ℕ → Sql (ℕ × Bytes)
  unfolding valid_row or_stale
  find_valid_row receipt now = do
    key ← lift (receipt_key json receipt)
    row ← query λ db. find (row_has_receipt key) db.jobs
    lift (or_stale receipt (valid_row now row))

  unfoldable pub insert_new : NewJob → ℕ → Sql JobId
  unfolding into_envelope insert_row
  insert_new job available_at = do
    blob ← lift (encode_envelope json (into_envelope job))
    inserted ← execute (insert_row job.id job.lane job.priority available_at blob)
    after_insert job.id job.unique_key inserted

  -- The early return with the id of the key's holder, or the insertion.
  unfoldable pub insert_unless : NewJob → ℕ → Option Bytes → Sql JobId
  insert_unless job available_at (some blob) =
      lift (map_ok (λ envelope. envelope.id) (decode_envelope json blob))
  insert_unless job available_at none = insert_new job available_at

  unfoldable pub insert_job : NewJob → ℕ → Sql JobId
  insert_job job available_at = do
    existing ← holder_of job.unique_key
    insert_unless job available_at existing

  unfoldable pub dead_letter_seq : ℕ → Bytes → Text → ℕ → RetentionPolicy → Sql (Unit {0})
  unfolding key_held insert_dead
  dead_letter_seq seq blob error now retention = do
    envelope ← lift (decode_envelope json blob)
    unique_key ← query (key_held seq)
    ask sql_err (insert_dead envelope blob error unique_key now)
    free_unique_key seq
    delete_job seq
    prune_dead_letters envelope.lane retention now
