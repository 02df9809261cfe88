-- ===== src/Sqlite/Blocked.antt =====
-- crates/worklane-sqlite: a job whose id is already among the dead letters. `enqueue` looks for the
-- id among the live jobs only, and the index `dead_id` refuses a second record.
use worklane.Base.{ℕ, suc, ◌≡◌, refl, sym, subst, Bool, true, Option, some, [], any}
use worklane.Base.Text.{Text, codes, text_Eq}
use worklane.Core.Codec.{Json, decode_envelope, receipt_key}
use worklane.Core.Envelope.{Receipt, Lane, Bytes, JobEnvelope}
use worklane.Core.Error.{Error, ok, err}
use worklane.Core.Retention.{nanos}
use worklane.Sqlite.Broker
use worklane.Sqlite.Broker.{
  SqliteBroker, next_visible, is_spent, spent_error, resolve_row, reserve_loop, sweep, bounded_path,
  reserve_by, warn,
}
use worklane.Sqlite.Rows.{dead_has_id, key_held, insert_dead, dead_letter_seq, violated}
use worklane.Sqlite.Session.{
  JobRow, Database, Session, ask, query, execute, boundary, in_transaction, run, sql_err,
}

abbrev pub dead_id : Error
dead_id = violated (codes "dead.id")

module _ (json : Json) (b : SqliteBroker) (e : JobEnvelope) (db : Database) (warned : Bool)
    (dead : any (dead_has_id e.id) db.dead ≡ true) where
  abbrev here : Session
  here = record { db = db; answers = []; warned = warned }

  query-calm : {A : Type 0} (read : Database → A) → query read here ≡ (here, ok (read db))
  unfolding query ask
  query-calm read = refl

  insert_dead-refused :
      (blob : Bytes) (error : Text) (key : Option Text) (now : ℕ)
      → ask sql_err (insert_dead e blob error key now) here ≡ (here, err dead_id)
  unfolding insert_dead ask
  insert_dead-refused blob error key now = rw dead refl

  dead_letter_seq-refused :
      (seq : ℕ) (blob : Bytes) (error : Text) (now : ℕ)
      → decode_envelope json blob ≡ ok e
      → dead_letter_seq json seq blob error now b.retention here ≡ (here, err dead_id)
  unfolding dead_letter_seq
  dead_letter_seq-refused seq blob error now d =
      rw (d, query-calm (key_held seq))
        (rw (insert_dead-refused blob error (key_held seq db) now) refl)

  loop-refused :
      (max : ℕ) (lane : Lane) (now : ℕ) (receipt : Receipt) (key : Text) (left : ℕ) (r : JobRow)
      → next_visible lane (nanos now) db ≡ some r
      → is_spent max r ≡ true
      → decode_envelope json r.envelope ≡ ok e
      → reserve_loop json b max lane now receipt key (suc left) here ≡ (here, err dead_id)
  unfolding reserve_loop resolve_row query ask
  loop-refused max lane now receipt key left r n s d =
      rw (n, resolve_row, s)
        (rw (dead_letter_seq-refused r.seq r.envelope (spent_error max) (nanos now) d) refl)

  reserve_by-refused :
      (max : ℕ) (lane : Lane) (now : ℕ) (receipt : Receipt) (key : Text) (r : JobRow)
      → receipt_key json receipt ≡ ok key
      → next_visible lane (nanos now) db ≡ some r
      → is_spent max r ≡ true
      → decode_envelope json r.envelope ≡ ok e
      → run (reserve_by json b (some max) lane now receipt) here ≡ (here, err dead_id)
  unfolding reserve_by bounded_path sweep run ask in_transaction boundary execute
  reserve_by-refused max lane now receipt key r k n s d =
      rw (k, loop-refused max lane now receipt key 127 r n s d) refl

-- With a delivery bound: where the next visible job has no delivery left and its id is already
-- among the dead letters, `reserve` fails on the index `dead_id` and leaves the session as it was.
-- So it fails again while that job is the next one, and the jobs behind it on the lane are not
-- handed out.
pub reserve-blocked :
    (json : Json) (b : SqliteBroker) (lane : Lane) (now max : ℕ) (receipt : Receipt) (key : Text)
    (db : Database) (warned : Bool) (r : JobRow) (e : JobEnvelope)
    → b.max_deliveries ≡ some max
    → receipt_key json receipt ≡ ok key
    → next_visible lane (nanos now) db ≡ some r
    → is_spent max r ≡ true
    → decode_envelope json r.envelope ≡ ok e
    → any (dead_has_id e.id) db.dead ≡ true
    → Broker.reserve json b lane now receipt (record { db = db; answers = []; warned = warned })
      ≡ (record { db = db; answers = []; warned = warned }, err dead_id)
unfolding Broker.reserve
reserve-blocked json b lane now max receipt key db warned r e bound k n s d dead =
    let here : Session = record { db = db; answers = []; warned = warned } in
    subst (λ m. run (reserve_by json b m lane now receipt) here ≡ (here, err dead_id)) (sym bound)
      (reserve_by-refused json b e db warned dead max lane now receipt key r k n s d)
