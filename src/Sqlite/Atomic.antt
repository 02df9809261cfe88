-- ===== src/Sqlite/Atomic.antt =====
-- crates/worklane-sqlite: a call that fails changes nothing.
use worklane.Base.{
  ℕ, ◌≡◌, refl, sym, Bool, true, false, Option, none, some, List, [], ◌∷◌, inl, inr, subst, ◌∙◌,
  ◌⊎◌, arith, any, ap,
}
use worklane.Base.Pairwise.{All, All-retain}
use worklane.Base.Text.{Text}
use worklane.Core.Codec.{Json, decode_envelope, receipt_key}
use worklane.Core.Envelope.{Receipt, Lane, Bytes, JobEnvelope}
use worklane.Core.Error.{Error, Result, ok, err}
use worklane.Core.Spi.{max_dead_letter_sweep}
use worklane.Core.Retention.{RetentionPolicy, nanos}
use worklane.Sqlite.Broker
use worklane.Sqlite.Broker.{
  SqliteBroker, first_row, comes_before, is_visible, next_visible, lease_next, lease_found,
  nanos_after, reservation, some_reservation, fast_path, reserve_by, bounded_path, warn,
  extend_rows, is_current, or_not_current, lease_unbounded, sweep, reserve_loop, extend_key,
}
use worklane.Sqlite.Calls.{Call, is_reserve, discard, issue}
use worklane.Sqlite.Rows.{update}
use worklane.Sqlite.Session.{
  JobRow, Database, Session, Sql, pure, lift, then_run, ◌>>=◌, answered, first_answer,
  later_answers, ask, execute, in_transaction, run, sql_err,
}
use worklane.Sqlite.Session.Rules.{
  Kept, IsAtomic, IsReading, IsAtomic-in_transaction, IsAtomic-execute, IsAtomic-bind, IsAtomic-run,
  IsAtomic-ask_ok, IsReading-lift, run-Kept,
}
use worklane.Sqlite.Stores

-- Every stored envelope can be read back.
abbrev pub IsReadable : Json → Database → Type 0
IsReadable json db = All (λ r. (e : JobEnvelope) × (decode_envelope json r.envelope ≡ ok e)) db.jobs

first_row-cases :
    (x : JobRow) (xs : List JobRow)
    → (first_row (x ∷ xs) ≡ some x) ⊎ (first_row (x ∷ xs) ≡ first_row xs)
unfolding first_row
first_row-cases x xs = ground arith

some-inj : (x y : JobRow) → some x ≡ some y → x ≡ y
some-inj x y e = cc

pub first_row-All :
    (P : JobRow → Type 0) (rs : List JobRow) (r : JobRow) → All P rs → first_row rs ≡ some r → P r
unfolding first_row
first_row-All P [] r h e = ground arith
first_row-All P (x ∷ xs) r h e = elim (first_row-cases x xs) [
  | inl same ↦ subst P (some-inj x r (sym same ∙ e)) h.0
  | inr later ↦ first_row-All P xs r h.1 (sym later ∙ e)
]

err-Kept :
    {A : Type 0} (before : Database) (x : Session × Result A) (t : Session) (e : Error)
    → x ≡ (t, err e)
    → Kept before x
    → t.db ≡ before
err-Kept before x t e h k = subst (Kept before) h k

discard-Kept :
    {A : Type 0} (before : Database) (x : Session × Result A)
    → Kept before x
    → Kept before (then_run (λ _. pure tt) x)
discard-Kept before (s, ok a) h = tt
discard-Kept before (s, err e) h = h

IsAtomic-discard : {A : Type 0} (m : Sql A) → IsAtomic m → IsAtomic (discard m)
IsAtomic-discard m a = record { at = λ s. discard-Kept s.db (m s) (a.at s) }

warn-IsReading : (policy : RetentionPolicy) → IsReading (warn policy)
unfolding warn
warn-IsReading policy = record { at = λ s. refl }

-- An update that touches no row changes nothing.
update_none :
    (p : JobRow → Bool) (f : JobRow → JobRow) (rs : List JobRow)
    → any p rs ≡ false
    → update p f rs ≡ rs
update_none p f [] h = refl
update_none p f (r ∷ rs) h =
    let here : p r ≡ false = ground arith in rw (here, update_none p f rs (ground arith)) refl

module _ (json : Json) where
  extended-Kept :
      (before db : Database) (receipt : Receipt) (changed : Bool) (s : Session)
      → s.db ≡ db
      → (changed ≡ false → db ≡ before)
      → Kept before (lift (or_not_current receipt changed) s)
  unfolding or_not_current
  extended-Kept before db receipt true s e h = tt
  extended-Kept before db receipt false s e h = e ∙ h refl

  extend_rows-Kept :
      (key : Text) (now until : ℕ) (receipt : Receipt) (s : Session) (answer : Option Text)
      → Kept s.db (
          then_run
            (λ changed. lift (or_not_current receipt changed))
            (answered sql_err s answer
              ((extend_rows key now until s.db).0, ok ((extend_rows key now until s.db).1))))
  unfolding extend_rows
  extend_rows-Kept key now until receipt s (some e) = refl
  extend_rows-Kept key now until receipt s none =
      extended-Kept s.db _ receipt _
        (record s { db = (extend_rows key now until s.db).0; answers = later_answers s.answers })
        refl
        (λ e.
          ap (λ rs. record (s.db) { jobs = rs }) (update_none (is_current key now) _ s.db.jobs e))

  extend_key-IsAtomic :
      (b : SqliteBroker) (receipt : Receipt) (now : ℕ) (key : Text)
      → IsAtomic (extend_key b receipt now key)
  unfolding extend_key execute ask
  extend_key-IsAtomic b receipt now key = record {
    at = λ s.
        extend_rows-Kept key (nanos now) (nanos_after now b.lease) receipt s
          (first_answer s.answers);
  }

  extend-IsAtomic :
      (b : SqliteBroker) (receipt : Receipt) (now : ℕ) → IsAtomic (Broker.extend json b receipt now)
  unfolding Broker.extend
  extend-IsAtomic b receipt now = IsAtomic-run _ (
      IsAtomic-bind (lift (receipt_key json receipt)) (extend_key b receipt now)
        (IsReading-lift (receipt_key json receipt)) (extend_key-IsAtomic b receipt now))

  key_Kept :
      {A : Type 0} (s : Session) (key : Result Text) (f : Text → Sql A)
      → ((k : Text) → Kept s.db (f k s))
      → Kept s.db ((lift key >>= f) s)
  key_Kept s (ok k) f h = h k
  key_Kept s (err e) f h = refl

  -- The reservation of the fast path.
  read-Kept :
      (before : Database) (receipt : Receipt) (lease : ℕ) (s : Session) (blob : Option Bytes)
      → ((bytes : Bytes)
          → blob ≡ some bytes
          → (e : JobEnvelope) × (decode_envelope json bytes ≡ ok e))
      → Kept before (some_reservation json receipt lease blob s)
  unfolding some_reservation reservation
  read-Kept before receipt lease s none h = tt
  read-Kept before receipt lease s (some bytes) h = let (e, d) = h bytes refl in rw d tt

  lease_found-readable :
      (key : Text) (until now : ℕ) (lane : Lane) (db : Database) (found : Option JobRow)
      (bytes : Bytes)
      → IsReadable json db
      → next_visible lane now db ≡ found
      → (lease_found key until db found).1 ≡ some bytes
      → (e : JobEnvelope) × (decode_envelope json bytes ≡ ok e)
  unfolding lease_found next_visible
  lease_found-readable key until now lane db none bytes h n e = absurd (ground arith)
  lease_found-readable key until now lane db (some r) bytes h n e =
      let same : r.envelope ≡ bytes = cc in
      subst (λ b. (e : JobEnvelope) × (decode_envelope json b ≡ ok e)) same
        (first_row-All _ _ r (All-retain _ (is_visible lane now) db.jobs h) n)

  unbounded-Kept :
      (b : SqliteBroker) (lane : Lane) (now : ℕ) (receipt : Receipt) (key : Text) (s : Session)
      (answer : Option Text)
      → IsReadable json s.db
      → Kept s.db (
          then_run (some_reservation json receipt b.lease) (
            answered sql_err s answer (
              (lease_next key (nanos_after now b.lease) lane (nanos now) s.db).0,
              ok ((lease_next key (nanos_after now b.lease) lane (nanos now) s.db).1),
            )))
  unfolding lease_next
  unbounded-Kept b lane now receipt key s (some e) h = refl
  unbounded-Kept b lane now receipt key s none h = read-Kept s.db receipt b.lease _ _ (λ bytes e.
      lease_found-readable key (nanos_after now b.lease) (nanos now) lane s.db _ bytes h refl e)

  -- `reserve` needs the stored envelopes readable only on its fast path.
  reserve_by-Kept :
      (b : SqliteBroker) (max : Option ℕ) (lane : Lane) (now : ℕ) (receipt : Receipt) (s : Session)
      → (max ≡ none → IsReadable json s.db)
      → Kept s.db (reserve_by json b max lane now receipt s)
  unfolding reserve_by fast_path lease_unbounded bounded_path sweep execute ask
  reserve_by-Kept b none lane now receipt s h =
      key_Kept s (receipt_key json receipt) (lease_unbounded json b lane now receipt)
        λ key. unbounded-Kept b lane now receipt key s (first_answer s.answers) (h refl)
  reserve_by-Kept b (some max) lane now receipt s h =
      key_Kept s (receipt_key json receipt) (sweep json b max lane now receipt) λ key.
        (IsAtomic-in_transaction
            (reserve_loop json b max lane now receipt key max_dead_letter_sweep)).at
          s

  tx_run-IsAtomic : {A : Type 0} (m : Sql A) → IsAtomic (run (in_transaction m))
  tx_run-IsAtomic m = IsAtomic-run (in_transaction m) (IsAtomic-in_transaction m)

  pub others-IsAtomic :
      (b : SqliteBroker) (now : ℕ) (c : Call) → is_reserve c ≡ false → IsAtomic (issue json b now c)
  unfolding issue Broker.enqueue Broker.enqueue_batch Broker.ack Broker.retry Broker.defer
      Broker.fail Stores.requeue Stores.purge_dead_letters Stores.enqueue_scheduled
      Stores.remove_schedule Stores.store
  others-IsAtomic b now (Call.enqueue job) h =
      let a : IsAtomic (Broker.enqueue json job now) = tx_run-IsAtomic _ in IsAtomic-discard _ a
  others-IsAtomic b now (Call.enqueue_batch jobs) h =
      let a : IsAtomic (Broker.enqueue_batch json jobs now) = tx_run-IsAtomic _ in
      IsAtomic-discard _ a
  others-IsAtomic b now (Call.reserve lane receipt) h = absurd (ground arith)
  others-IsAtomic b now (Call.ack receipt) h =
      let a : IsAtomic (Broker.ack json receipt now) = tx_run-IsAtomic _ in a
  others-IsAtomic b now (Call.retry receipt delay) h =
      let a : IsAtomic (Broker.retry json receipt delay now) = tx_run-IsAtomic _ in a
  others-IsAtomic b now (Call.defer receipt delay) h =
      let a : IsAtomic (Broker.defer json receipt delay now) = tx_run-IsAtomic _ in a
  others-IsAtomic b now (Call.fail receipt error) h =
      let a : IsAtomic (Broker.fail json b receipt error now) =
        IsAtomic-bind (warn b.retention) _ (warn-IsReading b.retention) (λ _. tx_run-IsAtomic _) in
      a
  others-IsAtomic b now (Call.extend receipt) h = (extend-IsAtomic b receipt now)
  others-IsAtomic b now (Call.requeue id) h =
      let a : IsAtomic (Stores.requeue json id now) = tx_run-IsAtomic _ in a
  others-IsAtomic b now (Call.purge_dead_letters lane) h =
      let a : IsAtomic (Stores.purge_dead_letters lane) = IsAtomic-run _ (IsAtomic-execute _) in
      IsAtomic-discard _ a
  others-IsAtomic b now (Call.enqueue_scheduled id occurrence job) h =
      let a : IsAtomic (Stores.enqueue_scheduled json id occurrence job now) = tx_run-IsAtomic _ in
      IsAtomic-discard _ a
  others-IsAtomic b now (Call.remove_schedule id) h =
      let a : IsAtomic (Stores.remove_schedule id) = IsAtomic-run _ (IsAtomic-execute _) in a
  others-IsAtomic b now (Call.store id blob) h =
      let a : IsAtomic (Stores.store id blob) = IsAtomic-run _ (IsAtomic-ask_ok _ _) in a

  pub issue-Kept :
      (b : SqliteBroker) (now : ℕ) (c : Call) (s : Session)
      → (b.max_deliveries ≡ none → IsReadable json s.db)
      → Kept s.db (issue json b now c s)
  unfolding issue Broker.reserve
  issue-Kept b now (Call.reserve lane receipt) s h = discard-Kept s.db _ (
      run-Kept s (reserve_by json b b.max_deliveries lane now receipt) λ s' e.
        subst (λ db. Kept db (reserve_by json b b.max_deliveries lane now receipt s')) e
          (reserve_by-Kept b b.max_deliveries lane now receipt s'
            (λ n. subst (IsReadable json) (sym e) (h n))))
  issue-Kept b now c s h = (others-IsAtomic b now c refl).at s

  -- A call that fails leaves the database as it was: whichever statement the driver fails, at the
  -- checkout, in the middle or at the commit, and whatever the code refuses by itself. `reserve`
  -- without a delivery bound is one statement and no transaction: there the stored envelopes have
  -- to be readable.
  pub issue-IsAtomic :
      (b : SqliteBroker) (now : ℕ) (c : Call) (s t : Session) (e : Error)
      → issue json b now c s ≡ (t, err e)
      → (b.max_deliveries ≡ none → IsReadable json s.db)
      → t.db ≡ s.db
  issue-IsAtomic b now c s t e h readable =
      err-Kept s.db (issue json b now c s) t e h (issue-Kept b now c s readable)
