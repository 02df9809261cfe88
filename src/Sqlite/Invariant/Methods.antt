-- ===== src/Sqlite/Invariant/Methods.antt =====
-- crates/worklane-sqlite: every call keeps the tables well-formed, whatever the driver answers.
use worklane.Base.{
  ℕ, zero, suc, ◌≡◌, refl, Bool, Option, none, some, List, [], ◌∷◌, Bool-cases, inl, inr,
}
use worklane.Base.Int.{ℤ}
use worklane.Base.Text.{Text}
use worklane.Core.Codec.{Json, encode_envelope, decode_envelope, receipt_key}
use worklane.Core.Envelope.{JobId, Receipt, Lane, Bytes, NewJob, Reservation, into_envelope}
use worklane.Core.Error.{Result}
use worklane.Core.Retention.{RetentionPolicy, nanos, is_unbounded, age_cutoff_nanos, keep_count}
use worklane.Core.Spi.{max_dead_letter_sweep}
use worklane.Sqlite.Broker.{
  SqliteBroker, nanos_after, lease_next, lease_found, lease_row, leased, next_visible, is_spent,
  spent_error, hand_out, some_reservation, resolve_row, reserve_loop, lease_unbounded, fast_path,
  sweep, bounded_path, reserve_by, insert_all, remove_job, retried, one_more_attempt, retry_row,
  deferred, defer_row, warn, extend_rows, is_current, extend_key,
}
use worklane.Sqlite.Invariant.{
  WellFormed, Inserted, Freed, WellFormed-update, insert_row-Inserted, insert_key-WellFormed,
  free_key-Freed, delete_job-WellFormed, insert_dead-WellFormed, dead-WellFormed,
}
use worklane.Sqlite.Rows.{
  update, row_has_seq, find_valid_row, holder_of, holder_blob, insert_row, insert_key, take_key,
  after_insert, insert_new, insert_unless, insert_job, free_unique_key, delete_job, prune_by,
  prune_dead_letters, drop_aged, drop_excess, insert_dead, key_held, dead_letter_seq, find,
  row_has_receipt,
}
use worklane.Sqlite.Session.{JobRow, Database, Sql, pure, lift, ◌>>=◌, ask, query, execute, sql_err}
use worklane.Sqlite.Session.Rules.{
  Triple, Triple-pure, Triple-lift, Triple-ask, Triple-execute, Triple-query, Triple-bind,
  Triple-in_transaction,
}

-- The call keeps the tables well-formed.
abbrev pub Sound : {A : Type 0} → Sql A → Type 0
Sound m = Triple WellFormed m (λ _. WellFormed)

pub Sound-bind :
    {A B : Type 0} (m : Sql A) (f : A → Sql B) → Sound m → ((a : A) → Sound (f a)) → Sound (m >>= f)
Sound-bind m f h k = Triple-bind (λ _. WellFormed) m f h k

pub Sound-query : {A : Type 0} (read : Database → A) → Sound (query read)
Sound-query read = Triple-query read (λ db w. w)

pub Sound-lift : {A : Type 0} (r : Result A) → Sound (lift r)
Sound-lift r = Triple-lift r (λ a e db w. w)

pub Sound-pure : {A : Type 0} (a : A) → Sound (pure a)
Sound-pure a = Triple-pure a (λ db w. w)

take_key-Sound :
    (key : Option Text) (seq : ℕ)
    → Triple (Inserted (some seq)) (take_key key seq) (λ _. WellFormed)
unfolding take_key
take_key-Sound none seq = Triple-pure tt (λ db h. h.0)
take_key-Sound (some key) seq =
    Triple-ask sql_err (insert_key key seq) (λ db h. insert_key-WellFormed key seq db h)

after_insert-Sound :
    (id : JobId) (key : Option Text) (inserted : Option ℕ)
    → Triple (Inserted inserted) (after_insert id key inserted) (λ _. WellFormed)
unfolding after_insert
after_insert-Sound id key none = Triple-pure id (λ db w. w)
after_insert-Sound id key (some seq) =
    Triple-bind (λ _. WellFormed) (take_key key seq) (λ _. pure id) (take_key-Sound key seq)
      (λ _. Sound-pure id)

holder_of-Sound : (key : Option Text) → Sound (holder_of key)
unfolding holder_of
holder_of-Sound none = Sound-pure none
holder_of-Sound (some key) = Sound-query (holder_blob key)

pub insert_row-Triple :
    (id : JobId) (lane : Lane) (priority available_at : ℕ) (blob : Bytes)
    → Triple WellFormed (execute (insert_row id lane priority available_at blob)) Inserted
insert_row-Triple id lane priority available_at blob =
    Triple-execute (insert_row id lane priority available_at blob)
      (λ db w. insert_row-Inserted id lane priority available_at blob db w)

module _ (json : Json) where
  insert_new-Sound : (job : NewJob) (at : ℕ) → Sound (insert_new json job at)
  unfolding insert_new
  insert_new-Sound job at =
      Sound-bind (lift (encode_envelope json (into_envelope job))) _ (Sound-lift _) λ blob.
        Triple-bind Inserted (execute (insert_row job.id job.lane job.priority at blob)) _
          (insert_row-Triple job.id job.lane job.priority at blob)
          (after_insert-Sound job.id job.unique_key)

  insert_unless-Sound :
      (job : NewJob) (at : ℕ) (blob : Option Bytes) → Sound (insert_unless json job at blob)
  unfolding insert_unless
  insert_unless-Sound job at (some blob) = Sound-lift _
  insert_unless-Sound job at none = insert_new-Sound job at

  pub insert_job-Sound : (job : NewJob) (at : ℕ) → Sound (insert_job json job at)
  unfolding insert_job
  insert_job-Sound job at =
      Sound-bind (holder_of job.unique_key) _ (holder_of-Sound job.unique_key)
        (insert_unless-Sound job at)

  pub insert_all-Sound : (jobs : List NewJob) (now : ℕ) → Sound (insert_all json jobs now)
  unfolding insert_all
  insert_all-Sound [] now = Sound-pure []
  insert_all-Sound (job ∷ jobs) now =
      Sound-bind (insert_job json job (nanos_after now job.delay)) _ (insert_job-Sound job _) λ id.
        Sound-bind (insert_all json jobs now) _ (insert_all-Sound jobs now) λ ids. Sound-pure _

  pub find_valid_row-Sound : (receipt : Receipt) (now : ℕ) → Sound (find_valid_row json receipt now)
  unfolding find_valid_row
  find_valid_row-Sound receipt now =
      Sound-bind (lift (receipt_key json receipt)) _ (Sound-lift _) λ key.
        Sound-bind (query λ db. find (row_has_receipt key) db.jobs) _ (Sound-query _)
          λ row. Sound-lift _

drop_job-Sound : (seq : ℕ) → Triple WellFormed (free_unique_key seq) (λ _. Freed seq)
unfolding free_unique_key
drop_job-Sound seq = Triple-execute _ (λ db w. free_key-Freed seq db w)

delete_job-Sound : (seq : ℕ) → Triple (Freed seq) (delete_job seq) (λ _. WellFormed)
unfolding delete_job
delete_job-Sound seq = Triple-execute _ (λ db h. delete_job-WellFormed seq db h)

pub remove_job-Sound : (seq : ℕ) → Sound (remove_job seq)
unfolding remove_job
remove_job-Sound seq =
    Triple-bind (λ _. Freed seq) (free_unique_key seq) (λ _. delete_job seq) (drop_job-Sound seq)
      (λ _. delete_job-Sound seq)

drop_aged-Sound : (lane : Lane) (cutoff : Option ℤ) → Sound (prune_by cutoff (drop_aged lane))
unfolding prune_by drop_aged
drop_aged-Sound lane none = Sound-pure tt
drop_aged-Sound lane (some cutoff) = Triple-execute _ (λ db w. dead-WellFormed _ db w)

drop_excess-Sound : (lane : Lane) (keep : Option ℕ) → Sound (prune_by keep (drop_excess lane))
unfolding prune_by drop_excess
drop_excess-Sound lane none = Sound-pure tt
drop_excess-Sound lane (some keep) = Triple-execute _ (λ db w. delete_excess lane keep db w)
  where
    delete_excess :
        (lane : Lane) (keep : ℕ) (db : Database)
        → WellFormed db
        → WellFormed (record db { dead = drop_excess lane (some keep) db.dead })
    delete_excess lane keep db w = dead-WellFormed _ db w

prune-Sound :
    (lane : Lane) (policy : RetentionPolicy) (now : ℕ) → Sound (prune_dead_letters lane policy now)
unfolding prune_dead_letters
prune-Sound lane policy now = elim (Bool-cases (is_unbounded policy)) [
  | inl e ↦ rw e (Sound-pure tt)
  | inr e ↦ rw e (
      Sound-bind (prune_by (age_cutoff_nanos policy now) (drop_aged lane)) _
        (drop_aged-Sound lane (age_cutoff_nanos policy now))
        (λ _. drop_excess-Sound lane (keep_count policy)))
]

WellFormed-rows :
    (p : JobRow → Bool) (f : JobRow → JobRow)
    → ((r : JobRow) → ((f r).seq ≡ r.seq) × ((f r).id ≡ r.id))
    → Sound (execute (λ db. (record db { jobs = update p f db.jobs }, tt {0})))
WellFormed-rows p f same = Triple-execute _ (λ db w. WellFormed-update p f db same w)

pub defer_row-Sound : (at seq : ℕ) → Sound (defer_row at seq)
unfolding defer_row deferred
defer_row-Sound at seq = WellFormed-rows (row_has_seq seq) (deferred at) (λ r. (refl, refl))

pub extend_key-Sound :
    (b : SqliteBroker) (receipt : Receipt) (now : ℕ) (key : Text)
    → Sound (extend_key b receipt now key)
unfolding extend_key extend_rows
extend_key-Sound b receipt now key =
    Sound-bind (execute (extend_rows key (nanos now) (nanos_after now b.lease))) _
      (Triple-execute _
        (λ db w. WellFormed-update (is_current key (nanos now)) _ db (λ r. (refl, refl)) w))
      (λ changed. Sound-lift _)

lease_row-WellFormed :
    (key : Text) (until seq : ℕ) (db : Database)
    → WellFormed db
    → WellFormed (lease_row key until seq db)
unfolding lease_row leased
lease_row-WellFormed key until seq db w =
    WellFormed-update (row_has_seq seq) (leased key until) db (λ r. (refl, refl)) w

pub lease_found-WellFormed :
    (key : Text) (until : ℕ) (db : Database) (found : Option JobRow)
    → WellFormed db
    → WellFormed (lease_found key until db found).0
unfolding lease_found
lease_found-WellFormed key until db none w = w
lease_found-WellFormed key until db (some r) w = lease_row-WellFormed key until r.seq db w

pub warn-Sound : (policy : RetentionPolicy) → Sound (warn policy)
unfolding warn
warn-Sound policy = record { at = λ s w. w }

module _ (json : Json) where
  pub dead_letter_seq-Sound :
      (seq : ℕ) (blob : Bytes) (error : Text) (now : ℕ) (policy : RetentionPolicy)
      → Sound (dead_letter_seq json seq blob error now policy)
  unfolding dead_letter_seq
  dead_letter_seq-Sound seq blob error now policy =
      Sound-bind (lift (decode_envelope json blob)) _ (Sound-lift _) λ envelope.
        Sound-bind (query (key_held seq)) _ (Sound-query _) λ key.
          Sound-bind (ask sql_err (insert_dead envelope blob error key now)) _
            (Triple-ask sql_err _ (insert_dead-WellFormed envelope blob error key now))
            λ _.
              Triple-bind (λ _. Freed seq) (free_unique_key seq) _ (drop_job-Sound seq)
                λ _.
                  Triple-bind (λ _. WellFormed) (delete_job seq) _ (delete_job-Sound seq)
                    λ _. prune-Sound envelope.lane policy now

  pub retry_row-Sound : (at : ℕ) (found : ℕ × Bytes) → Sound (retry_row json at found)
  unfolding retry_row retried
  retry_row-Sound at found =
      Sound-bind (lift (decode_envelope json found.1)) _ (Sound-lift _) λ envelope.
        Sound-bind (lift (encode_envelope json (one_more_attempt envelope))) _ (Sound-lift _)
          λ blob. WellFormed-rows (row_has_seq found.0) (retried blob at) (λ r. (refl, refl))

  some_reservation-Sound :
      (receipt : Receipt) (lease : ℕ) (blob : Option Bytes)
      → Sound (some_reservation json receipt lease blob)
  unfolding some_reservation
  some_reservation-Sound receipt lease none = Sound-pure none
  some_reservation-Sound receipt lease (some blob) = Sound-lift _

  hand_out-Sound :
      (b : SqliteBroker) (now : ℕ) (receipt : Receipt) (key : Text) (r : JobRow)
      → Sound (hand_out json b now receipt key r)
  unfolding hand_out
  hand_out-Sound b now receipt key r =
      Sound-bind (execute λ db. (lease_row key (nanos_after now b.lease) r.seq db, tt {0})) _
        (Triple-execute _ (λ db w. lease_row-WellFormed key (nanos_after now b.lease) r.seq db w))
        (λ _. some_reservation-Sound receipt b.lease (some r.envelope))

  resolve_row-Sound :
      (b : SqliteBroker) (max now : ℕ) (receipt : Receipt) (key : Text)
      (again : Sql (Option Reservation)) (row : Option JobRow)
      → Sound again
      → Sound (resolve_row json b max now receipt key again row)
  unfolding resolve_row
  resolve_row-Sound b max now receipt key again none h = Sound-pure none
  resolve_row-Sound b max now receipt key again (some r) h = elim (Bool-cases (is_spent max r)) [
    | inl e ↦
        rw (e, resolve_row)
          (Sound-bind
            (dead_letter_seq json r.seq r.envelope (spent_error max) (nanos now) b.retention) _
            (dead_letter_seq-Sound r.seq r.envelope (spent_error max) (nanos now) b.retention)
            (λ _. h))
    | inr e ↦ rw (e, resolve_row) (hand_out-Sound b now receipt key r)
  ]

  pub reserve_loop-Sound :
      (b : SqliteBroker) (max : ℕ) (lane : Lane) (now : ℕ) (receipt : Receipt) (key : Text)
      (left : ℕ)
      → Sound (reserve_loop json b max lane now receipt key left)
  unfolding reserve_loop
  reserve_loop-Sound b max lane now receipt key zero = Sound-pure none
  reserve_loop-Sound b max lane now receipt key (suc left) =
      Sound-bind (query (next_visible lane (nanos now))) _ (Sound-query _) λ row.
        resolve_row-Sound b max now receipt key (reserve_loop json b max lane now receipt key left)
          row (reserve_loop-Sound b max lane now receipt key left)

  pub reserve_by-Sound :
      (b : SqliteBroker) (max : Option ℕ) (lane : Lane) (now : ℕ) (receipt : Receipt)
      → Sound (reserve_by json b max lane now receipt)
  unfolding reserve_by fast_path bounded_path lease_unbounded lease_next sweep
  reserve_by-Sound b none lane now receipt =
      Sound-bind (lift (receipt_key json receipt)) (lease_unbounded json b lane now receipt)
        (Sound-lift _)
        λ key.
          Sound-bind (execute (lease_next key (nanos_after now b.lease) lane (nanos now))) _
            (Triple-execute _ (λ db w. lease_found-WellFormed key (nanos_after now b.lease) db _ w))
            (some_reservation-Sound receipt b.lease)
  reserve_by-Sound b (some max) lane now receipt =
      Sound-bind (lift (receipt_key json receipt)) (sweep json b max lane now receipt)
        (Sound-lift _)
        λ key.
          Triple-in_transaction (reserve_loop json b max lane now receipt key max_dead_letter_sweep)
            (reserve_loop-Sound b max lane now receipt key max_dead_letter_sweep)
