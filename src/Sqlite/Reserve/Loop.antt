-- ===== src/Sqlite/Reserve/Loop.antt =====
-- crates/worklane-sqlite: `reserve` from its statements, the loop of the bounded path included.
use worklane.Base.{
  ℕ, zero, suc, ◌≡◌, refl, true, false, Option, none, some, List, inl, inr, Bool-cases, subst, any,
}
use worklane.Base.Text.{Text, text_Eq}
use worklane.Core.Codec.{Json, decode_envelope, receipt_key}
use worklane.Core.Envelope.{Receipt, Lane, Bytes, JobEnvelope, Reservation}
use worklane.Core.Error.{Result, ok, err, Result-cases}
use worklane.Core.Spi.{max_dead_letter_sweep}
use worklane.Core.Retention.{RetentionPolicy, nanos, is_unbounded, age_cutoff_nanos, keep_count}
use worklane.Sqlite.Broker
use worklane.Sqlite.Broker.{
  SqliteBroker, nanos_after, is_visible, comes_before, next_visible, leased, lease_row, lease_next,
  lease_found, is_spent, spent_error, reservation, some_reservation, hand_out, resolve_row,
  reserve_loop, lease_unbounded, fast_path, sweep, bounded_path, reserve_by,
}
use worklane.Sqlite.Invariant.{WellFormed}
use worklane.Sqlite.Invariant.Methods.{dead_letter_seq-Sound}
use worklane.Sqlite.Rows.{
  row_has_seq, delete, dead_letter_seq, key_held, insert_dead, free_unique_key, delete_job,
  prune_by, prune_dead_letters, drop_aged, drop_excess, dead_has_id,
}
use worklane.Sqlite.Session.{
  JobRow, Database, Session, Sql, lift, ◌>>=◌, ask, query, execute, sql_err, DeadRow,
}
use worklane.Sqlite.Session.Rules.{
  Post, PostDb, Triple, Triple-pure, Triple-lift, Triple-ask, Triple-execute, Triple-query,
  Triple-bind, Triple-in_transaction, Triple-run,
}
use worklane.Sqlite.Reserve.{exceeds, IsHanded, Swept, Swept-delete, handed, HandsOut}

-- The statements of `dead_letter_seq` that do not delete the job leave the jobs.
abbrev Jobs : List JobRow → Database → Type 0
Jobs js db = db.jobs ≡ js

prune_by-Jobs :
    {A : Type 0} (js : List JobRow) (bound : Option A)
    (step : Option A → List DeadRow → List DeadRow)
    → Triple (Jobs js) (prune_by bound step) (λ _. Jobs js)
unfolding prune_by
prune_by-Jobs js none step = Triple-pure tt (λ db h. h)
prune_by-Jobs js (some bound) step = Triple-execute _ (λ db h. h)

prune-Jobs :
    (js : List JobRow) (lane : Lane) (policy : RetentionPolicy) (now : ℕ)
    → Triple (Jobs js) (prune_dead_letters lane policy now) (λ _. Jobs js)
unfolding prune_dead_letters
prune-Jobs js lane policy now = elim (Bool-cases (is_unbounded policy)) [
  | inl e ↦ rw e (Triple-pure tt (λ db h. h))
  | inr e ↦ rw e (
      Triple-bind (λ _. Jobs js) _ _
        (prune_by-Jobs js (age_cutoff_nanos policy now) (drop_aged lane))
        (λ _. prune_by-Jobs js (keep_count policy) (drop_excess lane)))
]

insert_dead-Jobs :
    (js : List JobRow) (envelope : JobEnvelope) (blob : Bytes) (error : Text) (k : Option Text)
    (now : ℕ) (db : Database)
    → Jobs js db
    → PostDb (λ _. Jobs js) (insert_dead envelope blob error k now db)
unfolding insert_dead
insert_dead-Jobs js envelope blob error k now db h =
    elim (Bool-cases (any (dead_has_id envelope.id) db.dead)) [ inl e ↦ rw e tt | inr e ↦ rw e h ]

dead_letter_seq-Jobs :
    (json : Json) (js : List JobRow) (seq : ℕ) (blob : Bytes) (error : Text) (now : ℕ)
    (policy : RetentionPolicy)
    → Triple
        (Jobs js)
        (dead_letter_seq json seq blob error now policy)
        (λ _. Jobs (delete (row_has_seq seq) js))
unfolding dead_letter_seq free_unique_key delete_job
dead_letter_seq-Jobs json js seq blob error now policy =
    Triple-bind (λ _. Jobs js) (lift (decode_envelope json blob)) _ (Triple-lift _ (λ a e db h. h))
      λ envelope.
        Triple-bind (λ _. Jobs js) (query (key_held seq)) _ (Triple-query _ (λ db h. h))
          λ k.
            Triple-bind (λ _. Jobs js) (ask sql_err (insert_dead envelope blob error k now)) _
              (Triple-ask sql_err _ (insert_dead-Jobs js envelope blob error k now))
              λ _.
                Triple-bind (λ _. Jobs js) (free_unique_key seq) _ (Triple-execute _ (λ db h. h))
                  λ _.
                    Triple-bind (λ _. Jobs (delete (row_has_seq seq) js)) (delete_job seq) _
                      (Triple-execute _ (λ db h. rw h refl))
                      λ _. prune-Jobs (delete (row_has_seq seq) js) envelope.lane policy now

module _ (json : Json) (b : SqliteBroker) (lane : Lane) (now : ℕ) (receipt : Receipt) (key : Text)
    (before : Database) where
  -- The database between two statements of the loop, with the row that was selected.
  Selected : Option JobRow → Database → Type 0
  Selected row db =
      Swept b.max_deliveries lane (nanos now) before db × (next_visible lane (nanos now) db ≡ row)

  sweep_one-Triple :
      (r : JobRow) (error : Text)
      → exceeds b.max_deliveries r ≡ true
      → Triple
          (Selected (some r))
          (dead_letter_seq json r.seq r.envelope error (nanos now) b.retention)
          (λ _. Swept b.max_deliveries lane (nanos now) before)
  unfolding Selected
  sweep_one-Triple r error x = record {
    at = λ s p.
        swept s (dead_letter_seq json r.seq r.envelope error (nanos now) b.retention s) p
          ((dead_letter_seq-Sound json r.seq r.envelope error (nanos now) b.retention).at s
            (p.0.tables))
          ((dead_letter_seq-Jobs json s.db.jobs r.seq r.envelope error (nanos now) b.retention).at s
            refl);
  }
    where
      swept :
          (s : Session) (y : Session × Result (Unit {0}))
          → Selected (some r) s.db
          → Post (λ _. WellFormed) y
          → Post (λ _. Jobs (delete (row_has_seq r.seq) s.db.jobs)) y
          → Post (λ _. Swept b.max_deliveries lane (nanos now) before) y
      swept s (s', ok a) p w g =
          Swept-delete b.max_deliveries lane (nanos now) before s.db s'.db r p.0 p.1 x w g
      swept s (s', err e) p w g = tt

  -- The reservation is read from the envelope of the row.
  Leased : JobRow → Database → Type 0
  Leased row after =
      (r : Reservation)
      → reservation json receipt b.lease row.envelope ≡ ok r
      → IsHanded json b lane now receipt key before r after

  read-Triple :
      (row : JobRow)
      → Triple
          (Leased row)
          (some_reservation json receipt b.lease (some row.envelope))
          (HandsOut json b lane now receipt key before)
  unfolding some_reservation Leased
  read-Triple row = elim (Result-cases (reservation json receipt b.lease row.envelope)) [
    | inl (r, e) ↦ rw (e, some_reservation) (record { at = λ s h. h r e })
    | inr (r, e) ↦ rw (e, some_reservation) (record { at = λ s h. tt })
  ]

  hand_out-Triple :
      (row : JobRow)
      → exceeds b.max_deliveries row ≡ false
      → Triple
          (Selected (some row))
          (hand_out json b now receipt key row)
          (HandsOut json b lane now receipt key before)
  unfolding hand_out Selected Leased
  hand_out-Triple row x =
      Triple-bind (λ _. Leased row)
        (execute λ db. (lease_row key (nanos_after now b.lease) row.seq db, tt {0})) _
        (Triple-execute _ (λ db p r. handed json b lane now receipt key before db row r p.0 p.1 x))
        (λ _. read-Triple row)

  resolve_row-Triple :
      (max : ℕ) (again : Sql (Option Reservation)) (row : Option JobRow)
      → b.max_deliveries ≡ some max
      → Triple
          (Swept b.max_deliveries lane (nanos now) before)
          again
          (HandsOut json b lane now receipt key before)
      → Triple
          (Selected row)
          (resolve_row json b max now receipt key again row)
          (HandsOut json b lane now receipt key before)
  unfolding resolve_row
  resolve_row-Triple max again none bound h = Triple-pure none (λ db p. tt)
  resolve_row-Triple max again (some r) bound h = elim (Bool-cases (is_spent max r)) [
    | inl e ↦
        rw (e, resolve_row)
          (Triple-bind (λ _. Swept b.max_deliveries lane (nanos now) before)
            (dead_letter_seq json r.seq r.envelope (spent_error max) (nanos now) b.retention) _
            (sweep_one-Triple r (spent_error max) (rw bound e)) (λ _. h))
    | inr e ↦ rw (e, resolve_row) (hand_out-Triple r (rw bound e))
  ]

  reserve_loop-Triple :
      (max left : ℕ)
      → b.max_deliveries ≡ some max
      → Triple
          (Swept b.max_deliveries lane (nanos now) before)
          (reserve_loop json b max lane now receipt key left)
          (HandsOut json b lane now receipt key before)
  unfolding reserve_loop Selected
  reserve_loop-Triple max zero bound = Triple-pure none (λ db p. tt)
  reserve_loop-Triple max (suc left) bound =
      Triple-bind Selected (query (next_visible lane (nanos now))) _
        (Triple-query _ (λ db p. (p, refl)))
        λ row.
          resolve_row-Triple max (reserve_loop json b max lane now receipt key left) row bound
            (reserve_loop-Triple max left bound)

  -- The row of the fast path.
  HandsFor : Option Bytes → Database → Type 0
  HandsFor none after = Unit
  HandsFor (some blob) after =
      (r : Reservation)
      → reservation json receipt b.lease blob ≡ ok r
      → IsHanded json b lane now receipt key before r after

  lease_found-HandsFor :
      (db : Database) (row : Option JobRow)
      → b.max_deliveries ≡ none
      → Swept b.max_deliveries lane (nanos now) before db
      → next_visible lane (nanos now) db ≡ row
      → HandsFor
          (lease_found key (nanos_after now b.lease) db row).1
          (lease_found key (nanos_after now b.lease) db row).0
  unfolding lease_found HandsFor
  lease_found-HandsFor db none never h e = tt
  lease_found-HandsFor db (some row) never h e =
      λ r got. handed json b lane now receipt key before db row r h e (rw never refl) got

  read_for-Triple :
      (blob : Option Bytes)
      → Triple
          (HandsFor blob)
          (some_reservation json receipt b.lease blob)
          (HandsOut json b lane now receipt key before)
  unfolding some_reservation HandsFor
  read_for-Triple none = Triple-pure none (λ db h. tt)
  read_for-Triple (some blob) = elim (Result-cases (reservation json receipt b.lease blob)) [
    | inl (r, e) ↦ rw (e, some_reservation) (record { at = λ s h. h r e })
    | inr (r, e) ↦ rw (e, some_reservation) (record { at = λ s h. tt })
  ]

  lease_unbounded-Triple :
      b.max_deliveries ≡ none
      → Triple
          (Swept b.max_deliveries lane (nanos now) before)
          (lease_unbounded json b lane now receipt key)
          (HandsOut json b lane now receipt key before)
  unfolding lease_unbounded lease_next
  lease_unbounded-Triple never =
      Triple-bind HandsFor (execute (lease_next key (nanos_after now b.lease) lane (nanos now))) _
        (Triple-execute _ (λ db h. lease_found-HandsFor db _ never h refl)) read_for-Triple

  with_key-Triple :
      (f : Text → Sql (Option Reservation))
      → receipt_key json receipt ≡ ok key
      → Triple
          (Swept b.max_deliveries lane (nanos now) before)
          (f key)
          (HandsOut json b lane now receipt key before)
      → Triple
          (Swept b.max_deliveries lane (nanos now) before)
          (lift (receipt_key json receipt) >>= f)
          (HandsOut json b lane now receipt key before)
  with_key-Triple f k h = rw k (record { at = λ s p. h.at s p })

  reserve_by-Triple :
      (max : Option ℕ)
      → b.max_deliveries ≡ max
      → receipt_key json receipt ≡ ok key
      → Triple
          (Swept b.max_deliveries lane (nanos now) before)
          (reserve_by json b max lane now receipt)
          (HandsOut json b lane now receipt key before)
  unfolding reserve_by fast_path bounded_path sweep
  reserve_by-Triple none bound k =
      with_key-Triple (lease_unbounded json b lane now receipt) k (lease_unbounded-Triple bound)
  reserve_by-Triple (some max) bound k = with_key-Triple (sweep json b max lane now receipt) k (
      Triple-in_transaction (reserve_loop json b max lane now receipt key max_dead_letter_sweep)
        (reserve_loop-Triple max max_dead_letter_sweep bound))

pub reserve-HandsOut :
    (json : Json) (b : SqliteBroker) (lane : Lane) (now : ℕ) (receipt : Receipt) (key : Text)
    (s t : Session) (r : Reservation)
    → receipt_key json receipt ≡ ok key
    → WellFormed s.db
    → Broker.reserve json b lane now receipt s ≡ (t, ok (some r))
    → IsHanded json b lane now receipt key s.db r t.db
unfolding Broker.reserve
reserve-HandsOut json b lane now receipt key s t r k w h =
    subst (Post (HandsOut json b lane now receipt key s.db)) h (
      (Triple-run _ (reserve_by-Triple json b lane now receipt key s.db b.max_deliveries refl k)).at
        s (record { tables = w; remains = λ seq. inl refl }))
