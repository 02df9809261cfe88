-- ===== src/Sqlite/Reserve.antt =====
-- crates/worklane-sqlite: what `reserve` hands out, on both of its paths.
pub mod Loop
pub mod Lease
use worklane.Base.{
  ℕ, zero, suc, ◌+◌, min, ◌≡◌, refl, sym, ◌∙◌, Bool, true, false, not, Option, none, some, List, [],
  ◌∷◌, ◌⊎◌, inl, inr, nat_eq, if◌then◌else◌, Bool-cases, Option-cases, arith, subst, ltb, any,
}
use worklane.Base.Text.{Text}
use worklane.Core.Codec.{Json, decode_envelope, receipt_key}
use worklane.Core.Envelope.{Receipt, Lane, Bytes, JobEnvelope, Reservation}
use worklane.Core.Error.{Result, ok, err, map_ok, Result-cases}
use worklane.Core.Retention.{RetentionPolicy, nanos, is_unbounded, age_cutoff_nanos, keep_count}
use worklane.Sqlite.Broker
use worklane.Sqlite.Broker.{
  SqliteBroker, nanos_after, is_visible, comes_before, next_visible, leased, lease_row, lease_next,
  lease_found, is_spent, spent_error, reservation, some_reservation, hand_out, resolve_row,
  reserve_loop, lease_unbounded, fast_path, sweep, bounded_path, reserve_by,
}
use worklane.Sqlite.Choice.{
  row_at, row_at-seq, row_at-delete, row_at-update, first_row-least, first_row-row_at, All-row_at,
}
use worklane.Sqlite.Invariant.{WellFormed}
use worklane.Sqlite.Invariant.Methods.{dead_letter_seq-Sound}
use worklane.Sqlite.Rows.{
  row_has_seq, update, delete, dead_letter_seq, key_held, insert_dead, free_unique_key, delete_job,
  prune_by, prune_dead_letters, drop_aged, drop_excess, dead_has_id,
}
use worklane.Sqlite.Session.{
  JobRow, Database, Session, Sql, pure, lift, ◌>>=◌, ask, query, execute, run, sql_err, DeadRow,
}
use worklane.Sqlite.Session.Rules.{
  Post, PostDb, Triple, Triple-pure, Triple-lift, Triple-ask, Triple-execute, Triple-query,
  Triple-bind, Triple-in_transaction, Triple-run,
}
use mathlib.Core.Option

-- Would another delivery exceed the bound, if there is one?
abbrev pub exceeds : Option ℕ → JobRow → Bool
exceeds none r = false
exceeds (some max) r = is_spent max r

-- The row at `seq` is as it was, or it was a visible job without deliveries left and is gone.
abbrev pub Remains : Option ℕ → Lane → ℕ → Database → Database → ℕ → Type 0
Remains max lane now before after seq =
    (row_at seq after.jobs ≡ row_at seq before.jobs)
    ⊎ ((row_at seq after.jobs ≡ none)
        × ((r : JobRow) × (row_at seq before.jobs ≡ some r)
            × (is_visible lane now r ≡ true)
            × (exceeds max r ≡ true)))

-- `reserve` with the clock at `now`, from the database `before`, gave `r` and left `after`.
pub record IsHanded (json : Json) (b : SqliteBroker) (lane : Lane) (now : ℕ) (receipt : Receipt)
    (key : Text) (before : Database) (r : Reservation) (after : Database) : Type 0 where
  pub row : JobRow
  -- the job was in the table, visible, and has a delivery left
  pub stands : row_at row.seq before.jobs ≡ some row
  pub visible : is_visible lane (nanos now) row ≡ true
  pub within : exceeds b.max_deliveries row ≡ false
  -- every visible job that comes before it has none left
  pub first :
      (q : JobRow)
      → row_at q.seq before.jobs ≡ some q
      → is_visible lane (nanos now) q ≡ true
      → comes_before q row ≡ true
      → exceeds b.max_deliveries q ≡ true
  -- the caller has its envelope, the receipt and the lease
  pub envelope : decode_envelope json row.envelope ≡ ok r.envelope
  pub receipt_drawn : r.receipt ≡ receipt
  pub lease : r.lease ≡ b.lease
  -- and it is leased in the table, where nothing else changes but that jobs without deliveries left
  -- are gone
  pub held : row_at row.seq after.jobs ≡ some (leased key (nanos_after now b.lease) row)
  pub others :
      (seq : ℕ)
      → nat_eq row.seq seq ≡ false
      → Remains b.max_deliveries lane (nanos now) before after seq

-- The rows of `before` less some visible ones without deliveries left.
pub record Swept (max : Option ℕ) (lane : Lane) (now : ℕ) (before db : Database) : Type 0 where
  pub tables : WellFormed db
  pub remains : (seq : ℕ) → Remains max lane now before db seq

pub some-inj : (x y : JobRow) → some x ≡ some y → x ≡ y
some-inj x y e = cc

-- A row that is still there was there before.
was_there :
    (max : Option ℕ) (lane : Lane) (now seq : ℕ) (before db : Database) (r : JobRow)
    → Remains max lane now before db seq
    → row_at seq db.jobs ≡ some r
    → row_at seq before.jobs ≡ some r
was_there max lane now seq before db r (inl same) e = sym same ∙ e
was_there max lane now seq before db r (inr (gone, _)) e = cc

-- A row that was there is there, or was to go.
still_there :
    (max : Option ℕ) (lane : Lane) (now seq : ℕ) (before db : Database) (r : JobRow)
    → Remains max lane now before db seq
    → row_at seq before.jobs ≡ some r
    → (row_at seq db.jobs ≡ some r) ⊎ (exceeds max r ≡ true)
still_there max lane now seq before db r (inl same) e = inl (same ∙ e)
still_there max lane now seq before db r (inr (gone, (r', e', v, x))) e =
    inr (subst (λ y. exceeds max y ≡ true) (some-inj r' r (sym e' ∙ e)) x)

Remains-rows :
    (max : Option ℕ) (lane : Lane) (now seq : ℕ) (before db after : Database)
    → row_at seq after.jobs ≡ row_at seq db.jobs
    → Remains max lane now before db seq
    → Remains max lane now before after seq
Remains-rows max lane now seq before db after e (inl same) = inl (e ∙ same)
Remains-rows max lane now seq before db after e (inr (gone, why)) = inr (e ∙ gone, why)

next-stands :
    (lane : Lane) (now : ℕ) (db : Database) (r : JobRow)
    → WellFormed db
    → next_visible lane now db ≡ some r
    → (row_at r.seq db.jobs ≡ some r) × (is_visible lane now r ≡ true)
unfolding next_visible
next-stands lane now db r w e = first_row-row_at (is_visible lane now) db.jobs r w.rows e

-- The dead-lettered row goes; every other stays.
pub Swept-delete :
    (max : Option ℕ) (lane : Lane) (now : ℕ) (before db after : Database) (r : JobRow)
    → Swept max lane now before db
    → next_visible lane now db ≡ some r
    → exceeds max r ≡ true
    → WellFormed after
    → after.jobs ≡ delete (row_has_seq r.seq) db.jobs
    → Swept max lane now before after
Swept-delete max lane now before db after r h e x w gone =
    let (at, v) = next-stands lane now db r h.tables e in
    record {
      tables = w;
      remains = λ seq. elim (Bool-cases (nat_eq r.seq seq)) [
        | inl same ↦
            let here : r.seq ≡ seq = ground arith in
            inr (
              rw (gone, row_at-delete seq r.seq db.jobs, same) refl,
              (
                r,
                subst (λ n. row_at n before.jobs ≡ some r) here
                    (was_there max lane now r.seq before db r (h.remains r.seq) at),
                v,
                x,
              ),
            )
        | inr other ↦
            Remains-rows max lane now seq before db after
              (rw (gone, row_at-delete seq r.seq db.jobs, other) refl) (h.remains seq)
      ];
    }

read_back :
    (json : Json) (receipt : Receipt) (lease : ℕ) (blob : Bytes) (r : Reservation)
    → reservation json receipt lease blob ≡ ok r
    → (decode_envelope json blob ≡ ok r.envelope) × (r.receipt ≡ receipt) × (r.lease ≡ lease)
unfolding reservation
read_back json receipt lease blob r h = elim (Result-cases (decode_envelope json blob)) [
  | inl (e, d) ↦ ground arith
  | inr (e, d) ↦ absurd (ground arith)
]

module _ (json : Json) (b : SqliteBroker) (lane : Lane) (now : ℕ) (receipt : Receipt)
    (key : Text) where
  pub handed :
      (before db : Database) (row : JobRow) (r : Reservation)
      → Swept b.max_deliveries lane (nanos now) before db
      → next_visible lane (nanos now) db ≡ some row
      → exceeds b.max_deliveries row ≡ false
      → reservation json receipt b.lease row.envelope ≡ ok r
      → IsHanded json b lane now receipt key before r
          (lease_row key (nanos_after now b.lease) row.seq db)
  unfolding lease_row leased
  handed before db row r h e x got =
      let (at, v) = next-stands lane (nanos now) db row h.tables e in
      let (d, same_receipt, same_lease) = read_back json receipt b.lease row.envelope r got in
      let write = λ (seq : ℕ).
        row_at-update seq row.seq (leased key (nanos_after now b.lease)) db.jobs (λ r. refl) in
      record {
        row = row;
        stands =
            was_there b.max_deliveries lane (nanos now) row.seq before db row (h.remains row.seq)
              at;
        visible = v;
        within = x;
        first = λ q there seen sooner.
            elim (still_there b.max_deliveries lane (nanos now) q.seq before db q (h.remains q.seq)
              there) [
                | inl still ↦ absurd (
                    not_both (comes_before q row) sooner (
                      All-row_at (λ y. comes_before y row ≡ false) (is_visible lane (nanos now))
                        q.seq db.jobs q (unfold next_visible in first_row-least _ row e) still
                        seen))
                | inr spent ↦ spent
              ];
        envelope = d;
        receipt_drawn = same_receipt;
        lease = same_lease;
        held = write row.seq ∙ rw (same_seq row.seq, at) refl;
        others = λ seq other.
            Remains-rows b.max_deliveries lane (nanos now) seq before db
              (lease_row key (nanos_after now b.lease) row.seq db) (write seq ∙ rw other refl)
              (h.remains seq);
      }
    where
      not_both : (c : Bool) → c ≡ true → c ≡ false → ⊥
      not_both c t f = ground arith

      same_seq : (n : ℕ) → nat_eq n n ≡ true
      same_seq n = ground arith

  -- What the loop promises.
  abbrev pub HandsOut : Database → Option Reservation → Database → Type 0
  HandsOut before none after = Unit
  HandsOut before (some r) after = IsHanded json b lane now receipt key before r after
