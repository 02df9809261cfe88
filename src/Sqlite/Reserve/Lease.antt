-- ===== src/Sqlite/Reserve/Lease.antt =====
-- crates/worklane-sqlite: what `reserve` promises, in terms of the rows alone.
use worklane.Base.{
  ◌≤◌, ◌<◌, ==_iff, ℕ, ◌+◌, min, ◌≡◌, sym, ◌∙◌, true, false, Option, none, some, ◌⊎◌, inl, inr,
  nat_eq, Option-cases, arith, subst,
}
use worklane.Base.Text.{Text, text_Eq}
use worklane.Core.Duration.{saturating_add, i64_max}
use worklane.Core.Codec.{Json, decode_envelope, receipt_key}
use worklane.Core.Envelope.{Receipt, Lane, Reservation}
use worklane.Core.Error.{ok}
use worklane.Core.Retention.{nanos}
use worklane.Sqlite.Broker
use worklane.Sqlite.Broker.{
  SqliteBroker, nanos_after, is_visible, comes_before, next_visible, leased, lease_row, lease_next,
  lease_found, is_spent, spent_error, reservation, some_reservation, hand_out, resolve_row,
  reserve_loop, lease_unbounded, fast_path, sweep, bounded_path, reserve_by,
}
use worklane.Sqlite.Choice.{row_at}
use worklane.Sqlite.Invariant.{WellFormed}
use worklane.Sqlite.Session.{JobRow, Database, Session}
use worklane.Sqlite.Reserve.Loop.{reserve-HandsOut}
use worklane.Sqlite.Reserve.{Remains, some-inj, exceeds}

-- The job is on the lane, its time has come and no lease on it is running.
abbrev pub IsAvailable : Lane → ℕ → JobRow → Type 0
IsAvailable lane now r =
    (r.lane ≡ lane)
    × (r.available_at ≤ now)
    × ((until : ℕ) → r.leased_until ≡ some until → until ≤ now)

-- By priority, then by the time at which the job became available, then by rowid.
abbrev pub GoesBefore : JobRow → JobRow → Type 0
GoesBefore q r =
    (r.priority < q.priority)
    ⊎ ((r.priority ≡ q.priority)
        × ((q.available_at < r.available_at)
            ⊎ ((q.available_at ≡ r.available_at) × (q.seq < r.seq))))

-- Another delivery is within the bound, or beyond it. The count saturates at the largest `i64`.
abbrev pub IsWithin : Option ℕ → JobRow → Type 0
IsWithin none r = Unit
IsWithin (some max) r = min (r.deliveries + 1) i64_max ≤ max

abbrev pub IsExhausted : Option ℕ → JobRow → Type 0
IsExhausted none r = ⊥
IsExhausted (some max) r = max < min (r.deliveries + 1) i64_max

abbrev pub IsGone : Option ℕ → Lane → ℕ → JobRow → Type 0
IsGone max lane now r = IsAvailable lane now r × IsExhausted max r

-- `reserve` with the clock at `now`, from the database `before`, gave `r` and left `after`.
pub record IsLeased (json : Json) (b : SqliteBroker) (lane : Lane) (now : ℕ) (receipt : Receipt)
    (key : Text) (before : Database) (r : Reservation) (after : Database) : Type 0 where
  pub row : JobRow
  pub stands : row_at row.seq before.jobs ≡ some row
  pub available : IsAvailable lane (nanos now) row
  pub within : IsWithin b.max_deliveries row
  pub first :
      (q : JobRow)
      → row_at q.seq before.jobs ≡ some q
      → IsAvailable lane (nanos now) q
      → GoesBefore q row
      → IsExhausted b.max_deliveries q
  pub envelope : decode_envelope json row.envelope ≡ ok r.envelope
  pub receipt_drawn : r.receipt ≡ receipt
  pub lease : r.lease ≡ b.lease
  pub held :
      row_at row.seq after.jobs
      ≡ some (record row {
        receipt = some key;
        leased_until = some (nanos (saturating_add now b.lease));
        deliveries = row.deliveries + 1;
      })
  pub others :
      (q : JobRow)
      → row_at q.seq before.jobs ≡ some q
      → nat_eq row.seq q.seq ≡ false
      → (row_at q.seq after.jobs ≡ some q)
        ⊎ ((row_at q.seq after.jobs ≡ none) × IsGone b.max_deliveries lane (nanos now) q)

visible_of :
    (lane : Lane) (now : ℕ) (r : JobRow) → IsAvailable lane now r → is_visible lane now r ≡ true
unfolding is_visible
visible_of lane now r h = elim (Option-cases r.leased_until) [
  | inl e ↦ rw e (ground (arith, ==_iff r.lane lane))
  | inr (until, e) ↦ rw e (ground (arith, ==_iff r.lane lane, h.2 until e))
]

IsAvailable-of :
    (lane : Lane) (now : ℕ) (r : JobRow) → is_visible lane now r ≡ true → IsAvailable lane now r
unfolding is_visible
IsAvailable-of lane now r h = elim (Option-cases r.leased_until) [
  | inl e ↦
      let seen = rw e at h in
      (ground (arith, ==_iff r.lane lane), ground arith, λ until f. absurd (ground arith))
  | inr (last, e) ↦
      let seen = rw e at h in
      (ground (arith, ==_iff r.lane lane), ground arith, λ until f. ground arith)
]

before_of : (q r : JobRow) → GoesBefore q r → comes_before q r ≡ true
unfolding comes_before
before_of q r h = ground arith

IsWithin-of : (max : Option ℕ) (r : JobRow) → exceeds max r ≡ false → IsWithin max r
unfolding is_spent
IsWithin-of none r h = tt
IsWithin-of (some max) r h = ground arith

IsExhausted-of : (max : Option ℕ) (r : JobRow) → exceeds max r ≡ true → IsExhausted max r
unfolding is_spent
IsExhausted-of none r h = ground arith
IsExhausted-of (some max) r h = ground arith

Stays : Option ℕ → Lane → ℕ → Database → Database → JobRow → Type 0
Stays max lane now before after q =
    (row_at q.seq after.jobs ≡ some q) ⊎ ((row_at q.seq after.jobs ≡ none) × IsGone max lane now q)

Stays-of :
    (max : Option ℕ) (lane : Lane) (now : ℕ) (before after : Database) (q : JobRow)
    → row_at q.seq before.jobs ≡ some q
    → Remains max lane now before after q.seq
    → Stays max lane now before after q
unfolding Stays
Stays-of max lane now before after q at (inl same) = inl (same ∙ at)
Stays-of max lane now before after q at (inr (gone, (r, at', v, x))) = inr (
  gone,
  subst (IsGone max lane now) (some-inj r q (sym at' ∙ at))
      (IsAvailable-of lane now r v, IsExhausted-of max r x),
)

-- From well-formed tables a reservation is of a job that was visible on the lane and had a delivery
-- left; every visible job that comes before it, by priority, by the time at which it became
-- available and by rowid, had none left. The caller has the job's envelope, the receipt drawn and
-- the broker's lease; the job is leased under the receipt's key until the lease's end, with one
-- more delivery counted, and of the other jobs only visible ones without deliveries left are gone.
-- So a job under a running lease is not handed out again.
pub reserve-IsLeased :
    (json : Json) (b : SqliteBroker) (lane : Lane) (now : ℕ) (receipt : Receipt) (key : Text)
    (s t : Session) (r : Reservation)
    → receipt_key json receipt ≡ ok key
    → WellFormed s.db
    → Broker.reserve json b lane now receipt s ≡ (t, ok (some r))
    → IsLeased json b lane now receipt key s.db r t.db
unfolding leased nanos_after Stays
reserve-IsLeased json b lane now receipt key s t r k w h =
    let out = reserve-HandsOut json b lane now receipt key s t r k w h in
    record {
      row = out.row;
      stands = out.stands;
      available = IsAvailable-of lane (nanos now) out.row out.visible;
      within = IsWithin-of b.max_deliveries out.row out.within;
      first = λ q at a g.
          IsExhausted-of b.max_deliveries q
            (out.first q at (visible_of lane (nanos now) q a) (before_of q out.row g));
      envelope = out.envelope;
      receipt_drawn = out.receipt_drawn;
      lease = out.lease;
      held = out.held;
      others = λ q at other.
          Stays-of b.max_deliveries lane (nanos now) s.db t.db q at (out.others q.seq other);
    }
