-- ===== src/Sqlite/Choice.antt =====
-- crates/worklane-sqlite: the rows that the `SELECT` of `reserve` chooses among, looked up by their
-- rowids.
use worklane.Base.{
  ℕ, ◌≡◌, Bool, true, false, Option, none, some, List, [], ◌∷◌, ◌⊎◌, inl, inr, nat_eq,
  if◌then◌else◌, Bool-cases, Option-cases, retain, arith, subst,
}
use worklane.Base.Pairwise.{All, Pairwise, All-mono}
use worklane.Sqlite.Broker.{comes_before, first_row}
use worklane.Sqlite.Invariant.{RowApart}
use worklane.Sqlite.Rows.{find, update, delete, row_has_seq}
use worklane.Sqlite.Session.{JobRow}
use mathlib.Core.Option

-- The row at a rowid.
abbrev pub row_at : ℕ → List JobRow → Option JobRow
row_at seq rs = find (row_has_seq seq) rs

pub row_at-seq : (seq : ℕ) (rs : List JobRow) (r : JobRow) → row_at seq rs ≡ some r → r.seq ≡ seq
row_at-seq seq [] r h = ground arith
row_at-seq seq (x ∷ rs) r h = ground (arith, row_at-seq seq rs r)

pub row_at-delete :
    (p q : ℕ) (rs : List JobRow)
    → row_at p (delete (row_has_seq q) rs) ≡ (if nat_eq q p then none else row_at p rs)
row_at-delete p q [] = ground arith
row_at-delete p q (r ∷ rs) = ground (arith, row_at-delete p q rs)

pub row_at-update :
    (p q : ℕ) (f : JobRow → JobRow) (rs : List JobRow)
    → ((r : JobRow) → (f r).seq ≡ r.seq)
    → row_at p (update (row_has_seq q) f rs)
      ≡ (if nat_eq q p then Option.map f (row_at p rs) else row_at p rs)
row_at-update p q f [] same = ground arith
row_at-update p q f (r ∷ rs) same = ground (arith, row_at-update p q f rs same, same r)

first_row-none : (P : JobRow → Type 0) (rs : List JobRow) → first_row rs ≡ none → All P rs
unfolding first_row
first_row-none P [] h = tt
first_row-none P (x ∷ rs) h = elim (Option-cases (first_row rs)) [
  | inl e ↦ absurd (ground arith)
  | inr (s, e) ↦ absurd (ground arith)
]

-- The last comparison.
first_row-split :
    (x : JobRow) (rs : List JobRow) (r : JobRow)
    → first_row (x ∷ rs) ≡ some r
    → ((x ≡ r) × (first_row rs ≡ none))
      ⊎ (((s : JobRow) × (first_row rs ≡ some s) × (comes_before s x ≡ false) × (x ≡ r))
          ⊎ ((first_row rs ≡ some r) × (comes_before r x ≡ true)))
unfolding first_row
first_row-split x rs r h = elim (Option-cases (first_row rs)) [
  | inl e ↦ inl (ground arith, e)
  | inr (s, e) ↦ elim (Bool-cases (comes_before s x)) [
    | inl c ↦
        let same : s ≡ r = ground arith in
        inr (
          inr (
            subst (λ y. first_row rs ≡ some y) same e,
            subst (λ y. comes_before y x ≡ true) same c,
          ))
    | inr c ↦ inr (inl (s, e, c, ground arith))
  ]
]

comes_before_irrefl : (x : JobRow) → comes_before x x ≡ false
unfolding comes_before
comes_before_irrefl x = ground arith

comes_before_asym : (r x : JobRow) → comes_before r x ≡ true → comes_before x r ≡ false
unfolding comes_before
comes_before_asym r x h = ground arith

-- What does not come before `s` does not come before what `s` does not come before.
comes_before_chain :
    (q s x : JobRow)
    → comes_before s x ≡ false
    → comes_before q s ≡ false
    → comes_before q x ≡ false
unfolding comes_before
comes_before_chain q s x g h = ground arith

-- No row comes before the one that `first_row` chooses.
pub first_row-least :
    (rs : List JobRow) (r : JobRow) → first_row rs ≡ some r → All (λ q. comes_before q r ≡ false) rs
first_row-least [] r h = tt
first_row-least (x ∷ rs) r h = elim (first_row-split x rs r h) [
  | inl (same, e) ↦
      (subst (λ y. comes_before x y ≡ false) same (comes_before_irrefl x), first_row-none _ rs e)
  | inr (inl (s, e, c, same)) ↦
      subst (λ y. All (λ q. comes_before q y ≡ false) (x ∷ rs)) same
        (
          comes_before_irrefl x,
          All-mono _ _ rs (λ q k. comes_before_chain q s x c k) (first_row-least rs s e),
        )
  | inr (inr (e, c)) ↦ (comes_before_asym r x c, first_row-least rs r e)
]

row_at-fresh :
    (seq : ℕ) (x : JobRow) (rs : List JobRow)
    → All (RowApart x) rs
    → (r : JobRow) → row_at seq rs ≡ some r
    → nat_eq x.seq seq ≡ false
row_at-fresh seq x [] a r h = ground arith
row_at-fresh seq x (y ∷ rs) a r h = ground (arith, row_at-fresh seq x rs a.1 r)

row_at-head : (x : JobRow) (rs : List JobRow) → row_at x.seq (x ∷ rs) ≡ some x
row_at-head x rs = ground arith

row_at-cons :
    (seq : ℕ) (x : JobRow) (rs : List JobRow) (q : JobRow)
    → row_at seq (x ∷ rs) ≡ some q
    → (x ≡ q) ⊎ (row_at seq rs ≡ some q)
row_at-cons seq x rs q e = elim (Bool-cases (nat_eq x.seq seq)) [
  | inl s ↦ inl (ground arith)
  | inr s ↦ inr (ground arith)
]

-- The row that `first_row` chooses stands at its own rowid, and passes the test.
pub first_row-row_at :
    (v : JobRow → Bool) (rs : List JobRow) (r : JobRow)
    → Pairwise RowApart rs
    → first_row (retain v rs) ≡ some r
    → (row_at r.seq rs ≡ some r) × (v r ≡ true)
first_row-row_at v [] r w h = unfold first_row in ground arith
first_row-row_at v (x ∷ rs) r w h = elim (Bool-cases (v x)) [
  | inr e ↦
      let (at, t) = first_row-row_at v rs r w.1 (rw e at h) in
      (ground (arith, row_at-fresh r.seq x rs w.0 r), t)
  | inl e ↦ elim (first_row-split x (retain v rs) r (rw e at h)) [
    | inl (same, _) ↦
        subst (λ y. (row_at y.seq (x ∷ rs) ≡ some y) × (v y ≡ true)) same (row_at-head x rs, e)
    | inr (inl (s, _, _, same)) ↦
        subst (λ y. (row_at y.seq (x ∷ rs) ≡ some y) × (v y ≡ true)) same (row_at-head x rs, e)
    | inr (inr (later, _)) ↦
        let (at, t) = first_row-row_at v rs r w.1 later in
        (ground (arith, row_at-fresh r.seq x rs w.0 r), t)
  ]
]

pub All-row_at :
    (P : JobRow → Type 0) (v : JobRow → Bool) (seq : ℕ) (rs : List JobRow) (q : JobRow)
    → All P (retain v rs)
    → row_at seq rs ≡ some q
    → v q ≡ true
    → P q
All-row_at P v seq [] q h e t = absurd (ground arith)
All-row_at P v seq (x ∷ rs) q h e t = elim (Bool-cases (v x)) [
  | inl y ↦
      let both = rw y at h in
      elim (row_at-cons seq x rs q e) [
        | inl same ↦ subst P same both.0
        | inr later ↦ All-row_at P v seq rs q both.1 later t
      ]
  | inr n ↦ elim (row_at-cons seq x rs q e) [
    | inl same ↦ absurd (ground arith)
    | inr later ↦ All-row_at P v seq rs q (rw n at h) later t
  ]
]
