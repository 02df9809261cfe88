-- ===== src/Sqlite/Invariant.antt =====
-- crates/worklane-sqlite: what the tables keep between the calls, and what each statement does to
-- it.
pub mod Methods
pub mod Runs
use worklane.Base.{
  ℕ, suc, ◌<◌, ◌≤◌, max, ◌≡◌, refl, Bool, true, false, not, ◌||◌, ◌&&◌, Option, none, some, List,
  [], ◌∷◌, ◌++◌, nat_eq, ◌==◌, if◌then◌else◌, any, any-append, map, retain, arith, ==_iff, leb, ltb,
  nat_eq_iff, Bool-cases, inl, inr,
}
use worklane.Base.Pairwise.{
  All, Pairwise, All-mono, All-of_any, All-retain, All-retain_self, All-snoc, Pairwise-snoc,
  Pairwise-retain, Pairwise-map, any-map, any-retain, any-snoc_old, any-snoc_new,
}
use worklane.Base.Text.{Text, text_Eq}
use worklane.Core.Envelope.{JobId, Lane, Bytes, JobEnvelope}
use worklane.Sqlite.Rows.{
  update, delete, next_job, next_dead, row_has_id, row_has_seq, key_is, key_of, dead_has_id,
  insert_row, insert_key, insert_dead, dead_row, free_unique_key,
}
use worklane.Sqlite.Session.{JobRow, DeadRow, KeyRow, Database, empty_database}
use worklane.Sqlite.Session.Rules.{PostDb}

abbrev pub RowApart : JobRow → JobRow → Type 0
RowApart r s = (r.seq < s.seq) × ((r.id == s.id) ≡ false)

abbrev pub KeyApart : KeyRow → KeyRow → Type 0
KeyApart k l = ((k.unique_key == l.unique_key) ≡ false) × (nat_eq k.seq l.seq ≡ false)

abbrev pub DeadApart : DeadRow → DeadRow → Type 0
DeadApart d e = (d.seq < e.seq) × ((d.id == e.id) ≡ false)

abbrev pub IsLive : List JobRow → KeyRow → Type 0
IsLive rows k = any (row_has_seq k.seq) rows ≡ true

-- The rowids grow and the ids are distinct, of the live jobs and of the dead letters; no two rows
-- of `unique_keys` have the same key or the same job, and each is of a live job.
pub record WellFormed (db : Database) : Type 0 where
  pub rows : Pairwise RowApart db.jobs
  pub keys : Pairwise KeyApart db.unique_keys
  pub live : All (IsLive db.jobs) db.unique_keys
  pub letters : Pairwise DeadApart db.dead

pub empty-WellFormed : WellFormed empty_database
unfolding empty_database
empty-WellFormed = record { rows = tt; keys = tt; live = tt; letters = tt }

-- No key of the job at `seq`.
abbrev pub IsKeyless : ℕ → KeyRow → Type 0
IsKeyless seq k = nat_eq k.seq seq ≡ false

next_job-All : (n : ℕ) (rs : List JobRow) → next_job rs ≤ n → All (λ r. r.seq < n) rs
next_job-All n [] h = tt
next_job-All n (r ∷ rs) h = (omega arith, next_job-All n rs (omega arith))

next_dead-All : (n : ℕ) (ds : List DeadRow) → next_dead ds ≤ n → All (λ d. d.seq < n) ds
next_dead-All n [] h = tt
next_dead-All n (d ∷ ds) h = (omega arith, next_dead-All n ds (omega arith))

-- The next rowid is no live job's.
next_job-fresh : (seq : ℕ) (rs : List JobRow) → any (row_has_seq seq) rs ≡ true → seq < next_job rs
next_job-fresh seq [] h = ground arith
next_job-fresh seq (r ∷ rs) h = ground (arith, next_job-fresh seq rs)

All-both {ℓ} :
    {A : Type ℓ} (P Q : A → Type 0) (xs : List A) → All P xs → All Q xs → All (λ x. P x × Q x) xs
All-both P Q [] g h = tt
All-both P Q (x ∷ xs) g h = ((g.0, h.0), All-both P Q xs g.1 h.1)

-- A write to some rows that leaves their rowids and ids.
pub WellFormed-update :
    (p : JobRow → Bool) (f : JobRow → JobRow) (db : Database)
    → ((r : JobRow) → ((f r).seq ≡ r.seq) × ((f r).id ≡ r.id))
    → WellFormed db
    → WellFormed (record db { jobs = update p f db.jobs })
WellFormed-update p f db same w = record {
  rows =
      Pairwise-map RowApart (λ r. if p r then f r else r) db.jobs
        (λ r s a. ground (arith, same r, same s)) w.rows;
  keys = w.keys;
  live =
      All-mono _ _ db.unique_keys
        (λ k h.
          rw
            (any-map (row_has_seq k.seq) (λ r. if p r then f r else r) db.jobs
              (λ r. ground (arith, same r)))
            h)
        w.live;
  letters = w.letters;
}

-- What an insertion of a job leaves to be done: its rowid is live, and no key's.
abbrev pub Inserted : Option ℕ → Database → Type 0
Inserted none db = WellFormed db
Inserted (some seq) db =
    WellFormed db × (any (row_has_seq seq) db.jobs ≡ true) × All (IsKeyless seq) db.unique_keys

pub insert_row-Inserted :
    (id : JobId) (lane : Lane) (priority available_at : ℕ) (blob : Bytes) (db : Database)
    → WellFormed db
    → Inserted
        (insert_row id lane priority available_at blob db).1
        (insert_row id lane priority available_at blob db).0
unfolding insert_row
insert_row-Inserted id lane priority available_at blob db w =
    elim (Bool-cases (any (row_has_id id) db.jobs)) [
      | inl e ↦ rw e w
      | inr e ↦ rw e (
        record {
          rows = Pairwise-snoc RowApart db.jobs _ w.rows (
              All-both _ _ db.jobs (next_job-All (next_job db.jobs) db.jobs (omega arith))
                (All-of_any (row_has_id id) db.jobs e));
          keys = w.keys;
          live =
              All-mono _ _ db.unique_keys (λ k h. any-snoc_old (row_has_seq k.seq) db.jobs _ h)
                w.live;
          letters = w.letters;
        },
        any-snoc_new (row_has_seq (next_job db.jobs)) db.jobs _ (ground arith),
        All-mono _ _ db.unique_keys (λ k h. ground (arith, next_job-fresh k.seq db.jobs)) w.live,
      )
    ]

pub insert_key-WellFormed :
    (key : Text) (seq : ℕ) (db : Database)
    → Inserted (some seq) db
    → PostDb (λ _. WellFormed) (insert_key key seq db)
unfolding insert_key
insert_key-WellFormed key seq db (w, here, free) =
    elim (Bool-cases (any (key_is key) db.unique_keys)) [
      | inl e ↦ rw e tt
      | inr e ↦ rw e record {
        rows = w.rows;
        keys =
            Pairwise-snoc KeyApart db.unique_keys _ w.keys
              (All-both _ _ db.unique_keys (All-of_any (key_is key) db.unique_keys e) free);
        live = All-snoc (IsLive db.jobs) db.unique_keys _ w.live here;
        letters = w.letters;
      }
    ]

-- The key of a job is freed before the job is deleted.
abbrev pub Freed : ℕ → Database → Type 0
Freed seq db = WellFormed db × All (IsKeyless seq) db.unique_keys

pub free_key-Freed :
    (seq : ℕ) (db : Database)
    → WellFormed db
    → Freed seq (record db { unique_keys = delete (key_of seq) db.unique_keys })
free_key-Freed seq db w = (
  record {
    rows = w.rows;
    keys = Pairwise-retain KeyApart _ db.unique_keys w.keys;
    live = All-retain (IsLive db.jobs) _ db.unique_keys w.live;
    letters = w.letters;
  },
  All-mono _ _ (delete (key_of seq) db.unique_keys) (λ k h. ground arith)
      (All-retain_self (λ k. not (key_of seq k)) db.unique_keys),
)

pub delete_job-WellFormed :
    (seq : ℕ) (db : Database)
    → Freed seq db
    → WellFormed (record db { jobs = delete (row_has_seq seq) db.jobs })
delete_job-WellFormed seq db (w, free) = record {
  rows = Pairwise-retain RowApart _ db.jobs w.rows;
  keys = w.keys;
  live =
      All-mono _ _ db.unique_keys
        (λ k h.
          rw
            (any-retain (row_has_seq k.seq) (λ r. not (row_has_seq seq r)) db.jobs
              (λ r e. ground (arith, h.1)))
            (h.0))
        (All-both _ _ db.unique_keys w.live free);
  letters = w.letters;
}

pub insert_dead-WellFormed :
    (envelope : JobEnvelope) (blob : Bytes) (error : Text) (key : Option Text) (now : ℕ)
    (db : Database)
    → WellFormed db
    → PostDb (λ _. WellFormed) (insert_dead envelope blob error key now db)
unfolding insert_dead dead_row
insert_dead-WellFormed envelope blob error key now db w =
    elim (Bool-cases (any (dead_has_id envelope.id) db.dead)) [
      | inl e ↦ rw e tt
      | inr e ↦ rw e record {
        rows = w.rows;
        keys = w.keys;
        live = w.live;
        letters = Pairwise-snoc DeadApart db.dead _ w.letters (
            All-both _ _ db.dead (next_dead-All (next_dead db.dead) db.dead (omega arith))
              (All-of_any (dead_has_id envelope.id) db.dead e));
      }
    ]

pub dead-WellFormed :
    (test : DeadRow → Bool) (db : Database)
    → WellFormed db
    → WellFormed (record db { dead = delete test db.dead })
dead-WellFormed test db w = record {
  rows = w.rows;
  keys = w.keys;
  live = w.live;
  letters = Pairwise-retain DeadApart _ db.dead w.letters;
}
