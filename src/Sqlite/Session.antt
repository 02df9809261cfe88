-- ===== src/Sqlite/Session.antt =====
-- crates/worklane-sqlite/src/schema.rs and conn.rs: the tables, and statements against them. A
-- table is kept in the order of its rowids; one that is not created yet is empty. SQLite and its driver are a parameter: what they
-- answer to each statement, done or failed, is a list in the session.
pub mod Rules
use worklane.Base.{ℕ, Bool, Option, none, some, List, [], ◌∷◌, ◌++◌}
use worklane.Base.Text.{Text, codes}
use worklane.Base.Int.{ℤ, pos}
use worklane.Core.Error.{Error, Result, ok, err, broker}
use worklane.Core.Envelope.{JobId, Lane, Bytes}
use worklane.Core.Redact.{redact_credentials}

pub record JobRow : Type 0 where
  pub seq : ℕ
  pub id : JobId
  pub receipt : Option Text
  pub lane : Lane
  pub priority : ℕ
  pub available_at : ℕ
  pub leased_until : Option ℕ
  pub envelope : Bytes
  pub deliveries : ℕ

pub record DeadRow : Type 0 where
  pub seq : ℕ
  pub id : JobId
  pub lane : Lane
  pub envelope : Bytes
  pub error : Text
  pub unique_key : Option Text
  pub dead_at : ℕ

pub record KeyRow : Type 0 where
  pub unique_key : Text
  pub seq : ℕ

pub record Database : Type 0 where
  pub jobs : List JobRow
  pub dead : List DeadRow
  pub unique_keys : List KeyRow
  pub results : List (JobId × Bytes)
  pub schedules : List (Text × ℤ)
  -- `PRAGMA user_version`; 0 in a new file.
  pub user_version : ℤ

-- `answers`: for each statement to come the driver's error, if it fails; after the last of them no
-- statement fails. `warned` is the flag of `UnboundedDlqWarning`.
pub record Session : Type 0 where
  pub db : Database
  pub answers : List (Option Text)
  pub warned : Bool

-- A call of the driver: the session afterwards, and the result.
abbrev pub Sql : Type 0 → Type 0
Sql A = Session → Session × Result A

abbrev pub pure : {A : Type 0} → A → Sql A
pure a s = (s, ok a)

abbrev pub lift : {A : Type 0} → Result A → Sql A
lift r s = (s, r)

abbrev pub then_run : {A B : Type 0} → (A → Sql B) → Session × Result A → Session × Result B
then_run f (s, ok a) = f a s
then_run f (s, err e) = (s, err e)

infixl 5 ◌>>=◌ ◌>>◌
abbrev pub ◌>>=◌ : {A B : Type 0} → Sql A → (A → Sql B) → Sql B
◌>>=◌ m f s = then_run f (m s)

abbrev pub ◌>>◌ : {B : Type 0} → Sql (Unit {0}) → Sql B → Sql B
m >> k = m >>= λ _. k

abbrev pub first_answer : List (Option Text) → Option Text
first_answer [] = none
first_answer (a ∷ rest) = a

abbrev pub later_answers : List (Option Text) → List (Option Text)
later_answers [] = []
later_answers (a ∷ rest) = rest

-- `sql_err` of lib.rs, and that of result_store.rs.
unfoldable pub sql_err : Text → Error
sql_err e = broker (redact_credentials e)

-- The driver fails, and nothing is changed, or the statement is done.
abbrev pub answered :
    {A : Type 0} → (Text → Error) → Session → Option Text → Database × Result A → Session × Result A
answered to_error s (some e) (db', r) =
    (record s { answers = later_answers s.answers }, err (to_error e))
answered to_error s none (db', r) = (record s { db = db'; answers = later_answers s.answers }, r)

-- One statement, which may violate a constraint.
unfoldable pub ask : {A : Type 0} → (Text → Error) → (Database → Database × Result A) → Sql A
ask to_error change s = answered to_error s (first_answer s.answers) (change s.db)

-- A `SELECT`.
unfoldable pub query : {A : Type 0} → (Database → A) → Sql A
query read = ask sql_err λ db. (db, ok (read db))

-- An `INSERT`, `UPDATE` or `DELETE`.
unfoldable pub execute : {A : Type 0} → (Database → Database × A) → Sql A
execute change = ask sql_err λ db. let (db', a) = change db in (db', ok a)

-- The `BEGIN` and the `COMMIT`.
unfoldable pub boundary : Sql (Unit {0})
boundary = execute λ db. (db, tt)

-- Without a commit the transaction is rolled back when it is dropped.
abbrev pub or_rollback : {A : Type 0} → Database → Session × Result A → Session × Result A
or_rollback before (s, ok a) = (s, ok a)
or_rollback before (s, err e) = (record s { db = before }, err e)

-- `unchecked_transaction`, the body, and `commit`. The write lock is taken at the `BEGIN`.
unfoldable pub in_transaction : {A : Type 0} → Sql A → Sql A
in_transaction body s =
    or_rollback s.db ((boundary >>= λ _. body >>= λ a. boundary >>= λ _. pure a) s)

-- `ConnPool::run`: a checkout, which may fail, and the closure.
unfoldable pub checkout_err : Text → Error
checkout_err e = broker (codes "sqlite pool checkout failed: " ++ e)

unfoldable pub run : {A : Type 0} → Sql A → Sql A
run closure = ask checkout_err (λ db. (db, ok tt)) >>= λ _. closure

unfoldable pub empty_database : Database
empty_database = record {
  jobs = [];
  dead = [];
  unique_keys = [];
  results = [];
  schedules = [];
  user_version = pos 0;
}
