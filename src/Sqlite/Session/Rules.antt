-- ===== src/Sqlite/Session/Rules.antt =====
-- Assertions about calls of the driver, one rule for each way to build a call.
use worklane.Base.{◌≡◌, refl, Option, none, some, subst, sym, ◌∙◌}
use worklane.Base.Text.{Text}
use worklane.Core.Error.{Error, Result, ok, err}
use worklane.Sqlite.Session.{
  Database, Session, Sql, pure, lift, then_run, ◌>>=◌, answered, later_answers, ask, query, execute,
  boundary, or_rollback, in_transaction, run, first_answer, checkout_err, sql_err,
}

-- What a call that succeeds leaves; a call that fails promises nothing here.
abbrev pub Post : {A : Type 0} → (A → Database → Type 0) → Session × Result A → Type 0
Post Q (s, ok a) = Q a s.db
Post Q (s, err e) = Unit

abbrev pub PostDb : {A : Type 0} → (A → Database → Type 0) → Database × Result A → Type 0
PostDb Q (db, ok a) = Q a db
PostDb Q (db, err e) = Unit

-- From a database with `P` the call, where it succeeds, leads to one with `Q`.
pub record Triple {A : Type 0} (P : Database → Type 0) (m : Sql A) (Q : A → Database → Type 0)
    : Type 0 where
  pub at : (s : Session) → P s.db → Post Q (m s)

-- A call that fails leaves the database as it was.
abbrev pub Kept : {A : Type 0} → Database → Session × Result A → Type 0
Kept before (s, ok a) = Unit
Kept before (s, err e) = s.db ≡ before

pub record IsAtomic {A : Type 0} (m : Sql A) : Type 0 where
  pub at : (s : Session) → Kept s.db (m s)

answered-Post :
    {A : Type 0} (Q : A → Database → Type 0) (to_error : Text → Error) (s : Session)
    (answer : Option Text) (x : Database × Result A)
    → PostDb Q x
    → Post Q (answered to_error s answer x)
answered-Post Q to_error s (some e) (db', r) h = tt
answered-Post Q to_error s none (db', ok a) h = h
answered-Post Q to_error s none (db', err e) h = tt

then-Post :
    {A B : Type 0} (Q : B → Database → Type 0) (R : A → Database → Type 0) (f : A → Sql B)
    (x : Session × Result A)
    → ((a : A) → Triple (R a) (f a) Q)
    → Post R x
    → Post Q (then_run f x)
then-Post Q R f (s, ok a) k r = (k a).at s r
then-Post Q R f (s, err e) k r = tt

rollback-Post :
    {A : Type 0} (Q : A → Database → Type 0) (before : Database) (x : Session × Result A)
    → Post Q x
    → Post Q (or_rollback before x)
rollback-Post Q before (s, ok a) h = h
rollback-Post Q before (s, err e) h = tt

module _ {A : Type 0} {P : Database → Type 0} {Q : A → Database → Type 0} where
  pub Triple-pure : (a : A) → ((db : Database) → P db → Q a db) → Triple P (pure a) Q
  Triple-pure a h = record { at = λ s p. h s.db p }

  pub Triple-lift :
      (r : Result A) → ((a : A) → r ≡ ok a → (db : Database) → P db → Q a db) → Triple P (lift r) Q
  Triple-lift (ok a) h = record { at = λ s p. h a refl s.db p }
  Triple-lift (err e) h = record { at = λ s p. tt }

  pub Triple-ask :
      (to_error : Text → Error) (change : Database → Database × Result A)
      → ((db : Database) → P db → PostDb Q (change db))
      → Triple P (ask to_error change) Q
  unfolding ask
  Triple-ask to_error change h = record {
    at = λ s p. answered-Post Q to_error s (first_answer s.answers) (change s.db) (h s.db p);
  }

  pub Triple-execute :
      (change : Database → Database × A)
      → ((db : Database) → P db → Q (change db).1 (change db).0)
      → Triple P (execute change) Q
  unfolding execute
  Triple-execute change h = Triple-ask sql_err (λ db. ((change db).0, ok ((change db).1))) h

  pub Triple-query :
      (read : Database → A) → ((db : Database) → P db → Q (read db) db) → Triple P (query read) Q
  unfolding query
  Triple-query read h = Triple-ask sql_err (λ db. (db, ok (read db))) h

module _ {A B : Type 0} {P : Database → Type 0} {Q : B → Database → Type 0} where
  pub Triple-bind :
      (R : A → Database → Type 0) (m : Sql A) (f : A → Sql B)
      → Triple P m R
      → ((a : A) → Triple (R a) (f a) Q)
      → Triple P (m >>= f) Q
  Triple-bind R m f t k = record { at = λ s p. then-Post Q R f (m s) k (t.at s p) }

boundary-Triple : {R : Database → Type 0} → Triple R boundary (λ _. R)
unfolding boundary
boundary-Triple = Triple-execute (λ db. (db, tt)) (λ db r. r)

module _ {A : Type 0} {P : Database → Type 0} {Q : A → Database → Type 0} where
  pub Triple-in_transaction : (m : Sql A) → Triple P m Q → Triple P (in_transaction m) Q
  unfolding in_transaction
  Triple-in_transaction m t = record {
    at = λ s p. rollback-Post Q s.db _ (
        (Triple-bind (λ _. P) boundary (λ _. m >>= λ a. boundary >>= λ _. pure a) boundary-Triple
            (λ _.
              Triple-bind Q m (λ a. boundary >>= λ _. pure a) t
                (λ a.
                  Triple-bind (λ _. Q a) boundary (λ _. pure a) boundary-Triple
                    (λ _. Triple-pure a (λ db q. q))))).at
          s p);
  }

  pub Triple-run : (m : Sql A) → Triple P m Q → Triple P (run m) Q
  unfolding run
  Triple-run m t =
      Triple-bind (λ _. P) _ (λ _. m) (Triple-ask checkout_err (λ db. (db, ok tt)) (λ db p. p))
        (λ _. t)

module _ {A : Type 0} where
  rollback-Kept : (before : Database) (x : Session × Result A) → Kept before (or_rollback before x)
  rollback-Kept before (s, ok a) = tt
  rollback-Kept before (s, err e) = refl

  pub IsAtomic-in_transaction : (m : Sql A) → IsAtomic (in_transaction m)
  unfolding in_transaction
  IsAtomic-in_transaction m = record { at = λ s. rollback-Kept s.db _ }

  answered-Kept :
      (to_error : Text → Error) (s : Session) (answer : Option Text) (x : Database × Result A)
      → Kept s.db (record s { db = x.0 }, x.1)
      → Kept s.db (answered to_error s answer x)
  answered-Kept to_error s (some e) (db', r) h = refl
  answered-Kept to_error s none (db', ok a) h = tt
  answered-Kept to_error s none (db', err e) h = h

  pub IsAtomic-execute : (change : Database → Database × A) → IsAtomic (execute change)
  unfolding execute ask
  IsAtomic-execute change = record {
    at = λ s.
        answered-Kept sql_err s (first_answer s.answers) ((change s.db).0, ok ((change s.db).1)) tt;
  }

  pub IsAtomic-ask_ok :
      (to_error : Text → Error) (change : Database → Database × A)
      → IsAtomic (ask to_error (λ db. ((change db).0, ok ((change db).1))))
  unfolding ask
  IsAtomic-ask_ok to_error change = record {
    at = λ s.
        answered-Kept to_error s (first_answer s.answers) ((change s.db).0, ok ((change s.db).1))
          tt;
  }

  pub IsAtomic-query : (read : Database → A) → IsAtomic (query read)
  unfolding query ask
  IsAtomic-query read = record {
    at = λ s. answered-Kept sql_err s (first_answer s.answers) (s.db, ok (read s.db)) tt;
  }

  pub IsAtomic-pure : (a : A) → IsAtomic (pure a)
  IsAtomic-pure a = record { at = λ s. tt }

  lift-Kept : (s : Session) (r : Result A) → Kept s.db (s, r)
  lift-Kept s (ok a) = tt
  lift-Kept s (err e) = refl

  pub IsAtomic-lift : (r : Result A) → IsAtomic (lift r)
  IsAtomic-lift r = record { at = λ s. lift-Kept s r }

  -- A call that reads: the database stays.
  pub record IsReading (m : Sql A) : Type 0 where
    pub at : (s : Session) → (m s).0.db ≡ s.db

  answered-db :
      (to_error : Text → Error) (s : Session) (answer : Option Text) (r : Result A)
      → (answered to_error s answer (s.db, r)).0.db ≡ s.db
  answered-db to_error s (some e) r = refl
  answered-db to_error s none r = refl

  pub IsReading-ask :
      (to_error : Text → Error) (read : Database → Result A)
      → IsReading (ask to_error (λ db. (db, read db)))
  unfolding ask
  IsReading-ask to_error read = record {
    at = λ s. answered-db to_error s (first_answer s.answers) (read s.db);
  }

  pub IsReading-query : (read : Database → A) → IsReading (query read)
  unfolding query
  IsReading-query read = IsReading-ask sql_err (λ db. ok (read db))

  pub IsReading-lift : (r : Result A) → IsReading (lift r)
  IsReading-lift r = record { at = λ s. refl }

module _ {A B : Type 0} where
  then-Kept :
      (before : Database) (f : A → Sql B) (x : Session × Result A)
      → ((a : A) → IsAtomic (f a))
      → x.0.db ≡ before
      → Kept before (then_run f x)
  then-Kept before f (s, ok a) k e = subst (λ db. Kept db (f a s)) e ((k a).at s)
  then-Kept before f (s, err e') k e = e

  pub IsAtomic-bind :
      (m : Sql A) (f : A → Sql B) → IsReading m → ((a : A) → IsAtomic (f a)) → IsAtomic (m >>= f)
  IsAtomic-bind m f r k = record { at = λ s. then-Kept s.db f (m s) k (r.at s) }

  pub then-db :
      (f : A → Sql B) (x : Session × Result A)
      → ((a : A) → IsReading (f a))
      → (then_run f x).0.db ≡ x.0.db
  then-db f (s, ok a) k = (k a).at s
  then-db f (s, err e) k = refl

  pub IsReading-bind :
      (m : Sql A) (f : A → Sql B) → IsReading m → ((a : A) → IsReading (f a)) → IsReading (m >>= f)
  IsReading-bind m f r k = record { at = λ s. then-db f (m s) k ∙ r.at s }

module _ {A : Type 0} where
  pub IsAtomic-run : (m : Sql A) → IsAtomic m → IsAtomic (run m)
  unfolding run
  IsAtomic-run m a =
      IsAtomic-bind (ask checkout_err (λ db. (db, ok tt))) (λ _. m)
        (IsReading-ask checkout_err (λ db. ok tt)) (λ _. a)

  pub IsReading-run : (m : Sql A) → IsReading m → IsReading (run m)
  unfolding run
  IsReading-run m r =
      IsReading-bind (ask checkout_err (λ db. (db, ok tt))) (λ _. m)
        (IsReading-ask checkout_err (λ db. ok tt)) (λ _. r)

  Reading-Kept : (before : Database) (x : Session × Result A) → x.0.db ≡ before → Kept before x
  Reading-Kept before (s, ok a) e = tt
  Reading-Kept before (s, err e') e = e

  pub IsAtomic-reading : (m : Sql A) → IsReading m → IsAtomic m
  IsAtomic-reading m r = record { at = λ s. Reading-Kept s.db (m s) (r.at s) }

  -- A call that fails keeps what held before, and a call that succeeds keeps it by its triple.
  pub Keeps :
      (P : Database → Type 0) (m : Sql A) (s : Session)
      → IsAtomic m
      → Triple P m (λ _. P)
      → P s.db
      → P (m s).0.db
  Keeps P m s a t p = kept (m s) (a.at s) (t.at s p)
    where
      kept : (x : Session × Result A) → Kept s.db x → Post (λ _. P) x → P x.0.db
      kept (s', ok a) k q = q
      kept (s', err e) k q = subst P (sym k) p

module _ {A : Type 0} where
  checkout-Kept :
      (s : Session) (m : Sql A) (answer : Option Text)
      → ((s' : Session) → s'.db ≡ s.db → Kept s.db (m s'))
      → Kept s.db (then_run (λ _. m) (answered checkout_err s answer (s.db, ok (tt {0}))))
  checkout-Kept s m none h = h (record s { answers = later_answers s.answers }) refl
  checkout-Kept s m (some e) h = refl

  pub run-Kept :
      (s : Session) (m : Sql A)
      → ((s' : Session) → s'.db ≡ s.db → Kept s.db (m s'))
      → Kept s.db (run m s)
  unfolding run ask
  run-Kept s m h = checkout-Kept s m (first_answer s.answers) h

pub ruleset reading_rules =
    (IsReading-query, IsReading-lift, IsReading-ask, IsReading-bind, IsReading-run)

pub ruleset atomic_rules =
    (IsAtomic-in_transaction, IsAtomic-execute, IsAtomic-ask_ok, IsAtomic-bind, IsAtomic-run)
