-- ===== src/Worker/CircuitBreaker.antt =====
-- crates/worklane/src/worker/circuit_breaker.rs: the breakers by job kind. One kind's breaker is
-- `sigorta::Sigorta`, a parameter; the clock's reading is an argument.
use worklane.Base.{
  ℕ, ◌≡◌, refl, ◌∷◌, Bool, true, false, Option, none, some, List, [], arith, ◌==◌, ==_iff,
  if◌then◌else◌,
}
use worklane.Base.Text.{Text, text_Eq}
use worklane.Base.Assoc.{lookup, insert, lookup-insert}
use worklane.Core.Duration.{from_secs}

pub data Event : Type 0 where
  success failure : Event

pub data Decision (Core : Type 0) : Type 0 where
  admitted probing : Core → Decision Core
  rejected : Core → ℕ → Decision Core

pub record Sigorta : Type 1 where
  pub Core : Type 0
  pub new : ℕ → ℕ → Core
  pub admit : Core → ℕ → Decision Core
  pub record_event : Core → Event → ℕ → Core

pub record CircuitBreakerPolicy : Type 0 where
  pub failure_threshold : ℕ
  pub open_duration : ℕ

abbrev pub default_policy : CircuitBreakerPolicy
default_policy = record { failure_threshold = 5; open_duration = from_secs 30 }

pub record CircuitBreaker (Core : Type 0) : Type 0 where
  pub policy : CircuitBreakerPolicy
  pub states : List (Text × Core)

unfoldable pub new : {Core : Type 0} → CircuitBreakerPolicy → CircuitBreaker Core
new policy = record { policy = policy; states = [] }

module _ (sigorta : Sigorta) where
  open sigorta use {Core}

  -- `entry(kind).or_insert_with(..)`: what stands under the kind, a new breaker if nothing does.
  unfoldable pub entry : CircuitBreaker Core → Text → Core
  unfolding lookup
  entry cb kind = elim (lookup kind cb.states) [
    | some core ↦ core
    | none ↦ sigorta.new cb.policy.failure_threshold cb.policy.open_duration
  ]

  unfoldable pub put : CircuitBreaker Core → Text → Core → CircuitBreaker Core
  unfolding insert
  put cb kind core = record cb { states = insert kind core cb.states }

  unfoldable pub admit : CircuitBreaker Core → Text → ℕ → CircuitBreaker Core × Option ℕ
  unfolding entry put
  admit cb kind now = elim (sigorta.admit (entry cb kind) now) [
    | admitted next ↦ (put cb kind next, none)
    | probing next ↦ (put cb kind next, none)
    | rejected core retry_after ↦ (put cb kind core, some retry_after)
  ]

  unfoldable pub event_of : Bool → Event
  event_of true = success
  event_of false = failure

  unfoldable pub record_outcome : CircuitBreaker Core → Text → Bool → ℕ → CircuitBreaker Core
  unfolding entry put event_of
  record_outcome cb kind ok now =
      put cb kind (sigorta.record_event (entry cb kind) (event_of ok) now)

  -- What the breaker of one kind is asked.
  pub data Ask : Type 0 where
    admits : Text → ℕ → Ask
    records : Text → Bool → ℕ → Ask

  unfoldable pub ask : CircuitBreaker Core → Ask → CircuitBreaker Core
  unfolding admit record_outcome
  ask cb (admits kind now) = (admit cb kind now).0
  ask cb (records kind ok now) = record_outcome cb kind ok now

  unfoldable pub ask_all : CircuitBreaker Core → List Ask → CircuitBreaker Core
  unfolding ask
  ask_all cb [] = cb
  ask_all cb (a ∷ rest) = ask_all (ask cb a) rest

  -- The breaker of one kind by itself.
  unfoldable pub next_core : Decision Core → Core
  next_core (admitted next) = next
  next_core (probing next) = next
  next_core (rejected core retry_after) = core

  unfoldable pub alone : Text → Core → List Ask → Core
  unfolding next_core event_of
  alone kind core [] = core
  alone kind core (admits k now ∷ rest) =
      alone kind (if k == kind then next_core (sigorta.admit core now) else core) rest
  alone kind core (records k ok now ∷ rest) =
      alone kind (if k == kind then sigorta.record_event core (event_of ok) now else core) rest

  entry-put :
      (cb : CircuitBreaker Core) (k kind : Text) (core : Core)
      → entry (put cb k core) kind ≡ (if k == kind then core else entry cb kind)
  unfolding entry put
  entry-put cb k kind core = ground (arith, lookup-insert k kind core cb.states)

  admit-next :
      (cb : CircuitBreaker Core) (k : Text) (now : ℕ)
      → (admit cb k now).0 ≡ put cb k (next_core (sigorta.admit (entry cb k) now))
  unfolding admit next_core
  admit-next cb k now = ground arith

  entry-ask :
      (cb : CircuitBreaker Core) (kind : Text) (a : Ask)
      → entry (ask cb a) kind ≡ alone kind (entry cb kind) (a ∷ [])
  unfolding ask alone record_outcome
  entry-ask cb kind (admits k now) = ground (
    arith,
    ==_iff k kind,
    admit-next cb k now,
    entry-put cb k kind (next_core (sigorta.admit (entry cb k) now)),
  )
  entry-ask cb kind (records k ok now) = ground (
    arith,
    ==_iff k kind,
    entry-put cb k kind (sigorta.record_event (entry cb k) (event_of ok) now),
  )

  -- Each kind has a breaker of its own: after any sequence of questions and outcomes of any
  -- kinds, the breaker under a kind is where that kind's questions and outcomes alone lead.
  pub entry-ask_all :
      (cb : CircuitBreaker Core) (kind : Text) (asks : List Ask)
      → entry (ask_all cb asks) kind ≡ alone kind (entry cb kind) asks
  unfolding ask_all alone
  entry-ask_all cb kind [] = refl
  entry-ask_all cb kind (admits k now ∷ rest) =
      ground
        (arith, entry-ask cb kind (admits k now), entry-ask_all (ask cb (admits k now)) kind rest)
  entry-ask_all cb kind (records k ok now ∷ rest) = ground (
    arith,
    entry-ask cb kind (records k ok now),
    entry-ask_all (ask cb (records k ok now)) kind rest,
  )
