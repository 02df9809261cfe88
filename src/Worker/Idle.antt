-- ===== src/Worker/Idle.antt =====
-- The worker's configuration: its idle wait against the formula, and the table of its handlers.
use native.Mathlib.Decide.{dec_le}
use worklane.Base.{
  ℕ, zero, suc, ◌*◌, ◌^◌, ◌≤◌, ◌≡◌, refl, min, max, arith, Option, none, some, List, [], ◌∷◌,
  if◌then◌else◌, ◌==◌, ==_iff,
}
use worklane.Base.Text.{Text, text_Eq}
use worklane.Base.Assoc.{lookup, lookup-insert}
use worklane.Core.Duration.{max_duration, saturating_mul}
use worklane.Worker.Seams.{Handler}
use worklane.Worker.Config.{Settings, Building, building, ready, register, idle_loop, idle_wait}

pow-pos : (n : ℕ) → 1 ≤ 2 ^ n
pow-pos zero = omega arith
pow-pos (suc n) = omega (arith, pow-pos n)

mul-ge_one : (x k : ℕ) → 1 ≤ k → x ≤ x * k
mul-ge_one x zero h = absurd (omega arith)
mul-ge_one x (suc k) h = grind arith

-- Saturation at the longest duration is not seen under a cap that it does not pass.
saturated :
    (x k top : ℕ) → top ≤ max_duration → 1 ≤ k → min (min x max_duration * k) top ≡ min (x * k) top
saturated x k top h pos = elim (dec_le x max_duration) [
  | yes le ↦ let e : min x max_duration ≡ x = omega arith in rw e refl
  | no gt ↦
      let e : min x max_duration ≡ max_duration = omega arith in
      rw e (omega (arith, mul-ge_one max_duration k pos, mul-ge_one x k pos))
]

double : (wait n : ℕ) → wait * 2 ^ suc n ≡ wait * 2 * 2 ^ n
double wait n = grind arith

idle_loop-eq : (top n wait : ℕ) → top ≤ max_duration → idle_loop top n wait ≡ min (wait * 2 ^ n) top
unfolding idle_loop saturating_mul
idle_loop-eq top zero wait h = ground arith
idle_loop-eq top (suc n) wait h = ground (
  arith,
  idle_loop-eq top n (min (wait * 2) max_duration) h,
  double wait n,
  saturated (wait * 2) (2 ^ n) top h (pow-pos n),
  mul-ge_one wait (2 ^ suc n) (pow-pos (suc n)),
)

-- Where the poll interval and the backoff's cap are durations, the wait after n empty polls is
-- min(poll_interval * 2 ^ n, max(cap, poll_interval)): neither the early stop of the loop nor the
-- saturation of the doubling changes it.
pub idle_wait-eq :
    {W F64 : Type 0} (s : Settings W F64) (n : ℕ)
    → s.poll_interval ≤ max_duration
    → s.idle_backoff_cap ≤ max_duration
    → idle_wait (ready s) n ≡ min (s.poll_interval * 2 ^ n) (max s.idle_backoff_cap s.poll_interval)
unfolding idle_wait
idle_wait-eq s n base top =
    idle_loop-eq (max s.idle_backoff_cap s.poll_interval) n s.poll_interval (omega arith)

-- Registering handlers one after the other; the answers are ignored.
unfoldable pub register_all :
    {W F64 : Type 0} → List (Text × Handler W) → Building W F64 → Building W F64
unfolding register
register_all [] b = b
register_all (entry ∷ rest) b = register_all rest (register entry.0 entry.1 b).0

abbrev pub handlers_of : {W F64 : Type 0} → Building W F64 → List (Text × Handler W)
handlers_of (building s) = s.handlers

abbrev pub or_else : {A : Type 0} → Option A → Option A → Option A
or_else none o = o
or_else (some x) o = some x

register-lookup :
    {W F64 : Type 0} (k kind : Text) (h : Handler W) (b : Building W F64)
    → lookup kind (handlers_of (register k h b).0)
      ≡ or_else (lookup kind (handlers_of b)) (if k == kind then some h else none)
unfolding register
register-lookup k kind h (building s) =
    ground (arith, lookup-insert k kind h s.handlers, ==_iff k kind)

-- The handler that a kind is dispatched to is the one registered first under it: a later one is
-- refused and changes nothing.
pub register_all-lookup :
    {W F64 : Type 0} (kind : Text) (entries : List (Text × Handler W)) (b : Building W F64)
    → lookup kind (handlers_of (register_all entries b))
      ≡ or_else (lookup kind (handlers_of b)) (lookup kind entries)
unfolding register_all lookup
register_all-lookup kind [] b = ground arith
register_all-lookup kind (entry ∷ rest) b = ground (
  arith,
  register-lookup entry.0 kind entry.1 b,
  register_all-lookup kind rest (register entry.0 entry.1 b).0,
)
