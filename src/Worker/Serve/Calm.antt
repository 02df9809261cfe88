-- ===== src/Worker/Serve/Calm.antt =====
-- The runs of `run`: what holds at every turn.
use worklane.Base.{
  ℕ, suc, ◌+◌, ◌≤◌, ◌≡◌, refl, max, Bool, true, false, not, ◌&&◌, ◌||◌, Option, none, some, List,
  [], ◌∷◌, length, length-append, length-erase_idx, is_nil, if◌then◌else◌, arith,
}
use worklane.Core.Error.{Error, ok, err}
use worklane.Worker.Loop.{classify_join, is_nothing}
use worklane.Worker.Serve.{
  Place, over, Serving, initial, has_capacity, wants_more, record_error, on_reserve, on_shutdown,
  on_tick, on_join, Seen, reserved, ended, shut, timed_out, Serves, begins, looks, notices, fills,
  full, leaves, gives_up, hears, ticks, joins,
}

unfoldable pub taken : List Seen → ℕ
taken [] = 0
taken (reserved (ok (some r)) ∷ older) = suc (taken older)
taken (_ ∷ older) = taken older

unfoldable pub finished : List Seen → ℕ
finished [] = 0
finished (ended r joined_as ∷ older) = suc (finished older)
finished (_ ∷ older) = finished older

unfoldable pub was_shut : List Seen → Bool
was_shut [] = false
was_shut (shut ∷ older) = true
was_shut (_ ∷ older) = was_shut older

unfoldable pub ran_out : List Seen → Bool
ran_out [] = false
ran_out (timed_out ∷ older) = true
ran_out (_ ∷ older) = ran_out older

unfoldable pub error_of : Seen → Option Error
error_of (reserved (err e)) = some e
error_of (ended r joined_as) = classify_join joined_as
error_of _ = none

-- The error that counts: the first one, in the resilient mode the first one after the shutdown.
unfoldable pub counted : Bool → List Seen → Option Error
unfolding error_of was_shut
counted resilient [] = none
counted resilient (s ∷ older) = elim (counted resilient older) [
  | some e ↦ some e
  | none ↦ if not resilient || was_shut older then error_of s else none
]

-- Was there, at each reservation, no shutdown yet, and no error that counts?
unfoldable pub is_calm : Bool → List Seen → Bool
unfolding was_shut counted
is_calm resilient [] = true
is_calm resilient (reserved _ ∷ older) =
    not (was_shut older) && is_nothing (counted resilient older) && is_calm resilient older
is_calm resilient (_ ∷ older) = is_calm resilient older

abbrev pub is_over : Place → Bool
is_over over = true
is_over _ = false

-- What holds of the daemon at every turn.
pub record IsCalm (concurrency : ℕ) (resilient : Bool) (l : Serving) (seen : List Seen)
    : Type 0 where
  pub bounded : length l.in_flight ≤ max concurrency 1
  pub balanced : taken seen ≡ finished seen + length l.in_flight
  pub first : l.first_err ≡ counted resilient seen
  pub stopped : l.shutting_down ≡ was_shut seen || (not resilient && not (is_nothing l.first_err))
  pub noted : is_nothing l.first_err || l.shutting_down ≡ true
  pub calm : is_calm resilient seen ≡ true
  pub drained :
      not (is_over l.place) || (l.shutting_down && (is_nil l.in_flight || ran_out seen)) ≡ true

-- At every turn of `run` at most max(concurrency, 1) jobs are in flight, every job reserved has
-- ended or is in flight, and no reservation is made after the shutdown was seen or, unless the
-- worker is resilient, after an error. The error kept is the first one, in the resilient mode the
-- first one after the shutdown. The loop is left only when it is shutting down, with no job in
-- flight unless the drain ran out of time.
pub Serves-IsCalm :
    (concurrency : ℕ) (resilient bounded : Bool) (l : Serving) (seen : List Seen)
    → Serves concurrency resilient bounded l seen
    → IsCalm concurrency resilient l seen
unfolding initial has_capacity wants_more record_error on_reserve on_shutdown on_tick on_join taken
    finished was_shut ran_out error_of counted is_calm
Serves-IsCalm n b m l seen begins = record {
  bounded = omega arith;
  balanced = refl;
  first = refl;
  stopped = ground arith;
  calm = refl;
  noted = refl;
  drained = refl;
}
Serves-IsCalm n b m _ _ (looks {l = l} {seen = seen} run p) =
    let h = Serves-IsCalm n b m l seen run in
    record {
      bounded = h.bounded;
      balanced = h.balanced;
      first = h.first;
      stopped = h.stopped;
      calm = h.calm;
      noted = ground (arith, h.noted);
      drained = refl;
    }
Serves-IsCalm n b m _ _ (notices {l = l} {seen = seen} run p s) =
    let h = Serves-IsCalm n b m l seen run in
    record {
      bounded = h.bounded;
      balanced = h.balanced;
      first = ground (arith, h.first);
      stopped = ground arith;
      calm = h.calm;
      noted = ground (arith, h.noted);
      drained = refl;
    }
Serves-IsCalm n b m _ _ (fills {l = l} {seen = seen} run (ok none) p w) =
    let h = Serves-IsCalm n b m l seen run in
    record {
      bounded = h.bounded;
      balanced = h.balanced;
      first = ground (arith, h.first);
      stopped = h.stopped;
      calm = ground (arith, h.first, h.stopped, h.noted, h.calm, w);
      noted = ground (arith, h.noted);
      drained = refl;
    }
Serves-IsCalm n b m _ _ (fills {l = l} {seen = seen} run (ok (some r)) p w) =
    let h = Serves-IsCalm n b m l seen run in
    let grown = length-append l.in_flight (r ∷ []) in
    record {
      bounded = ground (arith, grown, w);
      balanced = ground (arith, grown, h.balanced);
      first = ground (arith, h.first);
      stopped = h.stopped;
      calm = ground (arith, h.first, h.stopped, h.noted, h.calm, w);
      noted = ground (arith, h.noted);
      drained = ground (arith, p);
    }
Serves-IsCalm n b m _ _ (fills {l = l} {seen = seen} run (err e) p w) =
    let h = Serves-IsCalm n b m l seen run in
    record {
      bounded = ground (arith, h.bounded);
      balanced = ground (arith, h.balanced);
      first = ground (arith, h.first, h.stopped, w);
      stopped = ground (arith, h.stopped);
      calm = ground (arith, h.first, h.stopped, h.noted, h.calm, w);
      noted = ground (arith, h.noted);
      drained = ground arith;
    }
Serves-IsCalm n b m _ _ (full {l = l} {seen = seen} run p w) =
    let h = Serves-IsCalm n b m l seen run in
    record {
      bounded = h.bounded;
      balanced = h.balanced;
      first = h.first;
      stopped = h.stopped;
      calm = h.calm;
      noted = ground (arith, h.noted);
      drained = refl;
    }
Serves-IsCalm n b m _ _ (leaves {l = l} {seen = seen} run p none_left s) =
    let h = Serves-IsCalm n b m l seen run in
    record {
      bounded = h.bounded;
      balanced = h.balanced;
      first = h.first;
      stopped = h.stopped;
      calm = h.calm;
      noted = ground (arith, h.noted);
      drained = ground (arith, none_left, s);
    }
Serves-IsCalm n b m _ _ (gives_up {l = l} {seen = seen} run p some_left s timed) =
    let h = Serves-IsCalm n b m l seen run in
    record {
      bounded = h.bounded;
      balanced = h.balanced;
      first = ground (arith, h.first);
      stopped = h.stopped;
      calm = h.calm;
      noted = ground (arith, h.noted);
      drained = ground (arith, s);
    }
Serves-IsCalm n b m _ _ (hears {l = l} {seen = seen} run p s) =
    let h = Serves-IsCalm n b m l seen run in
    record {
      bounded = h.bounded;
      balanced = h.balanced;
      first = ground (arith, h.first);
      stopped = ground arith;
      calm = h.calm;
      noted = ground (arith, h.noted);
      drained = refl;
    }
Serves-IsCalm n b m _ _ (ticks {l = l} {seen = seen} run p s c) =
    let h = Serves-IsCalm n b m l seen run in
    record {
      bounded = h.bounded;
      balanced = h.balanced;
      first = ground (arith, h.first);
      stopped = h.stopped;
      calm = h.calm;
      noted = ground (arith, h.noted);
      drained = refl;
    }
Serves-IsCalm n b m _ _ (joins {l = l} {seen = seen} run i r joined_as p g) =
    let h = Serves-IsCalm n b m l seen run in
    let shrunk = length-erase_idx l.in_flight i r g in
    record {
      bounded = ground (arith, shrunk, h.bounded);
      balanced = ground (arith, shrunk, h.balanced);
      first = ground (arith, h.first, h.stopped);
      stopped = ground (arith, h.stopped);
      calm = h.calm;
      noted = ground (arith, h.noted);
      drained = ground arith;
    }
