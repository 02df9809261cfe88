-- ===== src/Worker/Loop/Examples.antt =====
-- A run of the loop over one job.
use worklane.Base.{◌≡◌, refl, false, none, some, List, [], ◌∷◌}
use worklane.Base.Text.{codes}
use worklane.Core.Error.{ok, err}
use worklane.Core.Envelope.{Reservation}
use worklane.Worker.Loop.{
  Idle, initial, wants_more, on_reserve, on_join, joined, Seen, reserved, ended, Runs, begins,
  fills, full, joins, returns, first_error, taken, finished,
}
use worklane.Worker.Loop.Sound.{IsSound, Runs-IsSound, returns-first}

abbrev job : Reservation
job = record {
  envelope = record {
    id = codes "a";
    lane = codes "mail";
    kind = codes "send";
    payload = 1 ∷ [];
    attempts = 0;
    max_attempts = 3;
    priority = 0;
    trace_context = none;
  };
  receipt = codes "r";
  lease = 900;
}

abbrev seen : List Seen
seen = reserved (ok none) ∷ ended job (joined (ok tt)) ∷ reserved (ok (some job)) ∷ []

idle : Idle
unfolding initial on_reserve on_join
idle =
    on_reserve
      (on_join (record (on_reserve initial (ok (some job))) { filling = false }) 0 (joined (ok tt)))
      (ok none)

idle-Runs : Runs 1 idle seen
unfolding idle wants_more initial on_reserve on_join
idle-Runs =
    fills
      (joins (full (fills begins (ok (some job)) refl refl) refl refl) 0 job (joined (ok tt)) refl
        refl)
      (ok none) refl refl

Runs-IsSound_example : IsSound 1 idle seen
Runs-IsSound_example = Runs-IsSound 1 idle seen idle-Runs

returns-first_example :
    (returns idle ≡ (elim (first_error seen) [ none ↦ ok tt | some e ↦ err e ]))
    × (taken seen ≡ finished seen)
returns-first_example = returns-first 1 idle seen idle-Runs (unfold idle in (refl, refl))
