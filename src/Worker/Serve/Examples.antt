-- ===== src/Worker/Serve/Examples.antt =====
-- A run of the daemon over one job, with a shutdown while it is in flight.
use worklane.Base.{refl, true, false, none, some, List, [], ◌∷◌}
use worklane.Base.Text.{codes}
use worklane.Core.Error.{ok}
use worklane.Core.Envelope.{Reservation}
use worklane.Worker.Loop.{joined, classify_join}
use worklane.Worker.Serve.{
  Serving, initial, wants_more, on_reserve, on_shutdown, on_join, over, Seen, reserved, ended, shut,
  Serves, begins, looks, fills, full, hears, joins, leaves,
}
use worklane.Worker.Serve.Calm.{IsCalm, Serves-IsCalm}

abbrev parcel : Reservation
parcel = record {
  envelope = record {
    id = codes "a";
    lane = codes "mail";
    kind = codes "send";
    payload = 1 ∷ [];
    attempts = 0;
    max_attempts = 3;
    priority = 0;
    trace_context = none;
  };
  receipt = codes "r";
  lease = 900;
}

abbrev seen : List Seen
seen = ended parcel (joined (ok tt)) ∷ shut ∷ reserved (ok (some parcel)) ∷ []

left : Serving
left = record {
  in_flight = [];
  shutting_down = true;
  first_err = none;
  empty_polls = 0;
  place = over;
}

left-Serves : Serves 1 false false left seen
unfolding left wants_more initial on_reserve on_shutdown on_join classify_join
left-Serves =
    leaves
      (full
        (looks
          (joins
            (full
              (looks
                (hears (full (fills (looks begins refl) (ok (some parcel)) refl refl) refl refl)
                  refl refl)
                refl)
              refl refl)
            0 parcel (joined (ok tt)) refl refl)
          refl)
        refl refl)
      refl refl refl

Serves-IsCalm_example : IsCalm 1 false left seen
Serves-IsCalm_example = Serves-IsCalm 1 false false left seen left-Serves
