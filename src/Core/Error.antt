-- ===== src/Core/Error.antt =====
-- crates/worklane-core/src/error.rs: the error of every operation, and its results.
use worklane.Base.{◌≡◌, refl, ◌⊎◌, inl, inr, ◌++◌}
use worklane.Base.Text.{Text, codes}

pub data Error : Type 0 where
  serialization output_encode unknown_kind handler broker live_job_id_conflict : Text → Error
  stale_reservation unique_key_held registration unknown_lane result_store : Text → Error
  unsupported_capability : Text → Error

pub data Result {ℓ} (A : Type ℓ) : Type ℓ where
  ok : A → Result A
  err : Error → Result A

infixl 5 ◌>>=◌
abbrev pub ◌>>=◌ {ℓ κ} : {A : Type ℓ} {B : Type κ} → Result A → (A → Result B) → Result B
ok a >>= f = f a
err e >>= f = err e

-- `Result::map`.
abbrev pub map_ok {ℓ κ} : {A : Type ℓ} {B : Type κ} → (A → B) → Result A → Result B
map_ok f (ok a) = ok (f a)
map_ok f (err e) = err e

-- `Error::to_string`.
unfoldable pub to_string : Error → Text
to_string (serialization msg) = codes "serialization error: " ++ msg
to_string (output_encode msg) = codes "output encode error: " ++ msg
to_string (unknown_kind msg) = codes "unknown job kind: " ++ msg
to_string (handler msg) = codes "handler error: " ++ msg
to_string (broker msg) = codes "broker error: " ++ msg
to_string (live_job_id_conflict msg) = codes "live job id conflict: " ++ msg
to_string (stale_reservation msg) = codes "stale reservation: " ++ msg
to_string (unique_key_held msg) = codes "unique key held: " ++ msg
to_string (registration msg) = codes "registration error: " ++ msg
to_string (unknown_lane msg) = codes "unknown lane: " ++ msg
to_string (result_store msg) = codes "result store error: " ++ msg
to_string (unsupported_capability msg) = codes "unsupported broker capability: " ++ msg

pub Result-cases {ℓ} :
    {A : Type ℓ} (r : Result A) → ((a : A) × (r ≡ ok a)) ⊎ ((e : Error) × (r ≡ err e))
Result-cases (ok a) = inl (a, refl)
Result-cases (err e) = inr (e, refl)
