-- ===== src/Core/Spi.antt =====
-- crates/worklane-core/src/spi.rs and broker.rs: what the brokers share.
use worklane.Base.{ℕ, ◌*◌, Option, none, some, ◌++◌, if◌then◌else◌}
use worklane.Base.Text.{codes}
use worklane.Base.Int.{ℤ, pos, eqb_ℤ}
use worklane.Core.Duration.{from_secs}
use worklane.Core.Error.{Error, stale_reservation}
use worklane.Core.Envelope.{Receipt}

abbrev pub max_envelope_bytes : ℕ
max_envelope_bytes = 64 * 1024 * 1024

abbrev pub max_dead_letter_sweep : ℕ
max_dead_letter_sweep = 128

abbrev pub default_lease : ℕ
default_lease = from_secs 30

abbrev pub schema_version : ℤ
schema_version = pos 1

pub data JobState : Type 0 where
  live dead_lettered completed_or_unknown : JobState

unfoldable pub stale : Receipt → Error
stale receipt =
    stale_reservation (codes "receipt ReservationReceipt(" ++ (receipt ++ codes ") is not current"))

unfoldable pub classify_state : Option ℤ → JobState
classify_state none = JobState.completed_or_unknown
classify_state (some code) =
    if eqb_ℤ code (pos 1)
    then JobState.live
    else if eqb_ℤ code (pos 2)
    then JobState.dead_lettered
    else JobState.completed_or_unknown

pub data SchemaVersionCheck : Type 0 where
  fresh matches : SchemaVersionCheck
  mismatch : ℤ → SchemaVersionCheck

unfoldable pub check_schema_version : Option ℤ → SchemaVersionCheck
check_schema_version none = SchemaVersionCheck.fresh
check_schema_version (some v) =
    if eqb_ℤ v schema_version then SchemaVersionCheck.matches else SchemaVersionCheck.mismatch v
