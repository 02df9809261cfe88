-- ===== src/Core/Codec.antt =====
-- crates/worklane-core/src/spi.rs: envelopes and receipts as they are stored, and redact.rs: the
-- length of the error that a failure gives. The JSON library is a parameter.
use worklane.Base.{
  ℕ, ◌+◌, ◌-◌, ◌*◌, List, [], ◌∷◌, ◌++◌, none, some, length, ltb, leb, if◌then◌else◌,
}
use worklane.Base.Text.{Text, codes}
use worklane.Core.Duration.{decimal}
use worklane.Core.Error.{Error, Result, ok, err, serialization, broker}
use worklane.Core.Envelope.{Receipt, Bytes, TraceContext, JobEnvelope}
use worklane.Core.Lane.{byte_len}
use worklane.Core.Redact.{redact_credentials}
use worklane.Core.Spi.{max_envelope_bytes}

-- What `serde_json` returns: a value, or an error by its text.
pub data JsonResult (A : Type 0) : Type 0 where
  value : A → JsonResult A
  malformed : Text → JsonResult A

-- The functions of `serde_json` that are called, at the types at which they are called.
pub record Json : Type 0 where
  pub to_vec : JobEnvelope → JsonResult Bytes
  pub from_slice : Bytes → JsonResult JobEnvelope
  pub to_string : Receipt → JsonResult Text

abbrev pub max_trace_context_entries : ℕ
max_trace_context_entries = 34

abbrev pub max_trace_context_bytes : ℕ
max_trace_context_bytes = 8 * 1024

-- What `truncate` keeps: the characters that end within the first `max_len` bytes.
unfoldable pub take_bytes : ℕ → Text → Text
take_bytes max_len [] = []
take_bytes max_len (c ∷ s) =
    let rest = take_bytes (max_len - byte_len (c ∷ [])) s in
    if leb (byte_len (c ∷ [])) max_len then c ∷ rest else []

unfoldable pub truncate_utf8 : Text → ℕ → Text
unfolding take_bytes byte_len
truncate_utf8 msg max_len =
    if leb (byte_len msg) max_len then msg else take_bytes max_len msg ++ codes "..."

unfoldable pub redact_and_truncate : Text → ℕ → Text
unfolding redact_credentials truncate_utf8
redact_and_truncate msg max_len = truncate_utf8 (redact_credentials msg) max_len

unfoldable pub json_err : Text → Error
unfolding redact_and_truncate
json_err e = broker (redact_and_truncate e 512)

unfoldable pub from_json : {A : Type 0} → JsonResult A → Result A
unfolding json_err
from_json (value a) = ok a
from_json (malformed e) = err (json_err e)

-- The total size of the keys and the values.
unfoldable pub context_bytes : List (Text × Text) → ℕ
unfolding byte_len
context_bytes [] = 0
context_bytes ((k, v) ∷ tc) = byte_len k + byte_len v + context_bytes tc

unfoldable pub too_many_entries : ℕ → Error
unfolding decimal
too_many_entries n = serialization (
    codes "trace_context has "
    ++ (decimal n
        ++ (codes " entries, over the "
            ++ (decimal max_trace_context_entries ++ codes "-entry limit"))))

unfoldable pub context_too_long : ℕ → Error
unfolding decimal
context_too_long n = serialization (
    codes "trace_context is "
    ++ (decimal n
        ++ (codes " bytes, over the " ++ (decimal max_trace_context_bytes ++ codes "-byte limit"))))

unfoldable pub check_context : TraceContext → Result (Unit {0})
unfolding context_bytes too_many_entries context_too_long
check_context none = ok tt
check_context (some tc) =
    if ltb max_trace_context_entries (length tc)
    then err (too_many_entries (length tc))
    else if ltb max_trace_context_bytes (context_bytes tc)
    then err (context_too_long (context_bytes tc))
    else ok tt

unfoldable pub envelope_too_long : Text → ℕ → Error
unfolding decimal
envelope_too_long which n = serialization (
    which
    ++ (codes " job envelope is "
        ++ (decimal n
            ++ (codes " bytes, over the " ++ (decimal max_envelope_bytes ++ codes "-byte limit")))))

unfoldable pub check_size : Text → Bytes → Result (Unit {0})
unfolding envelope_too_long
check_size which bytes =
    if ltb max_envelope_bytes (length bytes)
    then err (envelope_too_long which (length bytes))
    else ok tt

module _ (json : Json) where
  unfoldable pub encode_envelope : JobEnvelope → Result Bytes
  unfolding check_context from_json check_size
  encode_envelope envelope = elim (check_context envelope.trace_context) [
    | err e ↦ err e
    | ok _ ↦ elim (from_json (json.to_vec envelope)) [
      | err e ↦ err e
      | ok bytes ↦ elim (check_size (codes "encoded") bytes) [ err e ↦ err e | ok _ ↦ ok bytes ]
    ]
  ]

  unfoldable pub decode_envelope : Bytes → Result JobEnvelope
  unfolding from_json check_size
  decode_envelope bytes = elim (check_size (codes "stored") bytes) [
    | err e ↦ err e
    | ok _ ↦ from_json (json.from_slice bytes)
  ]

  unfoldable pub receipt_key : Receipt → Result Text
  unfolding from_json
  receipt_key receipt = from_json (json.to_string receipt)
