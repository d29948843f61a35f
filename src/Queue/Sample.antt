-- ===== src/Queue/Sample.antt =====
-- Concrete values for the runs and the applied theorems of the other modules: an envelope, a JSON
-- codec that writes the sample envelopes only, and a way to name messages.
use Prim.Native.String.{String}
use in_engine_net.Prelude.{
  ℕ, zero, suc, ◌≡◌, Bool, false, ◌&&◌, not, [], ◌∷◌, Bytes, bytes_eq, bytes_eq_iff, Result, ok,
  err, arith, ◌==◌, if◌then◌else◌,
}
use text.Mathlib.Text.{◌==◌ as str_eq}
use text.Mathlib.TextEquality.{eq_iff}
use in_engine_net.Queue.Envelope.{Envelope, Json}

abbrev pub sample : ℕ → ℕ → ℕ → Envelope
sample id attempts max_retries = record {
  id = id;
  plugin_name = "inengine-core";
  command_name = "echo";
  payload = [];
  queued_at = 0;
  is_compressed = false;
  attempts = attempts;
  max_retries = max_retries;
}

abbrev is_sample : Envelope → Bool
is_sample e =
    str_eq e.plugin_name "inengine-core"
    && str_eq e.command_name "echo"
    && bytes_eq e.payload []
    && e.queued_at == 0
    && not e.is_compressed

abbrev encode : Envelope → Result String Bytes
encode e =
    if is_sample e then ok (e.id ∷ e.attempts ∷ e.max_retries ∷ []) else err "not a sample envelope"

abbrev decode : Bytes → Result String Envelope
decode (id ∷ attempts ∷ max_retries ∷ []) = ok (sample id attempts max_retries)
decode _ = err "not three numbers"

pub decode-encode : (e : Envelope) (b : Bytes) → encode e ≡ ok b → decode b ≡ ok e
decode-encode e b h = ground (
  arith,
  eq_iff e.plugin_name "inengine-core",
  eq_iff e.command_name "echo",
  bytes_eq_iff e.payload [],
)

abbrev pub sample_json : Json
sample_json = record {
  to_vec = encode;
  to_vec_pretty = encode;
  from_slice = decode;
  from_slice-to_vec = decode-encode;
  from_slice-to_vec_pretty = decode-encode;
}

-- The names "f", "ff", "fff" and so on, each after the one before it.
abbrev pub sample_name : ℕ → Bytes
sample_name zero = b'f' ∷ []
sample_name (suc n) = b'f' ∷ sample_name n
