-- ===== src/Queue/Compression.antt =====
-- inengine-core/src/queue/compression.rs, and the envelope operations of
-- inengine-core/src/queue/envelope.rs that use it. The gzip and base64 libraries are parameters.
use Prim.Native.String.{String}
use in_engine_net.Prelude.{
  ℕ, ◌≡◌, ◌≢◌, refl, ap, ◌∙◌, Bool, true, false, [], ◌∷◌, Bytes, Result, ok, err, map_err, ◌>>=◌,
  if◌then◌else◌, arith, Result-cases, inl, inr,
}
use in_engine_net.Std.Utf8.{is_utf8}
use in_engine_net.Error.{
  IoError, other, QueueError, compress as compress_error, decompress as decompress_error,
  payload_not_base64,
}
use in_engine_net.Queue.Envelope.{Envelope}
use in_engine_net.Queue.Registry.{CommandRegistry, build}

-- flate2's gzip encoder and decoder on whole byte strings, and base64's standard engine. A gzip
-- stream starts with a header, and base64 encodes only the empty string as the empty string.
pub record Codecs : Type 0 where
  pub gzip : Bytes → Result IoError Bytes
  pub gunzip : Bytes → Result IoError Bytes
  pub base64_encode : Bytes → Bytes
  pub base64_decode : Bytes → Result String Bytes
  pub gunzip-gzip : (b z : Bytes) → gzip b ≡ ok z → gunzip z ≡ ok b
  pub gzip_header : (b : Bytes) → gzip b ≢ ok []
  pub base64_decode-base64_encode : (b : Bytes) → base64_decode (base64_encode b) ≡ ok b
  pub base64_encode_empty : (b : Bytes) → base64_encode b ≡ [] → b ≡ []

-- The error of `read_to_string` on bytes that are not UTF-8, `ErrorKind::InvalidData`.
abbrev invalid_data : IoError
invalid_data = other 0

-- `read_to_string` of the decoder's bytes.
abbrev read_to_string : Bytes → Result IoError Bytes
read_to_string b = if is_utf8 b then ok b else err invalid_data

module _ (codecs : Codecs) where
  unfoldable pub compress : Bytes → Result QueueError Bytes
  compress [] = ok []
  compress (b ∷ bs) = do
    compressed ← map_err compress_error (codecs.gzip (b ∷ bs))
    ok (codecs.base64_encode compressed)

  unfoldable pub decompress : Bytes → Result QueueError Bytes
  decompress [] = ok []
  decompress (b ∷ bs) = do
    bytes ← map_err payload_not_base64 (codecs.base64_decode (b ∷ bs))
    result ← map_err decompress_error (codecs.gunzip bytes)
    map_err decompress_error (read_to_string result)

  -- `CommandEnvelope::new`; the id and the time are those of the call.
  unfoldable pub new_envelope :
      ℕ → ℕ → String → String → Bytes → Bool → ℕ → Result QueueError Envelope
  unfolding compress
  new_envelope id now command_name plugin_name json use_compression max_retries = do
    serialized ← if use_compression then compress json else ok json
    ok (record {
      id = id;
      plugin_name = plugin_name;
      command_name = command_name;
      payload = serialized;
      queued_at = now;
      is_compressed = use_compression;
      attempts = 0;
      max_retries = max_retries;
    })

  unfoldable pub to_command : {C : Type 0} → Envelope → CommandRegistry C → Result QueueError C
  unfolding decompress
  to_command e registry = do
    json ← if e.is_compressed then decompress e.payload else ok e.payload
    build registry e.plugin_name e.command_name json

  after_encode :
      (text z b : Bytes)
      → codecs.gzip text ≡ ok z
      → is_utf8 text ≡ true
      → codecs.base64_encode z ≡ b
      → decompress b ≡ ok text
  unfolding decompress
  after_encode text z [] h u e =
      absurd (codecs.gzip_header text (h ∙ ap ok (codecs.base64_encode_empty z e)))
  after_encode text z (x ∷ xs) h u e =
      ground (arith, codecs.base64_decode-base64_encode z, codecs.gunzip-gzip text z h)

  decompress_encoded :
      (text z : Bytes)
      → codecs.gzip text ≡ ok z
      → is_utf8 text ≡ true
      → decompress (codecs.base64_encode z) ≡ ok text
  decompress_encoded text z h u = after_encode text z (codecs.base64_encode z) h u refl

  -- UTF-8 text that compresses decompresses to itself.
  pub decompress-compress :
      (text z : Bytes) → is_utf8 text ≡ true → compress text ≡ ok z → decompress z ≡ ok text
  unfolding compress decompress
  decompress-compress [] z u h = ground arith
  decompress-compress (b ∷ bs) z u h = elim (Result-cases (codecs.gzip (b ∷ bs))) [
    | inl (y, e) ↦ ground (arith, decompress_encoded (b ∷ bs) y e u)
    | inr (x, e) ↦ ground arith
  ]

  -- An envelope made from UTF-8 arguments, compressed or not, builds the command that the registry
  -- builds from the same names and the same arguments.
  pub to_command-new_envelope :
      {C : Type 0} (registry : CommandRegistry C) (id now : ℕ) (command plugin : String)
      (json : Bytes) (use_compression : Bool) (max_retries : ℕ) (e : Envelope)
      → is_utf8 json ≡ true
      → new_envelope id now command plugin json use_compression max_retries ≡ ok e
      → to_command e registry ≡ build registry plugin command json
  unfolding new_envelope to_command
  to_command-new_envelope registry id now command plugin json false max_retries e u h = ground arith
  to_command-new_envelope registry id now command plugin json true max_retries e u h =
      elim (Result-cases (compress json)) [
        | inl (z, d) ↦ ground (arith, decompress-compress json z u d)
        | inr (x, d) ↦ ground arith
      ]
