-- ===== src/Queue/Envelope.antt =====
-- inengine-core/src/queue/envelope.rs, and the JSON form of an envelope, which serde_json reads
-- and writes and which is a parameter here.
use Prim.Native.String.{String}
use in_engine_net.Prelude.{ℕ, ◌+◌, ◌%◌, Bool, ◌≡◌, Bytes, Result, ok, leb, u32_mod}

pub record Envelope : Type 0 where
  pub id : ℕ
  pub plugin_name : String
  pub command_name : String
  pub payload : Bytes
  pub queued_at : ℕ
  pub is_compressed : Bool
  pub attempts : ℕ
  pub max_retries : ℕ

-- `has_retries_left`
unfoldable pub has_retries_left : Envelope → Bool
has_retries_left e = leb e.attempts e.max_retries

-- `envelope.attempts += 1`, as each driver's claim does it, on a `u32`.
unfoldable pub count_attempt : Envelope → Envelope
count_attempt e = record e { attempts = (e.attempts + 1) % u32_mod }

-- serde_json on envelopes. Its two laws are what it documents of a derived `Serialize` and
-- `Deserialize`: what it writes, it reads back. An error is its message.
pub record Json : Type 0 where
  pub to_vec : Envelope → Result String Bytes
  pub to_vec_pretty : Envelope → Result String Bytes
  pub from_slice : Bytes → Result String Envelope
  pub from_slice-to_vec : (e : Envelope) (b : Bytes) → to_vec e ≡ ok b → from_slice b ≡ ok e
  pub from_slice-to_vec_pretty :
      (e : Envelope) (b : Bytes) → to_vec_pretty e ≡ ok b → from_slice b ≡ ok e
