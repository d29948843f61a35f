-- ===== src/Error.antt =====
-- inengine-core/src/error.rs: the errors that the components pass to one another. An opaque error
-- of another crate (serde_json, base64, flate2, redis) is carried as its message.
pub mod Chain
use Prim.Native.String.{String}
use in_engine_net.Prelude.{ℕ, Bytes}

-- `std::io::ErrorKind`, as far as the program tests it.
pub data IoError : Type 0 where
  not_found : IoError
  already_exists : IoError
  permission_denied : IoError
  other : ℕ → IoError

pub data QueueError : Type 0 where
  serialization : String → QueueError
  compress : IoError → QueueError
  decompress : IoError → QueueError
  payload_not_base64 : String → QueueError
  io : IoError → QueueError
  redis : String → QueueError
  unknown_command : String → String → QueueError

pub record DuplicateCommand : Type 0 where
  pub plugin : String
  pub command : String

-- The source of a `Failed` is boxed in the program, and is left out.
pub data CommandError : Type 0 where
  failed : Bytes → CommandError
  timeout : ℕ → CommandError
  interrupted : CommandError
