-- ===== src/FileQueue/Names.antt =====
-- The file names of inengine-core/src/queue/driver/file/dir.rs: hidden names for temporary files
-- and for messages whose settle is under way.
use in_engine_net.Prelude.{
  ◌+◌, ◌≡◌, ◌≢◌, ap, Bool, false, Option, none, some, [], ◌∷◌, ◌++◌, Bytes, codes, arith, ◌==◌,
  if◌then◌else◌, strip_byte, strip_suffix, length, length-append,
}
use in_engine_net.Std.Utf8.{is_utf8}
use mathlib.Core.Option

abbrev pub temp_suffix : Bytes
temp_suffix = codes ".tmp"

abbrev pub settling_suffix : Bytes
settling_suffix = codes ".settling"

unfoldable pub is_hidden : Bytes → Bool
is_hidden [] = false
is_hidden (b ∷ bs) = b == b'.'

unfoldable pub hidden_name : Bytes → Bytes → Bytes
hidden_name name suffix = b'.' ∷ name ++ suffix

unfoldable pub settling_name : Bytes → Bytes
unfolding hidden_name
settling_name name = hidden_name name settling_suffix

abbrev not_empty : Bytes → Option Bytes
not_empty [] = none
not_empty (b ∷ bs) = some (b ∷ bs)

-- `to_str`, `strip_prefix('.')`, `strip_suffix(suffix)` and the test for an empty rest.
unfoldable pub strip_hidden_suffix : Bytes → Bytes → Option Bytes
strip_hidden_suffix name suffix =
    if is_utf8 name
    then Option.bind (strip_byte b'.' name)
        (λ rest. Option.bind (strip_suffix suffix rest) not_empty)
    else none

length-hidden_name :
    (name suffix : Bytes) → length (hidden_name name suffix) ≡ 1 + length name + length suffix
unfolding hidden_name
length-hidden_name name suffix = omega (arith, length-append name suffix)

-- A hidden name is another name.
pub hidden_name-ne : (name suffix : Bytes) → name ≢ hidden_name name suffix
hidden_name-ne name suffix e = absurd (omega (arith, ap length e, length-hidden_name name suffix))

pub settling_name-ne : (name : Bytes) → name ≢ settling_name name
unfolding settling_name
settling_name-ne name = hidden_name-ne name settling_suffix
