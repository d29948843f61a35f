-- ===== src/Exec/Pipe.antt =====
-- inengine-core/src/commands/exec/pipe.rs: the start and the end of one output stream that a reader
-- thread keeps. The thread's pushes and the caller's take each hold the lock.
pub mod Stream
mod Examples
use in_engine_net.Prelude.{
  ℕ, zero, suc, ◌+◌, ◌-◌, ◌*◌, ◌/◌, ◌%◌, min, Bool, true, false, ◌==◌, List, [], ◌∷◌, ◌++◌, Bytes,
  codes, if◌then◌else◌, ltb, length, take, drop, wrapping_add,
}
use in_engine_net.Std.Utf8.{is_utf8}
use in_engine_net.Std.Lossy.{from_utf8_lossy}

abbrev pub kept_head_bytes : ℕ
kept_head_bytes = 512 * 1024

abbrev pub kept_tail_bytes : ℕ
kept_tail_bytes = 512 * 1024

pub record KeptOutput : Type 0 where
  pub head : Bytes
  pub dropped : ℕ
  pub tail : Bytes

pub record StreamBuffer : Type 0 where
  pub head_limit : ℕ
  pub tail_limit : ℕ
  pub head : Bytes
  pub tail : Bytes
  pub dropped : ℕ
  pub taken : Bool

unfoldable pub new : ℕ → ℕ → StreamBuffer
new head_limit tail_limit = record {
  head_limit = head_limit;
  tail_limit = tail_limit;
  head = [];
  tail = [];
  dropped = 0;
  taken = false;
}

-- The head never passes its limit, so the subtraction does not wrap.
unfoldable pub push : StreamBuffer → Bytes → StreamBuffer
push b bytes =
    if b.taken
    then b
    else (let split = min (b.head_limit - length b.head) (length bytes) in
        let tail = b.tail ++ drop split bytes in
        let excess = length tail - b.tail_limit in
        record b {
          head = b.head ++ take split bytes;
          tail = drop excess tail;
          dropped = wrapping_add b.dropped excess;
        })

unfoldable pub take_kept : StreamBuffer → KeptOutput × StreamBuffer
take_kept b = (
  record { head = b.head; dropped = b.dropped; tail = b.tail },
  record b { head = []; tail = []; taken = true },
)

-- The reader's loop: the chunks that it read, in order.
unfoldable pub push_all : StreamBuffer → List Bytes → StreamBuffer
push_all b [] = b
push_all b (c ∷ cs) = push_all (push b c) cs

-- `String::from_utf8`, or the lossy text when it fails.
unfoldable pub into_string : Bytes → Bytes
into_string bytes = if is_utf8 bytes then bytes else from_utf8_lossy bytes

-- The decimal digits of a `u64`, which has at most 20.
unfoldable pub decimal : ℕ → ℕ → Bytes
decimal zero n = []
decimal (suc fuel) n =
    let rest = decimal fuel (n / 10) in
    let digit = (b'0' + n % 10) ∷ [] in if ltb n 10 then digit else rest ++ digit

abbrev ends_with_newline : Bytes → Bool
ends_with_newline [] = false
ends_with_newline (b ∷ []) = b == b'\n'
ends_with_newline (b ∷ c ∷ cs) = ends_with_newline (c ∷ cs)

-- A newline after text that is not empty and does not end with one.
abbrev on_its_own_line : Bytes → Bytes
on_its_own_line [] = []
on_its_own_line (b ∷ bs) = if ends_with_newline (b ∷ bs) then b ∷ bs else (b ∷ bs) ++ b'\n' ∷ []

unfoldable pub into_text : KeptOutput → Bytes
unfolding into_string decimal
into_text k =
    if k.dropped == 0
    then into_string (k.head ++ k.tail)
    else on_its_own_line (into_string k.head)
      ++ codes "["
      ++ decimal 20 k.dropped
      ++ codes " bytes not kept]\n"
      ++ into_string k.tail
