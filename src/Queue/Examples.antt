-- ===== src/Queue/Examples.antt =====
-- Runs of the queue of inengine-core/src/queue with a driver that fails a given number of moves,
-- and with codecs that mark compressed bytes by a header byte.
use Prim.Native.String.{String}
use text.Mathlib.Text.{◌==◌ as str_eq}
use in_engine_net.Prelude.{
  ℕ, zero, suc, ◌≡◌, ◌≢◌, refl, ◌⊎◌, false, inr, Bool, true, false, ◌&&◌, [], ◌∷◌, Bytes, Result,
  ok, err, arith, if◌then◌else◌, none,
}
use in_engine_net.Prelude.Assoc.{lookup}
use in_engine_net.Std.Utf8.{is_utf8}
use in_engine_net.Std.Lossy.{from_utf8_lossy, from_utf8_lossy_valid}
use in_engine_net.Error.{QueueError, IoError, other, io}
use in_engine_net.Queue.Types.{primary, secondary, Stage}
use in_engine_net.Queue.Envelope.{Envelope}
use in_engine_net.Queue.Delivery.{
  Delivery, Receipt, released, rejected, interrupted, AttemptKind, for_attempt, move_to_failed,
}
use in_engine_net.Queue.Sample.{sample}
use in_engine_net.Queue.Registry.{
  Constructor, CommandRegistry, register, build, get, apply, contains_key, or_else, build-register,
}
use in_engine_net.Queue.Compression.{
  Codecs, compress, decompress, decompress-compress, new_envelope, to_command,
  to_command-new_envelope,
}
use in_engine_net.Queue.Api.{Driver, file, uncount_attempt}
use in_engine_net.Error
use in_engine_net.Queue.Processing.{
  settle, Run, process_delivery, interrupted as interrupted_attempt,
}
use in_engine_net.Queue.Processing.Interrupted.{RanInterrupted, process_delivery_interrupted}
use in_engine_net.Queue.Processing.Settling.{
  claims, for_attempt-claims, settle_own, settle_rejected, settle_release_again, asked,
}

abbrev move : Bytes → Envelope → Stage → ℕ → Result QueueError Bool × ℕ
move name e target zero = (ok true, zero)
move name e target (suc n) = (err (io (other 5)), n)

-- The state counts the moves that are still to fail.
abbrev flaky : Driver ℕ
flaky = record {
  lane = primary;
  publish = λ e s. (ok tt, s);
  dequeue = λ wait s. (ok none, s);
  acknowledge = λ name s. (ok true, s);
  move_claimed = move;
  recover = λ s. (ok 0, s);
  lengths = λ s. (ok (record { pending = 0; in_progress = 1; failed = 0 }), s);
  clear = λ stage s. (ok 0, s);
  peek = λ stage first last s. (ok [], s);
  republish_failed = λ limit s. (ok 0, s);
}

abbrev name : Bytes
name = b'a' ∷ []

abbrev delivery : Delivery
delivery = record { envelope = sample 7 3 3; lane = primary; receipt = Receipt.file name }

settle_own_example :
    settle (file flaky) delivery AttemptKind.command_failed 0
    ≡ asked flaky name delivery AttemptKind.command_failed 0
settle_own_example = settle_own (file flaky) delivery AttemptKind.command_failed name 0 refl refl

abbrev foreign : Delivery
foreign = record { envelope = sample 7 3 3; lane = secondary; receipt = Receipt.file name }

settle_rejected_example :
    settle (file flaky) foreign AttemptKind.interrupted 0
    ≡ (err (rejected (uncount_attempt foreign)), 0)
settle_rejected_example = settle_rejected (file flaky) foreign AttemptKind.interrupted 0 (inr refl)

settle_release_again_example :
    (settle (file flaky) delivery AttemptKind.interrupted 1
      ≡ (err (interrupted (uncount_attempt delivery) (io (other 5))), 0))
    × (settle (file flaky) (uncount_attempt delivery) AttemptKind.interrupted 0 ≡ (ok released, 0))
settle_release_again_example =
    settle_release_again (file flaky) delivery name 1 0 0 (io (other 5)) refl refl refl refl

for_attempt-claims_example :
    for_attempt AttemptKind.command_failed (claims 3 (sample 7 0 2)) ≡ move_to_failed
for_attempt-claims_example = for_attempt-claims 3 (sample 7 0 2) refl (omega arith) (omega arith)

abbrev echo_constructor : Constructor String
echo_constructor json = ok "echo"

abbrev pub one_command : CommandRegistry String
one_command = record { plugins = ("inengine-core", ("echo", echo_constructor) ∷ []) ∷ [] }

abbrev second_constructor : Constructor String
second_constructor json = ok "second"

build-register_example :
    ((register one_command "inengine-core" "echo" second_constructor).0 ≡ (
      if contains_key (get one_command.plugins "inengine-core" "echo")
      then err (record { plugin = "inengine-core"; command = "echo" })
      else ok tt))
    × (build
          (register one_command "inengine-core" "echo" second_constructor).1
          "inengine-core"
          "echo"
          []
        ≡ apply "inengine-core" "echo" [] (
            if str_eq "inengine-core" "inengine-core" && str_eq "echo" "echo"
            then or_else (get one_command.plugins "inengine-core" "echo") second_constructor
            else get one_command.plugins "inengine-core" "echo"))
build-register_example =
    build-register one_command "inengine-core" "echo" "inengine-core" "echo" second_constructor []

abbrev gzip : Bytes → Result IoError Bytes
gzip b = ok (0x1f ∷ b)

abbrev gunzip : Bytes → Result IoError Bytes
gunzip [] = err (other 0)
gunzip (h ∷ b) = ok b

pub gunzip-gzip : (b z : Bytes) → gzip b ≡ ok z → gunzip z ≡ ok b
gunzip-gzip b z h = ground arith

pub gzip_header : (b : Bytes) → gzip b ≢ ok []
gzip_header b e = cc

abbrev pub codecs : Codecs
codecs = record {
  gzip = gzip;
  gunzip = gunzip;
  base64_encode = λ b. b;
  base64_decode = λ b. ok b;
  gunzip-gzip = gunzip-gzip;
  gzip_header = gzip_header;
  base64_decode-base64_encode = λ b. refl;
  base64_encode_empty = λ b e. e;
}

abbrev payload : Bytes
payload = b'{' ∷ b'}' ∷ []

payload-is_utf8 : is_utf8 payload ≡ true
unfolding is_utf8
payload-is_utf8 = refl

compressed : compress codecs payload ≡ ok (0x1f ∷ payload)
unfolding compress
compressed = refl

decompress-compress_example : decompress codecs (0x1f ∷ payload) ≡ ok payload
decompress-compress_example =
    decompress-compress codecs payload (0x1f ∷ payload) payload-is_utf8 compressed

abbrev enqueued : Envelope
enqueued = record (sample 7 0 2) { payload = 0x1f ∷ payload; is_compressed = true }

enqueued_new : new_envelope codecs 7 0 "echo" "inengine-core" payload true 2 ≡ ok enqueued
unfolding new_envelope
enqueued_new = refl

to_command-new_envelope_example :
    to_command codecs enqueued one_command ≡ build one_command "inengine-core" "echo" payload
to_command-new_envelope_example =
    to_command-new_envelope codecs one_command 7 0 "echo" "inengine-core" payload true 2 enqueued
      payload-is_utf8 enqueued_new

from_utf8_lossy_payload : from_utf8_lossy payload ≡ payload
from_utf8_lossy_payload = from_utf8_lossy_valid payload payload-is_utf8

-- A character that is cut short, followed by an ASCII byte.
from_utf8_lossy_cut : from_utf8_lossy (0xe2 ∷ 0x82 ∷ b'a' ∷ []) ≡ 0xef ∷ 0xbf ∷ 0xbd ∷ b'a' ∷ []
unfolding from_utf8_lossy
from_utf8_lossy_cut = refl

-- A command that ends as interrupted, with the token fired by then.
abbrev stopped_run : Run ℕ String
stopped_run command s = ((err Error.interrupted, true), s)

abbrev pub echo_delivery : Delivery
echo_delivery = record {
  envelope = record (sample 7 1 0) { payload = payload };
  lane = primary;
  receipt = Receipt.file name;
}

echo_stopped :
    (process_delivery codecs one_command stopped_run (file flaky) echo_delivery false 0).0.attempt
    ≡ interrupted_attempt
unfolding process_delivery to_command build lookup
echo_stopped = refl

process_delivery_interrupted_example :
    (false ≡ true) ⊎ RanInterrupted codecs one_command stopped_run echo_delivery 0
process_delivery_interrupted_example =
    process_delivery_interrupted codecs one_command stopped_run (file flaky) echo_delivery false 0
      echo_stopped
