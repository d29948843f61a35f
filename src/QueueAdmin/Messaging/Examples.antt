-- ===== src/QueueAdmin/Messaging/Examples.antt =====
-- A run of `Consume` in inengine-core/src/queue_admin/messaging.rs on a queue of two messages.
use Prim.Native.String.{String}
use in_engine_net.Prelude.{
  ℕ, zero, suc, ◌≡◌, refl, Option, none, some, [], ◌∷◌, Result, ok, true, false,
}
use in_engine_net.Error.{QueueError}
use in_engine_net.Output
use in_engine_net.Output.{Output}
use in_engine_net.Output.Examples.{terminal}
use in_engine_net.Queue.Types.{primary}
use in_engine_net.Queue.Delivery.{Delivery}
use in_engine_net.Queue.Registry.{build}
use in_engine_net.Queue.Compression.{to_command}
use in_engine_net.Queue.Api.{Queue, file, acknowledge}
use in_engine_net.Queue.Examples.{codecs, one_command, echo_delivery}
use in_engine_net.Prelude.Assoc.{lookup}
use in_engine_net.QueueAdmin.Messaging.{Host, consume}
use in_engine_net.QueueAdmin.Messaging.Consumed.{AllConsumed, consume_ok}

-- The messages left, and the output.
abbrev State : Type 0
State = ℕ × Output terminal

abbrev claim : State → Result QueueError (Option Delivery) × State
claim (zero, output) = (ok none, (zero, output))
claim (suc n, output) = (ok (some echo_delivery), (n, output))

abbrev queue : Queue State
queue = file (record {
  lane = primary;
  publish = λ e s. (ok tt, s);
  dequeue = λ wait s. claim s;
  acknowledge = λ name s. (ok true, s);
  move_claimed = λ name e target s. (ok true, s);
  recover = λ s. (ok 0, s);
  lengths = λ s. (ok (record { pending = s.0; in_progress = 0; failed = 0 }), s);
  clear = λ stage s. (ok 0, s);
  peek = λ stage first last s. (ok [], s);
  republish_failed = λ limit s. (ok 0, s);
})

abbrev host : Host State String terminal
host = record {
  id_text = λ id. id ∷ [];
  command_error_text = λ e. [];
  queue_error_text = λ e. [];
  on_output = λ f s. (s.0, f s.1);
  run_command = λ command s. (ok tt, s);
}

abbrev start : State
start = (2, Output.new terminal false)

abbrev end : State
end = (consume terminal host codecs one_command queue (some 5) start).1

both_run : consume terminal host codecs one_command queue (some 5) start ≡ (ok tt, end)
unfolding consume to_command build lookup acknowledge
both_run = refl

consume_ok_example : AllConsumed terminal host codecs one_command queue 5 start end
consume_ok_example = consume_ok terminal host codecs one_command queue (some 5) start end both_run

none_left : end.0 ≡ 0
unfolding consume to_command build lookup acknowledge
none_left = refl
