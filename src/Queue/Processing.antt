-- ===== src/Queue/Processing.antt =====
-- `settle` of inengine-core/src/queue/delivery.rs and inengine-core/src/queue/processing.rs: one
-- attempt to run a claimed message, and how the queue settles it.
pub mod Settling
pub mod Interrupted
use in_engine_net.Prelude.{ℕ, Bool, true, false, Bytes, codes, Result, ok, err, if◌then◌else◌}
use in_engine_net.Error.{QueueError, CommandError}
use in_engine_net.Error
use in_engine_net.Command.{CommandResult}
use in_engine_net.Queue.Envelope.{Envelope}
use in_engine_net.Queue.Delivery.{
  Delivery, SettleError, AttemptKind, SettleAction, SettleOutcome, acknowledged, retried,
  moved_to_failed, released, for_attempt,
}
use in_engine_net.Queue.Registry.{CommandRegistry}
use in_engine_net.Queue.Compression.{Codecs, to_command}
use in_engine_net.Queue.Api
use in_engine_net.Queue.Api.{Queue}

-- `.map(|()| outcome)`
abbrev pub with_outcome :
    {S : Type 0}
    → SettleOutcome
    → Result SettleError (Unit {0}) × S
    → Result SettleError SettleOutcome × S
with_outcome outcome (ok done, s) = (ok outcome, s)
with_outcome outcome (err e, s) = (err e, s)

module _ {S : Type 0} where
  unfoldable pub perform :
      Queue S → Delivery → SettleAction → S → Result SettleError SettleOutcome × S
  perform q d SettleAction.acknowledge s = with_outcome acknowledged (Api.acknowledge q d s)
  perform q d SettleAction.retry s = with_outcome retried (Api.retry q d s)
  perform q d SettleAction.move_to_failed s =
      with_outcome moved_to_failed (Api.move_to_failed q d s)
  perform q d SettleAction.release s = with_outcome released (Api.release q d s)

  unfoldable pub settle :
      Queue S → Delivery → AttemptKind → S → Result SettleError SettleOutcome × S
  unfolding perform for_attempt
  settle q d kind s = perform q d (for_attempt kind d.envelope) s

pub data Attempt : Type 0 where
  succeeded : Attempt
  command_failed : CommandError → Attempt
  unrunnable : QueueError → Attempt
  interrupted : Attempt

unfoldable pub kind : Attempt → AttemptKind
kind succeeded = AttemptKind.succeeded
kind (command_failed e) = AttemptKind.command_failed
kind (unrunnable e) = AttemptKind.unrunnable
kind interrupted = AttemptKind.interrupted

pub record ProcessedDelivery : Type 0 where
  pub message_id : ℕ
  pub attempt : Attempt
  pub settled : Result SettleError SettleOutcome

-- The result of a run, and whether the token has fired when it is there.
unfoldable pub attempt_of : CommandResult → Bool → Attempt
attempt_of (ok done) cancelled = succeeded
attempt_of (err Error.interrupted) true = interrupted
attempt_of (err Error.interrupted) false = command_failed (
    Error.failed
      (codes "the command stopped as if the server were stopping, but the server is running"))
attempt_of (err e) cancelled = command_failed e

-- A run takes its command and the state, since the command may use the queue; it ends with its
-- result, whether the token has fired by then, and the state.
abbrev pub Run : Type 0 → Type 0 → Type 0
Run S C = C → S → (CommandResult × Bool) × S

module _ {S C : Type 0} (codecs : Codecs) (registry : CommandRegistry C) (run : Run S C) where
  abbrev run_built : Result QueueError C → S → Attempt × S
  run_built (err e) s = (unrunnable e, s)
  run_built (ok command) s = let (answer, s') = run command s in (attempt_of answer.0 answer.1, s')

  unfoldable pub run_attempt : Delivery → S → Attempt × S
  unfolding attempt_of
  run_attempt d s = run_built (to_command codecs d.envelope registry) s

  -- `cancelled` says whether the token has fired before the run.
  unfoldable pub process_delivery : Queue S → Delivery → Bool → S → ProcessedDelivery × S
  unfolding run_attempt settle kind
  process_delivery q d cancelled s =
      let (attempt, s1) = if cancelled then (interrupted, s) else run_attempt d s in
      let (settled, s2) = settle q d (kind attempt) s1 in
      (record { message_id = d.envelope.id; attempt = attempt; settled = settled }, s2)
