-- ===== src/QueueAdmin/Messaging.antt =====
-- `Consume` of inengine-core/src/queue_admin/messaging.rs. The output is a part of the state; the
-- texts of an id and of an error chain are parameters.
pub mod Consumed
mod Examples
use in_engine_net.Prelude.{
  ℕ, zero, suc, ◌+◌, ◌-◌, ◌^◌, ltb, Bool, true, false, Option, none, some, Bytes, codes, ◌++◌,
  Result, ok, err, if◌then◌else◌,
}
use in_engine_net.Error.{CommandError, QueueError, interrupted}
use in_engine_net.Error
use in_engine_net.Output.{Terminal, Output}
use in_engine_net.Output
use in_engine_net.Command.{CommandResult}
use in_engine_net.Exec.Pipe.{decimal}
use in_engine_net.Queue.Delivery.{
  Delivery, SettleError, SettleOutcome, acknowledged, retried, moved_to_failed, released, label,
}
use in_engine_net.Queue.Registry.{CommandRegistry}
use in_engine_net.Queue.Compression.{Codecs}
use in_engine_net.Queue.Api.{Queue, dequeue}
use in_engine_net.Queue.Processing.{
  Attempt, succeeded, command_failed, unrunnable, ProcessedDelivery, process_delivery,
}
use in_engine_net.Queue.Processing

pub record ConsumeTally : Type 0 where
  pub acknowledged : ℕ
  pub retried : ℕ
  pub moved_to_failed : ℕ
  pub released : ℕ

abbrev pub no_messages : ConsumeTally
no_messages = record { acknowledged = 0; retried = 0; moved_to_failed = 0; released = 0 }

-- No count passes the limit of the loop, which is a `usize`.
unfoldable pub count_outcome : ConsumeTally → SettleOutcome → ConsumeTally
count_outcome tally acknowledged = record tally { acknowledged = tally.acknowledged + 1 }
count_outcome tally retried = record tally { retried = tally.retried + 1 }
count_outcome tally moved_to_failed = record tally { moved_to_failed = tally.moved_to_failed + 1 }
count_outcome tally released = record tally { released = tally.released + 1 }

unfoldable pub incomplete : ConsumeTally → ℕ
incomplete tally = tally.retried + tally.moved_to_failed + tally.released

unfoldable pub tally_text : ConsumeTally → Bytes
unfolding decimal
tally_text tally =
    codes "completed: "
    ++ decimal 20 tally.acknowledged
    ++ codes ", returned for a retry: "
    ++ decimal 20 tally.retried
    ++ codes ", moved to failed: "
    ++ decimal 20 tally.moved_to_failed
    ++ (if ltb 0 tally.released
        then codes ", returned because the server stopped: " ++ decimal 20 tally.released
        else codes "")

abbrev pub or_max : Option ℕ → ℕ
or_max none = 2 ^ 64 - 1
or_max (some limit) = limit

-- The texts, the access to the output in the state, and the run of a command with its output.
pub record Host (S C : Type 0) (t : Terminal) : Type 0 where
  pub id_text : ℕ → Bytes
  pub command_error_text : CommandError → Bytes
  pub queue_error_text : QueueError → Bytes
  pub on_output : (Output t → Output t) → S → S
  pub run_command : C → S → CommandResult × S

module _ {S C : Type 0} (t : Terminal) (host : Host S C t) (codecs : Codecs)
    (registry : CommandRegistry C) (q : Queue S) where
  -- The token never fires.
  abbrev run_uncancelled : C → S → (CommandResult × Bool) × S
  run_uncancelled command s = let (result, s') = host.run_command command s in ((result, false), s')

  unfoldable pub process : Delivery → S → ProcessedDelivery × S
  unfolding process_delivery
  process d s = process_delivery codecs registry run_uncancelled q d false s

  abbrev error_line : Bytes → S → S
  error_line text s = host.on_output (λ o. Output.error_line t o text) s

  abbrev pub report : ℕ → Attempt → S → S
  report id succeeded s = s
  report id (command_failed e) s =
      error_line (codes "message " ++ host.id_text id ++ codes ": " ++ host.command_error_text e) s
  report id (unrunnable e) s =
      error_line
        (codes "could not build the command for message "
          ++ host.id_text id
          ++ codes ": "
          ++ host.queue_error_text e)
        s
  report id Processing.interrupted s =
      error_line
        (codes "message " ++ host.id_text id ++ codes ": " ++ host.command_error_text interrupted) s

  abbrev pub write_outcome : ℕ → SettleOutcome → S → S
  write_outcome id outcome s =
      host.on_output (λ o. Output.line t o (host.id_text id ++ codes ": " ++ label outcome)) s

  abbrev pub Counted : Type 0
  Counted = Result CommandError ConsumeTally × S

  abbrev pub settled_or_stop :
      ConsumeTally
      → ℕ
      → Result SettleError SettleOutcome
      → S
      → (ConsumeTally → S → Counted)
      → Counted
  settled_or_stop tally id (err e) s rest = (
    err (
        Error.failed (
          codes "stopped at message "
          ++ host.id_text id
          ++ codes " ("
          ++ tally_text tally
          ++ codes ")")),
    s,
  )
  settled_or_stop tally id (ok outcome) s rest =
      rest (count_outcome tally outcome) (write_outcome id outcome s)

  abbrev pub after_process :
      ConsumeTally → ProcessedDelivery × S → (ConsumeTally → S → Counted) → Counted
  after_process tally (processed, s) rest =
      settled_or_stop tally processed.message_id processed.settled
        (report processed.message_id processed.attempt s) rest

  abbrev pub after_dequeue :
      ConsumeTally
      → Result QueueError (Option Delivery) × S
      → (ConsumeTally → S → Counted)
      → Counted
  after_dequeue tally (err e, s) rest =
      (err (Error.failed (codes "could not dequeue (" ++ tally_text tally ++ codes ")")), s)
  after_dequeue tally (ok none, s) rest = (ok tally, s)
  after_dequeue tally (ok (some d), s) rest = after_process tally (process d s) rest

  -- `for _ in 0..limit`
  unfoldable pub consume_loop : ℕ → ConsumeTally → S → Counted
  unfolding process count_outcome tally_text dequeue
  consume_loop zero tally s = (ok tally, s)
  consume_loop (suc n) tally s =
      after_dequeue tally (dequeue q 0 s) (λ tally' s'. consume_loop n tally' s')

  abbrev pub finish : Counted → CommandResult × S
  finish (err e, s) = (err e, s)
  finish (ok tally, s) =
      if ltb 0 (incomplete tally)
      then (
        err (
            Error.failed
              (codes "some messages did not complete (" ++ tally_text tally ++ codes ")")),
        s,
      )
      else (ok tt, s)

  -- On the opened queue.
  unfoldable pub consume : Option ℕ → S → CommandResult × S
  unfolding consume_loop incomplete tally_text
  consume limit s = finish (consume_loop (or_max limit) no_messages s)
