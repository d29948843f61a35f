-- ===== src/Server/Consumers/Running.antt =====
-- inengine-core/src/server/consumers.rs: the loop of one consumer.
use in_engine_net.Prelude.{
  ℕ, zero, suc, ◌+◌, Bool, Option, none, some, List, [], ◌∷◌, Result, ok, err, if◌then◌else◌,
}
use in_engine_net.Error.{QueueError}
use in_engine_net.Queue.Delivery.{Delivery}
use in_engine_net.Queue.Registry.{CommandRegistry}
use in_engine_net.Queue.Compression.{Codecs}
use in_engine_net.Queue.Api
use in_engine_net.Queue.Api.{Queue}
use in_engine_net.Queue.Processing.{Run, ProcessedDelivery, kind, process_delivery}
use in_engine_net.Server.Consumers.{Ending, settle_until_done}
use in_engine_net.Server.Consumers.Starting.{Opening, Opened, open_with_retry}

-- `DEQUEUE_WAIT`, in milliseconds
abbrev pub dequeue_wait : ℕ
dequeue_wait = 5_000

-- What one round of a consumer sees of the token: at its check, before a command, during the sleep
-- after a failed dequeue, and during the settle's sleeps.
pub record Token : Type 0 where
  pub fired : ℕ → Bool
  pub fired_before_run : ℕ → Bool
  pub sleep_fired : ℕ → Bool
  pub settle_fired : ℕ → ℕ → Bool

module _ {S C : Type 0} (codecs : Codecs) (registry : CommandRegistry C) (run : ℕ → Run S C)
    (token : Token) (tries : ℕ) where
  abbrev pub Consumed : Type 0
  Consumed = Option (List Ending) × S

  abbrev settle_processed : Queue S → ℕ → ProcessedDelivery × S → Option Ending × S
  settle_processed q round (processed, s) =
      settle_until_done tries q (kind processed.attempt) (token.settle_fired round) 0
        processed.settled s

  -- The settle runs on the fuel `tries`.
  unfoldable pub process : Queue S → ℕ → Delivery → S → Option Ending × S
  unfolding process_delivery kind settle_until_done
  process q round d s =
      settle_processed q round
        (process_delivery codecs registry (run round) q d (token.fired_before_run round) s)

  abbrev pub add_ending : Ending → Consumed → Consumed
  add_ending e (none, s) = (none, s)
  add_ending e (some es, s) = (some (e ∷ es), s)

  abbrev pub after_process : Option Ending × S → (S → Consumed) → Consumed
  after_process (none, s) rest = (none, s)
  after_process (some e, s) rest = add_ending e (rest s)

  abbrev pub after_dequeue :
      Queue S → ℕ → Result QueueError (Option Delivery) × S → (S → Consumed) → Consumed
  after_dequeue q round (ok (some d), s) rest = after_process (process q round d s) rest
  after_dequeue q round (ok none, s) rest = rest s
  after_dequeue q round (err e, s) rest = if token.sleep_fired round then (some [], s) else rest s

  -- The loop, on fuel, with how each message that it dequeued ended.
  unfoldable pub consume : ℕ → Queue S → ℕ → S → Consumed
  consume zero q round s = (none, s)
  consume (suc fuel) q round s =
      if token.fired round
      then (some [], s)
      else after_dequeue q round (Api.dequeue q dequeue_wait s)
          (λ s'. consume fuel q (round + 1) s')

  abbrev pub after_open : ℕ → Opened S → Consumed
  after_open fuel (none, s) = (none, s)
  after_open fuel (some none, s) = (some [], s)
  after_open fuel (some (some q), s) = consume fuel q 0 s

  unfoldable pub run_consumer :
      (open_queue : ℕ → S → Opening S × S) (sleep_fired : ℕ → Bool) → ℕ → ℕ → S → Consumed
  unfolding consume
  run_consumer open_queue sleep_fired opens fuel s =
      after_open fuel (open_with_retry open_queue sleep_fired opens 0 s)
