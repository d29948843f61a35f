-- ===== src/Queue/Delivery.antt =====
-- inengine-core/src/queue/delivery.rs: a claimed message, and what a consumer does with it.
use in_engine_net.Prelude.{Option, none, some, Bytes, if◌then◌else◌, codes}
use in_engine_net.Error.{QueueError}
use in_engine_net.Queue.Types.{QueueLane}
use in_engine_net.Queue.Envelope.{Envelope, has_retries_left}

-- The redis receipt is the exact bytes that the claim returned.
pub data Receipt : Type 0 where
  file : Bytes → Receipt
  redis : Bytes → Receipt

pub record Delivery : Type 0 where
  pub envelope : Envelope
  pub lane : QueueLane
  pub receipt : Receipt

pub data SettleError : Type 0 where
  lost : SettleError
  rejected : Delivery → SettleError
  interrupted : Delivery → QueueError → SettleError

-- `SettleError::into_delivery`
unfoldable pub into_delivery : SettleError → Option Delivery
into_delivery lost = none
into_delivery (rejected d) = some d
into_delivery (interrupted d e) = some d

pub data AttemptKind : Type 0 where
  succeeded : AttemptKind
  command_failed : AttemptKind
  unrunnable : AttemptKind
  interrupted : AttemptKind

pub data SettleAction : Type 0 where
  acknowledge : SettleAction
  retry : SettleAction
  move_to_failed : SettleAction
  release : SettleAction

pub data SettleOutcome : Type 0 where
  acknowledged : SettleOutcome
  retried : SettleOutcome
  moved_to_failed : SettleOutcome
  released : SettleOutcome

-- `SettleAction::for_attempt`
unfoldable pub for_attempt : AttemptKind → Envelope → SettleAction
for_attempt succeeded e = acknowledge
for_attempt command_failed e = if has_retries_left e then retry else move_to_failed
for_attempt unrunnable e = move_to_failed
for_attempt interrupted e = release

-- `SettleOutcome::label`
unfoldable pub label : SettleOutcome → Bytes
label acknowledged = codes "completed"
label retried = codes "returned to pending for a retry"
label moved_to_failed = codes "moved to failed"
label released = codes "returned to pending because the server is stopping"
