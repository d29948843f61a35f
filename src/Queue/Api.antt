-- ===== src/Queue/Api.antt =====
-- inengine-core/src/queue/mod.rs: the queue over one of two drivers. A driver's operations act on a
-- state: the disk for the file driver, the server's keys for the Redis driver.
use Prim.Native.String.{String}
use in_engine_net.Prelude.{
  ℕ, ◌-◌, Bool, true, false, List, [], Option, Bytes, Result, ok, err, if◌then◌else◌, ltb,
}
use in_engine_net.Std.Lossy.{from_utf8_lossy}
use in_engine_net.Error.{QueueError}
use in_engine_net.Queue.Types.{
  QueueLane, Stage, pending, failed, lane_eq, QueueLengths, QueueDriver,
}
use in_engine_net.Queue.Envelope.{Envelope, Json}
use in_engine_net.Queue.Delivery.{Delivery, Receipt, SettleError, rejected, lost, interrupted}

pub data PeekedMessage : Type 0 where
  envelope : Envelope → PeekedMessage
  malformed : Bytes → String → PeekedMessage

-- `PeekedMessage::parse`
unfoldable pub parse : Json → Bytes → PeekedMessage
parse json raw = elim (json.from_slice raw) [
  | ok e ↦ envelope e
  | err e ↦ malformed (from_utf8_lossy raw) e
]

abbrev pub Action : Type 0 → Type 0 → Type 0
Action S A = S → Result QueueError A × S

-- A delivery leaves a claim with the driver's receipt; acknowledge and move take it back.
pub record Driver (S : Type 0) : Type 0 where
  pub lane : QueueLane
  pub publish : Envelope → Action S (Unit {0})
  pub dequeue : ℕ → Action S (Option Delivery)
  pub acknowledge : Bytes → Action S Bool
  pub move_claimed : Bytes → Envelope → Stage → Action S Bool
  pub recover : Action S ℕ
  pub lengths : Action S QueueLengths
  pub clear : Stage → Action S ℕ
  pub peek : Stage → ℕ → ℕ → Action S (List PeekedMessage)
  pub republish_failed : ℕ → Action S ℕ

pub data Queue (S : Type 0) : Type 0 where
  file : Driver S → Queue S
  redis : Driver S → Queue S

-- The release takes one from the attempts; a `saturating_sub` on a `u32`.
unfoldable pub uncount_attempt : Delivery → Delivery
uncount_attempt d = record d { envelope = record d.envelope { attempts = d.envelope.attempts - 1 } }

unfoldable pub settle_result : Delivery → Result QueueError Bool → Result SettleError (Unit {0})
settle_result d (ok true) = ok tt
settle_result d (ok false) = err lost
settle_result d (err e) = err (interrupted d e)

module _ {S : Type 0} where
  abbrev opened :
      (Driver S → Queue S) → Result QueueError (Driver S) × S → Result QueueError (Queue S) × S
  opened backend (ok d, s) = (ok (backend d), s)
  opened backend (err e, s) = (err e, s)

  -- `Queue::open`, with what opens a driver of each kind.
  unfoldable pub open_queue :
      QueueDriver → Action S (Driver S) → Action S (Driver S) → Action S (Queue S)
  open_queue QueueDriver.file open_file open_redis s = opened file (open_file s)
  open_queue QueueDriver.redis open_file open_redis s = opened redis (open_redis s)

  abbrev driver : Queue S → Driver S
  driver (file d) = d
  driver (redis d) = d

  unfoldable pub lane : Queue S → QueueLane
  lane q = (driver q).lane

  unfoldable pub publish : Queue S → Envelope → Action S (Unit {0})
  publish q e = (driver q).publish e

  unfoldable pub dequeue : Queue S → ℕ → Action S (Option Delivery)
  dequeue q wait = (driver q).dequeue wait

  unfoldable pub owns : Queue S → Delivery → Bool
  unfolding lane
  owns q d = lane_eq d.lane (lane q)

  abbrev pub if_owned : Queue S → Delivery → Action S Bool → S → Result SettleError (Unit {0}) × S
  if_owned q d call s =
      if owns q d then (let (r, s') = call s in (settle_result d r, s')) else (err (rejected d), s)

  abbrev pub by_receipt :
      Queue S
      → Receipt
      → Delivery
      → (Driver S → Bytes → Action S Bool)
      → S
      → Result SettleError (Unit {0}) × S
  by_receipt (file drv) (Receipt.file name) d call s = if_owned (file drv) d (call drv name) s
  by_receipt (redis drv) (Receipt.redis element) d call s =
      if_owned (redis drv) d (call drv element) s
  by_receipt _ _ d call s = (err (rejected d), s)

  -- The match of a settle: a receipt of the driver's kind, on the queue's lane.
  unfoldable pub with_receipt :
      Queue S
      → Delivery
      → (Driver S → Bytes → Action S Bool)
      → S
      → Result SettleError (Unit {0}) × S
  unfolding owns settle_result
  with_receipt q d call s = by_receipt q d.receipt d call s

  unfoldable pub acknowledge : Queue S → Delivery → S → Result SettleError (Unit {0}) × S
  unfolding with_receipt
  acknowledge q d s = with_receipt q d (λ driver receipt. driver.acknowledge receipt) s

  unfoldable pub move_claimed : Queue S → Delivery → Stage → S → Result SettleError (Unit {0}) × S
  unfolding with_receipt
  move_claimed q d target s =
      with_receipt q d (λ driver receipt. driver.move_claimed receipt d.envelope target) s

  unfoldable pub retry : Queue S → Delivery → S → Result SettleError (Unit {0}) × S
  unfolding move_claimed
  retry q d s = move_claimed q d pending s

  unfoldable pub move_to_failed : Queue S → Delivery → S → Result SettleError (Unit {0}) × S
  unfolding move_claimed
  move_to_failed q d s = move_claimed q d failed s

  unfoldable pub release : Queue S → Delivery → S → Result SettleError (Unit {0}) × S
  unfolding move_claimed uncount_attempt
  release q d s = move_claimed q (uncount_attempt d) pending s

  unfoldable pub recover : Queue S → Action S ℕ
  recover q = (driver q).recover

  unfoldable pub lengths : Queue S → Action S QueueLengths
  lengths q = (driver q).lengths

  unfoldable pub clear : Queue S → Stage → Action S ℕ
  clear q stage = (driver q).clear stage

  unfoldable pub peek : Queue S → Stage → ℕ → ℕ → Action S (List PeekedMessage)
  peek q stage first last s =
      if ltb last first then (ok [], s) else (driver q).peek stage first last s

  unfoldable pub republish_failed : Queue S → ℕ → Action S ℕ
  republish_failed q limit = (driver q).republish_failed limit
