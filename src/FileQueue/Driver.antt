-- ===== src/FileQueue/Driver.antt =====
-- inengine-core/src/queue/driver/file/mod.rs: the store's calls on the pool of blocking threads,
-- which is a parameter with the clock. Times are milliseconds.
pub mod Polling
mod Examples
use in_engine_net.Prelude.{
  ℕ, zero, suc, ◌+◌, ◌-◌, ◌≤◌, ◌==◌, min, Bool, true, false, Option, none, some, List, Bytes,
  Result, ok, err, if◌then◌else◌,
}
use in_engine_net.Error.{QueueError, io, other}
use in_engine_net.Queue.Types.{QueueLane, Stage, QueueLengths}
use in_engine_net.Queue.Envelope.{Envelope, Json}
use in_engine_net.Queue.Delivery.{Delivery}
use in_engine_net.Queue.Api.{Action, PeekedMessage}
use in_engine_net.Command.{checked_add}
use in_engine_net.FileQueue.Prog.{Prog}
use in_engine_net.FileQueue.Store
use in_engine_net.FileQueue.Claim.{claim_oldest}
use in_engine_net.FileQueue.Settle
use in_engine_net.FileQueue.Bulk
use in_engine_net.FileQueue.Peek

abbrev pub poll_interval : ℕ
poll_interval = 1_000

-- A task gives its result, or the text of a `JoinError` when it panics.
pub record Pool (S : Type 0) : Type 1 where
  pub spawn_blocking : {A : Type 0} → Prog A → S → Result Bytes (Result QueueError A) × S
  pub now : S → ℕ × S
  pub sleep : ℕ → S → S

-- Time passes, and a sleep lasts at least its length.
pub record IsTimed {S : Type 0} (pool : Pool S) (time : S → ℕ) : Type 1 where
  pub spawn_blocking_later :
      {A : Type 0} (task : Prog A) (s : S) → time s ≤ time (pool.spawn_blocking task s).1
  pub now_from : (s : S) → time s ≤ (pool.now s).0
  pub now_to : (s : S) → (pool.now s).0 ≤ time (pool.now s).1
  pub sleep_later : (d : ℕ) (s : S) → time s + d ≤ time (pool.sleep d s)

-- `map_err` and `?` of the join error
abbrev pub joined :
    {S A : Type 0} → Result Bytes (Result QueueError A) × S → Result QueueError A × S
joined (ok result, s) = (result, s)
joined (err text, s) = (err (io (other 0)), s)

module _ {S : Type 0} (pool : Pool S) where
  unfoldable pub on_blocking_pool : {A : Type 0} → Prog A → Action S A
  on_blocking_pool task s = joined (pool.spawn_blocking task s)

  unfoldable pub call_store : {A : Type 0} → Prog A → Action S A
  unfolding on_blocking_pool
  call_store call s = on_blocking_pool call s

  unfoldable pub open_driver : Action S (Unit {0})
  unfolding on_blocking_pool
  open_driver s = on_blocking_pool Store.open_store s

module _ {S : Type 0} (pool : Pool S) (json : Json) (lane : QueueLane) where
  unfoldable pub publish : Envelope → Action S (Unit {0})
  unfolding call_store
  publish envelope s = call_store pool (Store.publish json envelope) s

  abbrev pub Polled : Type 0
  Polled = Option (Result QueueError (Option Delivery) × S)

  abbrev remaining : Option ℕ → S → ℕ × S
  remaining none s = (poll_interval, s)
  remaining (some deadline) s = let (t, s') = pool.now s in (deadline - t, s')

  abbrev pub wait_or_stop : ℕ × S → (S → Polled) → Polled
  wait_or_stop (left, s) rest =
      if left == 0 then some (ok none, s) else rest (pool.sleep (min left poll_interval) s)

  abbrev pub after_claim :
      Option ℕ → Result QueueError (Option Delivery) × S → (S → Polled) → Polled
  after_claim deadline (err e, s) rest = some (err e, s)
  after_claim deadline (ok (some delivery), s) rest = some (ok (some delivery), s)
  after_claim deadline (ok none, s) rest = wait_or_stop (remaining deadline s) rest

  -- The loop, on fuel: `none` when the fuel is used up.
  unfoldable pub poll : ℕ → Option ℕ → S → Polled
  unfolding call_store
  poll zero deadline s = none
  poll (suc fuel) deadline s =
      after_claim deadline (call_store pool (claim_oldest json lane) s)
        (λ s'. poll fuel deadline s')

  -- `last` is the last instant of the clock.
  unfoldable pub dequeue : ℕ → ℕ → ℕ → S → Polled
  unfolding poll
  dequeue fuel last wait s =
      let (start, s') = pool.now s in poll fuel (checked_add last start wait) s'

  unfoldable pub acknowledge : Bytes → Action S Bool
  unfolding call_store
  acknowledge name s = call_store pool (Settle.acknowledge name) s

  unfoldable pub move_claimed : Bytes → Envelope → Stage → Action S Bool
  unfolding call_store
  move_claimed name envelope target s =
      call_store pool (Settle.move_claimed json name envelope target) s

  unfoldable pub recover : Action S ℕ
  unfolding call_store
  recover s = call_store pool Bulk.recover s

  unfoldable pub lengths : Action S QueueLengths
  unfolding call_store
  lengths s = call_store pool Bulk.lengths s

  unfoldable pub clear : Stage → Action S ℕ
  unfolding call_store
  clear stage s = call_store pool (Bulk.clear stage) s

  unfoldable pub peek : Stage → ℕ → ℕ → Action S (List PeekedMessage)
  unfolding call_store
  peek stage first last s = call_store pool (Peek.peek json stage first last) s

  unfoldable pub republish_failed : ℕ → Action S ℕ
  unfolding call_store
  republish_failed limit s = call_store pool (Bulk.republish_failed limit) s
