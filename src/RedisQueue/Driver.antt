-- ===== src/RedisQueue/Driver.antt =====
-- inengine-core/src/queue/driver/redis/mod.rs: the requests of the Redis driver. The connection is
-- opened by the redis crate, and is a parameter with the server.
use Prim.Native.String.{String}
use in_engine_net.Prelude.{
  ℕ, zero, suc, ◌+◌, ◌-◌, ◌^◌, min, ltb, ◌==◌, Bool, Option, none, some, List, map, Bytes, Result,
  ok, err, if◌then◌else◌, reverse,
}
use in_engine_net.Error.{QueueError, serialization}
use in_engine_net.Error
use in_engine_net.Queue.Types.{QueueLane, Stage, pending, in_progress, failed, QueueLengths}
use in_engine_net.Queue.Envelope.{Envelope, Json, count_attempt}
use in_engine_net.Queue.Delivery.{Delivery, Receipt}
use in_engine_net.Queue.Api.{PeekedMessage, parse, Action}
use in_engine_net.RedisQueue.Server.{
  End, left, right, Fate, delivered, not_sent, reply_lost, Server,
}
use in_engine_net.RedisQueue.Keys.{stage_key}
use in_engine_net.RedisQueue.Scripts.{move_if_present_script, bulk_move_script}

-- Times are in milliseconds.
abbrev pub max_blocking_wait : ℕ
max_blocking_wait = 30_000 - 5_000

abbrev pub bulk_move_batch_size : ℕ
bulk_move_batch_size = 1000

abbrev pub answer : {S A : Type 0} → Fate → A × S → S → Result QueueError A × S
answer delivered (a, s') s = (ok a, s')
answer (not_sent e) (a, s') s = (err (Error.redis e), s)
answer (reply_lost e) (a, s') s = (err (Error.redis e), s')

abbrev pub serialized : {S A : Type 0} → Result String Bytes → (Bytes → Action S A) → Action S A
serialized (ok b) f s = f b s
serialized (err e) f s = (err (serialization e), s)

abbrev pub map_ok : {S A B : Type 0} → (A → B) → Result QueueError A × S → Result QueueError B × S
map_ok f (ok a, s) = (ok (f a), s)
map_ok f (err e, s) = (err e, s)

abbrev pub after_batch :
    {S : Type 0}
    → Result QueueError ℕ × S
    → ℕ
    → ℕ
    → (ℕ → S → Option (Result QueueError ℕ) × S)
    → Option (Result QueueError ℕ) × S
after_batch (err e, s) batch moved rest = (some (err e), s)
after_batch (ok count, s) batch moved rest =
    if ltb count batch then (some (ok (moved + count)), s) else rest (moved + count) s

module _ {S : Type 0} (r : Server S) where
  -- `query_async` and `invoke_async`
  unfoldable pub query : {A : Type 0} → (S → A × S) → Action S A
  query command s = let (fate, s') = r.connect s in answer fate (command s') s'

  -- The loop, on fuel: `none` when the fuel is used up.
  unfoldable pub bulk_move :
      ℕ → Bytes → Bytes → End → End → ℕ → ℕ → S → Option (Result QueueError ℕ) × S
  unfolding query bulk_move_script
  bulk_move zero source destination from to limit moved s = (none, s)
  bulk_move (suc fuel) source destination from to limit moved s =
      let batch = min (limit - moved) bulk_move_batch_size in
      let rest =
        λ (moved' : ℕ) (s' : S). bulk_move fuel source destination from to limit moved' s' in
      if ltb moved limit
      then after_batch (query (bulk_move_script r batch 0 source destination from to) s) batch moved
          rest
      else (some (ok moved), s)

module _ {S : Type 0} (r : Server S) (json : Json) (queue_name : Bytes) (lane : QueueLane) where
  abbrev pub key : Stage → Bytes
  key = stage_key queue_name lane

  unfoldable pub publish : Envelope → Action S (Unit {0})
  unfolding query stage_key
  publish envelope =
      serialized (json.to_vec envelope) (λ text. query r (λ s. (tt, r.lpush (key pending) text s)))

  unfoldable pub acknowledge : Bytes → Action S Bool
  unfolding query stage_key
  acknowledge element s =
      map_ok (λ removed. removed == 1) (query r (r.lrem (key in_progress) element) s)

  unfoldable pub move_if_present : Bytes → Stage → Bytes → Action S Bool
  unfolding query stage_key move_if_present_script
  move_if_present element destination replacement s =
      map_ok (λ moved. moved == 1)
        (query r (move_if_present_script r (key in_progress) (key destination) element replacement)
          s)

  unfoldable pub move_claimed : Bytes → Envelope → Stage → Action S Bool
  unfolding move_if_present
  move_claimed element envelope target =
      serialized (json.to_vec envelope) (λ updated. move_if_present element target updated)

  -- A blocking claim where there is time left.
  unfoldable pub claim_element : ℕ → Action S (Option Bytes)
  unfolding query stage_key
  claim_element wait = query r (
      if wait == 0
      then r.lmove (key pending) (key in_progress) right left
      else r.blmove (key pending) (key in_progress) right left wait)

  -- Failures of this move are only logged.
  unfoldable pub move_unreadable_to_failed : Bytes → S → S
  unfolding move_if_present
  move_unreadable_to_failed element s = (move_if_present element failed element s).1

  abbrev pub parse_element :
      Bytes
      → Result String Envelope
      → S
      → (S → Option (Result QueueError (Option Delivery)) × S)
      → Option (Result QueueError (Option Delivery)) × S
  parse_element element (ok envelope) s rest = (
    some (
        ok (
          some (record {
            envelope = count_attempt envelope;
            lane = lane;
            receipt = Receipt.redis element;
          }))),
    s,
  )
  parse_element element (err e) s rest = rest (move_unreadable_to_failed element s)

  abbrev pub after_claim :
      Result QueueError (Option Bytes) × S
      → (S → Option (Result QueueError (Option Delivery)) × S)
      → Option (Result QueueError (Option Delivery)) × S
  after_claim (err e, s) rest = (some (err e), s)
  after_claim (ok none, s) rest = (some (ok none), s)
  after_claim (ok (some element), s) rest = parse_element element (json.from_slice element) s rest

  -- The loop, on fuel: `none` when the fuel is used up. `remaining n` is the time left in round
  -- `n`.
  unfoldable pub dequeue_loop :
      ℕ → (ℕ → ℕ) → ℕ → S → Option (Result QueueError (Option Delivery)) × S
  unfolding claim_element move_unreadable_to_failed
  dequeue_loop zero remaining round s = (none, s)
  dequeue_loop (suc fuel) remaining round s =
      after_claim (claim_element (remaining round) s)
        (λ s'. dequeue_loop fuel remaining (round + 1) s')

  -- `now n` is the time at which round `n` starts, counted from the call.
  unfoldable pub dequeue : ℕ → (ℕ → ℕ) → ℕ → S → Option (Result QueueError (Option Delivery)) × S
  unfolding dequeue_loop
  dequeue fuel now wait s = dequeue_loop fuel (λ round. min wait max_blocking_wait - now round) 0 s

  unfoldable pub lengths : Action S QueueLengths
  unfolding query stage_key
  lengths = query r (λ s. (
    record {
      pending = r.llen (key pending) s;
      in_progress = r.llen (key in_progress) s;
      failed = r.llen (key failed) s;
    },
    s,
  ))

  unfoldable pub clear : Stage → Action S ℕ
  unfolding query stage_key
  clear stage = query r (λ s. (r.llen (key stage) s, r.del (key stage) s))

  abbrev index_limit : ℕ
  index_limit = 2 ^ 63 - 1 - 1

  unfoldable pub peek : Stage → ℕ → ℕ → Action S (List PeekedMessage)
  unfolding query stage_key
  peek stage first last s =
      map_ok (λ elements. map (parse json) (reverse elements))
        (query r
          (λ s'.
            (r.lrange (key stage) (min last index_limit + 1) (min first index_limit + 1) s', s'))
          s)

  unfoldable pub recover : ℕ → S → Option (Result QueueError ℕ) × S
  unfolding bulk_move stage_key
  recover fuel s = bulk_move r fuel (key in_progress) (key pending) left right (2 ^ 64 - 1) 0 s

  unfoldable pub republish_failed : ℕ → ℕ → S → Option (Result QueueError ℕ) × S
  unfolding bulk_move stage_key
  republish_failed fuel limit s = bulk_move r fuel (key failed) (key pending) right left limit 0 s
