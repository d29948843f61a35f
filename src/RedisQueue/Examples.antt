-- ===== src/RedisQueue/Examples.antt =====
-- Runs of the Redis driver of inengine-core/src/queue/driver/redis/mod.rs on a sample server.
use in_engine_net.Prelude.{
  ℕ, ◌+◌, ◌-◌, ◌≡◌, refl, min, some, [], ◌∷◌, map, take, drop, Bytes, bytes_eq, ok, arith, reverse,
  length, if◌then◌else◌,
}
use in_engine_net.Queue.Types.{primary, pending, in_progress, failed}
use in_engine_net.Queue.Sample.{sample, sample_json}
use in_engine_net.Queue.Spec
use in_engine_net.Queue.Spec.{Stages}
use in_engine_net.RedisQueue.Server.{contains}
use in_engine_net.RedisQueue.Keys.{stage_key}
use in_engine_net.RedisQueue.Driver
use in_engine_net.RedisQueue.Represents.{Represents, Answers}
use in_engine_net.RedisQueue.Represents.Requests.{
  moved, acknowledged, shown, Answers-publish, Answers-acknowledge, Answers-move_claimed,
  Answers-peek,
}
use in_engine_net.RedisQueue.Claiming.{delivery_of, Replies-dequeue}
use in_engine_net.RedisQueue.Recovering.{recover_lem, republish_failed_lem}
use in_engine_net.RedisQueue.Sample.{Lists, server, server-IsRedis}

abbrev name : Bytes
name = b'q' ∷ []

abbrev text : ℕ → Bytes
text id = id ∷ 1 ∷ 3 ∷ []

abbrev junk : Bytes
junk = b'?' ∷ []

-- An unreadable message and a readable one wait, one is claimed, two have failed.
abbrev stages : Stages
stages = record {
  pending = junk ∷ text 4 ∷ [];
  in_progress = text 5 ∷ [];
  failed = text 6 ∷ text 7 ∷ [];
}

abbrev lists : Lists
lists k =
    if bytes_eq (stage_key name primary pending) k
    then reverse stages.pending
    else if bytes_eq (stage_key name primary in_progress) k
    then stages.in_progress
    else if bytes_eq (stage_key name primary failed) k
    then reverse stages.failed
    else []

lists-Represents : Represents server name primary lists stages
unfolding stage_key bytes_eq
lists-Represents = record { pending_is = refl; in_progress_is = refl; failed_is = refl }

serialized : sample_json.to_vec (sample 8 0 3) ≡ ok (8 ∷ 0 ∷ 3 ∷ [])
unfolding bytes_eq
serialized = refl

Answers-publish_example :
    Answers server name primary tt stages
      (Spec.publish (8 ∷ 0 ∷ 3 ∷ []) stages)
      (Driver.publish server sample_json name primary (sample 8 0 3) lists)
Answers-publish_example =
    Answers-publish server sample_json name primary server-IsRedis (sample 8 0 3) (8 ∷ 0 ∷ 3 ∷ [])
      lists stages serialized lists-Represents

Answers-acknowledge_example :
    Answers server name primary
      (contains (text 5) stages.in_progress)
      stages
      (acknowledged (text 5) stages)
      (Driver.acknowledge server sample_json name primary (text 5) lists)
Answers-acknowledge_example =
    Answers-acknowledge server sample_json name primary server-IsRedis (text 5) lists stages
      lists-Represents

Answers-move_claimed_example :
    Answers server name primary
      (contains (text 5) stages.in_progress)
      stages
      (moved (text 5) failed (8 ∷ 0 ∷ 3 ∷ []) stages)
      (Driver.move_claimed server sample_json name primary (text 5) (sample 8 0 3) failed lists)
Answers-move_claimed_example =
    Answers-move_claimed server sample_json name primary server-IsRedis (text 5) (sample 8 0 3)
      failed (8 ∷ 0 ∷ 3 ∷ []) lists stages serialized lists-Represents

Answers-peek_example :
    Answers server name primary
      (map
        (shown sample_json.from_slice)
        (take (3 + 1 - 1) (drop 1 (Spec.oldest_first pending stages))))
      stages
      stages
      (Driver.peek server sample_json name primary pending 1 3 lists)
Answers-peek_example =
    Answers-peek server sample_json name primary server-IsRedis pending 1 3 lists stages
      (omega arith) (omega arith) lists-Represents

Replies-dequeue_example :
    ((Driver.dequeue server sample_json name primary 3 (λ round. round) 10 lists).0
      ≡ some (ok (delivery_of primary (Spec.claim sample_json.from_slice stages).0)))
    × Represents server name primary
        (Driver.dequeue server sample_json name primary 3 (λ round. round) 10 lists).1
        (Spec.claim sample_json.from_slice stages).1
Replies-dequeue_example =
    Replies-dequeue server sample_json name primary server-IsRedis (λ s. refl) 3 (λ round. round) 10
      lists stages (omega arith) lists-Represents

-- The unreadable message is passed over.
claimed_text : (Spec.claim sample_json.from_slice stages).0 ≡ some (text 4, sample 4 1 3)
unfolding Spec.claim
claimed_text = refl

recover_lem_example :
    ((Driver.recover server sample_json name primary 2 lists).0 ≡ some (ok 1))
    × Represents server name primary
        (Driver.recover server sample_json name primary 2 lists).1
        (Spec.recover stages)
recover_lem_example =
    recover_lem server sample_json name primary server-IsRedis (λ s. refl) 2 lists stages
      (omega arith) (omega arith) lists-Represents

republish_failed_lem_example :
    ((Driver.republish_failed server sample_json name primary 3 1 lists).0
      ≡ some (ok (min 1 (length stages.failed))))
    × Represents server name primary
        (Driver.republish_failed server sample_json name primary 3 1 lists).1
        (Spec.republish 1 stages)
republish_failed_lem_example =
    republish_failed_lem server sample_json name primary server-IsRedis (λ s. refl) 3 1 lists stages
      (omega arith) lists-Represents
