-- ===== src/RedisQueue/Recovering.antt =====
-- `recover` and `republish_failed` of inengine-core/src/queue/driver/redis/mod.rs against what a
-- lane of the queue promises, on a connection that does not fail.
use in_engine_net.Prelude.{
  ℕ, ◌-◌, ◌<◌, ◌^◌, min, ◌≡◌, refl, ap, ◌∙◌, ◌++◌, some, Bytes, ok, arith, reverse, reverse-append,
  length, take, drop, take_all, drop_all,
}
use in_engine_net.Queue.Types.{QueueLane, in_progress, failed, pending}
use in_engine_net.Queue.Envelope.{Json}
use in_engine_net.Queue.Spec
use in_engine_net.Queue.Spec.{Stages}
use in_engine_net.RedisQueue.Server.{Server, IsRedis, IsReliable, left, right}
use in_engine_net.RedisQueue.Keys.{stage_key, bytes_eq-stage_key}
use in_engine_net.RedisQueue.Driver
use in_engine_net.RedisQueue.Represents.{Represents}
use in_engine_net.RedisQueue.Batches.{Done-bulk_move}

module _ {S : Type 0} (r : Server S) (json : Json) (queue_name : Bytes) (lane : QueueLane)
    (laws : IsRedis r) (reliable : IsReliable r) where
  -- With fuel for one more batch than there are claimed messages, a recovery of fewer than 2 ^ 64
  -- claimed messages puts them all before the pending ones, oldest claim first, and counts them.
  pub recover_lem :
      (fuel : ℕ) (s : S) (q : Stages)
      → length q.in_progress < fuel
      → length q.in_progress < 2 ^ 64
      → Represents r queue_name lane s q
      → ((Driver.recover r json queue_name lane fuel s).0 ≡ some (ok (length q.in_progress)))
        × Represents r queue_name lane
            (Driver.recover r json queue_name lane fuel s).1
            (Spec.recover q)
  unfolding Driver.recover Spec.recover
  recover_lem fuel s q b small h =
      let done =
        Done-bulk_move r laws (stage_key queue_name lane in_progress)
          (stage_key queue_name lane pending) (stage_key queue_name lane failed) left right
          (bytes_eq-stage_key queue_name lane in_progress pending)
          (bytes_eq-stage_key queue_name lane in_progress failed)
          (bytes_eq-stage_key queue_name lane pending failed) reliable fuel (2 ^ 64 - 1) 0
          q.in_progress (r.list s (stage_key queue_name lane pending))
          (r.list s (stage_key queue_name lane failed)) s b
          (record { leaving_is = h.in_progress_is; entering_is = refl; third_is = refl }) in
      (
        done.0 ∙ ap (λ (n : ℕ). some (ok n)) (omega arith),
        record {
          pending_is =
              ap reverse (
                done.1.entering_is
                ∙ ap (r.list s (stage_key queue_name lane pending) ++◌)
                    (take_all (2 ^ 64 - 1 - 0) q.in_progress (omega arith)))
              ∙ reverse-append (r.list s (stage_key queue_name lane pending)) q.in_progress
              ∙ ap (reverse q.in_progress ++◌) h.pending_is;
          in_progress_is =
              done.1.leaving_is ∙ drop_all (2 ^ 64 - 1 - 0) q.in_progress (omega arith);
          failed_is = ap reverse done.1.third_is ∙ h.failed_is;
        },
      )

  -- With fuel for one more batch than there are failed messages, a republish moves the oldest
  -- failed messages, as many as the limit allows, to the end of the pending stage in their order,
  -- and counts them.
  pub republish_failed_lem :
      (fuel limit : ℕ) (s : S) (q : Stages)
      → length q.failed < fuel
      → Represents r queue_name lane s q
      → ((Driver.republish_failed r json queue_name lane fuel limit s).0
          ≡ some (ok (min limit (length q.failed))))
        × Represents r queue_name lane
            (Driver.republish_failed r json queue_name lane fuel limit s).1
            (Spec.republish limit q)
  unfolding Driver.republish_failed Spec.republish
  republish_failed_lem fuel limit s q b h =
      let done =
        Done-bulk_move r laws (stage_key queue_name lane failed) (stage_key queue_name lane pending)
          (stage_key queue_name lane in_progress) right left
          (bytes_eq-stage_key queue_name lane failed pending)
          (bytes_eq-stage_key queue_name lane failed in_progress)
          (bytes_eq-stage_key queue_name lane pending in_progress) reliable fuel limit 0 q.failed
          q.pending q.in_progress s b
          (record {
            leaving_is = h.failed_is;
            entering_is = h.pending_is;
            third_is = h.in_progress_is;
          }) in
      (
        done.0 ∙ ap (λ (n : ℕ). some (ok n)) (omega arith),
        record {
          pending_is =
              done.1.entering_is
              ∙ ap (λ (n : ℕ). q.pending ++ take n q.failed) {y = limit} (omega arith);
          in_progress_is = done.1.third_is;
          failed_is = done.1.leaving_is ∙ ap (λ (n : ℕ). drop n q.failed) {y = limit} (omega arith);
        },
      )
