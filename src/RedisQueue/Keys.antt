-- ===== src/RedisQueue/Keys.antt =====
-- The Redis keys of inengine-core/src/queue/driver/redis/mod.rs.
use in_engine_net.Prelude.{◌≡◌, refl, ◌∙◌, ◌∷◌, ◌++◌, Bytes, bytes_eq, bytes_eq-append}
use in_engine_net.Queue.Types.{
  QueueLane, Stage, pending, in_progress, failed, lane_as_str, stage_as_str, stage_eq,
}

-- `format!("{queue_name}:{}:{}", lane.as_str(), stage.as_str())`
unfoldable pub stage_key : Bytes → QueueLane → Stage → Bytes
unfolding lane_as_str stage_as_str
stage_key queue_name lane stage = queue_name ++ b':' ∷ lane_as_str lane ++ b':' ∷ stage_as_str stage

stages : (a b : Stage) → bytes_eq (b':' ∷ stage_as_str a) (b':' ∷ stage_as_str b) ≡ stage_eq a b
unfolding bytes_eq stage_as_str
stages pending pending = refl
stages pending in_progress = refl
stages pending failed = refl
stages in_progress pending = refl
stages in_progress in_progress = refl
stages in_progress failed = refl
stages failed pending = refl
stages failed in_progress = refl
stages failed failed = refl

-- Two stages of one lane have different keys.
pub bytes_eq-stage_key :
    (queue_name : Bytes) (lane : QueueLane) (a b : Stage)
    → bytes_eq (stage_key queue_name lane a) (stage_key queue_name lane b) ≡ stage_eq a b
unfolding stage_key
bytes_eq-stage_key queue_name lane a b =
    bytes_eq-append (queue_name ++ b':' ∷ lane_as_str lane) (b':' ∷ stage_as_str a)
      (b':' ∷ stage_as_str b)
    ∙ stages a b
