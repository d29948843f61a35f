-- ===== src/Queue/Types.antt =====
-- The vocabulary of inengine-core/src/queue/mod.rs: lanes, stages and lengths.
use in_engine_net.Prelude.{ℕ, Bool, true, false, List, [], ◌∷◌, Bytes, codes}

pub data QueueLane : Type 0 where
  primary : QueueLane
  secondary : QueueLane

pub data Stage : Type 0 where
  pending : Stage
  in_progress : Stage
  failed : Stage

unfoldable pub all_lanes : List QueueLane
all_lanes = primary ∷ secondary ∷ []

unfoldable pub all_stages : List Stage
all_stages = pending ∷ in_progress ∷ failed ∷ []

unfoldable pub lane_as_str : QueueLane → Bytes
lane_as_str primary = codes "Primary"
lane_as_str secondary = codes "Secondary"

unfoldable pub stage_as_str : Stage → Bytes
stage_as_str pending = codes "Pending"
stage_as_str in_progress = codes "InProgress"
stage_as_str failed = codes "Failed"

unfoldable pub stage_label : Stage → Bytes
stage_label pending = codes "pending"
stage_label in_progress = codes "in-progress"
stage_label failed = codes "failed"

abbrev pub lane_eq : QueueLane → QueueLane → Bool
lane_eq primary primary = true
lane_eq secondary secondary = true
lane_eq _ _ = false

abbrev pub stage_eq : Stage → Stage → Bool
stage_eq pending pending = true
stage_eq in_progress in_progress = true
stage_eq failed failed = true
stage_eq _ _ = false

pub record QueueLengths : Type 0 where
  pub pending : ℕ
  pub in_progress : ℕ
  pub failed : ℕ

-- `config::QueueDriver`
pub data QueueDriver : Type 0 where
  file : QueueDriver
  redis : QueueDriver
