-- ===== src/Queue/Spec.antt =====
-- What a lane of the queue promises (inengine-core/src/queue/mod.rs), as three lists of stored
-- texts. Pending and failed messages stand oldest first, claimed ones newest claim first.
use Prim.Native.String.{String}
use in_engine_net.Prelude.{
  ℕ, Option, none, some, List, [], ◌∷◌, ◌++◌, Bytes, Result, ok, err, take, drop, reverse, length,
}
use in_engine_net.Queue.Types.{Stage, pending, in_progress, failed}
use in_engine_net.Queue.Envelope.{Envelope}

pub record Stages : Type 0 where
  pub pending : List Bytes
  pub in_progress : List Bytes
  pub failed : List Bytes

unfoldable pub publish : Bytes → Stages → Stages
publish text q = record q { pending = q.pending ++ text ∷ [] }

-- A new message of the target stage. No message is moved to in-progress; it would be the newest.
unfoldable pub add : Stage → Bytes → Stages → Stages
add pending text q = record q { pending = q.pending ++ text ∷ [] }
add in_progress text q = record q { in_progress = text ∷ q.in_progress }
add failed text q = record q { failed = q.failed ++ text ∷ [] }

unfoldable pub stage_length : Stage → Stages → ℕ
stage_length pending q = length q.pending
stage_length in_progress q = length q.in_progress
stage_length failed q = length q.failed

unfoldable pub clear : Stage → Stages → Stages
clear pending q = record q { pending = [] }
clear in_progress q = record q { in_progress = [] }
clear failed q = record q { failed = [] }

-- The messages of a stage, oldest first.
unfoldable pub oldest_first : Stage → Stages → List Bytes
oldest_first pending q = q.pending
oldest_first in_progress q = reverse q.in_progress
oldest_first failed q = q.failed

unfoldable pub recover : Stages → Stages
recover q = record q { pending = reverse q.in_progress ++ q.pending; in_progress = [] }

unfoldable pub republish : ℕ → Stages → Stages
republish limit q = record q {
  pending = q.pending ++ take limit q.failed;
  failed = drop limit q.failed;
}

-- The oldest message that can be read is claimed; those before it move to the failed stage.
module _ (decode : Bytes → Result String Envelope) where
  unfoldable pub claim_from :
      List Bytes → List Bytes → List Bytes → Option (Bytes × Envelope) × Stages
  claim_from [] claimed gone = (none, record { pending = []; in_progress = claimed; failed = gone })
  claim_from (text ∷ texts) claimed gone = elim (decode text) [
    | ok e ↦
        (some (text, e), record { pending = texts; in_progress = text ∷ claimed; failed = gone })
    | err x ↦ claim_from texts claimed (gone ++ text ∷ [])
  ]

  unfoldable pub claim : Stages → Option (Bytes × Envelope) × Stages
  unfolding claim_from
  claim q = claim_from q.pending q.in_progress q.failed
