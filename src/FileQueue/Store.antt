-- ===== src/FileQueue/Store.antt =====
-- inengine-core/src/queue/driver/file/store.rs: the directories of the synchronous file queue, and
-- how a message enters it. A stage stands for its directory (`stage_path`). Log lines are left out.
use Prim.Native.String.{String}
use in_engine_net.Prelude.{ℕ, ◌*◌, List, [], ◌∷◌, ◌++◌, Bytes, Result, ok, err}
use in_engine_net.Error.{serialization}
use in_engine_net.Queue.Types.{QueueLane, Stage, pending, lane_as_str, stage_as_str, all_stages}
use in_engine_net.Queue.Envelope.{Envelope, Json}
use in_engine_net.FileQueue.Prog.{
  Prog, ret, fail, create_dir_all, new_message_name, ◌>>=◌, question,
}
use in_engine_net.FileQueue.Dir.{write_atomic, remove_stale_temp_files}

abbrev pub stale_temp_age : ℕ
stale_temp_age = 60 * 60

-- `base.join(format!("{queue_name}_{lane}_{stage}"))`, for a base with no trailing separator.
unfoldable pub stage_path : Bytes → Bytes → QueueLane → Stage → Bytes
unfolding lane_as_str stage_as_str
stage_path base queue_name lane stage =
    base ++ b'/' ∷ queue_name ++ b'_' ∷ lane_as_str lane ++ b'_' ∷ stage_as_str stage

open_stages : List Stage → Prog (Unit {0})
open_stages [] = ret tt
open_stages (stage ∷ stages) = do
  _ ← create_dir_all stage question
  _ ← remove_stale_temp_files stage stale_temp_age
  open_stages stages

unfoldable pub open_store : Prog (Unit {0})
unfolding open_stages
open_store = open_stages all_stages

abbrev pub json_error : {A : Type 0} → Result String A → Prog A
json_error (ok a) = ret a
json_error (err e) = fail (serialization e)

module _ (json : Json) where
  unfoldable pub publish : Envelope → Prog (Unit {0})
  publish envelope = do
    text ← json_error (json.to_vec_pretty envelope)
    name ← new_message_name ret
    write_atomic pending name text
