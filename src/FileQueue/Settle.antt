-- ===== src/FileQueue/Settle.antt =====
-- inengine-core/src/queue/driver/file/store.rs: how a claimed message is settled.
pub mod Crash
use in_engine_net.Prelude.{Bool, true, false, Bytes, Result, ok, err}
use in_engine_net.Error.{QueueError, not_found}
use in_engine_net.Queue.Types.{Stage, in_progress}
use in_engine_net.Queue.Envelope.{Envelope, Json}
use in_engine_net.FileQueue.Names.{settling_name}
use in_engine_net.FileQueue.Disk.{IoResult, FilePath}
use in_engine_net.FileQueue.Prog.{
  Prog, ret, fail, exists, rename, remove_file, new_message_name, ◌>>=◌, attempt,
}
use in_engine_net.FileQueue.Dir.{path, write_atomic, remove_if_present, rename_if_present}
use in_engine_net.FileQueue.Store.{json_error}

unfoldable pub acknowledge : Bytes → Prog Bool
acknowledge name = remove_if_present (path in_progress name)

abbrev restore_claimed : FilePath → FilePath → Result QueueError (Unit {0}) → Prog (Unit {0})
restore_claimed claimed current (ok done) = ret tt
restore_claimed claimed current (err e) = rename claimed current (λ _. fail e)

abbrev removed_claimed : FilePath → IoResult (Unit {0}) → Prog Bool
removed_claimed copy (ok done) = ret true
removed_claimed copy (err not_found) = do _ ← remove_if_present copy; ret false
removed_claimed copy (err e) = ret true

-- The move goes on when the settling file is there.
abbrev pub if_claimed : Bool → Prog Bool → Prog Bool → Prog Bool
if_claimed true go lost = go
if_claimed false go lost = lost

module _ (json : Json) where
  -- The move after the claimed file has its settling name.
  unfoldable pub write_moved : Bytes → Envelope → Stage → Prog Bool
  write_moved name envelope target = do
    let current = path in_progress name
    let claimed = path in_progress (settling_name name)
    text ← json_error (json.to_vec_pretty envelope)
    fresh ← new_message_name ret
    written ← attempt (write_atomic target fresh text)
    _ ← restore_claimed claimed current written
    remove_file claimed (removed_claimed (path target fresh))

  unfoldable pub move_claimed : Bytes → Envelope → Stage → Prog Bool
  unfolding write_moved
  move_claimed name envelope target = do
    let claimed = path in_progress (settling_name name)
    present ← rename_if_present (path in_progress name) claimed
    if_claimed present (write_moved name envelope target)
        (exists claimed (λ left. if_claimed left (write_moved name envelope target) (ret false)))
