-- ===== src/FileQueue/Bulk.antt =====
-- inengine-core/src/queue/driver/file/store.rs: the requests that list, clear and move whole
-- stages.
use in_engine_net.Prelude.{
  ℕ, ◌+◌, Bool, List, [], ◌∷◌, ◌++◌, map, Bytes, bytes_lt, bytes_eq, if◌then◌else◌, length, take,
}
use in_engine_net.Std.Sort.{sort}
use in_engine_net.Queue.Types.{Stage, pending, in_progress, failed, QueueLengths}
use in_engine_net.FileQueue.Names.{settling_name}
use in_engine_net.FileQueue.Disk.{FilePath}
use in_engine_net.FileQueue.Prog.{Prog, ret, new_message_name, ◌>>=◌}
use in_engine_net.FileQueue.Dir.{
  path, list_messages, unfinished_settles, remove_if_present, rename_if_present,
  remove_stale_temp_files, remove_settling_files, count,
}
use in_engine_net.FileQueue.Store.{stale_temp_age}

unfoldable pub recover_names : List Bytes → ℕ → Prog ℕ
recover_names [] moved = ret moved
recover_names (name ∷ names) moved = do
  present ← rename_if_present (path in_progress name) (path pending name)
  recover_names names (count present moved)

unfoldable pub recover_settling : List Bytes → ℕ → Prog ℕ
recover_settling [] moved = ret moved
recover_settling (name ∷ names) moved = do
  present ← rename_if_present (path in_progress (settling_name name)) (path pending name)
  recover_settling names (count present moved)

unfoldable pub recover : Prog ℕ
unfolding recover_names recover_settling
recover = do
  names ← list_messages in_progress
  moved ← recover_names names 0
  settling ← unfinished_settles in_progress
  recover_settling settling moved

-- The path of a message: visible, or under its settling name. The pairs sort by the name first.
abbrev entry_lt : Bytes × Bytes → Bytes × Bytes → Bool
entry_lt (a, p) (b, q) = if bytes_eq a b then bytes_lt p q else bytes_lt a b

abbrev settling_entry : Bytes → Bytes × Bytes
settling_entry name = (name, settling_name name)

abbrev plain_entry : Bytes → Bytes × Bytes
plain_entry name = (name, name)

abbrev entry_path : Stage → Bytes × Bytes → FilePath
entry_path stage (name, file_name) = path stage file_name

abbrev with_settling : Stage → List (Bytes × Bytes) → Prog (List (Bytes × Bytes))
with_settling in_progress entries = do
  names ← unfinished_settles in_progress
  ret (sort entry_lt (entries ++ map settling_entry names))
with_settling _ entries = ret entries

unfoldable pub stage_paths : Stage → Prog (List FilePath)
stage_paths stage = do
  names ← list_messages stage
  entries ← with_settling stage (map plain_entry names)
  ret (map (entry_path stage) entries)

unfoldable pub lengths : Prog QueueLengths
lengths = do
  waiting ← stage_paths pending
  claimed ← stage_paths in_progress
  gone ← stage_paths failed
  ret (record { pending = length waiting; in_progress = length claimed; failed = length gone })

unfoldable pub remove_names : Stage → List Bytes → ℕ → Prog ℕ
remove_names stage [] removed = ret removed
remove_names stage (name ∷ names) removed = do
  present ← remove_if_present (path stage name)
  remove_names stage names (count present removed)

abbrev settling_removed : Stage → Prog ℕ
settling_removed in_progress = remove_settling_files in_progress
settling_removed _ = ret 0

unfoldable pub clear : Stage → Prog ℕ
unfolding remove_names
clear stage = do
  names ← list_messages stage
  removed ← remove_names stage names 0
  settling ← settling_removed stage
  _ ← remove_stale_temp_files stage stale_temp_age
  ret (removed + settling)

unfoldable pub republish_names : List Bytes → ℕ → Prog ℕ
republish_names [] moved = ret moved
republish_names (name ∷ names) moved = do
  fresh ← new_message_name ret
  present ← rename_if_present (path failed name) (path pending fresh)
  republish_names names (count present moved)

unfoldable pub republish_failed : ℕ → Prog ℕ
unfolding republish_names
republish_failed limit = do names ← list_messages failed; republish_names (take limit names) 0
