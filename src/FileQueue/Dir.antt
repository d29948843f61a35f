-- ===== src/FileQueue/Dir.antt =====
-- inengine-core/src/queue/driver/file/dir.rs: the directory operations of the file queue.
use in_engine_net.Prelude.{
  ℕ, ◌+◌, ◌-◌, Bool, true, false, Option, none, some, List, [], ◌∷◌, Bytes, Result, ok, err,
  bytes_lt, ltb, if◌then◌else◌,
}
use in_engine_net.Std.Sort.{sort}
use in_engine_net.Error.{QueueError, io, not_found}
use in_engine_net.Queue.Types.{Stage}
use in_engine_net.FileQueue.Names.{
  is_hidden, hidden_name, settling_name, strip_hidden_suffix, temp_suffix, settling_suffix,
}
use in_engine_net.FileQueue.Disk.{IoResult, FilePath}
use in_engine_net.FileQueue.Prog.{
  Prog, ret, fail, read_dir, file_type, modified, rename, remove_file, create_new, write_all,
  sync_file, sync_dir, now, ◌>>=◌, attempt, question, from_result,
}

abbrev pub path : Stage → Bytes → FilePath
path dir name = record { dir = dir; name = name }

-- The loops run on the entries that are left, with the names found so far in order.
abbrev if_file : Bytes → IoResult Bool → Prog (List Bytes) → Prog (List Bytes)
if_file name (ok true) rest = do names ← rest; ret (name ∷ names)
if_file name (ok false) rest = rest
if_file name (err not_found) rest = rest
if_file name (err e) rest = fail (io e)

unfoldable pub message_names : Stage → List (IoResult Bytes) → Prog (List Bytes)
message_names dir [] = ret []
message_names dir (err e ∷ es) = fail (io e)
message_names dir (ok name ∷ es) =
    let rest = message_names dir es in
    if is_hidden name then rest else file_type (path dir name) (λ kind. if_file name kind rest)

unfoldable pub list_messages : Stage → Prog (List Bytes)
unfolding message_names
list_messages dir = do
  entries ← read_dir dir question
  names ← message_names dir entries
  ret (sort bytes_lt names)

abbrev if_settling : Option Bytes → Prog (List Bytes) → Prog (List Bytes)
if_settling none rest = rest
if_settling (some original) rest = do names ← rest; ret (original ∷ names)

unfoldable pub settling_originals : List (IoResult Bytes) → Prog (List Bytes)
settling_originals [] = ret []
settling_originals (err e ∷ es) = fail (io e)
settling_originals (ok name ∷ es) =
    let rest = settling_originals es in if_settling (strip_hidden_suffix name settling_suffix) rest

unfoldable pub unfinished_settles : Stage → Prog (List Bytes)
unfolding settling_originals
unfinished_settles dir = do
  entries ← read_dir dir question
  names ← settling_originals entries
  ret (sort bytes_lt names)

-- `let _ = fs::remove_file(&temp_path)` after a failure.
abbrev discard_temp : FilePath → Result QueueError (Unit {0}) → Prog (Unit {0})
discard_temp temp (ok done) = ret tt
discard_temp temp (err e) = remove_file temp (λ _. ret tt)

-- The temporary file is written, synced and renamed.
unfoldable pub write_temp : FilePath → FilePath → Bytes → Prog (Unit {0})
write_temp temp final contents = do
  _ ← write_all temp contents question
  _ ← sync_file temp question
  rename temp final question

unfoldable pub finish_write : Stage → FilePath → Result QueueError (Unit {0}) → Prog (Unit {0})
finish_write dir temp written = do
  _ ← discard_temp temp written
  _ ← from_result written
  sync_dir dir question

unfoldable pub write_atomic : Stage → Bytes → Bytes → Prog (Unit {0})
unfolding write_temp finish_write
write_atomic dir name contents = do
  let temp = path dir (hidden_name name temp_suffix)
  _ ← create_new temp question
  written ← attempt (write_temp temp (path dir name) contents)
  finish_write dir temp written

-- The answers of `remove_file` and `rename` when the file is not there.
abbrev pub if_present : IoResult (Unit {0}) → Prog Bool
if_present (ok done) = ret true
if_present (err not_found) = ret false
if_present (err e) = fail (io e)

unfoldable pub remove_if_present : FilePath → Prog Bool
remove_if_present p = remove_file p if_present

unfoldable pub rename_if_present : FilePath → FilePath → Prog Bool
rename_if_present p q = rename p q if_present

abbrev if_modified_before : ℕ → FilePath → IoResult ℕ → Prog (Unit {0}) → Prog (Unit {0})
if_modified_before cutoff p (ok time) rest =
    if ltb time cutoff then (do _ ← remove_if_present p; rest) else rest
if_modified_before cutoff p (err not_found) rest = rest
if_modified_before cutoff p (err e) rest = fail (io e)

abbrev if_temp : Option Bytes → Prog (Unit {0}) → Prog (Unit {0}) → Prog (Unit {0})
if_temp none stale rest = rest
if_temp (some original) stale rest = stale

unfoldable pub remove_stale_entries : Stage → ℕ → List (IoResult Bytes) → Prog (Unit {0})
unfolding remove_if_present
remove_stale_entries dir cutoff [] = ret tt
remove_stale_entries dir cutoff (err e ∷ es) = fail (io e)
remove_stale_entries dir cutoff (ok name ∷ es) =
    let rest = remove_stale_entries dir cutoff es in
    if_temp (strip_hidden_suffix name temp_suffix)
      (modified (path dir name) (λ time. if_modified_before cutoff (path dir name) time rest)) rest

-- A time before the epoch is the epoch.
unfoldable pub remove_stale_temp_files : Stage → ℕ → Prog (Unit {0})
unfolding remove_stale_entries
remove_stale_temp_files dir age = do
  time ← now ret
  entries ← read_dir dir question
  remove_stale_entries dir (time - age) entries

abbrev pub count : Bool → ℕ → ℕ
count true n = n + 1
count false n = n

unfoldable pub remove_settling_of : Stage → List Bytes → ℕ → Prog ℕ
unfolding remove_if_present
remove_settling_of dir [] removed = ret removed
remove_settling_of dir (name ∷ names) removed = do
  present ← remove_if_present (path dir (settling_name name))
  remove_settling_of dir names (count present removed)

unfoldable pub remove_settling_files : Stage → Prog ℕ
unfolding unfinished_settles remove_settling_of
remove_settling_files dir = do names ← unfinished_settles dir; remove_settling_of dir names 0
