-- ===== src/FileQueue/Disk.antt =====
-- The three stage directories of one opened store, and what `std::fs` does to them. A directory
-- lists its entries in any order; a name stands in it once.
use in_engine_net.Prelude.{
  ℕ, Bool, true, false, ◌&&◌, not, Option, none, some, List, [], ◌∷◌, ◌++◌, Bytes, Result, ok, err,
  bytes_eq, if◌then◌else◌,
}
use in_engine_net.Error.{IoError, not_found, already_exists, other}
use in_engine_net.Queue.Types.{Stage, pending, in_progress, failed}

abbrev pub IoResult : Type 0 → Type 0
IoResult A = Result IoError A

pub record File : Type 0 where
  pub contents : Bytes
  pub modified : ℕ
  pub is_file : Bool

abbrev pub Directory : Type 0
Directory = List (Bytes × File)

unfoldable pub find : Bytes → Directory → Option File
find n [] = none
find n ((m, f) ∷ d) = if bytes_eq m n then some f else find n d

unfoldable pub delete : Bytes → Directory → Directory
delete n [] = []
delete n ((m, f) ∷ d) = if bytes_eq m n then delete n d else (m, f) ∷ delete n d

unfoldable pub put : Bytes → File → Directory → Directory
unfolding delete
put n f d = (n, f) ∷ delete n d

pub record FilePath : Type 0 where
  pub dir : Stage
  pub name : Bytes

-- The clock is the system time in seconds; `next_name` counts the message names made so far.
pub record World : Type 0 where
  pub pending : Directory
  pub in_progress : Directory
  pub failed : Directory
  pub clock : ℕ
  pub next_name : ℕ

unfoldable pub dir_of : Stage → World → Directory
dir_of pending w = w.pending
dir_of in_progress w = w.in_progress
dir_of failed w = w.failed

unfoldable pub with_dir : Stage → Directory → World → World
with_dir pending d w = record w { pending = d }
with_dir in_progress d w = record w { in_progress = d }
with_dir failed d w = record w { failed = d }

unfoldable pub find_path : FilePath → World → Option File
unfolding dir_of find
find_path p w = find p.name (dir_of p.dir w)

unfoldable pub put_path : FilePath → File → World → World
unfolding dir_of with_dir put
put_path p f w = with_dir p.dir (put p.name f (dir_of p.dir w)) w

unfoldable pub delete_path : FilePath → World → World
unfolding dir_of with_dir delete
delete_path p w = with_dir p.dir (delete p.name (dir_of p.dir w)) w

-- A rename onto an existing file replaces it; onto or of a directory it is refused.
abbrev pub blocks : File → Option File → Bool
blocks f none = false
blocks f (some g) = not (f.is_file && g.is_file)

abbrev rename_found : FilePath → FilePath → Option File → World → IoResult (Unit {0}) × World
rename_found p q none w = (err not_found, w)
rename_found p q (some f) w =
    if blocks f (find_path q w)
    then (err (other 21), w)
    else (ok tt, put_path q f (delete_path p w))

unfoldable pub rename : FilePath → FilePath → World → IoResult (Unit {0}) × World
rename p q w = rename_found p q (find_path p w) w

abbrev remove_found : FilePath → Option File → World → IoResult (Unit {0}) × World
remove_found p none w = (err not_found, w)
remove_found p (some f) w = if f.is_file then (ok tt, delete_path p w) else (err (other 21), w)

unfoldable pub remove_file : FilePath → World → IoResult (Unit {0}) × World
remove_file p w = remove_found p (find_path p w) w

abbrev create_missing : FilePath → Option File → World → IoResult (Unit {0}) × World
create_missing p none w =
    (ok tt, put_path p (record { contents = []; modified = w.clock; is_file = true }) w)
create_missing p (some f) w = (err already_exists, w)

unfoldable pub create_new : FilePath → World → IoResult (Unit {0}) × World
create_new p w = create_missing p (find_path p w) w

-- A file that was removed after it was opened takes the bytes, and they are lost.
abbrev write_found : FilePath → Bytes → Option File → World → World
write_found p b none w = w
write_found p b (some f) w =
    put_path p (record f { contents = f.contents ++ b; modified = w.clock }) w

unfoldable pub write_all : FilePath → Bytes → World → IoResult (Unit {0}) × World
write_all p b w = (ok tt, write_found p b (find_path p w) w)

abbrev read_found : Option File → IoResult Bytes
read_found none = err not_found
read_found (some f) = if f.is_file then ok f.contents else err (other 21)

unfoldable pub read : FilePath → World → IoResult Bytes
read p w = read_found (find_path p w)

abbrev kind_found : Option File → IoResult Bool
kind_found none = err not_found
kind_found (some f) = ok f.is_file

unfoldable pub file_type : FilePath → World → IoResult Bool
file_type p w = kind_found (find_path p w)

abbrev modified_found : Option File → IoResult ℕ
modified_found none = err not_found
modified_found (some f) = ok f.modified

unfoldable pub modified : FilePath → World → IoResult ℕ
modified p w = modified_found (find_path p w)

abbrev is_found : Option File → Bool
is_found none = false
is_found (some f) = true

unfoldable pub exists : FilePath → World → Bool
exists p w = is_found (find_path p w)

abbrev pub entry_names : Directory → List (IoResult Bytes)
entry_names [] = []
entry_names ((n, f) ∷ d) = ok n ∷ entry_names d

unfoldable pub read_dir : Stage → World → IoResult (List (IoResult Bytes))
unfolding dir_of
read_dir s w = ok (entry_names (dir_of s w))
