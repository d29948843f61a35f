-- ===== src/FileQueue/Prog.antt =====
-- The calls that inengine-core/src/queue/driver/file makes of `std::fs`, the clock and uuid, as a
-- tree: each node is one call, and goes on with its answer. `run` gives the answers of an
-- undisturbed disk; `Always` gives those of a disk on which any call may fail, and looks at
-- the disk between any two calls.
use in_engine_net.Prelude.{ℕ, suc, Bool, false, List, Bytes, Result, ok, err}
use in_engine_net.Error.{IoError, QueueError, io}
use in_engine_net.Queue.Types.{Stage}
use in_engine_net.FileQueue.Disk
use in_engine_net.FileQueue.Disk.{IoResult, FilePath, World}

pub data Prog (A : Type 0) : Type 0 where
  ret : A → Prog A
  fail : QueueError → Prog A
  read_dir : Stage → (IoResult (List (IoResult Bytes)) → Prog A) → Prog A
  file_type : FilePath → (IoResult Bool → Prog A) → Prog A
  modified : FilePath → (IoResult ℕ → Prog A) → Prog A
  read : FilePath → (IoResult Bytes → Prog A) → Prog A
  exists : FilePath → (Bool → Prog A) → Prog A
  rename : FilePath → FilePath → (IoResult (Unit {0}) → Prog A) → Prog A
  remove_file : FilePath → (IoResult (Unit {0}) → Prog A) → Prog A
  create_new : FilePath → (IoResult (Unit {0}) → Prog A) → Prog A
  write_all : FilePath → Bytes → (IoResult (Unit {0}) → Prog A) → Prog A
  sync_file : FilePath → (IoResult (Unit {0}) → Prog A) → Prog A
  sync_dir : Stage → (IoResult (Unit {0}) → Prog A) → Prog A
  create_dir_all : Stage → (IoResult (Unit {0}) → Prog A) → Prog A
  now : (ℕ → Prog A) → Prog A
  new_message_name : (Bytes → Prog A) → Prog A

-- `?`: an error ends the function.
infixl 5 ◌>>=◌
abbrev pub ◌>>=◌ : {A B : Type 0} → Prog A → (A → Prog B) → Prog B
ret a >>= f = f a
fail e >>= f = fail e
read_dir s k >>= f = read_dir s (λ r. k r >>= f)
file_type p k >>= f = file_type p (λ r. k r >>= f)
modified p k >>= f = modified p (λ r. k r >>= f)
read p k >>= f = read p (λ r. k r >>= f)
exists p k >>= f = exists p (λ r. k r >>= f)
rename p q k >>= f = rename p q (λ r. k r >>= f)
remove_file p k >>= f = remove_file p (λ r. k r >>= f)
create_new p k >>= f = create_new p (λ r. k r >>= f)
write_all p b k >>= f = write_all p b (λ r. k r >>= f)
sync_file p k >>= f = sync_file p (λ r. k r >>= f)
sync_dir s k >>= f = sync_dir s (λ r. k r >>= f)
create_dir_all s k >>= f = create_dir_all s (λ r. k r >>= f)
now k >>= f = now (λ r. k r >>= f)
new_message_name k >>= f = new_message_name (λ r. k r >>= f)

-- The result as a value, for code that looks at the error.
abbrev pub attempt : {A : Type 0} → Prog A → Prog (Result QueueError A)
attempt (ret a) = ret (ok a)
attempt (fail e) = ret (err e)
attempt (read_dir s k) = read_dir s (λ r. attempt (k r))
attempt (file_type p k) = file_type p (λ r. attempt (k r))
attempt (modified p k) = modified p (λ r. attempt (k r))
attempt (read p k) = read p (λ r. attempt (k r))
attempt (exists p k) = exists p (λ r. attempt (k r))
attempt (rename p q k) = rename p q (λ r. attempt (k r))
attempt (remove_file p k) = remove_file p (λ r. attempt (k r))
attempt (create_new p k) = create_new p (λ r. attempt (k r))
attempt (write_all p b k) = write_all p b (λ r. attempt (k r))
attempt (sync_file p k) = sync_file p (λ r. attempt (k r))
attempt (sync_dir s k) = sync_dir s (λ r. attempt (k r))
attempt (create_dir_all s k) = create_dir_all s (λ r. attempt (k r))
attempt (now k) = now (λ r. attempt (k r))
attempt (new_message_name k) = new_message_name (λ r. attempt (k r))

-- An error of `std::fs` becomes `QueueError::Io`.
abbrev pub question : {A : Type 0} → IoResult A → Prog A
question (ok a) = ret a
question (err e) = fail (io e)

abbrev pub from_result : {A : Type 0} → Result QueueError A → Prog A
from_result (ok a) = ret a
from_result (err e) = fail e

-- `name_of` makes the message name with a given number.
module _ (name_of : ℕ → Bytes) where
  abbrev pub run : {A : Type 0} → Prog A → World → Result QueueError A × World
  run (ret a) w = (ok a, w)
  run (fail e) w = (err e, w)
  run (read_dir s k) w = run (k (Disk.read_dir s w)) w
  run (file_type p k) w = run (k (Disk.file_type p w)) w
  run (modified p k) w = run (k (Disk.modified p w)) w
  run (read p k) w = run (k (Disk.read p w)) w
  run (exists p k) w = run (k (Disk.exists p w)) w
  run (rename p q k) w = let (r, w') = Disk.rename p q w in run (k r) w'
  run (remove_file p k) w = let (r, w') = Disk.remove_file p w in run (k r) w'
  run (create_new p k) w = let (r, w') = Disk.create_new p w in run (k r) w'
  run (write_all p b k) w = let (r, w') = Disk.write_all p b w in run (k r) w'
  run (sync_file p k) w = run (k (ok tt)) w
  run (sync_dir s k) w = run (k (ok tt)) w
  run (create_dir_all s k) w = run (k (ok tt)) w
  run (now k) w = run (k w.clock) w
  run (new_message_name k) w =
      run (k (name_of w.next_name)) (record w { next_name = suc w.next_name })

  -- `inv` holds of the disk before and after every call of the program, and `post` of its result
  -- and the final disk, whichever calls fail. A failed call changes nothing, but a failed write
  -- may have written any bytes.
  unfoldable pub Always :
      {A : Type 0}
      → (World → Type 0)
      → (Result QueueError A → World → Type 0)
      → Prog A
      → World
      → Type 0
  Always inv post (ret a) w = inv w × post (ok a) w
  Always inv post (fail e) w = inv w × post (err e) w
  Always inv post (read_dir s k) w =
      inv w
      × Always inv post (k (Disk.read_dir s w)) w
      × ((e : IoError) → Always inv post (k (err e)) w)
  Always inv post (file_type p k) w =
      inv w
      × Always inv post (k (Disk.file_type p w)) w
      × ((e : IoError) → Always inv post (k (err e)) w)
  Always inv post (modified p k) w =
      inv w
      × Always inv post (k (Disk.modified p w)) w
      × ((e : IoError) → Always inv post (k (err e)) w)
  Always inv post (read p k) w =
      inv w
      × Always inv post (k (Disk.read p w)) w
      × ((e : IoError) → Always inv post (k (err e)) w)
  Always inv post (exists p k) w =
      inv w × Always inv post (k (Disk.exists p w)) w × Always inv post (k false) w
  Always inv post (rename p q k) w =
      inv w
      × Always inv post (k (Disk.rename p q w).0) (Disk.rename p q w).1
      × ((e : IoError) → Always inv post (k (err e)) w)
  Always inv post (remove_file p k) w =
      inv w
      × Always inv post (k (Disk.remove_file p w).0) (Disk.remove_file p w).1
      × ((e : IoError) → Always inv post (k (err e)) w)
  Always inv post (create_new p k) w =
      inv w
      × Always inv post (k (Disk.create_new p w).0) (Disk.create_new p w).1
      × ((e : IoError) → Always inv post (k (err e)) w)
  Always inv post (write_all p b k) w =
      inv w
      × Always inv post (k (Disk.write_all p b w).0) (Disk.write_all p b w).1
      × ((e : IoError) (c : Bytes) → Always inv post (k (err e)) (Disk.write_all p c w).1)
  Always inv post (sync_file p k) w =
      inv w × Always inv post (k (ok tt)) w × ((e : IoError) → Always inv post (k (err e)) w)
  Always inv post (sync_dir s k) w =
      inv w × Always inv post (k (ok tt)) w × ((e : IoError) → Always inv post (k (err e)) w)
  Always inv post (create_dir_all s k) w =
      inv w × Always inv post (k (ok tt)) w × ((e : IoError) → Always inv post (k (err e)) w)
  Always inv post (now k) w = inv w × ((t : ℕ) → Always inv post (k t) w)
  Always inv post (new_message_name k) w =
      inv w × Always inv post (k (name_of w.next_name)) (record w { next_name = suc w.next_name })
