-- ===== src/FileQueue/Fifo.antt =====
-- The stages of inengine-core/src/queue/driver/file/store.rs as lists of texts: a directory holds
-- its messages in the order of their names, and a new name stands after the others.
mod Sorted
pub mod Directories
pub mod Worlds
pub mod Running
mod Steps
pub mod Claiming
pub mod Publishing
pub mod Republishing
pub mod Requests
mod Examples
use in_engine_net.Prelude.{
  ℕ, suc, ◌≤◌, ◌<◌, ◌≡◌, Bool, true, false, ◌&&◌, not, none, some, List, [], ◌∷◌, map, Bytes,
  bytes_lt, if◌then◌else◌, reverse,
}
use in_engine_net.Std.Sort.{sort}
use in_engine_net.Queue.Spec.{Stages}
use in_engine_net.FileQueue.Names.{is_hidden, hidden_name, temp_suffix}
use in_engine_net.FileQueue.Disk.{File, Directory, World, find}

-- A name and its contents.
abbrev pub Message : Type 0
Message = Bytes × Bytes

abbrev pub before : Message → Message → Bool
before a b = bytes_lt a.0 b.0

unfoldable pub visible : Directory → List Message
visible [] = []
visible ((n, f) ∷ d) =
    if not (is_hidden n) && f.is_file then (n, f.contents) ∷ visible d else visible d

unfoldable pub messages : Directory → List Message
unfolding visible
messages d = sort before (visible d)

abbrev pub names : List Message → List Bytes
names ms = map (λ m. m.0) ms

abbrev pub texts : List Message → List Bytes
texts ms = map (λ m. m.1) ms

-- The oldest message of a stage has the least name.
unfoldable pub stages : World → Stages
unfolding messages
stages w = record {
  pending = texts (messages w.pending);
  in_progress = reverse (texts (messages w.in_progress));
  failed = texts (messages w.failed);
}

-- What the queue relies on of `Uuid::now_v7().simple()`: 32 hexadecimal digits, and each name of
-- a process after the one before it.
pub record IsNaming (name_of : ℕ → Bytes) : Type 0 where
  pub later : (j k : ℕ) → j < k → bytes_lt (name_of j) (name_of k) ≡ true
  pub shown : (k : ℕ) → is_hidden (name_of k) ≡ false

abbrev pub Distinct : Directory → Type 0
Distinct [] = Unit
Distinct ((n, f) ∷ d) = (find n d ≡ none) × Distinct d

-- Every message name of the directory is before the names still to come, whose temporary files
-- are not there.
pub record Kept (name_of : ℕ → Bytes) (next : ℕ) (d : Directory) : Type 0 where
  pub distinct : Distinct d
  pub early :
      (m : Bytes) (f : File) (k : ℕ)
      → find m d ≡ some f
      → is_hidden m ≡ false
      → next ≤ k
      → bytes_lt m (name_of k) ≡ true
  pub temp_free : (k : ℕ) → next ≤ k → find (hidden_name (name_of k) temp_suffix) d ≡ none

-- The state between two operations: messages are claimed in the order of their names.
pub record InOrder (name_of : ℕ → Bytes) (w : World) : Type 0 where
  pub pending : Kept name_of w.next_name w.pending
  pub in_progress : Kept name_of w.next_name w.in_progress
  pub failed : Kept name_of w.next_name w.failed
  pub claimed_first :
      (m n : Bytes) (f g : File)
      → find m w.in_progress ≡ some f
      → is_hidden m ≡ false
      → find n w.pending ≡ some g
      → is_hidden n ≡ false
      → g.is_file ≡ true
      → bytes_lt m n ≡ true
