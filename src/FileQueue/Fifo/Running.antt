-- ===== src/FileQueue/Fifo/Running.antt =====
-- How a program of the file queue runs in parts on an undisturbed disk, and what the listing of
-- inengine-core/src/queue/driver/file/dir.rs gives there.
use mathlib.Core.List.{map-append}
use in_engine_net.Prelude.{
  reverse, reverse-append, ◌++◌, ℕ, suc, ◌≡◌, refl, sym, ap, ◌∙◌, inl, inr, none, some, List, [],
  ◌∷◌, Bytes, bytes_eq_iff, bytes_eq_refl, bytes_lt, Result, ok, err, Bool-cases, arith,
}
use in_engine_net.Error.{QueueError}
use in_engine_net.Queue.Types.{Stage}
use in_engine_net.FileQueue.Names.{is_hidden}
use in_engine_net.FileQueue.Disk
use in_engine_net.FileQueue.Disk.{
  File, FilePath, Directory, World, find, dir_of, find_path, put_path, delete_path, entry_names,
}
use in_engine_net.FileQueue.Prog.{
  Prog, ret, fail, read_dir, file_type, modified, read, exists, rename, remove_file, create_new,
  write_all, sync_file, sync_dir, create_dir_all, now, new_message_name, ◌>>=◌, run,
}
use in_engine_net.FileQueue.Dir.{path, message_names, list_messages}
use in_engine_net.Std.Sort.{sort}
use in_engine_net.FileQueue.Fifo.{Message, visible, messages, names, texts, Distinct}
use in_engine_net.FileQueue.Fifo.Sorted.{names-sort}

pub texts-append : (ms : List Message) (m : Message) → texts (ms ++ m ∷ []) ≡ texts ms ++ m.1 ∷ []
texts-append ms m = map-append (λ x. x.1) ms (m ∷ [])

pub reverse-texts-append :
    (ms : List Message) (m : Message) → reverse (texts (ms ++ m ∷ [])) ≡ m.1 ∷ reverse (texts ms)
reverse-texts-append ms m = ap reverse (texts-append ms m) ∙ reverse-append (texts ms) (m.1 ∷ [])

-- A rename of a file to a name that is not taken.
pub rename_new :
    (p q : FilePath) (w : World) (f : File)
    → find_path p w ≡ some f
    → find_path q w ≡ none
    → Disk.rename p q w ≡ (ok tt, put_path q f (delete_path p w))
unfolding Disk.rename
rename_new p q w f h k = rw (h, k) refl

module _ (name_of : ℕ → Bytes) {A B : Type 0} (f : A → Prog B) where
  -- What runs after a first part: its continuation, unless it failed.
  abbrev pub go_on : Result QueueError A × World → Result QueueError B × World
  go_on (ok a, w) = run name_of (f a) w
  go_on (err e, w) = (err e, w)

  pub run-bind : (m : Prog A) (w : World) → run name_of (m >>= f) w ≡ go_on (run name_of m w)
  run-bind (ret a) w = refl
  run-bind (fail e) w = refl
  run-bind (read_dir s k) w = run-bind (k (Disk.read_dir s w)) w
  run-bind (file_type p k) w = run-bind (k (Disk.file_type p w)) w
  run-bind (modified p k) w = run-bind (k (Disk.modified p w)) w
  run-bind (read p k) w = run-bind (k (Disk.read p w)) w
  run-bind (exists p k) w = run-bind (k (Disk.exists p w)) w
  run-bind (rename p q k) w = run-bind (k (Disk.rename p q w).0) (Disk.rename p q w).1
  run-bind (remove_file p k) w = run-bind (k (Disk.remove_file p w).0) (Disk.remove_file p w).1
  run-bind (create_new p k) w = run-bind (k (Disk.create_new p w).0) (Disk.create_new p w).1
  run-bind (write_all p b k) w = run-bind (k (Disk.write_all p b w).0) (Disk.write_all p b w).1
  run-bind (sync_file p k) w = run-bind (k (ok tt)) w
  run-bind (sync_dir s k) w = run-bind (k (ok tt)) w
  run-bind (create_dir_all s k) w = run-bind (k (ok tt)) w
  run-bind (now k) w = run-bind (k w.clock) w
  run-bind (new_message_name k) w =
      run-bind (k (name_of w.next_name)) (record w { next_name = suc w.next_name })

file_type-found :
    (p : FilePath) (w : World) (f : File)
    → find p.name (dir_of p.dir w) ≡ some f
    → Disk.file_type p w ≡ ok f.is_file
unfolding find_path Disk.file_type
file_type-found p w f e = rw e refl

module _ (name_of : ℕ → Bytes) (s : Stage) (w : World) where
  abbrev Finds : Directory → Type 0
  Finds d = (n : Bytes) (f : File) → find n d ≡ some f → find n (dir_of s w) ≡ some f

  run-message_names :
      (d : Directory)
      → Distinct d
      → Finds d
      → run name_of (message_names s (entry_names d)) w ≡ (ok (names (visible d)), w)
  unfolding message_names visible find Disk.file_type find_path
  run-message_names [] h k = refl
  run-message_names ((n, f) ∷ d) h k =
      let rest =
        run-message_names d h.1 (λ m g e. k m g (ground (arith, h.0, e, bytes_eq_iff n m))) in
      elim (Bool-cases (is_hidden n)) [
        | inl v ↦ rw v rest
        | inr v ↦ elim (Bool-cases f.is_file) [
          | inl i ↦ rw v (
              rw (kind, i)
                (run-bind name_of (λ ns. ret (n ∷ ns)) (message_names s (entry_names d)) w
                  ∙ ap (go_on name_of (λ ns. ret (n ∷ ns))) rest))
          | inr i ↦ rw v (rw (kind, i) rest)
        ]
      ]
    where
      kind : Disk.file_type (path s n) w ≡ ok f.is_file
      kind = file_type-found (path s n) w f (k n f (rw (bytes_eq_refl n) refl))

  pub run-list_messages :
      Distinct (dir_of s w)
      → run name_of (list_messages s) w ≡ (ok (names (messages (dir_of s w))), w)
  unfolding list_messages messages Disk.read_dir
  run-list_messages h =
      run-bind name_of (λ ns. ret (sort bytes_lt ns)) (message_names s (entry_names (dir_of s w))) w
      ∙ ap (go_on name_of (λ ns. ret (sort bytes_lt ns)))
          (run-message_names (dir_of s w) h (λ n f e. e))
      ∙ ap (λ ns. (ok ns, w)) (sym (names-sort (visible (dir_of s w))))
