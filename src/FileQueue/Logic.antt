-- ===== src/FileQueue/Logic.antt =====
-- How `Always` passes through `?`, through `attempt`, and to a weaker result.
use in_engine_net.Prelude.{ℕ, suc, Bytes, Result, ok, err, false}
use in_engine_net.Error.{QueueError}
use in_engine_net.FileQueue.Disk
use in_engine_net.FileQueue.Disk.{World}
use in_engine_net.FileQueue.Prog.{
  Prog, ret, fail, read_dir, file_type, modified, read, exists, rename, remove_file, create_new,
  write_all, sync_file, sync_dir, create_dir_all, now, new_message_name, ◌>>=◌, attempt, Always,
}

-- What has to hold of the first part's result for the second part to go on.
abbrev pub Then :
    {A B : Type 0}
    → (ℕ → Bytes)
    → (World → Type 0)
    → (Result QueueError B → World → Type 0)
    → (A → Prog B)
    → Result QueueError A
    → World
    → Type 0
Then name_of inv post f (ok a) w = Always name_of inv post (f a) w
Then name_of inv post f (err e) w = post (err e) w

module _ (name_of : ℕ → Bytes) (inv : World → Type 0) {A B : Type 0}
    (post : Result QueueError B → World → Type 0) where
  pub Always-bind :
      (m : Prog A) (f : A → Prog B) (w : World)
      → Always name_of inv (Then name_of inv post f) m w
      → Always name_of inv post (m >>= f) w
  unfolding Always
  Always-bind (ret a) f w h = h.1
  Always-bind (fail e) f w h = h
  Always-bind (read_dir s k) f w h =
      (h.0, Always-bind (k (Disk.read_dir s w)) f w h.1, λ e. Always-bind (k (err e)) f w (h.2 e))
  Always-bind (file_type p k) f w h =
      (h.0, Always-bind (k (Disk.file_type p w)) f w h.1, λ e. Always-bind (k (err e)) f w (h.2 e))
  Always-bind (modified p k) f w h =
      (h.0, Always-bind (k (Disk.modified p w)) f w h.1, λ e. Always-bind (k (err e)) f w (h.2 e))
  Always-bind (read p k) f w h =
      (h.0, Always-bind (k (Disk.read p w)) f w h.1, λ e. Always-bind (k (err e)) f w (h.2 e))
  Always-bind (exists p k) f w h =
      (h.0, Always-bind (k (Disk.exists p w)) f w h.1, Always-bind (k false) f w h.2)
  Always-bind (rename p q k) f w h = (
    h.0,
    Always-bind (k (Disk.rename p q w).0) f (Disk.rename p q w).1 h.1,
    λ e. Always-bind (k (err e)) f w (h.2 e),
  )
  Always-bind (remove_file p k) f w h = (
    h.0,
    Always-bind (k (Disk.remove_file p w).0) f (Disk.remove_file p w).1 h.1,
    λ e. Always-bind (k (err e)) f w (h.2 e),
  )
  Always-bind (create_new p k) f w h = (
    h.0,
    Always-bind (k (Disk.create_new p w).0) f (Disk.create_new p w).1 h.1,
    λ e. Always-bind (k (err e)) f w (h.2 e),
  )
  Always-bind (write_all p b k) f w h = (
    h.0,
    Always-bind (k (Disk.write_all p b w).0) f (Disk.write_all p b w).1 h.1,
    λ e c. Always-bind (k (err e)) f (Disk.write_all p c w).1 (h.2 e c),
  )
  Always-bind (sync_file p k) f w h =
      (h.0, Always-bind (k (ok tt)) f w h.1, λ e. Always-bind (k (err e)) f w (h.2 e))
  Always-bind (sync_dir s k) f w h =
      (h.0, Always-bind (k (ok tt)) f w h.1, λ e. Always-bind (k (err e)) f w (h.2 e))
  Always-bind (create_dir_all s k) f w h =
      (h.0, Always-bind (k (ok tt)) f w h.1, λ e. Always-bind (k (err e)) f w (h.2 e))
  Always-bind (now k) f w h = (h.0, λ t. Always-bind (k t) f w (h.1 t))
  Always-bind (new_message_name k) f w h =
      (h.0, Always-bind (k (name_of w.next_name)) f (record w { next_name = suc w.next_name }) h.1)

module _ (name_of : ℕ → Bytes) (inv : World → Type 0) {A : Type 0}
    (post : Result QueueError (Result QueueError A) → World → Type 0) where
  pub Always-attempt :
      (m : Prog A) (w : World)
      → Always name_of inv (λ r w'. post (ok r) w') m w
      → Always name_of inv post (attempt m) w
  unfolding Always
  Always-attempt (ret a) w h = h
  Always-attempt (fail e) w h = h
  Always-attempt (read_dir s k) w h =
      (h.0, Always-attempt (k (Disk.read_dir s w)) w h.1, λ e. Always-attempt (k (err e)) w (h.2 e))
  Always-attempt (file_type p k) w h = (
    h.0,
    Always-attempt (k (Disk.file_type p w)) w h.1,
    λ e. Always-attempt (k (err e)) w (h.2 e),
  )
  Always-attempt (modified p k) w h =
      (h.0, Always-attempt (k (Disk.modified p w)) w h.1, λ e. Always-attempt (k (err e)) w (h.2 e))
  Always-attempt (read p k) w h =
      (h.0, Always-attempt (k (Disk.read p w)) w h.1, λ e. Always-attempt (k (err e)) w (h.2 e))
  Always-attempt (exists p k) w h =
      (h.0, Always-attempt (k (Disk.exists p w)) w h.1, Always-attempt (k false) w h.2)
  Always-attempt (rename p q k) w h = (
    h.0,
    Always-attempt (k (Disk.rename p q w).0) (Disk.rename p q w).1 h.1,
    λ e. Always-attempt (k (err e)) w (h.2 e),
  )
  Always-attempt (remove_file p k) w h = (
    h.0,
    Always-attempt (k (Disk.remove_file p w).0) (Disk.remove_file p w).1 h.1,
    λ e. Always-attempt (k (err e)) w (h.2 e),
  )
  Always-attempt (create_new p k) w h = (
    h.0,
    Always-attempt (k (Disk.create_new p w).0) (Disk.create_new p w).1 h.1,
    λ e. Always-attempt (k (err e)) w (h.2 e),
  )
  Always-attempt (write_all p b k) w h = (
    h.0,
    Always-attempt (k (Disk.write_all p b w).0) (Disk.write_all p b w).1 h.1,
    λ e c. Always-attempt (k (err e)) (Disk.write_all p c w).1 (h.2 e c),
  )
  Always-attempt (sync_file p k) w h =
      (h.0, Always-attempt (k (ok tt)) w h.1, λ e. Always-attempt (k (err e)) w (h.2 e))
  Always-attempt (sync_dir s k) w h =
      (h.0, Always-attempt (k (ok tt)) w h.1, λ e. Always-attempt (k (err e)) w (h.2 e))
  Always-attempt (create_dir_all s k) w h =
      (h.0, Always-attempt (k (ok tt)) w h.1, λ e. Always-attempt (k (err e)) w (h.2 e))
  Always-attempt (now k) w h = (h.0, λ t. Always-attempt (k t) w (h.1 t))
  Always-attempt (new_message_name k) w h =
      (h.0, Always-attempt (k (name_of w.next_name)) (record w { next_name = suc w.next_name }) h.1)

module _ (name_of : ℕ → Bytes) (inv weaker : World → Type 0) {A : Type 0}
    (strong weak : Result QueueError A → World → Type 0) where
  pub Always-weaken :
      (m : Prog A) (up : (w : World) → inv w → weaker w)
      (le : (r : Result QueueError A) (w : World) → inv w → strong r w → weak r w) (w : World)
      → Always name_of inv strong m w
      → Always name_of weaker weak m w
  unfolding Always
  Always-weaken (ret a) up le w h = (up w h.0, le (ok a) w h.0 h.1)
  Always-weaken (fail e) up le w h = (up w h.0, le (err e) w h.0 h.1)
  Always-weaken (read_dir s k) up le w h = (
    up w h.0,
    Always-weaken (k (Disk.read_dir s w)) up le w h.1,
    λ e. Always-weaken (k (err e)) up le w (h.2 e),
  )
  Always-weaken (file_type p k) up le w h = (
    up w h.0,
    Always-weaken (k (Disk.file_type p w)) up le w h.1,
    λ e. Always-weaken (k (err e)) up le w (h.2 e),
  )
  Always-weaken (modified p k) up le w h = (
    up w h.0,
    Always-weaken (k (Disk.modified p w)) up le w h.1,
    λ e. Always-weaken (k (err e)) up le w (h.2 e),
  )
  Always-weaken (read p k) up le w h = (
    up w h.0,
    Always-weaken (k (Disk.read p w)) up le w h.1,
    λ e. Always-weaken (k (err e)) up le w (h.2 e),
  )
  Always-weaken (exists p k) up le w h = (
    up w h.0,
    Always-weaken (k (Disk.exists p w)) up le w h.1,
    Always-weaken (k false) up le w h.2,
  )
  Always-weaken (rename p q k) up le w h = (
    up w h.0,
    Always-weaken (k (Disk.rename p q w).0) up le (Disk.rename p q w).1 h.1,
    λ e. Always-weaken (k (err e)) up le w (h.2 e),
  )
  Always-weaken (remove_file p k) up le w h = (
    up w h.0,
    Always-weaken (k (Disk.remove_file p w).0) up le (Disk.remove_file p w).1 h.1,
    λ e. Always-weaken (k (err e)) up le w (h.2 e),
  )
  Always-weaken (create_new p k) up le w h = (
    up w h.0,
    Always-weaken (k (Disk.create_new p w).0) up le (Disk.create_new p w).1 h.1,
    λ e. Always-weaken (k (err e)) up le w (h.2 e),
  )
  Always-weaken (write_all p b k) up le w h = (
    up w h.0,
    Always-weaken (k (Disk.write_all p b w).0) up le (Disk.write_all p b w).1 h.1,
    λ e c. Always-weaken (k (err e)) up le (Disk.write_all p c w).1 (h.2 e c),
  )
  Always-weaken (sync_file p k) up le w h = (
    up w h.0,
    Always-weaken (k (ok tt)) up le w h.1,
    λ e. Always-weaken (k (err e)) up le w (h.2 e),
  )
  Always-weaken (sync_dir s k) up le w h = (
    up w h.0,
    Always-weaken (k (ok tt)) up le w h.1,
    λ e. Always-weaken (k (err e)) up le w (h.2 e),
  )
  Always-weaken (create_dir_all s k) up le w h = (
    up w h.0,
    Always-weaken (k (ok tt)) up le w h.1,
    λ e. Always-weaken (k (err e)) up le w (h.2 e),
  )
  Always-weaken (now k) up le w h = (up w h.0, λ t. Always-weaken (k t) up le w (h.1 t))
  Always-weaken (new_message_name k) up le w h = (
    up w h.0,
    Always-weaken (k (name_of w.next_name)) up le (record w { next_name = suc w.next_name }) h.1,
  )
