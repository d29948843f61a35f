-- ===== src/FileQueue/Settle/Crash.antt =====
-- `FileStore::move_claimed` of inengine-core/src/queue/driver/file/store.rs on a disk where any
-- call may fail and the process may stop between any two calls.
use in_engine_net.Prelude.{
  ℕ, suc, ◌≡◌, ◌∙◌, Bool, true, false, none, some, Bytes, Result, ok, err, arith, ◌⊎◌, inl, inr,
}
use in_engine_net.Error.{IoError, not_found, other, QueueError}
use in_engine_net.Queue.Types.{Stage, in_progress, stage_eq}
use in_engine_net.Queue.Envelope.{Envelope, Json}
use in_engine_net.FileQueue.Names.{hidden_name, temp_suffix, settling_name}
use in_engine_net.FileQueue.Disk
use in_engine_net.FileQueue.Disk.{IoResult, File, FilePath, World, find_path, put_path, delete_path}
use in_engine_net.FileQueue.Lookup.{
  path_eq, find_path-put_path, find_path-delete_path, path_eq-elsewhere, path_eq_refl,
  find_path-next_name, stage_eq_comm,
}
use in_engine_net.FileQueue.Frame.{
  find_path-remove_file, rename-cases, rename_missing, remove_file-cases,
}
use in_engine_net.FileQueue.Prog.{Prog, ret, exists, remove_file, ◌>>=◌, attempt, Always}
use in_engine_net.FileQueue.Logic.{Then, Always-bind, Always-attempt, Always-weaken}
use in_engine_net.FileQueue.Dir.{
  path, write_atomic, if_present, remove_if_present, rename_if_present,
}
use in_engine_net.FileQueue.Atomic.{WrittenIfOk, AgreesBut, Ends-write_atomic}
use in_engine_net.FileQueue.Store.{json_error}
use in_engine_net.FileQueue.Settle.{
  restore_claimed, removed_claimed, if_claimed, move_claimed, write_moved,
}

module _ (name_of : ℕ → Bytes) (f : File) (text name : Bytes) (target : Stage) where
  abbrev pub current : FilePath
  current = path in_progress name

  abbrev pub claimed : FilePath
  claimed = path in_progress (settling_name name)

  -- A new message file of the target stage holds the new text.
  abbrev pub Copied : World → Type 0
  Copied w =
      (i : ℕ) × (g : File) × (find_path (path target (name_of i)) w ≡ some g) × (g.contents ≡ text)

  -- Where the message is: in its claimed file, in the same file under its settling name, or in a
  -- new file of the target stage.
  pub data Kept (w : World) : Type 0 where
    at_current : find_path current w ≡ some f → Kept w
    at_claimed : find_path claimed w ≡ some f → Kept w
    at_copy : Copied w → Kept w

  -- A move that reports success has written the new file.
  abbrev pub Moved : Result QueueError Bool → World → Type 0
  Moved (ok true) w = Copied w
  Moved _ w = Unit {0}

  abbrev pub Safe : Prog Bool → World → Type 0
  Safe = Always name_of Kept Moved

  abbrev pub IsClaimed : World → Type 0
  IsClaimed w = find_path claimed w ≡ some f

  abbrev copy : ℕ → FilePath
  copy i = path target (name_of i)

  -- The message was taken away, and its new copy is removed too.
  still_claimed :
      (w : World) (r : IoResult (Unit {0})) → Kept w → Safe (if_present r >>= λ _. ret false) w
  unfolding Always
  still_claimed w (ok done) h = (h, tt)
  still_claimed w (err not_found) h = (h, tt)
  still_claimed w (err e) h = (h, tt)

  Safe-restore :
      (w : World) (e : QueueError) (k : Unit {0} → Prog Bool)
      → IsClaimed w
      → Safe (restore_claimed claimed current (err e) >>= k) w
  unfolding Always
  Safe-restore w e k h = (at_claimed h, (back, tt), λ x. (at_claimed h, tt))
    where
      back : Kept (Disk.rename claimed current w).1
      back = elim (rename-cases claimed current w f h) [
        | inl d ↦ rw d (
            at_current (
              ground (
                arith,
                path_eq_refl current,
                find_path-put_path current current f (delete_path claimed w),
              )))
        | inr (x, d) ↦ rw d (at_claimed h)
      ]

  module _ (elsewhere : stage_eq in_progress target ≡ false) where
    backwards : stage_eq target in_progress ≡ false
    backwards = stage_eq_comm target in_progress ∙ elsewhere

    apart : (i : ℕ) → path_eq claimed (copy i) ≡ false
    apart i = path_eq-elsewhere claimed (copy i) elsewhere

    Safe-removed :
        (w : World) (i : ℕ) (g : File) (r : IoResult (Unit {0}) × World)
        → IsClaimed w
        → find_path (copy i) w ≡ some g
        → g.contents ≡ text
        → (r ≡ (ok tt, delete_path claimed w)) ⊎ (r ≡ (err (other 21), w))
        → Safe (removed_claimed (copy i) r.0) r.1
    unfolding Always
    Safe-removed w i g r h c t (inl e) = rw e (at_copy (i, g, found, t), (i, g, found, t))
      where
        found : find_path (copy i) (delete_path claimed w) ≡ some g
        found = ground (arith, apart i, find_path-delete_path claimed (copy i) w)
    Safe-removed w i g r h c t (inr e) = rw e (at_claimed h, (i, g, c, t))

    -- The engine says that the settling file is gone, or that it could not be removed.
    Safe-unremoved :
        (w : World) (i : ℕ) (g : File) (e : IoError)
        → IsClaimed w
        → find_path (copy i) w ≡ some g
        → g.contents ≡ text
        → Safe (removed_claimed (copy i) (err e)) w
    unfolding Always remove_if_present
    Safe-unremoved w i g not_found h c t = (
      at_claimed h,
      still_claimed _ _ (at_claimed left),
      λ x. still_claimed w (err x) (at_claimed h),
    )
      where
        left : find_path claimed (Disk.remove_file (copy i) w).1 ≡ some f
        left =
            find_path-remove_file (copy i) claimed w
              (path_eq-elsewhere (copy i) claimed (backwards))
            ∙ h
    Safe-unremoved w i g e h c t = (at_claimed h, (i, g, c, t))

    Safe-remove :
        (w : World) (i : ℕ) (g : File)
        → IsClaimed w
        → find_path (copy i) w ≡ some g
        → g.contents ≡ text
        → Safe (remove_file claimed (removed_claimed (copy i))) w
    unfolding Always
    Safe-remove w i g h c t = (
      at_claimed h,
      Safe-removed w i g _ h c t (remove_file-cases claimed w f h),
      λ e. Safe-unremoved w i g e h c t,
    )

    abbrev after_write : ℕ → Result QueueError (Unit {0}) → Prog Bool
    after_write i r =
        restore_claimed claimed current r >>= λ _. remove_file claimed (removed_claimed (copy i))

    Safe-after_write :
        (w : World) (i : ℕ) (r : Result QueueError (Unit {0}))
        → IsClaimed w
        → WrittenIfOk text (copy i) r w
        → Safe (after_write i r) w
    Safe-after_write w i (ok done) h (g, c, t) = Safe-remove w i g h c t
    Safe-after_write w i (err e) h c =
        Safe-restore w e (λ _. remove_file claimed (removed_claimed (copy i))) h

    IsClaimed-framed :
        (i : ℕ) (w w' : World)
        → AgreesBut (path target (hidden_name (name_of i) temp_suffix)) (copy i) w w'
        → IsClaimed w
        → IsClaimed w'
    IsClaimed-framed i w w' agrees h =
        agrees claimed (path_eq-elsewhere (path target _) claimed backwards)
          (path_eq-elsewhere (copy i) claimed backwards)
        ∙ h

    Safe-copy :
        (w : World) (i : ℕ)
        → IsClaimed w
        → Safe (attempt (write_atomic target (name_of i) text) >>= after_write i) w
    Safe-copy w i h = Always-bind name_of Kept Moved (attempt writing) (after_write i) w (
        Always-attempt name_of Kept (Then name_of Kept Moved (after_write i)) writing w (
          Always-weaken name_of IsClaimed Kept (WrittenIfOk text (copy i))
            (λ r. Safe (after_write i r)) writing (λ v. at_claimed) (λ r v. Safe-after_write v i r)
            w
            (Ends-write_atomic name_of IsClaimed target (name_of i) text (IsClaimed-framed i) w h)))
      where
        writing : Prog (Unit {0})
        writing = write_atomic target (name_of i) text

    module _ (json : Json) (envelope : Envelope)
        (serialized : json.to_vec_pretty envelope ≡ ok text) where
      Safe-write_moved : (w : World) → IsClaimed w → Safe (write_moved json name envelope target) w
      unfolding write_moved Always
      Safe-write_moved w h =
          rw (serialized, json_error)
            (
              at_claimed h,
              Safe-copy _ w.next_name (find_path-next_name claimed w (suc w.next_name) ∙ h),
            )

      -- The start of a settle: a claimed file, or what an earlier settle left when it stopped
      -- partway.
      pub data Starts (w : World) : Type 0 where
        first_settle : find_path current w ≡ some f → find_path claimed w ≡ none → Starts w
        settled_before : find_path current w ≡ none → IsClaimed w → Starts w

      abbrev moving : Prog Bool
      moving = write_moved json name envelope target

      abbrev resuming : Prog Bool
      resuming = exists claimed (λ left. if_claimed left moving (ret false))

      abbrev after_rename : IoResult (Unit {0}) → Prog Bool
      after_rename r = if_present r >>= λ present. if_claimed present moving resuming

      Starts-Kept : {w : World} → Starts w → Kept w
      Starts-Kept (first_settle h m) = at_current h
      Starts-Kept (settled_before m h) = at_claimed h

      Safe-resuming : (w : World) → Starts w → Safe resuming w
      unfolding Always Disk.exists
      Safe-resuming w (first_settle h m) =
          rw m (at_current h, (at_current h, tt), (at_current h, tt))
      Safe-resuming w (settled_before m h) =
          rw h (at_claimed h, Safe-write_moved w h, (at_claimed h, tt))

      Safe-unrenamed : (w : World) (e : IoError) → Starts w → Safe (after_rename (err e)) w
      unfolding Always
      Safe-unrenamed w not_found s = Safe-resuming w s
      Safe-unrenamed w e s = (Starts-Kept s, tt)

      Safe-renamed :
          (w : World)
          → Starts w
          → Safe (after_rename (Disk.rename current claimed w).0) (Disk.rename current claimed w).1
      Safe-renamed w (settled_before m h) =
          rw (rename_missing current claimed w m) (Safe-unrenamed w not_found (settled_before m h))
      Safe-renamed w (first_settle h m) = elim (rename-cases current claimed w f h) [
        | inl e ↦ rw e (Safe-write_moved _ moved)
        | inr (x, e) ↦ rw e (Safe-unrenamed w x (first_settle h m))
      ]
        where
          moved : IsClaimed (put_path claimed f (delete_path current w))
          moved = ground (
            arith,
            path_eq_refl claimed,
            find_path-put_path claimed claimed f (delete_path current w),
          )

      -- From a claimed file, or what an earlier settle of it left, `move_claimed` to another stage
      -- of an envelope that serializes, whichever of its file system calls fail and wherever the
      -- process stops, always leaves the message on the disk: in its claimed file, under its
      -- settling name, or in a new file of the target stage with the new text; and that new file
      -- is there when the move reports success.
      pub Safe-move_claimed :
          (w : World) → Starts w → Safe (move_claimed json name envelope target) w
      unfolding move_claimed Always rename_if_present
      Safe-move_claimed w s = (Starts-Kept s, Safe-renamed w s, λ e. Safe-unrenamed w e s)
