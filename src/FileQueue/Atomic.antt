-- ===== src/FileQueue/Atomic.antt =====
-- `write_atomic` of inengine-core/src/queue/driver/file/dir.rs on a disk where any call may fail:
-- it touches no path but its own two, and reports success only when the whole text is in place.
use in_engine_net.Prelude.{
  ℕ, ◌≡◌, refl, sym, ap, true, false, some, [], ◌++◌, ◌⊎◌, inl, inr, Bytes, Result, ok, err, arith,
}
use in_engine_net.Error.{IoError, QueueError}
use in_engine_net.Queue.Types.{Stage}
use in_engine_net.FileQueue.Names.{hidden_name, temp_suffix, hidden_name-ne}
use in_engine_net.FileQueue.Disk
use in_engine_net.FileQueue.Disk.{IoResult, File, FilePath, World, find_path, put_path, delete_path}
use in_engine_net.FileQueue.Lookup.{
  path_eq, find_path-put_path, find_path-delete_path, path_eq_refl, path_eq-ne,
}
use in_engine_net.FileQueue.Frame.{
  find_path-remove_file, find_path-create_new, find_path-write_all, rename-cases,
  find_path-write_all_self, create_new-cases,
}
use in_engine_net.FileQueue.Prog.{Prog, Always, question, ◌>>=◌, attempt}
use in_engine_net.FileQueue.Logic.{Then, Always-bind, Always-attempt, Always-weaken}
use in_engine_net.FileQueue.Dir.{path, write_temp, finish_write, write_atomic}

abbrev pub Written : Bytes → FilePath → World → Type 0
Written text p w = (g : File) × (find_path p w ≡ some g) × (g.contents ≡ text)

abbrev pub WrittenIfOk : Bytes → FilePath → Result QueueError (Unit {0}) → World → Type 0
WrittenIfOk text p (ok done) w = Written text p w
WrittenIfOk text p (err e) w = Unit {0}

-- `other` agrees with `w` on every path but `p` and `q`.
abbrev pub AgreesBut : FilePath → FilePath → World → World → Type 0
AgreesBut p q w other =
    (r : FilePath) → path_eq p r ≡ false → path_eq q r ≡ false → find_path r other ≡ find_path r w

module _ (name_of : ℕ → Bytes) (inv : World → Type 0) (dir : Stage) (name text : Bytes)
    (framed : (w other : World)
      → AgreesBut (path dir (hidden_name name temp_suffix)) (path dir name) w other
      → inv w
      → inv other) where
  abbrev temp : FilePath
  temp = path dir (hidden_name name temp_suffix)

  abbrev final : FilePath
  final = path dir name

  abbrev Ends : Prog (Unit {0}) → World → Type 0
  Ends = Always name_of inv (WrittenIfOk text final)

  apart : path_eq temp final ≡ false
  apart = path_eq-ne temp final (λ e. hidden_name-ne name temp_suffix (sym e))

  agrees-rename :
      (w : World) (g : File) → AgreesBut temp final w (put_path final g (delete_path temp w))
  agrees-rename w g q hp hq =
      ground
        (arith, find_path-put_path final q g (delete_path temp w), find_path-delete_path temp q w)

  -- The rename of a temporary file that holds the whole text.
  Ends-rename :
      (w : World) (g : File) (r : IoResult (Unit {0}) × World)
      → inv w
      → g.contents ≡ text
      → (r ≡ (ok tt, put_path final g (delete_path temp w))) ⊎ ((e : IoError) × (r ≡ (err e, w)))
      → Ends (question r.0) r.1
  unfolding Always
  Ends-rename w g r i t (inl e) = rw e (framed w _ (agrees-rename w g) i, (g, placed, t))
    where
      placed : find_path final (put_path final g (delete_path temp w)) ≡ some g
      placed =
          ground (arith, find_path-put_path final final g (delete_path temp w), path_eq_refl final)
  Ends-rename w g r i t (inr (x, e)) = rw e (i, tt)

  Ends-write_temp :
      (w : World) (g : File)
      → inv w
      → find_path temp w ≡ some g
      → g.contents ≡ []
      → Ends (write_temp temp final text) w
  unfolding write_temp Always Disk.write_all
  Ends-write_temp w g i h t = (
    i,
    (kept text, (kept text, renamed, λ e. (kept text, tt)), λ e. (kept text, tt)),
    λ e b. (kept b, tt),
  )
    where
      kept : (b : Bytes) → inv (Disk.write_all temp b w).1
      kept b = framed w _ (λ q hp hq. find_path-write_all temp q w hp b) i

      renamed :
          Ends
            (question (Disk.rename temp final (Disk.write_all temp text w).1).0)
            (Disk.rename temp final (Disk.write_all temp text w).1).1
      renamed =
          Ends-rename _ (record g { contents = g.contents ++ text; modified = w.clock }) _
            (kept text) (rw t refl)
            (rename-cases temp final _ _ (find_path-write_all_self temp text w g h))

  -- The cleanup after the temporary file was written, or not.
  Ends-finish_write :
      (w : World) (r : Result QueueError (Unit {0}))
      → inv w
      → WrittenIfOk text final r w
      → Ends (finish_write dir temp r) w
  unfolding finish_write Always
  Ends-finish_write w (ok done) i h = (i, (i, h), λ e. (i, tt))
  Ends-finish_write w (err x) i h =
      (i, (framed w _ (λ q hp hq. find_path-remove_file temp q w hp) i, tt), λ e. (i, tt))

  abbrev CreateOutcome : IoResult (Unit {0}) × World → Type 0
  CreateOutcome (r, w) =
      ((r ≡ ok tt) × ((g : File) × (find_path temp w ≡ some g) × (g.contents ≡ [])))
      ⊎ ((e : IoError) × (r ≡ err e))

  create_outcome : (w : World) → CreateOutcome (Disk.create_new temp w)
  create_outcome w = elim (create_new-cases temp w) [
    | inl (e, h) ↦ inl (e, (record { contents = []; modified = w.clock; is_file = true }, h, refl))
    | inr (x, e) ↦ inr (x, ap (λ p. p.0) e)
  ]

  Ends-created :
      (w : World) (r : IoResult (Unit {0}) × World)
      → inv r.1
      → CreateOutcome r
      → Ends
          (question r.0 >>= λ _. attempt (write_temp temp final text) >>= finish_write dir temp)
          r.1
  unfolding Always
  Ends-created w (r, w') i (inl (e, f)) =
      let (g, h, t) = f in
      rw e (
        Always-bind name_of inv (WrittenIfOk text final) (attempt (write_temp temp final text))
          (finish_write dir temp) w'
          (Always-attempt name_of inv
            (Then name_of inv (WrittenIfOk text final) (finish_write dir temp))
            (write_temp temp final text) w'
            (Always-weaken name_of inv inv (WrittenIfOk text final)
              (λ x. Then name_of inv (WrittenIfOk text final) (finish_write dir temp) (ok x))
              (write_temp temp final text) (λ v j. j) (λ x v j k. Ends-finish_write v x j k) w'
              (Ends-write_temp w' g i h t))))
  Ends-created w (r, w') i (inr (x, e)) = rw e (i, tt)

  pub Ends-write_atomic : (w : World) → inv w → Ends (write_atomic dir name text) w
  unfolding write_atomic Always
  Ends-write_atomic w i = (i, Ends-created w (Disk.create_new temp w) created outcome, λ e. (i, tt))
    where
      created : inv (Disk.create_new temp w).1
      created = framed w _ (λ q hp hq. find_path-create_new temp q w hp) i

      outcome : CreateOutcome (Disk.create_new temp w)
      outcome = create_outcome w
