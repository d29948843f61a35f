-- ===== src/FileQueue/Frame.antt =====
-- What each call of the disk leaves alone, and the two ways in which a rename of a message ends.
use in_engine_net.Prelude.{
  ◌≡◌, ◌⊎◌, inl, inr, true, false, none, some, [], ◌++◌, Bytes, ok, err, arith, Option-cases,
  Bool-cases,
}
use in_engine_net.Error.{IoError, other, already_exists, not_found}
use in_engine_net.FileQueue.Disk.{
  File, FilePath, World, find_path, put_path, delete_path, blocks, rename, remove_file, create_new,
  write_all,
}
use in_engine_net.FileQueue.Lookup.{
  path_eq, path_eq_refl, find_path-put_path, find_path-delete_path,
}

module _ (p q r : FilePath) (w : World) where
  pub find_path-rename :
      path_eq p r ≡ false → path_eq q r ≡ false → find_path r (rename p q w).1 ≡ find_path r w
  unfolding rename
  find_path-rename hp hq = elim (Option-cases (find_path p w)) [
    | inl e ↦ ground arith
    | inr (g, e) ↦
        ground (arith, find_path-put_path q r g (delete_path p w), find_path-delete_path p r w)
  ]

module _ (p r : FilePath) (w : World) (apart : path_eq p r ≡ false) where
  pub find_path-remove_file : find_path r (remove_file p w).1 ≡ find_path r w
  unfolding remove_file
  find_path-remove_file = ground (arith, find_path-delete_path p r w)

  pub find_path-create_new : find_path r (create_new p w).1 ≡ find_path r w
  unfolding create_new
  find_path-create_new = ground (
    arith,
    find_path-put_path p r (record { contents = []; modified = w.clock; is_file = true }) w,
  )

  pub find_path-write_all : (b : Bytes) → find_path r (write_all p b w).1 ≡ find_path r w
  unfolding write_all
  find_path-write_all b = elim (Option-cases (find_path p w)) [
    | inl e ↦ ground arith
    | inr (g, e) ↦ ground (
      arith,
      find_path-put_path p r (record g { contents = g.contents ++ b; modified = w.clock }) w,
    )
  ]

pub rename-cases :
    (p q : FilePath) (w : World) (f : File)
    → find_path p w ≡ some f
    → (rename p q w ≡ (ok tt, put_path q f (delete_path p w)))
      ⊎ ((e : IoError) × (rename p q w ≡ (err e, w)))
unfolding rename
rename-cases p q w f h = elim (Bool-cases (blocks f (find_path q w))) [
  | inl b ↦ inr (other 21, ground arith)
  | inr b ↦ inl (ground arith)
]

pub remove_file-cases :
    (p : FilePath) (w : World) (f : File)
    → find_path p w ≡ some f
    → (remove_file p w ≡ (ok tt, delete_path p w)) ⊎ (remove_file p w ≡ (err (other 21), w))
unfolding remove_file
remove_file-cases p w f h = elim (Bool-cases f.is_file) [
  | inl b ↦ inl (ground arith)
  | inr b ↦ inr (ground arith)
]

-- What a write leaves at its own path.
pub find_path-write_all_self :
    (p : FilePath) (b : Bytes) (w : World) (f : File)
    → find_path p w ≡ some f
    → find_path p (write_all p b w).1
      ≡ some (record f { contents = f.contents ++ b; modified = w.clock })
unfolding write_all
find_path-write_all_self p b w f h = ground (
  arith,
  path_eq_refl p,
  find_path-put_path p p (record f { contents = f.contents ++ b; modified = w.clock }) w,
)

-- A creation makes an empty file, or fails and changes nothing.
pub create_new-cases :
    (p : FilePath) (w : World)
    → (((create_new p w).0 ≡ ok tt)
        × (find_path p (create_new p w).1
            ≡ some (record { contents = []; modified = w.clock; is_file = true })))
      ⊎ ((e : IoError) × (create_new p w ≡ (err e, w)))
unfolding create_new
create_new-cases p w = elim (Option-cases (find_path p w)) [
  | inl e ↦ inl (
    ground arith,
    ground (
      arith,
      path_eq_refl p,
      find_path-put_path p p (record { contents = []; modified = w.clock; is_file = true }) w,
    ),
  )
  | inr (f, e) ↦ inr (already_exists, ground arith)
]

pub rename_missing :
    (p q : FilePath) (w : World) → find_path p w ≡ none → rename p q w ≡ (err not_found, w)
unfolding rename
rename_missing p q w h = ground arith
