-- ===== src/FileQueue/Lookup.antt =====
-- What a lookup finds after each change of the disk.
use in_engine_net.Prelude.{
  ℕ, ◌≡◌, Bool, true, false, ◌&&◌, none, some, [], ◌∷◌, Bytes, arith, bytes_eq, bytes_eq_iff,
  bytes_eq_refl, ne→bytes_eq, ◌≢◌, if◌then◌else◌,
}
use in_engine_net.Queue.Types.{Stage, stage_eq}
use in_engine_net.FileQueue.Disk.{
  File, Directory, FilePath, World, find, delete, put, dir_of, with_dir, find_path, put_path,
  delete_path,
}

pub find-delete :
    (n m : Bytes) (d : Directory) → find m (delete n d) ≡ (if bytes_eq n m then none else find m d)
unfolding find delete
find-delete n m [] = ground arith
find-delete n m ((k, f) ∷ d) =
    ground (arith, find-delete n m d, bytes_eq_iff k n, bytes_eq_iff k m, bytes_eq_iff n m)

pub find-put :
    (n m : Bytes) (f : File) (d : Directory)
    → find m (put n f d) ≡ (if bytes_eq n m then some f else find m d)
unfolding find put
find-put n m f d = ground (arith, find-delete n m d)

abbrev pub path_eq : FilePath → FilePath → Bool
path_eq p q = stage_eq p.dir q.dir && bytes_eq p.name q.name

find_dir-put :
    (s t : Stage) (n m : Bytes) (f : File) (w : World)
    → find m (dir_of t (with_dir s (put n f (dir_of s w)) w))
      ≡ (if stage_eq s t && bytes_eq n m then some f else find m (dir_of t w))
unfolding dir_of with_dir
find_dir-put s t n m f w = ground (arith, find-put n m f (dir_of s w))

find_dir-delete :
    (s t : Stage) (n m : Bytes) (w : World)
    → find m (dir_of t (with_dir s (delete n (dir_of s w)) w))
      ≡ (if stage_eq s t && bytes_eq n m then none else find m (dir_of t w))
unfolding dir_of with_dir
find_dir-delete s t n m w = ground (arith, find-delete n m (dir_of s w))

pub find_path-put_path :
    (p q : FilePath) (f : File) (w : World)
    → find_path q (put_path p f w) ≡ (if path_eq p q then some f else find_path q w)
unfolding find_path put_path
find_path-put_path p q f w = find_dir-put p.dir q.dir p.name q.name f w

pub find_path-delete_path :
    (p q : FilePath) (w : World)
    → find_path q (delete_path p w) ≡ (if path_eq p q then none else find_path q w)
unfolding find_path delete_path
find_path-delete_path p q w = find_dir-delete p.dir q.dir p.name q.name w

pub path_eq_refl : (p : FilePath) → path_eq p p ≡ true
path_eq_refl p = ground (arith, bytes_eq_refl p.name)

pub path_eq-ne : (p q : FilePath) → p.name ≢ q.name → path_eq p q ≡ false
path_eq-ne p q h = ground (arith, ne→bytes_eq p.name q.name h)

pub path_eq-elsewhere : (p q : FilePath) → stage_eq p.dir q.dir ≡ false → path_eq p q ≡ false
path_eq-elsewhere p q h = ground arith

-- Making a message name changes no file.
pub find_path-next_name :
    (p : FilePath) (w : World) (n : ℕ) → find_path p (record w { next_name = n }) ≡ find_path p w
unfolding find_path dir_of
find_path-next_name p w n = ground arith

pub stage_eq_comm : (s t : Stage) → stage_eq s t ≡ stage_eq t s
stage_eq_comm s t = ground arith
