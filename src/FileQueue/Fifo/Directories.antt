-- ===== src/FileQueue/Fifo/Directories.antt =====
-- The sorted messages of a directory after each change of it.
use mathlib.Core.Path.{subst}
use in_engine_net.Prelude.{
  ◌≡◌, refl, sym, ap, ◌∙◌, inl, inr, Bool, true, false, not, ◌&&◌, none, some, List, [], ◌∷◌, ◌++◌,
  Bytes, bytes_eq, bytes_eq→eq, bytes_eq_refl, bytes_eq_iff, bytes_lt, bytes_lt_irrefl,
  if◌then◌else◌, Bool-cases, arith,
}
use in_engine_net.Std.Sort.{sort, All, All-map, All-sort, sort-All}
use in_engine_net.FileQueue.Names.{is_hidden}
use in_engine_net.FileQueue.Disk.{File, Directory, find, delete, put}
use in_engine_net.FileQueue.Lookup.{find-delete}
use in_engine_net.FileQueue.Fifo.{Message, before, visible, messages, Distinct}
use in_engine_net.FileQueue.Fifo.Sorted.{
  Absent, AllBefore, AllAfter, IsStrict, AreDistinct, remove, remove-Absent, sort-IsStrict,
  insert_sorted-last, remove-sort,
}

pub delete_missing : (n : Bytes) (d : Directory) → find n d ≡ none → delete n d ≡ d
unfolding find delete
delete_missing n [] h = refl
delete_missing n ((m, f) ∷ d) h = elim (Bool-cases (bytes_eq m n)) [
  | inl e ↦ absurd (ground arith)
  | inr e ↦ rw e (ap (◌∷◌ (m, f)) (delete_missing n d (ground arith)))
]

pub delete-put : (n : Bytes) (f : File) (d : Directory) → find n d ≡ none → delete n (put n f d) ≡ d
unfolding put delete
delete-put n f d h =
    rw (bytes_eq_refl n) (ap (delete n) (delete_missing n d h) ∙ delete_missing n d h)

pub put-put : (n : Bytes) (f g : File) (d : Directory) → put n g (put n f d) ≡ put n g d
unfolding put delete
put-put n f g d = rw (bytes_eq_refl n) (
    ap (◌∷◌ (n, g))
      (delete_missing n (delete n d) (ground (arith, find-delete n n d, bytes_eq_refl n))))

pub Distinct-delete : (n : Bytes) (d : Directory) → Distinct d → Distinct (delete n d)
unfolding delete find
Distinct-delete n [] h = tt
Distinct-delete n ((m, f) ∷ d) h = elim (Bool-cases (bytes_eq m n)) [
  | inl e ↦ rw e (Distinct-delete n d h.1)
  | inr e ↦ rw e (ground (arith, h.0, find-delete n m d), Distinct-delete n d h.1)
]

pub Distinct-put : (n : Bytes) (f : File) (d : Directory) → Distinct d → Distinct (put n f d)
unfolding put
Distinct-put n f d h = (ground (arith, find-delete n n d, bytes_eq_refl n), Distinct-delete n d h)

-- What holds of every visible file holds of every message.
pub visible-All :
    (P : Message → Type 0) (d : Directory)
    → Distinct d
    → ((m : Bytes) (f : File)
        → find m d ≡ some f
        → is_hidden m ≡ false
        → f.is_file ≡ true
        → P (m, f.contents))
    → All P (visible d)
unfolding visible find
visible-All P [] h k = tt
visible-All P ((n, f) ∷ d) h k =
    let rest = visible-All P d h.1 (λ m g e. k m g (ground (arith, h.0, e, bytes_eq_iff n m))) in
    elim (Bool-cases (not (is_hidden n) && f.is_file)) [
      | inl e ↦ rw e (k n f (rw (bytes_eq_refl n) refl) (ground arith) (ground arith), rest)
      | inr e ↦ rw e rest
    ]

pub All-visible :
    (P : Message → Type 0) (d : Directory) (n : Bytes) (f : File)
    → All P (visible d)
    → find n d ≡ some f
    → is_hidden n ≡ false
    → f.is_file ≡ true
    → P (n, f.contents)
unfolding visible find
All-visible P [] n f h e v i = absurd (ground arith)
All-visible P ((m, g) ∷ d) n f h e v i = elim (Bool-cases (bytes_eq m n)) [
  | inl a ↦ elim (Bool-cases (not (is_hidden m) && g.is_file)) [
    | inl b ↦
        let same : g ≡ f = ground arith in
        subst P (λ i. ((bytes_eq→eq m n a) i, (same i).contents)) (kept b).0
    | inr b ↦ absurd (ground (arith, bytes_eq_iff m n))
  ]
  | inr a ↦ elim (Bool-cases (not (is_hidden m) && g.is_file)) [
    | inl b ↦ All-visible P d n f (kept b).1 (ground arith) v i
    | inr b ↦ All-visible P d n f (left b) (ground arith) v i
  ]
]
  where
    Shown : Bool → Type 0
    Shown b = All P (if b then (m, g.contents) ∷ visible d else visible d)

    kept : (not (is_hidden m) && g.is_file) ≡ true → P (m, g.contents) × All P (visible d)
    kept b = subst Shown b h

    left : (not (is_hidden m) && g.is_file) ≡ false → All P (visible d)
    left b = subst Shown b h

visible-delete : (n : Bytes) (d : Directory) → visible (delete n d) ≡ remove n (visible d)
unfolding visible delete
visible-delete n [] = refl
visible-delete n ((m, f) ∷ d) = ground (arith, visible-delete n d)

Absent-visible : (n : Bytes) (d : Directory) → Distinct d → find n d ≡ none → Absent n (visible d)
Absent-visible n d h e =
    visible-All (λ m. bytes_eq m.0 n ≡ false) d h
      (λ m f k v i. ground (arith, e, k, bytes_eq_iff m n))

visible-AreDistinct : (d : Directory) → Distinct d → AreDistinct (visible d)
unfolding visible
visible-AreDistinct [] h = tt
visible-AreDistinct ((n, f) ∷ d) h = elim (Bool-cases (not (is_hidden n) && f.is_file)) [
  | inl e ↦ rw e (Absent-visible n d h.1 h.0, visible-AreDistinct d h.1)
  | inr e ↦ rw e (visible-AreDistinct d h.1)
]

-- A new message after all others is the last one.
pub messages-put :
    (n : Bytes) (f : File) (d : Directory)
    → find n d ≡ none
    → is_hidden n ≡ false
    → f.is_file ≡ true
    → AllBefore n (visible d)
    → messages (put n f d) ≡ messages d ++ (n, f.contents) ∷ []
unfolding messages put visible sort
messages-put n f d e v i h =
    rw (v, i, delete_missing n d e)
      (insert_sorted-last (n, f.contents) (sort before (visible d))
        (All-sort before (λ m. bytes_lt m.0 n ≡ true) (visible d) h))

messages-IsStrict : (d : Directory) → Distinct d → IsStrict (messages d)
unfolding messages
messages-IsStrict d h = sort-IsStrict (visible d) (visible-AreDistinct d h)

AllAfter-Absent : (n : Bytes) (ms : List Message) → AllAfter n ms → Absent n ms
AllAfter-Absent n ms h =
    All-map (λ m. bytes_lt n m.0 ≡ true) (λ m. bytes_eq m.0 n ≡ false) ms
      (λ m l. ground (arith, bytes_lt_irrefl n, bytes_eq_iff m.0 n)) h

-- Without its first message a directory has the others.
pub messages-delete :
    (m : Message) (ms : List Message) (d : Directory)
    → Distinct d
    → messages d ≡ m ∷ ms
    → messages (delete m.0 d) ≡ ms
unfolding messages
messages-delete m ms d h e =
    ap (sort before) (visible-delete m.0 d)
    ∙ sym (remove-sort m.0 (visible d) (visible-AreDistinct d h))
    ∙ ap (remove m.0) e
    ∙ rw (bytes_eq_refl m.0)
        (remove-Absent m.0 ms (AllAfter-Absent m.0 ms (subst IsStrict e (messages-IsStrict d h)).0))

-- The first message is before every other visible file.
pub messages-first :
    (m : Message) (ms : List Message) (d : Directory) (n : Bytes) (f : File)
    → Distinct d
    → messages d ≡ m ∷ ms
    → find n (delete m.0 d) ≡ some f
    → is_hidden n ≡ false
    → f.is_file ≡ true
    → bytes_lt m.0 n ≡ true
unfolding messages
messages-first m ms d n f h e k v i =
    All-visible (λ x. bytes_lt m.0 x.0 ≡ true) (delete m.0 d) n f
      (sort-All before (λ x. bytes_lt m.0 x.0 ≡ true) (visible (delete m.0 d))
        (subst (AllAfter m.0) (sym (messages-delete m ms d h e))
          (subst IsStrict e (messages-IsStrict d h)).0))
      k v i

-- A message is a visible file of the directory.
abbrev pub Stored : Directory → Message → Type 0
Stored d m =
    (f : File) × (find m.0 d ≡ some f)
    × (is_hidden m.0 ≡ false)
    × (f.is_file ≡ true)
    × (f.contents ≡ m.1)

pub messages-Stored :
    (m : Message) (ms : List Message) (d : Directory)
    → Distinct d
    → messages d ≡ m ∷ ms
    → Stored d m
unfolding messages
messages-Stored m ms d h e =
    (subst (All (Stored d)) e (
      All-sort before (Stored d) (visible d)
        (visible-All (Stored d) d h (λ n f k v i. (f, k, v, i, refl))))).0
