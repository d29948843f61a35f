-- ===== src/FileQueue/Fifo/Worlds.antt =====
-- The order of the messages through the changes of the disk that a claim and a publish make.
use in_engine_net.Prelude.{
  ℕ, suc, ◌≤◌, ◌≡◌, inl, inr, true, false, none, some, List, ◌∷◌, Bytes, bytes_eq, bytes_eq→eq,
  bytes_eq_iff, bytes_lt, bytes_lt_irrefl, Option-cases, Bool-cases, arith,
}
use in_engine_net.FileQueue.Names.{is_hidden, hidden_name, temp_suffix}
use in_engine_net.FileQueue.Disk.{File, Directory, World, find, delete, put}
use in_engine_net.FileQueue.Lookup.{find-delete, find-put}
use in_engine_net.FileQueue.Fifo.{Message, visible, messages, IsNaming, Kept, InOrder}
use in_engine_net.FileQueue.Fifo.Directories.{
  Distinct-delete, Distinct-put, visible-All, messages-first,
}
use in_engine_net.FileQueue.Fifo.Sorted.{AllBefore}

module _ (name_of : ℕ → Bytes) (next : ℕ) (d : Directory) (h : Kept name_of next d) where
  pub Kept-delete : (n : Bytes) → Kept name_of next (delete n d)
  Kept-delete n = record {
    distinct = Distinct-delete n d h.distinct;
    early = λ m f k e. h.early m f k (ground (arith, e, find-delete n m d));
    temp_free = λ k l.
        ground (arith, h.temp_free k l, find-delete n (hidden_name (name_of k) temp_suffix) d);
  }

  pub Kept-put :
      (n : Bytes) (f : File)
      → is_hidden n ≡ false
      → ((k : ℕ) → next ≤ k → bytes_lt n (name_of k) ≡ true)
      → Kept name_of next (put n f d)
  unfolding hidden_name is_hidden
  Kept-put n f v b = record {
    distinct = Distinct-put n f d h.distinct;
    early = λ m g k e s l. elim (Bool-cases (bytes_eq n m)) [
      | inl a ↦ ground (arith, b k l, bytes_eq→eq n m a)
      | inr a ↦ h.early m g k (ground (arith, e, find-put n m f d)) s l
    ];
    temp_free = λ k l. ground (
      arith,
      v,
      h.temp_free k l,
      find-put n (hidden_name (name_of k) temp_suffix) f d,
      bytes_eq_iff n (hidden_name (name_of k) temp_suffix),
    );
  }

  pub Kept-later : Kept name_of (suc next) d
  Kept-later = record {
    distinct = h.distinct;
    early = λ m f k e v l. h.early m f k e v (omega arith);
    temp_free = λ k l. h.temp_free k (omega arith);
  }

  pub AllBefore-visible : (k : ℕ) → next ≤ k → AllBefore (name_of k) (visible d)
  AllBefore-visible k l =
      visible-All (λ m. bytes_lt m.0 (name_of k) ≡ true) d h.distinct
        (λ m f e v i. h.early m f k e v l)

  -- A new name is not taken.
  pub find-fresh : (k : ℕ) → next ≤ k → is_hidden (name_of k) ≡ false → find (name_of k) d ≡ none
  find-fresh k l v = elim (Option-cases (find (name_of k) d)) [
    | inl e ↦ e
    | inr (f, e) ↦
        absurd (ground (arith, h.early (name_of k) f k e v l, bytes_lt_irrefl (name_of k)))
  ]

module _ (name_of : ℕ → Bytes) (naming : IsNaming name_of) (w : World) (h : InOrder name_of w) where
  pub InOrder-later : InOrder name_of (record w { next_name = suc w.next_name })
  InOrder-later = record {
    pending = Kept-later name_of w.next_name w.pending h.pending;
    in_progress = Kept-later name_of w.next_name w.in_progress h.in_progress;
    failed = Kept-later name_of w.next_name w.failed h.failed;
    claimed_first = h.claimed_first;
  }

  -- No claimed file has the name of a pending message.
  pub find-unclaimed :
      (n : Bytes) (f : File)
      → find n w.pending ≡ some f
      → is_hidden n ≡ false
      → f.is_file ≡ true
      → find n w.in_progress ≡ none
  find-unclaimed n f e v i = elim (Option-cases (find n w.in_progress)) [
    | inl k ↦ k
    | inr (g, k) ↦ absurd (ground (arith, h.claimed_first n n g f k v e v i, bytes_lt_irrefl n))
  ]

  -- The disk after the first pending message is claimed.
  pub InOrder-claim :
      (m : Message) (ms : List Message) (f : File)
      → messages w.pending ≡ m ∷ ms
      → find m.0 w.pending ≡ some f
      → is_hidden m.0 ≡ false
      → InOrder name_of
          (record w { pending = delete m.0 w.pending; in_progress = put m.0 f w.in_progress })
  InOrder-claim m ms f e k v = record {
    pending = Kept-delete name_of w.next_name w.pending h.pending m.0;
    in_progress =
        Kept-put name_of w.next_name w.in_progress h.in_progress m.0 f v
          (λ j l. h.pending.early m.0 f j k v l);
    failed = h.failed;
    claimed_first = λ a b x y p pv q qv i. elim (Bool-cases (bytes_eq m.0 a)) [
      | inl s ↦ ground (
        arith,
        messages-first m ms w.pending b y h.pending.distinct e q qv i,
        bytes_eq→eq m.0 a s,
      )
      | inr s ↦
          h.claimed_first a b x y (ground (arith, p, find-put m.0 a f w.in_progress)) pv
            (ground (arith, q, find-delete m.0 b w.pending)) qv i
    ];
  }

  fresh : (k : ℕ) → suc w.next_name ≤ k → bytes_lt (name_of w.next_name) (name_of k) ≡ true
  fresh k l = naming.later w.next_name k (omega arith)

  -- The disk after a claimed file goes to the failed stage under the next name.
  pub InOrder-discard :
      (n : Bytes) (f : File)
      → InOrder name_of (record w {
        in_progress = delete n w.in_progress;
        failed = put (name_of w.next_name) f w.failed;
        next_name = suc w.next_name;
      })
  InOrder-discard n f = record {
    pending = InOrder-later.pending;
    in_progress = Kept-delete name_of (suc w.next_name) w.in_progress InOrder-later.in_progress n;
    failed =
        Kept-put name_of (suc w.next_name) w.failed InOrder-later.failed (name_of w.next_name) f
          (naming.shown w.next_name) fresh;
    claimed_first =
        λ a b x y p. h.claimed_first a b x y (ground (arith, p, find-delete n a w.in_progress));
  }

  -- The disk after a message is published under the next name.
  pub InOrder-publish :
      (f : File)
      → InOrder name_of (record w {
        pending = put (name_of w.next_name) f w.pending;
        next_name = suc w.next_name;
      })
  InOrder-publish f = record {
    pending =
        Kept-put name_of (suc w.next_name) w.pending InOrder-later.pending (name_of w.next_name) f
          (naming.shown w.next_name) fresh;
    in_progress = InOrder-later.in_progress;
    failed = InOrder-later.failed;
    claimed_first = λ a b x y p pv q qv i. elim (Bool-cases (bytes_eq (name_of w.next_name) b)) [
      | inl s ↦ ground (
        arith,
        h.in_progress.early a x w.next_name p pv (omega arith),
        bytes_eq→eq (name_of w.next_name) b s,
      )
      | inr s ↦
          h.claimed_first a b x y p pv
            (ground (arith, q, find-put (name_of w.next_name) b f w.pending)) qv i
    ];
  }
