-- ===== src/FileQueue/Fifo/Steps.antt =====
-- One claim of inengine-core/src/queue/driver/file/store.rs on an undisturbed disk: the first
-- name's rename, read and delivery, or its move to the failed stage.
use Prim.Native.String.{String}
use in_engine_net.Prelude.{
  ℕ, suc, ◌≡◌, refl, true, false, some, List, [], ◌∷◌, ◌++◌, Bytes, bytes_eq_refl, bytes_lt, Result,
  ok, err, arith,
}
use in_engine_net.Queue.Types.{QueueLane, pending, in_progress, failed}
use in_engine_net.Queue.Envelope.{Envelope, Json, count_attempt}
use in_engine_net.Queue.Delivery.{Receipt}
use in_engine_net.Queue.Spec.{claim_from}
use in_engine_net.FileQueue.Names.{is_hidden}
use in_engine_net.FileQueue.Disk
use in_engine_net.FileQueue.Disk.{
  File, FilePath, World, find, delete, put, dir_of, with_dir, find_path, put_path, delete_path,
  blocks,
}
use in_engine_net.FileQueue.Prog.{run}
use in_engine_net.FileQueue.Dir.{path, rename_if_present}
use in_engine_net.FileQueue.Claim.{claim_names, move_unreadable_to_failed}
use in_engine_net.FileQueue.Fifo.{Message, messages, IsNaming, InOrder}
use in_engine_net.FileQueue.Fifo.Directories.{messages-put, visible-All}
use in_engine_net.FileQueue.Fifo.Running.{rename_new}
use in_engine_net.FileQueue.Fifo.Worlds.{find-unclaimed, find-fresh, AllBefore-visible}

-- The disk after the rename of a claim.
abbrev pub claimed_world : Bytes → File → World → World
claimed_world n f w = record w { pending = delete n w.pending; in_progress = put n f w.in_progress }

abbrev pub discarded_world : (ℕ → Bytes) → Bytes → File → World → World
discarded_world name_of n f w = record w {
  in_progress = delete n w.in_progress;
  failed = put (name_of w.next_name) f w.failed;
  next_name = suc w.next_name;
}

pub claimed-read :
    (n : Bytes) (w : World) (f : File)
    → f.is_file ≡ true
    → Disk.read (path in_progress n) (claimed_world n f w) ≡ ok f.contents
unfolding Disk.read find_path dir_of find put
claimed-read n w f i = rw (bytes_eq_refl n, i) refl

module _ (decode : Bytes → Result String Envelope) (t : Bytes) (ts claimed gone : List Bytes) where
  pub claim_from-readable :
      (e : Envelope)
      → decode t ≡ ok e
      → claim_from decode (t ∷ ts) claimed gone
        ≡ (some (t, e), record { pending = ts; in_progress = t ∷ claimed; failed = gone })
  unfolding claim_from
  claim_from-readable e h = rw (h, claim_from) refl

  pub claim_from-unreadable :
      (x : String)
      → decode t ≡ err x
      → claim_from decode (t ∷ ts) claimed gone ≡ claim_from decode ts claimed (gone ++ t ∷ [])
  unfolding claim_from
  claim_from-unreadable x h = rw (h, claim_from) refl

module _ (name_of : ℕ → Bytes) (naming : IsNaming name_of) where
  -- The rename, the read and the listing's rest, for the first message.
  pub claimed-step :
      (m : Message) (ms : List Message) (w : World) (f : File)
      → InOrder name_of w
      → messages w.pending ≡ m ∷ ms
      → find m.0 w.pending ≡ some f
      → is_hidden m.0 ≡ false
      → f.is_file ≡ true
      → Disk.rename (path pending m.0) (path in_progress m.0) w ≡ (ok tt, claimed_world m.0 f w)
  unfolding find_path put_path delete_path dir_of with_dir
  claimed-step m ms w f h e k v i =
      rename_new (path pending m.0) (path in_progress m.0) w f k
        (find-unclaimed name_of naming w h m.0 f k v i)

  pub discarded-step :
      (n : Bytes) (f : File) (w : World)
      → InOrder name_of w
      → find n w.in_progress ≡ some f
      → Disk.rename
          (path in_progress n)
          (path failed (name_of w.next_name))
          (record w { next_name = suc w.next_name })
        ≡ (ok tt, discarded_world name_of n f w)
  unfolding find_path put_path delete_path dir_of with_dir
  discarded-step n f w h k =
      rename_new (path in_progress n) (path failed (name_of w.next_name))
        (record w { next_name = suc w.next_name }) f k
        (find-fresh name_of w.next_name w.failed h.failed w.next_name (omega arith)
          (naming.shown w.next_name))

  pub claimed_before :
      (m : Message) (w : World) (f : File)
      → InOrder name_of w
      → find m.0 w.pending ≡ some f
      → is_hidden m.0 ≡ false
      → f.is_file ≡ true
      → messages (put m.0 f w.in_progress) ≡ messages w.in_progress ++ (m.0, f.contents) ∷ []
  claimed_before m w f h k v i =
      messages-put m.0 f w.in_progress (find-unclaimed name_of naming w h m.0 f k v i) v i (
        visible-All (λ x. bytes_lt x.0 m.0 ≡ true) w.in_progress h.in_progress.distinct
          (λ n g e u j. h.claimed_first n m.0 g f e u k v i))

  pub discarded_after :
      (f : File) (w : World)
      → InOrder name_of w
      → f.is_file ≡ true
      → messages (put (name_of w.next_name) f w.failed)
        ≡ messages w.failed ++ (name_of w.next_name, f.contents) ∷ []
  discarded_after f w h i =
      messages-put (name_of w.next_name) f w.failed
        (find-fresh name_of w.next_name w.failed h.failed w.next_name (omega arith)
          (naming.shown w.next_name))
        (naming.shown w.next_name) i
        (AllBefore-visible name_of w.next_name w.failed h.failed w.next_name (omega arith))

module _ (name_of : ℕ → Bytes) (json : Json) (lane : QueueLane) where
  -- What a claim does with its first name: the message is delivered, or it is discarded and the
  -- next name follows.
  pub run-claim_readable :
      (n c : Bytes) (ns : List Bytes) (w : World) (f : File) (e : Envelope)
      → Disk.rename (path pending n) (path in_progress n) w ≡ (ok tt, claimed_world n f w)
      → Disk.read (path in_progress n) (claimed_world n f w) ≡ ok c
      → json.from_slice c ≡ ok e
      → run name_of (claim_names json lane (n ∷ ns)) w ≡ (
        ok (some (record { envelope = count_attempt e; lane = lane; receipt = Receipt.file n })),
        claimed_world n f w,
      )
  unfolding claim_names rename_if_present
  run-claim_readable n c ns w f e step read decoded = rw (step, run) (rw read (rw decoded refl))

  pub run-claim_unreadable :
      (n c : Bytes) (ns : List Bytes) (w : World) (f : File) (x : String)
      → Disk.rename (path pending n) (path in_progress n) w ≡ (ok tt, claimed_world n f w)
      → Disk.read (path in_progress n) (claimed_world n f w) ≡ ok c
      → json.from_slice c ≡ err x
      → Disk.rename
          (path in_progress n)
          (path failed (name_of w.next_name))
          (record (claimed_world n f w) { next_name = suc w.next_name })
        ≡ (ok tt, discarded_world name_of n f (claimed_world n f w))
      → run name_of (claim_names json lane (n ∷ ns)) w
        ≡ run name_of (claim_names json lane ns) (discarded_world name_of n f (claimed_world n f w))
  unfolding claim_names rename_if_present move_unreadable_to_failed
  run-claim_unreadable n c ns w f x step read decoded moved =
      rw (step, run) (rw read (rw decoded (rw (moved, run) refl)))
