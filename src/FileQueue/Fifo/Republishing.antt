-- ===== src/FileQueue/Fifo/Republishing.antt =====
-- inengine-core/src/queue/driver/file/store.rs: on an undisturbed disk, `republish_failed` moves
-- the oldest failed messages to the end of the pending stage.
use mathlib.Core.Path.{subst}
use mathlib.Core.List.{append-nil, append_assoc}
use in_engine_net.Prelude.{
  ℕ, zero, suc, ◌+◌, ◌≡◌, refl, sym, ap, ◌∙◌, true, some, List, [], ◌∷◌, ◌++◌, Bytes, Result, ok,
  take, drop, length, arith,
}
use in_engine_net.Error.{QueueError}
use in_engine_net.Queue.Types.{pending, failed}
use in_engine_net.Queue.Spec
use in_engine_net.Queue.Spec.{Stages}
use in_engine_net.FileQueue.Disk
use in_engine_net.FileQueue.Disk.{
  File, World, find, delete, put, dir_of, with_dir, find_path, put_path, delete_path,
}
use in_engine_net.FileQueue.Prog.{run}
use in_engine_net.FileQueue.Dir.{path, rename_if_present, list_messages}
use in_engine_net.FileQueue.Bulk.{republish_names, republish_failed}
use in_engine_net.FileQueue.Fifo.{Message, messages, names, texts, stages, IsNaming, InOrder}
use in_engine_net.FileQueue.Fifo.Directories.{messages-put, messages-delete, messages-Stored}
use in_engine_net.FileQueue.Fifo.Running.{
  go_on, run-bind, run-list_messages, rename_new, texts-append,
}
use in_engine_net.FileQueue.Fifo.Worlds.{
  Kept-delete, InOrder-publish, find-fresh, AllBefore-visible,
}

-- The stages after `n` failed messages are republished, and their number.
abbrev pub Republishes : (ℕ → Bytes) → Stages → ℕ → Result QueueError ℕ × World → Type 0
Republishes name_of q n r = (r.0 ≡ ok n) × (stages r.1 ≡ q) × InOrder name_of r.1

module _ (name_of : ℕ → Bytes) (naming : IsNaming name_of) where
  abbrev moved_world : Bytes → File → World → World
  moved_world n f w = record w {
    pending = put (name_of w.next_name) f w.pending;
    failed = delete n w.failed;
    next_name = suc w.next_name;
  }

  moved-InOrder :
      (n : Bytes) (f : File) (w : World) → InOrder name_of w → InOrder name_of (moved_world n f w)
  moved-InOrder n f w h =
      let p = InOrder-publish name_of naming w h f in
      record {
        pending = p.pending;
        in_progress = p.in_progress;
        failed = Kept-delete name_of (suc w.next_name) w.failed p.failed n;
        claimed_first = p.claimed_first;
      }

  moved-step :
      (n : Bytes) (f : File) (w : World)
      → InOrder name_of w
      → find n w.failed ≡ some f
      → Disk.rename
          (path failed n)
          (path pending (name_of w.next_name))
          (record w { next_name = suc w.next_name })
        ≡ (ok tt, moved_world n f w)
  unfolding find_path put_path delete_path dir_of with_dir
  moved-step n f w h k =
      rename_new (path failed n) (path pending (name_of w.next_name))
        (record w { next_name = suc w.next_name }) f k
        (find-fresh name_of w.next_name w.pending h.pending w.next_name (omega arith)
          (naming.shown w.next_name))

  run-republish_name :
      (n : Bytes) (ns : List Bytes) (moved : ℕ) (f : File) (w : World)
      → Disk.rename
          (path failed n)
          (path pending (name_of w.next_name))
          (record w { next_name = suc w.next_name })
        ≡ (ok tt, moved_world n f w)
      → run name_of (republish_names (n ∷ ns) moved) w
        ≡ run name_of (republish_names ns (moved + 1)) (moved_world n f w)
  unfolding republish_names rename_if_present
  run-republish_name n ns moved f w step = rw (step, run) refl

  pending-moved :
      (n : Bytes) (f : File) (w : World)
      → InOrder name_of w
      → f.is_file ≡ true
      → texts (messages (moved_world n f w).pending) ≡ texts (messages w.pending) ++ f.contents ∷ []
  pending-moved n f w h i =
      ap texts (
        messages-put (name_of w.next_name) f w.pending
          (find-fresh name_of w.next_name w.pending h.pending w.next_name (omega arith)
            (naming.shown w.next_name))
          (naming.shown w.next_name) i
          (AllBefore-visible name_of w.next_name w.pending h.pending w.next_name (omega arith)))
      ∙ texts-append (messages w.pending) (name_of w.next_name, f.contents)

  stopped :
      (w : World) (moved : ℕ) (left : List Bytes)
      → InOrder name_of w
      → texts (messages w.failed) ≡ left
      → Republishes name_of
          (record {
            pending = texts (messages w.pending) ++ [];
            in_progress = (stages w).in_progress;
            failed = left;
          })
          (moved + 0)
          (ok moved, w)
  unfolding stages
  stopped w moved left h e = (
    ap ok {y = moved + 0} (omega arith),
    λ i. record {
      pending = sym (append-nil (texts (messages w.pending))) i;
      in_progress = (stages w).in_progress;
      failed = e i;
    },
    h,
  )

  republish_names-Republishes :
      (ms : List Message) (limit moved : ℕ) (w : World)
      → InOrder name_of w
      → messages w.failed ≡ ms
      → Republishes name_of
          (record {
            pending = texts (messages w.pending) ++ take limit (texts ms);
            in_progress = (stages w).in_progress;
            failed = drop limit (texts ms);
          })
          (moved + length (take limit (texts ms)))
          (run name_of (republish_names (take limit (names ms)) moved) w)
  unfolding republish_names stages
  republish_names-Republishes [] zero moved w h e = stopped w moved [] h (ap texts e)
  republish_names-Republishes [] (suc limit) moved w h e = stopped w moved [] h (ap texts e)
  republish_names-Republishes (m ∷ ms) zero moved w h e =
      stopped w moved (texts (m ∷ ms)) h (ap texts e)
  republish_names-Republishes (m ∷ ms) (suc limit) moved w h e =
      let (f, k, v, i, c) = messages-Stored m ms w.failed h.failed.distinct e in
      let rest =
        republish_names-Republishes ms limit (moved + 1) (moved_world m.0 f w)
          (moved-InOrder m.0 f w h) (messages-delete m ms w.failed h.failed.distinct e) in
      let waiting =
        ap (λ ts. ts ++ take limit (texts ms)) (pending-moved m.0 f w h i)
        ∙ append_assoc (texts (messages w.pending)) (f.contents ∷ []) (take limit (texts ms))
        ∙ ap (λ t. texts (messages w.pending) ++ t ∷ take limit (texts ms)) c in
      subst
        (λ r.
          Republishes name_of
            (record {
              pending = texts (messages w.pending) ++ m.1 ∷ take limit (texts ms);
              in_progress = (stages w).in_progress;
              failed = drop limit (texts ms);
            })
            (moved + suc (length (take limit (texts ms)))) r)
        (sym (run-republish_name m.0 (take limit (names ms)) moved f w (moved-step m.0 f w h k)))
        (
          rest.0 ∙ ap ok {y = moved + suc (length (take limit (texts ms)))} (omega arith),
          rest.1 ∙ (λ j. record {
            pending = waiting j;
            in_progress = (stages w).in_progress;
            failed = drop limit (texts ms);
          }),
          rest.2,
        )

  -- On an undisturbed disk in order, a republish of the file queue is the republish of the three
  -- lists, returns how many messages it moved, and leaves the disk in order.
  pub republish_failed_lem :
      (limit : ℕ) (w : World)
      → InOrder name_of w
      → Republishes name_of
          (Spec.republish limit (stages w))
          (length (take limit (stages w).failed))
          (run name_of (republish_failed limit) w)
  unfolding republish_failed stages Spec.republish dir_of
  republish_failed_lem limit w h =
      let r = republish_names-Republishes (messages w.failed) limit 0 w h refl in
      subst
        (λ r.
          Republishes name_of (Spec.republish limit (stages w))
            (length (take limit (stages w).failed)) r)
        (sym (
          run-bind name_of (λ ns. republish_names (take limit ns) 0) (list_messages failed) w
          ∙ ap (go_on name_of (λ ns. republish_names (take limit ns) 0))
              (run-list_messages name_of failed w h.failed.distinct)))
        (r.0 ∙ ap ok {y = length (take limit (texts (messages w.failed)))} (omega arith), r.1, r.2)
