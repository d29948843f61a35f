-- ===== src/FileQueue/Fifo/Publishing.antt =====
-- inengine-core/src/queue/driver/file/store.rs: on an undisturbed disk, `publish` adds the message
-- after all others.
use Prim.Native.String.{String}
use mathlib.Core.Path.{subst}
use in_engine_net.Prelude.{
  ℕ, suc, ◌≡◌, refl, sym, ap, ◌∙◌, inl, inr, true, none, some, [], ◌∷◌, ◌++◌, Bytes, bytes_eq_refl,
  ne→bytes_eq, Result, ok, err, Result-cases, arith,
}
use in_engine_net.Error.{QueueError, serialization}
use in_engine_net.Queue.Types.{pending}
use in_engine_net.Queue.Envelope.{Envelope, Json}
use in_engine_net.Queue.Spec
use in_engine_net.Queue.Spec.{Stages}
use in_engine_net.FileQueue.Names.{hidden_name, hidden_name-ne, temp_suffix}
use in_engine_net.FileQueue.Disk
use in_engine_net.FileQueue.Disk.{
  File, FilePath, World, find, delete, put, dir_of, with_dir, find_path, put_path, delete_path,
}
use in_engine_net.FileQueue.Lookup.{find-put}
use in_engine_net.FileQueue.Prog.{run}
use in_engine_net.FileQueue.Dir.{path, write_atomic, write_temp, finish_write}
use in_engine_net.FileQueue.Store
use in_engine_net.FileQueue.Fifo.{messages, texts, stages, IsNaming, InOrder}
use in_engine_net.FileQueue.Fifo.Directories.{delete-put, put-put, messages-put}
use in_engine_net.FileQueue.Fifo.Running.{rename_new, texts-append}
use in_engine_net.FileQueue.Fifo.Worlds.{InOrder-publish, find-fresh, AllBefore-visible}

-- An envelope that serializes joins the pending stage; otherwise nothing changes.
abbrev pub Publishes :
    (ℕ → Bytes)
    → Stages
    → World
    → Result String Bytes
    → Result QueueError (Unit {0}) × World
    → Type 0
Publishes name_of q w (ok text) r =
    (r.0 ≡ ok tt) × (stages r.1 ≡ Spec.publish text q) × InOrder name_of r.1
Publishes name_of q w (err x) r = r ≡ (err (serialization x), w)

abbrev new_file : Bytes → World → File
new_file contents w = record { contents = contents; modified = w.clock; is_file = true }

create_new_lem :
    (n : Bytes) (w : World)
    → find n w.pending ≡ none
    → Disk.create_new (path pending n) w
      ≡ (ok tt, record w { pending = put n (new_file [] w) w.pending })
unfolding Disk.create_new find_path put_path dir_of with_dir
create_new_lem n w h = rw (h, Disk.create_new) refl

write_all_lem :
    (n text : Bytes) (w : World) (f : File)
    → find n w.pending ≡ some f
    → Disk.write_all (path pending n) text w ≡ (
      ok tt,
      record w {
        pending = put n (record f { contents = f.contents ++ text; modified = w.clock }) w.pending;
      },
    )
unfolding Disk.write_all find_path put_path dir_of with_dir
write_all_lem n text w f h = rw (h, Disk.write_all) refl

module _ (name_of : ℕ → Bytes) (naming : IsNaming name_of) (w : World) (h : InOrder name_of w)
    (text : Bytes) where
  abbrev temp : Bytes
  temp = hidden_name (name_of w.next_name) temp_suffix

  abbrev final : Bytes
  final = name_of w.next_name

  abbrev numbered : World
  numbered = record w { next_name = suc w.next_name }

  abbrev created : World
  created = record numbered { pending = put temp (new_file [] w) w.pending }

  abbrev written : World
  written = record created { pending = put temp (new_file text w) created.pending }

  abbrev published : World
  published = record numbered { pending = put final (new_file text w) w.pending }

  temp_free : find temp w.pending ≡ none
  temp_free = h.pending.temp_free w.next_name (omega arith)

  written-pending : delete temp written.pending ≡ w.pending
  written-pending =
      ap (delete temp) (put-put temp (new_file [] w) (new_file text w) w.pending)
      ∙ delete-put temp (new_file text w) w.pending temp_free

  unused : find final w.pending ≡ none
  unused =
      find-fresh name_of w.next_name w.pending h.pending w.next_name (omega arith)
        (naming.shown w.next_name)

  found_created : find temp created.pending ≡ some (new_file [] w)
  found_created = ground (arith, find-put temp temp (new_file [] w) w.pending, bytes_eq_refl temp)

  found_written : find temp written.pending ≡ some (new_file text w)
  found_written =
      ground (arith, find-put temp temp (new_file text w) created.pending, bytes_eq_refl temp)

  free_written : find final written.pending ≡ none
  free_written = ground (
    arith,
    find-put temp final (new_file text w) created.pending,
    find-put temp final (new_file [] w) w.pending,
    ne→bytes_eq temp final (λ e. hidden_name-ne final temp_suffix (sym e)),
    unused,
  )

  renamed : Disk.rename (path pending temp) (path pending final) written ≡ (ok tt, published)
  unfolding find_path put_path delete_path dir_of with_dir
  renamed =
      rename_new (path pending temp) (path pending final) written (new_file text w) found_written
        free_written
      ∙ (λ i.
          (ok tt, record numbered { pending = put final (new_file text w) (written-pending i) }))

  run-write_atomic : run name_of (write_atomic pending final text) numbered ≡ (ok tt, published)
  unfolding write_atomic write_temp finish_write
  run-write_atomic =
      rw (create_new_lem temp numbered temp_free, run)
        (rw (write_all_lem temp text created (new_file [] w) found_created, run)
          (rw (renamed, run) refl))

  published-stages : stages published ≡ Spec.publish text (stages w)
  unfolding stages Spec.publish
  published-stages = λ i. record {
    pending = pending_texts i;
    in_progress = (stages w).in_progress;
    failed = (stages w).failed;
  }
    where
      pending_texts :
          texts (messages (put final (new_file text w) w.pending))
          ≡ texts (messages w.pending) ++ text ∷ []
      pending_texts =
          ap texts (
            messages-put final (new_file text w) w.pending unused (naming.shown w.next_name) refl
              (AllBefore-visible name_of w.next_name w.pending h.pending w.next_name (omega arith)))
          ∙ texts-append (messages w.pending) (final, text)

-- On an undisturbed disk in order, a publish of the file queue is the publish of the three lists,
-- and the disk is in order again; an envelope that does not serialize is its error, and changes
-- nothing.
pub publish_lem :
    (name_of : ℕ → Bytes) (naming : IsNaming name_of) (json : Json) (e : Envelope) (w : World)
    → InOrder name_of w
    → Publishes name_of (stages w) w (json.to_vec_pretty e) (run name_of (Store.publish json e) w)
unfolding Store.publish
publish_lem name_of naming json e w h = elim (Result-cases (json.to_vec_pretty e)) [
  | inl (text, d) ↦ rw d (
      subst (Publishes name_of (stages w) w (ok text))
        (sym (run-write_atomic name_of naming w h text))
        (
          refl,
          published-stages name_of naming w h text,
          InOrder-publish name_of naming w h (new_file text w),
        ))
  | inr (x, d) ↦ rw d refl
]
