-- ===== src/FileQueue/Fifo/Claiming.antt =====
-- inengine-core/src/queue/driver/file/store.rs: on an undisturbed disk, `claim_oldest` is the
-- claim of the three lists.
use mathlib.Core.Path.{subst}
use in_engine_net.Prelude.{
  ℕ, ◌≡◌, refl, sym, ap, ◌∙◌, inl, inr, Option, none, some, List, [], ◌∷◌, ◌++◌, Bytes,
  bytes_eq_refl, Result, ok, err, Result-cases, reverse, arith,
}
use in_engine_net.Error.{QueueError}
use in_engine_net.Queue.Types.{QueueLane, pending}
use in_engine_net.Queue.Envelope.{Envelope, Json, count_attempt}
use in_engine_net.Queue.Delivery.{Delivery, Receipt}
use in_engine_net.Queue.Spec
use in_engine_net.Queue.Spec.{Stages, claim_from}
use in_engine_net.FileQueue.Disk.{File, World, find, put, dir_of}
use in_engine_net.FileQueue.Lookup.{find-put}
use in_engine_net.FileQueue.Prog.{run}
use in_engine_net.FileQueue.Dir.{list_messages}
use in_engine_net.FileQueue.Claim.{claim_names, claim_oldest}
use in_engine_net.FileQueue.Fifo.{Message, messages, names, texts, stages, IsNaming, InOrder}
use in_engine_net.FileQueue.Fifo.Directories.{delete-put, messages-delete, messages-Stored}
use in_engine_net.FileQueue.Fifo.Running.{
  go_on, run-bind, run-list_messages, texts-append, reverse-texts-append,
}
use in_engine_net.FileQueue.Fifo.Steps.{
  claimed_world, discarded_world, claimed-read, claim_from-readable, claim_from-unreadable,
  claimed-step, discarded-step, run-claim_readable, run-claim_unreadable, claimed_before,
  discarded_after,
}
use in_engine_net.FileQueue.Fifo.Worlds.{InOrder-claim, InOrder-discard, find-unclaimed}

-- What the caller gets of a claimed text: a delivery of this lane, whose file has the text.
abbrev pub Delivered : QueueLane → World → Option (Bytes × Envelope) → Option Delivery → Type 0
Delivered lane w none none = Unit
Delivered lane w none (some d) = ⊥
Delivered lane w (some c) none = ⊥
Delivered lane w (some (text, e)) (some d) =
    (d.envelope ≡ count_attempt e)
    × (d.lane ≡ lane)
    × ((name : Bytes) × (f : File) × (d.receipt ≡ Receipt.file name)
        × (find name w.in_progress ≡ some f)
        × (f.contents ≡ text))

abbrev pub Claims :
    (ℕ → Bytes)
    → QueueLane
    → Option (Bytes × Envelope) × Stages
    → Result QueueError (Option Delivery) × World
    → Type 0
Claims name_of lane (o, q) (err e, w) = ⊥
Claims name_of lane (o, q) (ok d, w) = Delivered lane w o d × (stages w ≡ q) × InOrder name_of w

module _ (name_of : ℕ → Bytes) (lane : QueueLane) {p p' : Option (Bytes × Envelope) × Stages}
    {r r' : Result QueueError (Option Delivery) × World} where
  Claims-by : p ≡ p' → r ≡ r' → Claims name_of lane p' r' → Claims name_of lane p r
  Claims-by a b c =
      subst (λ x. Claims name_of lane x r) (sym a) (subst (λ x. Claims name_of lane p' x) (sym b) c)

module _ (name_of : ℕ → Bytes) (naming : IsNaming name_of) (json : Json) (lane : QueueLane) where
  claim_names-Claims :
      (ms : List Message) (w : World)
      → InOrder name_of w
      → messages w.pending ≡ ms
      → Claims name_of lane
          (claim_from json.from_slice
            (texts ms)
            (reverse (texts (messages w.in_progress)))
            (texts (messages w.failed)))
          (run name_of (claim_names json lane (names ms)) w)
  unfolding claim_names claim_from stages
  claim_names-Claims [] w h e = (
    tt,
    λ i. record {
      pending = texts (e i);
      in_progress = reverse (texts (messages w.in_progress));
      failed = texts (messages w.failed);
    },
    h,
  )
  claim_names-Claims (m ∷ ms) w h e =
      let (f, k, v, i, c) = messages-Stored m ms w.pending h.pending.distinct e in
      let step = claimed-step name_of naming m ms w f h e k v i in
      let read = claimed-read m.0 w f i ∙ ap ok c in
      let h1 = InOrder-claim name_of naming w h m ms f e k v in
      let taken = messages-delete m ms w.pending h.pending.distinct e in
      let added = claimed_before name_of naming m w f h k v i in
      let found : find m.0 (put m.0 f w.in_progress) ≡ some f =
        ground (arith, find-put m.0 m.0 f w.in_progress, bytes_eq_refl m.0) in
      let returned =
        delete-put m.0 f w.in_progress (find-unclaimed name_of naming w h m.0 f k v i) in
      let moved =
        ap texts (discarded_after name_of naming f w h i)
        ∙ texts-append (messages w.failed) (name_of w.next_name, f.contents)
        ∙ ap (λ t. texts (messages w.failed) ++ t ∷ []) c in
      elim (Result-cases (json.from_slice m.1)) [
        | inl (x, d) ↦
            Claims-by name_of lane (claim_from-readable json.from_slice m.1 (texts ms) _ _ x d)
              (run-claim_readable name_of json lane m.0 m.1 (names ms) w f x step read d)
              (
                (refl, refl, (m.0, f, refl, found, c)),
                λ j. record {
                  pending = texts (taken j);
                  in_progress =
                      (ap (λ ms. reverse (texts ms)) added
                          ∙ reverse-texts-append (messages w.in_progress) (m.0, f.contents)
                          ∙ ap (λ t. t ∷ reverse (texts (messages w.in_progress))) c)
                        j;
                  failed = texts (messages w.failed);
                },
                h1,
              )
        | inr (x, d) ↦
            Claims-by name_of lane (claim_from-unreadable json.from_slice m.1 (texts ms) _ _ x d)
              (run-claim_unreadable name_of json lane m.0 m.1 (names ms) w f x step read d
                (discarded-step name_of naming m.0 f (claimed_world m.0 f w) h1 found))
              (subst
                (λ (q : List Bytes × List Bytes).
                  Claims name_of lane (claim_from json.from_slice (texts ms) q.0 q.1) (
                    run name_of (claim_names json lane (names ms))
                      (discarded_world name_of m.0 f (claimed_world m.0 f w))))
                (λ j. (reverse (texts (messages (returned j))), moved j))
                (claim_names-Claims ms (discarded_world name_of m.0 f (claimed_world m.0 f w))
                  (InOrder-discard name_of naming (claimed_world m.0 f w) h1 m.0 f) taken))
      ]

  -- On an undisturbed disk in order, a claim of the file queue is the claim of the three lists: the
  -- oldest message that can be read is delivered, with its attempt counted and its text in the
  -- receipt's file; those before it are moved to the end of the failed stage; and the disk is in
  -- order again.
  pub claim_oldest_lem :
      (w : World)
      → InOrder name_of w
      → Claims name_of lane
          (Spec.claim json.from_slice (stages w))
          (run name_of (claim_oldest json lane) w)
  unfolding claim_oldest stages Spec.claim dir_of
  claim_oldest_lem w h =
      subst (λ r. Claims name_of lane (Spec.claim json.from_slice (stages w)) r)
        (sym (
          run-bind name_of (claim_names json lane) (list_messages pending) w
          ∙ ap (go_on name_of (claim_names json lane))
              (run-list_messages name_of pending w h.pending.distinct)))
        (claim_names-Claims (messages w.pending) w h refl)
