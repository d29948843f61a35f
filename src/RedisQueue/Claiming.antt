-- ===== src/RedisQueue/Claiming.antt =====
-- `dequeue` of inengine-core/src/queue/driver/redis/mod.rs on a connection that does not fail.
use in_engine_net.Prelude.{
  ℕ, zero, suc, ◌+◌, ◌<◌, ◌≡◌, refl, sym, ap, ◌∙◌, inl, inr, Option, none, some, List, [], ◌∷◌,
  ◌++◌, Bytes, bytes_eq, bytes_eq_refl, Bool-cases, Result, ok, err, Result-cases, arith, reverse,
  reverse-append, reverse-reverse, length, if◌then◌else◌, ◌==◌,
}
use Prim.Native.String.{String}
use mathlib.Core.Path.{subst}
use in_engine_net.Error.{QueueError}
use in_engine_net.Queue.Types.{QueueLane, Stage, in_progress, failed, pending, stage_eq}
use in_engine_net.Queue.Envelope.{Envelope, Json, count_attempt}
use in_engine_net.Queue.Delivery.{Delivery, Receipt}
use in_engine_net.Queue.Spec
use in_engine_net.Queue.Spec.{Stages}
use in_engine_net.RedisQueue.Server.{Server, IsRedis, IsReliable, left, right}
use in_engine_net.RedisQueue.Keys.{stage_key, bytes_eq-stage_key}
use in_engine_net.RedisQueue.Driver
use in_engine_net.RedisQueue.Driver.{query, map_ok, after_claim}
use in_engine_net.RedisQueue.Represents.{Represents, Represents-same}
use in_engine_net.RedisQueue.Represents.Requests.{moved, script, script_moves}

-- The delivery of a claimed text.
abbrev pub delivery_of : QueueLane → Option (Bytes × Envelope) → Option Delivery
delivery_of lane none = none
delivery_of lane (some (element, e)) =
    some (record { envelope = count_attempt e; lane = lane; receipt = Receipt.redis element })

module _ {S : Type 0} (r : Server S) (json : Json) (queue_name : Bytes) (lane : QueueLane)
    (laws : IsRedis r) (reliable : IsReliable r) where
  abbrev Rep : S → Stages → Type 0
  Rep = Represents r queue_name lane

  abbrev key : Stage → Bytes
  key = stage_key queue_name lane

  -- A reliable connection gives the answer of the specification.
  abbrev Replies : {A : Type 0} → A → Stages → Result QueueError A × S → Type 0
  Replies a q p = (p.0 ≡ ok a) × Rep p.1 q

  pub Replies-query :
      {A : Type 0} (command : S → A × S) (a : A) (q q' : Stages) (s : S)
      → Rep s q
      → ((s0 : S) → Rep s0 q → ((command s0).0 ≡ a) × Rep (command s0).1 q')
      → Replies a q' (query r command s)
  unfolding query
  Replies-query command a q q' s h runs =
      let s0 = (r.connect s).1 in
      let h0 = Represents-same r queue_name lane laws s s0 q (laws.list-connect s) h in
      rw (reliable s) (ap ok (runs s0 h0).0, (runs s0 h0).1)

  apart : (a b : Stage) → bytes_eq (key a) (key b) ≡ stage_eq a b
  apart a b = bytes_eq-stage_key queue_name lane a b

  lmove_claims :
      (m : Bytes) (ms ip f : List Bytes) (s : S)
      → Rep s (record { pending = m ∷ ms; in_progress = ip; failed = f })
      → ((r.lmove (key pending) (key in_progress) right left s).0 ≡ some m)
        × Rep
            (r.lmove (key pending) (key in_progress) right left s).1
            (record { pending = ms; in_progress = m ∷ ip; failed = f })
  lmove_claims m ms ip f s h = (
    laws.lmove_reply (key pending) (key in_progress) right left s m ms h.pending_is,
    record {
      pending_is =
          laws.lmove_source (key pending) (key in_progress) right left s m ms
            (apart pending in_progress) h.pending_is;
      in_progress_is =
          sym (reverse-reverse (r.list s' (key in_progress)))
          ∙ ap reverse (
              laws.lmove_destination (key pending) (key in_progress) right left s m ms
                (apart pending in_progress) h.pending_is)
          ∙ reverse-append (reverse (r.list s (key in_progress))) (m ∷ [])
          ∙ ap (◌∷◌ m) (reverse-reverse (r.list s (key in_progress)) ∙ h.in_progress_is);
      failed_is =
          ap reverse (
            laws.list-lmove (key pending) (key in_progress) right left s (key failed)
              (apart pending failed) (apart in_progress failed))
          ∙ h.failed_is;
    },
  )
    where
      s' : S
      s' = (r.lmove (key pending) (key in_progress) right left s).1

  abbrev claim_of : ℕ → S → Option Bytes × S
  claim_of wait =
      if wait == 0
      then r.lmove (key pending) (key in_progress) right left
      else r.blmove (key pending) (key in_progress) right left wait

  some_claimed :
      (wait : ℕ) (m : Bytes) (ms ip f : List Bytes) (s : S)
      → Rep s (record { pending = m ∷ ms; in_progress = ip; failed = f })
      → ((claim_of wait s).0 ≡ some m)
        × Rep (claim_of wait s).1 (record { pending = ms; in_progress = m ∷ ip; failed = f })
  some_claimed wait m ms ip f s h = elim (Bool-cases (wait == 0)) [
    | inl z ↦ rw z (lmove_claims m ms ip f s h)
    | inr z ↦
        rw
          (z, laws.blmove-lmove (key pending) (key in_progress) right left wait s m ms h.pending_is)
          (lmove_claims m ms ip f s h)
  ]

  nothing_pending :
      (ip f : List Bytes) (s : S)
      → Rep s (record { pending = []; in_progress = ip; failed = f })
      → r.list s (key pending) ≡ []
  nothing_pending ip f s h =
      sym (reverse-reverse (r.list s (key pending))) ∙ ap reverse h.pending_is

  none_claimed :
      (wait : ℕ) (ip f : List Bytes) (s : S)
      → Rep s (record { pending = []; in_progress = ip; failed = f })
      → ((claim_of wait s).0 ≡ none)
        × Rep (claim_of wait s).1 (record { pending = []; in_progress = ip; failed = f })
  none_claimed wait ip f s h = elim (Bool-cases (wait == 0)) [
    | inl z ↦ rw z (
      laws.lmove_empty (key pending) (key in_progress) right left s e,
      Represents-same r queue_name lane laws s _ _
          (λ j. laws.list-lmove_empty (key pending) (key in_progress) right left s j e) h,
    )
    | inr z ↦ rw z (
      laws.blmove_empty (key pending) (key in_progress) right left wait s (ground (arith, z)) e,
      Represents-same r queue_name lane laws s _ _
          (λ j.
            laws.list-blmove_empty (key pending) (key in_progress) right left wait s j
              (ground (arith, z)) e)
          h,
    )
  ]
    where
      e : r.list s (key pending) ≡ []
      e = nothing_pending ip f s h

  Replies-claim_element :
      (wait : ℕ) (a : Option Bytes) (q q' : Stages) (s : S)
      → Rep s q
      → ((s0 : S) → Rep s0 q → ((claim_of wait s0).0 ≡ a) × Rep (claim_of wait s0).1 q')
      → Replies a q' (Driver.claim_element r json queue_name lane wait s)
  unfolding Driver.claim_element
  Replies-claim_element wait a q q' s h runs = Replies-query (claim_of wait) a q q' s h runs

  state-map_ok : {A B : Type 0} (g : A → B) (p : Result QueueError A × S) → (map_ok g p).1 ≡ p.1
  state-map_ok g (ok a, s) = refl
  state-map_ok g (err e, s) = refl

  -- The unreadable element that was claimed last goes to the failed stage.
  Rep-move_unreadable :
      (m : Bytes) (ms ip f : List Bytes) (s : S)
      → Rep s (record { pending = ms; in_progress = m ∷ ip; failed = f })
      → Rep
          (Driver.move_unreadable_to_failed r json queue_name lane m s)
          (record { pending = ms; in_progress = ip; failed = f ++ m ∷ [] })
  unfolding Driver.move_unreadable_to_failed Driver.move_if_present Spec.add
  Rep-move_unreadable m ms ip f s h =
      subst (λ x. Rep x gone)
        (sym
          (state-map_ok (λ n. n == 1) (query r (script r json queue_name lane laws m failed m) s)))
        (subst (λ q. Rep (query r (script r json queue_name lane laws m failed m) s).1 q) arrived
          (Replies-query (script r json queue_name lane laws m failed m) _ q0 (moved m failed m q0)
            s h (λ s0 h0. script_moves r json queue_name lane laws m failed m s0 q0 h0)).1)
    where
      q0 : Stages
      q0 = record { pending = ms; in_progress = m ∷ ip; failed = f }

      gone : Stages
      gone = record { pending = ms; in_progress = ip; failed = f ++ m ∷ [] }

      arrived : moved m failed m q0 ≡ gone
      arrived = rw (bytes_eq_refl m) refl

  abbrev Loop :
      Option (Bytes × Envelope) × Stages → Option (Result QueueError (Option Delivery)) × S → Type 0
  Loop (claimed, q) p = (p.0 ≡ some (ok (delivery_of lane claimed))) × Rep p.1 q

  claim_readable :
      (m : Bytes) (ms ip f : List Bytes) (e : Envelope)
      → json.from_slice m ≡ ok e
      → Spec.claim_from json.from_slice (m ∷ ms) ip f
        ≡ (some (m, e), record { pending = ms; in_progress = m ∷ ip; failed = f })
  unfolding Spec.claim_from
  claim_readable m ms ip f e d = rw (d, Spec.claim_from) refl

  claim_unreadable :
      (m : Bytes) (ms ip f : List Bytes) (x : String)
      → json.from_slice m ≡ err x
      → Spec.claim_from json.from_slice (m ∷ ms) ip f
        ≡ Spec.claim_from json.from_slice ms ip (f ++ m ∷ [])
  unfolding Spec.claim_from
  claim_unreadable m ms ip f x d = rw (d, Spec.claim_from) refl

  abbrev Rest : Type 0
  Rest = S → Option (Result QueueError (Option Delivery)) × S

  step_none :
      (q : Stages) (p : Result QueueError (Option Bytes) × S) (rest : Rest)
      → Replies none q p
      → Loop (none, q) (after_claim r json queue_name lane p rest)
  step_none q p rest h = rw (h.0) (refl, h.1)

  step_readable :
      (m : Bytes) (e : Envelope) (q : Stages) (p : Result QueueError (Option Bytes) × S)
      (rest : Rest)
      → json.from_slice m ≡ ok e
      → Replies (some m) q p
      → Loop (some (m, e), q) (after_claim r json queue_name lane p rest)
  step_readable m e q p rest d h = rw (h.0, d) (refl, h.1)

  step_unreadable :
      (m : Bytes) (x : String) (q : Stages) (out : Option (Bytes × Envelope) × Stages)
      (p : Result QueueError (Option Bytes) × S) (rest : Rest)
      → json.from_slice m ≡ err x
      → Replies (some m) q p
      → Loop out (rest (Driver.move_unreadable_to_failed r json queue_name lane m p.1))
      → Loop out (after_claim r json queue_name lane p rest)
  step_unreadable m x q out p rest d h l = rw (h.0, d) l

  Loop-dequeue_loop :
      (texts ip f : List Bytes) (fuel : ℕ) (remaining : ℕ → ℕ) (round : ℕ) (s : S)
      → length texts < fuel
      → Rep s (record { pending = texts; in_progress = ip; failed = f })
      → Loop
          (Spec.claim_from json.from_slice texts ip f)
          (Driver.dequeue_loop r json queue_name lane fuel remaining round s)
  unfolding Driver.dequeue_loop Spec.claim_from
  Loop-dequeue_loop texts ip f zero remaining round s b h = elim b [ ]
  Loop-dequeue_loop [] ip f (suc fuel) remaining round s b h =
      step_none _ (Driver.claim_element r json queue_name lane (remaining round) s) _ (
        Replies-claim_element (remaining round) none _ _ s h
          (λ s0 h0. none_claimed (remaining round) ip f s0 h0))
  Loop-dequeue_loop (m ∷ ms) ip f (suc fuel) remaining round s b h =
      elim (Result-cases (json.from_slice m)) [
        | inl (e, d) ↦
            subst (λ out. Loop out looped) (sym (claim_readable m ms ip f e d))
              (step_readable m e _ (Driver.claim_element r json queue_name lane (remaining round) s)
                _ d claimed)
        | inr (x, d) ↦
            subst (λ out. Loop out looped) (sym (claim_unreadable m ms ip f x d))
              (step_unreadable m x _ _
                (Driver.claim_element r json queue_name lane (remaining round) s) _ d claimed
                (Loop-dequeue_loop ms ip (f ++ m ∷ []) fuel remaining (round + 1) _ (omega arith)
                  (Rep-move_unreadable m ms ip f _ (claimed.1))))
      ]
    where
      looped : Option (Result QueueError (Option Delivery)) × S
      looped = Driver.dequeue_loop r json queue_name lane (suc fuel) remaining round s

      claimed :
          Replies
            (some m)
            (record { pending = ms; in_progress = m ∷ ip; failed = f })
            (Driver.claim_element r json queue_name lane (remaining round) s)
      claimed =
          Replies-claim_element (remaining round) (some m) _ _ s h
            (λ s0 h0. some_claimed (remaining round) m ms ip f s0 h0)

  -- With fuel for one more round than there are pending messages, a dequeue claims the oldest
  -- message that can be read, moves the unreadable ones before it to the failed stage in their
  -- order, and delivers the message with one attempt more and its exact text as receipt; with no
  -- readable message it ends with none. A blocking claim on an empty list is assumed to end only
  -- when its timeout is not 0.
  pub Replies-dequeue :
      (fuel : ℕ) (now : ℕ → ℕ) (wait : ℕ) (s : S) (q : Stages)
      → length q.pending < fuel
      → Rep s q
      → ((Driver.dequeue r json queue_name lane fuel now wait s).0
          ≡ some (ok (delivery_of lane (Spec.claim json.from_slice q).0)))
        × Rep
            (Driver.dequeue r json queue_name lane fuel now wait s).1
            (Spec.claim json.from_slice q).1
  unfolding Driver.dequeue Spec.claim
  Replies-dequeue fuel now wait s q b h =
      Loop-dequeue_loop q.pending q.in_progress q.failed fuel _ 0 s b h
