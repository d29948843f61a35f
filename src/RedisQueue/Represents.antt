-- ===== src/RedisQueue/Represents.antt =====
-- The lists of a Redis server as the stages of a lane, and what one command does to them.
pub mod Requests
use in_engine_net.Prelude.{
  ℕ, ◌+◌, ◌≡◌, refl, sym, ap, ◌∙◌, ◌⊎◌, inl, inr, Bool, true, false, Option, List, [], ◌∷◌, ◌++◌,
  Bytes, bytes_eq, bytes_eq_refl, Result, ok, err, arith, reverse, length, length-reverse,
  if◌then◌else◌,
}
use in_engine_net.Error.{QueueError}
use in_engine_net.Queue.Types.{QueueLane, Stage, pending, in_progress, failed, stage_eq}
use in_engine_net.Queue.Spec
use in_engine_net.Queue.Spec.{Stages}
use in_engine_net.RedisQueue.Server.{
  Server, IsRedis, contains, remove_first, Fate, delivered, not_sent, reply_lost,
}
use in_engine_net.RedisQueue.Keys.{stage_key, bytes_eq-stage_key}
use in_engine_net.RedisQueue.Driver.{query, answer}

module _ {S : Type 0} (r : Server S) (queue_name : Bytes) (lane : QueueLane) where
  abbrev key : Stage → Bytes
  key = stage_key queue_name lane

  pub record Represents (s : S) (q : Stages) : Type 0 where
    pub pending_is : reverse (r.list s (key pending)) ≡ q.pending
    pub in_progress_is : r.list s (key in_progress) ≡ q.in_progress
    pub failed_is : reverse (r.list s (key failed)) ≡ q.failed

  -- One request is answered as the specification says, or it fails and then the stages are as
  -- before or as the specification says.
  abbrev pub Answers : {A : Type 0} → A → Stages → Stages → Result QueueError A × S → Type 0
  Answers a q q' (ok b, s) = (b ≡ a) × Represents s q'
  Answers a q q' (err e, s) = Represents s q ⊎ Represents s q'

  module _ (laws : IsRedis r) where
    pub Represents-same :
        (s s' : S) (q : Stages)
        → ((j : Bytes) → r.list s' j ≡ r.list s j)
        → Represents s q
        → Represents s' q
    Represents-same s s' q same h = record {
      pending_is = ap reverse (same (key pending)) ∙ h.pending_is;
      in_progress_is = same (key in_progress) ∙ h.in_progress_is;
      failed_is = ap reverse (same (key failed)) ∙ h.failed_is;
    }

    Answers-answer :
        {A : Type 0} (fate : Fate) (p : A × S) (a : A) (q q' : Stages) (s : S)
        → Represents s q
        → p.0 ≡ a
        → Represents p.1 q'
        → Answers a q q' (answer fate p s)
    Answers-answer delivered (b, s') a q q' s h e h' = (e, h')
    Answers-answer (not_sent x) (b, s') a q q' s h e h' = inl h
    Answers-answer (reply_lost x) (b, s') a q q' s h e h' = inr h'

    pub Answers-query :
        {A : Type 0} (command : S → A × S) (a : A) (q q' : Stages) (s : S)
        → Represents s q
        → ((s0 : S) → Represents s0 q → ((command s0).0 ≡ a) × Represents (command s0).1 q')
        → Answers a q q' (query r command s)
    unfolding query
    Answers-query command a q q' s h runs =
        let s0 = (r.connect s).1 in
        let h0 = Represents-same s s0 q (laws.list-connect s) h in
        Answers-answer (r.connect s).0 (command s0) a q q' s0 h0 (runs s0 h0).0 (runs s0 h0).1

    lpush_at :
        (t u : Stage) (v : Bytes) (s : S)
        → r.list (r.lpush (key t) v s) (key u)
          ≡ (if stage_eq t u then v ∷ r.list s (key u) else r.list s (key u))
    lpush_at t u v s =
        laws.list-lpush (key t) v (key u) s
        ∙ ap (λ b. if b then v ∷ r.list s (key u) else r.list s (key u))
            (bytes_eq-stage_key queue_name lane t u)

    pub Represents-lpush :
        (t : Stage) (v : Bytes) (s : S) (q : Stages)
        → Represents s q
        → Represents (r.lpush (key t) v s) (Spec.add t v q)
    unfolding Spec.add
    Represents-lpush pending v s q h = record {
      pending_is = ap reverse (lpush_at pending pending v s) ∙ ap (λ l. l ++ v ∷ []) h.pending_is;
      in_progress_is = lpush_at pending in_progress v s ∙ h.in_progress_is;
      failed_is = ap reverse (lpush_at pending failed v s) ∙ h.failed_is;
    }
    Represents-lpush in_progress v s q h = record {
      pending_is = ap reverse (lpush_at in_progress pending v s) ∙ h.pending_is;
      in_progress_is = lpush_at in_progress in_progress v s ∙ ap (◌∷◌ v) h.in_progress_is;
      failed_is = ap reverse (lpush_at in_progress failed v s) ∙ h.failed_is;
    }
    Represents-lpush failed v s q h = record {
      pending_is = ap reverse (lpush_at failed pending v s) ∙ h.pending_is;
      in_progress_is = lpush_at failed in_progress v s ∙ h.in_progress_is;
      failed_is = ap reverse (lpush_at failed failed v s) ∙ ap (λ l. l ++ v ∷ []) h.failed_is;
    }

    lrem_at :
        (u : Stage) (v : Bytes) (s : S)
        → r.list (r.lrem (key in_progress) v s).1 (key u)
          ≡ (if stage_eq in_progress u then remove_first v (r.list s (key u)) else r.list s (key u))
    lrem_at u v s =
        laws.list-lrem (key in_progress) v (key u) s
        ∙ ap (λ b. if b then remove_first v (r.list s (key u)) else r.list s (key u))
            (bytes_eq-stage_key queue_name lane in_progress u)

    pub Represents-lrem :
        (v : Bytes) (s : S) (q : Stages)
        → Represents s q
        → Represents
            (r.lrem (key in_progress) v s).1
            (record q { in_progress = remove_first v q.in_progress })
    Represents-lrem v s q h = record {
      pending_is = ap reverse (lrem_at pending v s) ∙ h.pending_is;
      in_progress_is = lrem_at in_progress v s ∙ ap (remove_first v) h.in_progress_is;
      failed_is = ap reverse (lrem_at failed v s) ∙ h.failed_is;
    }

    pub lrem_found :
        (v : Bytes) (s : S) (q : Stages)
        → Represents s q
        → (r.lrem (key in_progress) v s).0 ≡ (if contains v q.in_progress then 1 else 0)
    lrem_found v s q h =
        laws.lrem_reply (key in_progress) v s
        ∙ ap (λ l. if contains v l then 1 else 0) h.in_progress_is

    del_at :
        (t u : Stage) (s : S)
        → r.list (r.del (key t) s) (key u) ≡ (if stage_eq t u then [] else r.list s (key u))
    del_at t u s =
        laws.list-del (key t) (key u) s
        ∙ ap (λ b. if b then [] else r.list s (key u)) (bytes_eq-stage_key queue_name lane t u)

    pub Represents-del :
        (t : Stage) (s : S) (q : Stages)
        → Represents s q
        → Represents (r.del (key t) s) (Spec.clear t q)
    unfolding Spec.clear
    Represents-del pending s q h = record {
      pending_is = ap reverse (del_at pending pending s);
      in_progress_is = del_at pending in_progress s ∙ h.in_progress_is;
      failed_is = ap reverse (del_at pending failed s) ∙ h.failed_is;
    }
    Represents-del in_progress s q h = record {
      pending_is = ap reverse (del_at in_progress pending s) ∙ h.pending_is;
      in_progress_is = del_at in_progress in_progress s;
      failed_is = ap reverse (del_at in_progress failed s) ∙ h.failed_is;
    }
    Represents-del failed s q h = record {
      pending_is = ap reverse (del_at failed pending s) ∙ h.pending_is;
      in_progress_is = del_at failed in_progress s ∙ h.in_progress_is;
      failed_is = ap reverse (del_at failed failed s);
    }

    length_of :
        (t : Stage) (s : S) → length (r.list s (key t)) ≡ length (reverse (r.list s (key t)))
    length_of t s = sym (length-reverse (r.list s (key t)))

    pub llen_stage :
        (t : Stage) (s : S) (q : Stages) → Represents s q → r.llen (key t) s ≡ Spec.stage_length t q
    unfolding Spec.stage_length
    llen_stage pending s q h =
        laws.llen_reply (key pending) s ∙ length_of pending s ∙ ap length h.pending_is
    llen_stage in_progress s q h = laws.llen_reply (key in_progress) s ∙ ap length h.in_progress_is
    llen_stage failed s q h =
        laws.llen_reply (key failed) s ∙ length_of failed s ∙ ap length h.failed_is

    pub oldest_first-Represents :
        (t : Stage) (s : S) (q : Stages)
        → Represents s q
        → reverse (r.list s (key t)) ≡ Spec.oldest_first t q
    unfolding Spec.oldest_first
    oldest_first-Represents pending s q h = h.pending_is
    oldest_first-Represents in_progress s q h = ap reverse h.in_progress_is
    oldest_first-Represents failed s q h = h.failed_is
