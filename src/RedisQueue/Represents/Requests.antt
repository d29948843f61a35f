-- ===== src/RedisQueue/Represents/Requests.antt =====
-- The operations of inengine-core/src/queue/driver/redis/mod.rs that are one request each, against
-- what a lane of the queue promises.
use in_engine_net.Prelude.{
  ℕ, ◌+◌, ◌-◌, ◌^◌, ◌≤◌, ◌<◌, min, ◌≡◌, refl, sym, ap, ◌∙◌, inl, inr, Bool, true, false, List, [],
  ◌∷◌, map, take, drop, Bytes, Bool-cases, Result, ok, err, Result-cases, arith, reverse,
  reverse-reverse, if◌then◌else◌, ◌==◌,
}
use Prim.Native.String.{String}
use in_engine_net.Std.Lossy.{from_utf8_lossy}
use mathlib.Core.Path.{subst}
use in_engine_net.Error.{QueueError}
use in_engine_net.Queue.Types.{QueueLane, Stage, in_progress, failed, pending}
use in_engine_net.Queue.Envelope.{Envelope, Json}
use in_engine_net.Queue.Api.{PeekedMessage, envelope, malformed, parse}
use in_engine_net.Queue.Spec
use in_engine_net.Queue.Spec.{Stages}
use in_engine_net.RedisQueue.Server.{Server, IsRedis, contains, remove_first}
use in_engine_net.RedisQueue.Keys.{stage_key}
use in_engine_net.RedisQueue.Scripts.{move_if_present_script}
use in_engine_net.RedisQueue.Driver
use in_engine_net.RedisQueue.Driver.{map_ok, query}
use in_engine_net.RedisQueue.Represents.{
  Represents, Answers, Answers-query, Represents-lpush, Represents-lrem, lrem_found, Represents-del,
  llen_stage, oldest_first-Represents,
}

-- A settle finds its element and moves it, or changes nothing.
abbrev pub moved : Bytes → Stage → Bytes → Stages → Stages
moved element target text q =
    if contains element q.in_progress
    then Spec.add target text (record q { in_progress = remove_first element q.in_progress })
    else q

abbrev pub acknowledged : Bytes → Stages → Stages
acknowledged element q = record q { in_progress = remove_first element q.in_progress }

-- What a peek shows of a text: the envelope that it holds, or its text and why it holds none.
abbrev shown_as : Bytes → Result String Envelope → PeekedMessage
shown_as text (ok e) = envelope e
shown_as text (err e) = malformed (from_utf8_lossy text) e

abbrev pub shown : (Bytes → Result String Envelope) → Bytes → PeekedMessage
shown decode text = shown_as text (decode text)

parse-shown : (json : Json) (text : Bytes) → parse json text ≡ shown json.from_slice text
unfolding parse
parse-shown json text = elim (Result-cases (json.from_slice text)) [
  | inl (e, d) ↦ rw (d, parse) refl
  | inr (e, d) ↦ rw (d, parse) refl
]

map-parse :
    (json : Json) (texts : List Bytes) → map (parse json) texts ≡ map (shown json.from_slice) texts
map-parse json [] = refl
map-parse json (text ∷ texts) = λ i. parse-shown json text i ∷ map-parse json texts i

remove_first_absent : (v : Bytes) (l : List Bytes) → contains v l ≡ false → remove_first v l ≡ l
remove_first_absent v [] h = refl
remove_first_absent v (x ∷ l) h = ground (arith, remove_first_absent v l)

one_if : (c : Bool) → (if c then 1 else 0) == 1 ≡ c
one_if true = refl
one_if false = refl

module _ {S : Type 0} (r : Server S) (json : Json) (queue_name : Bytes) (lane : QueueLane)
    (laws : IsRedis r) where
  abbrev Ok : {A : Type 0} → A → Stages → Stages → Result QueueError A × S → Type 0
  Ok = Answers r queue_name lane

  abbrev Rep : S → Stages → Type 0
  Rep = Represents r queue_name lane

  Answers-map_ok :
      {A B : Type 0} (f : A → B) (a : A) (b : B) (q q' : Stages) (p : Result QueueError A × S)
      → f a ≡ b
      → Ok a q q' p
      → Ok b q q' (map_ok f p)
  Answers-map_ok f a b q q' (ok x, s) e h = (ap f h.0 ∙ e, h.1)
  Answers-map_ok f a b q q' (err x, s) e h = h

  -- A publish of an envelope that serializes adds its text to the end of the pending stage; when
  -- the request fails, the stages are as before or as after that.
  pub Answers-publish :
      (e : Envelope) (text : Bytes) (s : S) (q : Stages)
      → json.to_vec e ≡ ok text
      → Rep s q
      → Ok tt q (Spec.publish text q) (Driver.publish r json queue_name lane e s)
  unfolding Driver.publish Spec.publish Spec.add
  Answers-publish e text s q t h = rw t (
      Answers-query r queue_name lane laws
        (λ s0. (tt, r.lpush (stage_key queue_name lane pending) text s0)) tt q (Spec.publish text q)
        s h (λ s0 h0. (refl, Represents-lpush r queue_name lane laws pending text s0 q h0)))

  -- An acknowledge removes one occurrence of the element from the claimed messages, and says
  -- whether there was one.
  pub Answers-acknowledge :
      (element : Bytes) (s : S) (q : Stages)
      → Rep s q
      → Ok
          (contains element q.in_progress)
          q
          (acknowledged element q)
          (Driver.acknowledge r json queue_name lane element s)
  unfolding Driver.acknowledge
  Answers-acknowledge element s q h =
      Answers-map_ok (λ removed. removed == 1) _ (contains element q.in_progress) q
        (acknowledged element q)
        (query r (r.lrem (stage_key queue_name lane in_progress) element) s)
        (one_if (contains element q.in_progress))
        (Answers-query r queue_name lane laws
          (r.lrem (stage_key queue_name lane in_progress) element)
          (if contains element q.in_progress then 1 else 0) q (acknowledged element q) s h
          (λ s0 h0. (
            lrem_found r queue_name lane laws element s0 q h0,
            Represents-lrem r queue_name lane laws element s0 q h0,
          )))

  abbrev pub script : Bytes → Stage → Bytes → S → ℕ × S
  script element target text =
      move_if_present_script r (stage_key queue_name lane in_progress)
        (stage_key queue_name lane target) element text

  pub script_moves :
      (element : Bytes) (target : Stage) (text : Bytes) (s : S) (q : Stages)
      → Rep s q
      → ((script element target text s).0 ≡ (if contains element q.in_progress then 1 else 0))
        × Rep (script element target text s).1 (moved element target text q)
  unfolding move_if_present_script
  script_moves element target text s q h = elim (Bool-cases (contains element q.in_progress)) [
    | inl c ↦
        let found : (r.lrem (stage_key queue_name lane in_progress) element s).0 ≡ 1 =
          lrem_found r queue_name lane laws element s q h ∙ rw c refl in
        rw (found, c)
          (
            refl,
            Represents-lpush r queue_name lane laws target text _ _
                (Represents-lrem r queue_name lane laws element s q h),
          )
    | inr c ↦
        let missing : (r.lrem (stage_key queue_name lane in_progress) element s).0 ≡ 0 =
          lrem_found r queue_name lane laws element s q h ∙ rw c refl in
        rw (missing, c)
          (
            refl,
            subst
                (λ l.
                  Rep (r.lrem (stage_key queue_name lane in_progress) element s).1
                    (record q { in_progress = l }))
                (remove_first_absent element q.in_progress c)
                (Represents-lrem r queue_name lane laws element s q h),
          )
  ]

  pub Answers-move_if_present :
      (element : Bytes) (target : Stage) (text : Bytes) (s : S) (q : Stages)
      → Rep s q
      → Ok
          (contains element q.in_progress)
          q
          (moved element target text q)
          (Driver.move_if_present r json queue_name lane element target text s)
  unfolding Driver.move_if_present
  Answers-move_if_present element target text s q h =
      Answers-map_ok (λ n. n == 1) _ (contains element q.in_progress) q
        (moved element target text q) (query r (script element target text) s)
        (one_if (contains element q.in_progress))
        (Answers-query r queue_name lane laws (script element target text)
          (if contains element q.in_progress then 1 else 0) q (moved element target text q) s h
          (λ s0 h0. script_moves element target text s0 q h0))

  -- A settle of a claimed element with an envelope that serializes replaces one occurrence of it by
  -- the new text at the end of the target stage, and says whether there was one; where there was
  -- none it changes nothing; when the request fails, the stages are as before or as after that.
  pub Answers-move_claimed :
      (element : Bytes) (e : Envelope) (target : Stage) (text : Bytes) (s : S) (q : Stages)
      → json.to_vec e ≡ ok text
      → Rep s q
      → Ok
          (contains element q.in_progress)
          q
          (moved element target text q)
          (Driver.move_claimed r json queue_name lane element e target s)
  unfolding Driver.move_claimed
  Answers-move_claimed element e target text s q t h =
      rw t (Answers-move_if_present element target text s q h)

  pub Answers-clear :
      (t : Stage) (s : S) (q : Stages)
      → Rep s q
      → Ok (Spec.stage_length t q) q (Spec.clear t q) (Driver.clear r json queue_name lane t s)
  unfolding Driver.clear
  Answers-clear t s q h =
      Answers-query r queue_name lane laws
        (λ s0. (r.llen (stage_key queue_name lane t) s0, r.del (stage_key queue_name lane t) s0))
        (Spec.stage_length t q) q (Spec.clear t q) s h
        (λ s0 h0. (
          llen_stage r queue_name lane laws t s0 q h0,
          Represents-del r queue_name lane laws t s0 q h0,
        ))

  pub Answers-lengths :
      (s : S) (q : Stages)
      → Rep s q
      → Ok
          (record {
            pending = Spec.stage_length pending q;
            in_progress = Spec.stage_length in_progress q;
            failed = Spec.stage_length failed q;
          })
          q
          q
          (Driver.lengths r json queue_name lane s)
  unfolding Driver.lengths
  Answers-lengths s q h = Answers-query r queue_name lane laws _ _ q q s h (λ s0 h0. (
    (λ i. record {
      pending = llen_stage r queue_name lane laws pending s0 q h0 i;
      in_progress = llen_stage r queue_name lane laws in_progress s0 q h0 i;
      failed = llen_stage r queue_name lane laws failed s0 q h0 i;
    }),
    h0,
  ))

  -- A peek from a first to a last position, not before it and below 2 ^ 63 - 2, reads the
  -- messages at those positions, oldest first, and changes nothing, also when the request fails.
  pub Answers-peek :
      (t : Stage) (first last : ℕ) (s : S) (q : Stages)
      → first ≤ last
      → last + 2 < 2 ^ 63
      → Rep s q
      → Ok
          (map
            (shown json.from_slice)
            (take (last + 1 - first) (drop first (Spec.oldest_first t q))))
          q
          q
          (Driver.peek r json queue_name lane t first last s)
  unfolding Driver.peek
  Answers-peek t first last s q u b h =
      Answers-map_ok (λ elements. map (parse json) (reverse elements)) (reverse slice)
        (map (shown json.from_slice) slice) q q
        (query r
          (λ s0.
            (r.lrange k (min last (2 ^ 63 - 1 - 1) + 1) (min first (2 ^ 63 - 1 - 1) + 1) s0, s0))
          s)
        (ap (map (parse json)) (reverse-reverse slice) ∙ map-parse json slice)
        (Answers-query r queue_name lane laws _ (reverse slice) q q s h
          (λ s0 h0. (ap (λ (ab : ℕ × ℕ). r.lrange k ab.0 ab.1 s0) bounds ∙ reply s0 h0, h0)))
    where
      k : Bytes
      k = stage_key queue_name lane t

      slice : List Bytes
      slice = take (last + 1 - first) (drop first (Spec.oldest_first t q))

      bounds :
          ◌≡◌ {A = ℕ × ℕ}
            (min last (2 ^ 63 - 1 - 1) + 1, min first (2 ^ 63 - 1 - 1) + 1)
            (last + 1, first + 1)
      bounds = ground arith

      window :
          (l : List Bytes)
          → take (last + 1 + 1 - (first + 1)) (drop (first + 1 - 1) l)
            ≡ take (last + 1 - first) (drop first l)
      window l =
          ap (λ (ab : ℕ × ℕ). take ab.0 (drop ab.1 l))
            {x = (last + 1 + 1 - (first + 1), first + 1 - 1)} {y = (last + 1 - first, first)}
            (ground arith)

      reply : (s0 : S) → Rep s0 q → r.lrange k (last + 1) (first + 1) s0 ≡ reverse slice
      reply s0 h0 =
          sym (reverse-reverse (r.lrange k (last + 1) (first + 1) s0))
          ∙ ap reverse (
              laws.lrange_reply k (last + 1) (first + 1) s0
              ∙ window (reverse (r.list s0 k))
              ∙ ap (λ l. take (last + 1 - first) (drop first l))
                  (oldest_first-Represents r queue_name lane laws t s0 q h0))
