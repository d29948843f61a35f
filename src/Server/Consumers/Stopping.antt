-- ===== src/Server/Consumers/Stopping.antt =====
-- A consumer of inengine-core/src/server/consumers.rs ends once the token fires.
use in_engine_net.Prelude.{
  ℕ, zero, suc, ◌+◌, ◌≤◌, ◌≡◌, refl, ap, ◌∙◌, ◌⊎◌, inl, inr, Bool, true, false, Option, none, some,
  List, [], ◌∷◌, Result, ok, err, length, arith, Bool-cases,
}
use in_engine_net.Error.{QueueError}
use in_engine_net.Queue.Delivery.{Delivery, AttemptKind}
use in_engine_net.Queue.Registry.{CommandRegistry}
use in_engine_net.Queue.Compression.{Codecs}
use in_engine_net.Queue.Api
use in_engine_net.Queue.Api.{Queue}
use in_engine_net.Queue.Processing.{Run, ProcessedDelivery, kind, process_delivery}
use in_engine_net.Server.Consumers.{Ending, gives_up, shutdown_settle_retries, settle_until_done}
use in_engine_net.Server.Consumers.Starting.{
  Opening, abandoned, opened, Opened, retry_open, open_with_retry,
}
use in_engine_net.Server.Consumers.Settling.{Ends-by}
use in_engine_net.Server.Consumers.Running.{
  Token, dequeue_wait, process, after_process, after_dequeue, consume, after_open, run_consumer,
}

module _ {S C : Type 0} (codecs : Codecs) (registry : CommandRegistry C) (run : ℕ → Run S C)
    (token : Token) (tries : ℕ) (q : Queue S) where
  -- In a round a delivery was processed, with the token as it was before the command, and settled
  -- until that was done or given up, as the ending says.
  abbrev pub Handled : ℕ → Delivery → S → Ending → S → Type 0
  Handled i d s e s' =
      (p : ProcessedDelivery) × (s1 : S) × (process_delivery codecs registry (run i) q d
          (token.fired_before_run i) s
        ≡ (p, s1))
      × (settle_until_done tries q (kind p.attempt) (token.settle_fired i) 0 p.settled s1
          ≡ (some e, s'))

  -- The rounds of a consumer from a round on: each dequeues, with a wait of 5 seconds, and handles
  -- what it gets, until the token has fired; with the endings of the messages that it got.
  pub data Consumes : ℕ → S → List Ending → S → Type 0 where
    fired : (i : ℕ) (s : S) → token.fired i ≡ true → Consumes i s [] s
    handled :
        (i : ℕ) (s : S) (d : Delivery) (s1 : S) (e : Ending) (s2 : S) (es : List Ending) (s' : S)
        → token.fired i ≡ false
        → Api.dequeue q 5_000 s ≡ (ok (some d), s1)
        → Handled i d s1 e s2
        → Consumes (i + 1) s2 es s'
        → Consumes i s (e ∷ es) s'
    no_message :
        (i : ℕ) (s s1 : S) (es : List Ending) (s' : S)
        → token.fired i ≡ false
        → Api.dequeue q 5_000 s ≡ (ok none, s1)
        → Consumes (i + 1) s1 es s'
        → Consumes i s es s'
    not_dequeued :
        (i : ℕ) (s : S) (x : QueueError) (s1 : S) (es : List Ending) (s' : S)
        → token.fired i ≡ false
        → Api.dequeue q 5_000 s ≡ (err x, s1)
        → token.sleep_fired i ≡ false
        → Consumes (i + 1) s1 es s'
        → Consumes i s es s'
    fired_asleep :
        (i : ℕ) (s : S) (x : QueueError) (s1 : S)
        → token.fired i ≡ false
        → Api.dequeue q 5_000 s ≡ (err x, s1)
        → token.sleep_fired i ≡ true
        → Consumes i s [] s1

-- A loop that ends has a number of endings up to a bound, of which `P` holds.
abbrev pub EndsWithin :
    {S : Type 0} → (List Ending → S → Type 0) → ℕ → Option (List Ending) × S → Type 0
EndsWithin {S} P n r =
    (es : List Ending) × (s' : S) × (r ≡ (some es, s')) × P es s' × (length es ≤ n)

module _ {S C : Type 0} (codecs : Codecs) (registry : CommandRegistry C) (run : ℕ → Run S C)
    (token : Token) (tries : ℕ) (enough : shutdown_settle_retries ≤ tries)
    (settles : (i : ℕ) → token.settle_fired i tries ≡ true) (q : Queue S) where
  gives_up-tries : (k : AttemptKind) (i : ℕ) → gives_up k (token.settle_fired i) (0 + tries) ≡ true
  unfolding gives_up
  gives_up-tries AttemptKind.interrupted i = ground arith
  gives_up-tries _ i = ap (token.settle_fired i) (omega arith) ∙ settles i

  abbrev Hand : ℕ → Delivery → S → Ending → S → Type 0
  Hand = Handled codecs registry run token (suc tries) q

  abbrev From : ℕ → S → List Ending → S → Type 0
  From = Consumes codecs registry run token (suc tries) q

  process-Handled :
      (i : ℕ) (d : Delivery) (s : S)
      → (e : Ending) × (s' : S) × (process codecs registry run token (suc tries) q i d s
          ≡ (some e, s'))
        × Hand i d s e s'
  unfolding process
  process-Handled i d s =
      let p = process_delivery codecs registry (run i) q d (token.fired_before_run i) s in
      let (e, h) =
        Ends-by q (kind p.0.attempt) (token.settle_fired i) tries 0 p.0.settled p.1
          (gives_up-tries (kind p.0.attempt) i) in
      let s' =
        (settle_until_done (suc tries) q (kind p.0.attempt) (token.settle_fired i) 0 p.0.settled
          p.1).1 in
      (e, s', (λ j. (h j, s')), (p.0, p.1, refl, λ j. (h j, s')))

  after_message :
      (n i : ℕ) (d : Delivery) (s s1 : S) (rest : S → Option (List Ending) × S)
      → token.fired i ≡ false
      → Api.dequeue q 5_000 s ≡ (ok (some d), s1)
      → ((s : S) → EndsWithin (From (i + 1) s) n (rest s))
      → EndsWithin (From i s) (suc n) (
          after_process codecs registry run token
            (suc tries)
            (process codecs registry run token (suc tries) q i d s1)
            rest)
  after_message n i d s s1 rest f got h =
      let (e, s2, r, done) = process-Handled i d s1 in
      let (es, s', k, c, l) = h s2 in
      (e ∷ es, s', rw (r, k) refl, handled i s d s1 e s2 es s' f got done c, ground arith)

  after_dequeue-EndsWithin :
      (n i : ℕ) (s : S) (r : Result QueueError (Option Delivery) × S)
      (rest : S → Option (List Ending) × S)
      → token.fired i ≡ false
      → Api.dequeue q 5_000 s ≡ r
      → ((s : S) → EndsWithin (From (i + 1) s) n (rest s))
      → EndsWithin
          (From i s)
          (suc n)
          (after_dequeue codecs registry run token (suc tries) q i r rest)
  after_dequeue-EndsWithin n i s (ok (some d), s1) rest f got h =
      after_message n i d s s1 rest f got h
  after_dequeue-EndsWithin n i s (ok none, s1) rest f got h =
      let (es, s', k, c, l) = h s1 in (es, s', k, no_message i s s1 es s' f got c, omega arith)
  after_dequeue-EndsWithin n i s (err x, s1) rest f got h =
      let (es, s', k, c, l) = h s1 in
      elim (Bool-cases (token.sleep_fired i)) [
        | inl b ↦ ([], s1, rw b refl, fired_asleep i s x s1 f got b, omega arith)
        | inr b ↦ (es, s', rw b k, not_dequeued i s x s1 es s' f got b c, omega arith)
      ]

  consume-EndsWithin :
      (n i : ℕ) (s : S)
      → token.fired (i + n) ≡ true
      → EndsWithin (From i s) n (consume codecs registry run token (suc tries) (suc n) q i s)
  unfolding consume
  consume-EndsWithin zero i s h =
      let now : token.fired i ≡ true = ap token.fired {x = i} {y = i + 0} (omega arith) ∙ h in
      rw now ([], s, refl, fired i s now, omega arith)
  consume-EndsWithin (suc n) i s h = elim (Bool-cases (token.fired i)) [
    | inl b ↦ rw b ([], s, refl, fired i s b, omega arith)
    | inr b ↦ rw b (
        after_dequeue-EndsWithin n i s (Api.dequeue q dequeue_wait s)
          (λ s'. consume codecs registry run token (suc tries) (suc n) q (i + 1) s') b refl
          (λ s'. consume-EndsWithin n (i + 1) s' (ap token.fired (omega arith) ∙ h)))
  ]

-- An opening of round `last` in which the token fires ends the loop.
module _ {S : Type 0} (open_queue : ℕ → S → Opening S × S) (sleep_fired : ℕ → Bool) (last : ℕ)
    (fires : (s : S) → (open_queue last s).0 ≡ abandoned) where
  abbrev Ends : Opened S → Type 0
  Ends r = (o : Option (Queue S)) × (r.0 ≡ some o)

  retry_open-Ends :
      (i : ℕ) (r : Opening S × S) (rest : S → Opened S)
      → ((s : S) → Ends (rest s))
      → Ends (retry_open open_queue sleep_fired i r rest)
  retry_open-Ends i (abandoned, s) rest h = (none, refl)
  retry_open-Ends i (opened (ok q), s) rest h = (some q, refl)
  retry_open-Ends i (opened (err e), s) rest h = elim (Bool-cases (sleep_fired i)) [
    | inl b ↦ rw b (none, refl)
    | inr b ↦ rw b (h s)
  ]

  retry_open-abandoned :
      (i : ℕ) (r : Opening S × S) (rest : S → Opened S)
      → r.0 ≡ abandoned
      → Ends (retry_open open_queue sleep_fired i r rest)
  retry_open-abandoned i (o, s) rest h = rw h (none, refl)

  open_with_retry-Ends :
      (n i : ℕ) (s : S) → i + n ≡ last → Ends (open_with_retry open_queue sleep_fired (suc n) i s)
  unfolding open_with_retry
  open_with_retry-Ends zero i s h =
      retry_open-abandoned i (open_queue i s)
        (λ s'. open_with_retry open_queue sleep_fired 0 (i + 1) s')
        (ap (λ k. (open_queue k s).0) {x = i} {y = last} (omega arith) ∙ fires s)
  open_with_retry-Ends (suc n) i s h =
      retry_open-Ends i (open_queue i s)
        (λ s'. open_with_retry open_queue sleep_fired (suc n) (i + 1) s')
        (λ s'. open_with_retry-Ends n (i + 1) s' (omega arith))

module _ {S C : Type 0} (codecs : Codecs) (registry : CommandRegistry C) (run : ℕ → Run S C)
    (token : Token) (tries rounds : ℕ) where
  -- The opening gave no queue, or one whose messages the consumer handled.
  abbrev pub Served : Opened S → List Ending → S → Type 0
  Served opening es s' =
      ((opening ≡ (some none, s')) × (es ≡ []))
      ⊎ ((q : Queue S) × (s0 : S) × (opening ≡ (some (some q), s0))
          × Consumes codecs registry run token (suc tries) q 0 s0 es s')

  after_open-EndsWithin :
      (r : Opened S)
      → shutdown_settle_retries ≤ tries
      → ((i : ℕ) → token.settle_fired i tries ≡ true)
      → token.fired rounds ≡ true
      → ((o : Option (Queue S)) × (r.0 ≡ some o))
      → EndsWithin
          (Served r)
          rounds
          (after_open codecs registry run token (suc tries) (suc rounds) r)
  after_open-EndsWithin (none, s) h k f (o, e) = cc
  after_open-EndsWithin (some none, s) h k f (o, e) = ([], s, refl, inl (refl, refl), omega arith)
  after_open-EndsWithin (some (some q), s) h k f (o, e) =
      let (es, s', r, c, l) =
        consume-EndsWithin codecs registry run token tries h k q rounds 0 s
          (ap token.fired (omega arith) ∙ f) in
      (es, s', r, inr (q, s, refl, c), l)

-- A consumer ends, whatever its queue and its commands answer, when the token fires during the
-- opening numbered `opens` if it comes to that one, has fired by the check numbered `rounds`, and
-- fires by the sleep numbered `tries` of any settle, which is the third at least. It has then
-- dequeued, round after round from the queue that it opened, `rounds` messages at most, and each
-- of them was processed and settled, with the ending that the consumer reports, before the next
-- dequeue.
pub run_consumer-EndsWithin :
    {S C : Type 0} (codecs : Codecs) (registry : CommandRegistry C) (run : ℕ → Run S C)
    (token : Token) (tries rounds opens : ℕ) (open_queue : ℕ → S → Opening S × S)
    (sleep_fired : ℕ → Bool) (s : S)
    → shutdown_settle_retries ≤ tries
    → ((i : ℕ) → token.settle_fired i tries ≡ true)
    → token.fired rounds ≡ true
    → ((s : S) → (open_queue opens s).0 ≡ abandoned)
    → EndsWithin
        (Served codecs registry run token tries rounds
          (open_with_retry open_queue sleep_fired (suc opens) 0 s))
        rounds
        (run_consumer codecs registry run token
          (suc tries)
          open_queue
          sleep_fired
          (suc opens)
          (suc rounds)
          s)
unfolding run_consumer
run_consumer-EndsWithin codecs registry run token tries rounds opens open_queue sleep_fired s h k f
      o =
    after_open-EndsWithin codecs registry run token tries rounds _ h k f
      (open_with_retry-Ends open_queue sleep_fired opens o opens 0 s (omega arith))
