-- ===== src/QueueAdmin/Messaging/Consumed.antt =====
-- What a success of `Consume` in inengine-core/src/queue_admin/messaging.rs says.
use in_engine_net.Prelude.{
  ℕ, zero, suc, ◌≤◌, ◌≡◌, refl, sym, ap, ◌∙◌, ltb, false, Bool-cases, inl, inr, Option, none, some,
  List, [], ◌∷◌, Result, ok, err, length, arith,
}
use mathlib.Core.Path.{subst}
use in_engine_net.Error.{CommandError, QueueError}
use in_engine_net.Output.{Terminal}
use in_engine_net.Command.{CommandResult}
use in_engine_net.Queue.Delivery.{
  Delivery, SettleError, SettleOutcome, acknowledged, retried, moved_to_failed, released,
}
use in_engine_net.Queue.Registry.{CommandRegistry}
use in_engine_net.Queue.Compression.{Codecs}
use in_engine_net.Queue.Api.{Queue, dequeue}
use in_engine_net.Queue.Processing.{ProcessedDelivery}
use in_engine_net.QueueAdmin.Messaging.{
  ConsumeTally, no_messages, count_outcome, incomplete, Host, process, report, write_outcome,
  settled_or_stop, after_process, after_dequeue, consume_loop, or_max, finish, consume,
}

abbrev pub AllAcknowledged : List SettleOutcome → Type 0
AllAcknowledged [] = Unit {0}
AllAcknowledged (acknowledged ∷ outcomes) = AllAcknowledged outcomes
AllAcknowledged (outcome ∷ outcomes) = ⊥

abbrev count_all : ConsumeTally → List SettleOutcome → ConsumeTally
count_all tally [] = tally
count_all tally (outcome ∷ outcomes) = count_all (count_outcome tally outcome) outcomes

incomplete-count_all :
    (tally : ConsumeTally) (outcomes : List SettleOutcome)
    → incomplete tally ≤ incomplete (count_all tally outcomes)
unfolding incomplete count_outcome
incomplete-count_all tally [] = omega arith
incomplete-count_all tally (acknowledged ∷ outcomes) =
    omega (arith, incomplete-count_all (count_outcome tally acknowledged) outcomes)
incomplete-count_all tally (retried ∷ outcomes) =
    omega (arith, incomplete-count_all (count_outcome tally retried) outcomes)
incomplete-count_all tally (moved_to_failed ∷ outcomes) =
    omega (arith, incomplete-count_all (count_outcome tally moved_to_failed) outcomes)
incomplete-count_all tally (released ∷ outcomes) =
    omega (arith, incomplete-count_all (count_outcome tally released) outcomes)

all_complete :
    (tally : ConsumeTally) (outcomes : List SettleOutcome)
    → incomplete (count_all tally outcomes) ≡ 0
    → AllAcknowledged outcomes
unfolding incomplete count_outcome
all_complete tally [] h = tt
all_complete tally (acknowledged ∷ outcomes) h =
    all_complete (count_outcome tally acknowledged) outcomes h
all_complete tally (retried ∷ outcomes) h =
    omega (arith, incomplete-count_all (count_outcome tally retried) outcomes)
all_complete tally (moved_to_failed ∷ outcomes) h =
    omega (arith, incomplete-count_all (count_outcome tally moved_to_failed) outcomes)
all_complete tally (released ∷ outcomes) h =
    omega (arith, incomplete-count_all (count_outcome tally released) outcomes)

module _ {S C : Type 0} (t : Terminal) (host : Host S C t) (codecs : Codecs)
    (registry : CommandRegistry C) (q : Queue S) where
  -- The messages that were dequeued, processed and settled one after the other, with their
  -- outcomes.
  pub data Consumed : S → List SettleOutcome → S → Type 0 where
    stopped : (s : S) → Consumed s [] s
    found_none : (s s' : S) → dequeue q 0 s ≡ (ok none, s') → Consumed s [] s'
    step :
        (s s1 s2 s' : S) (d : Delivery) (processed : ProcessedDelivery) (outcome : SettleOutcome)
        (outcomes : List SettleOutcome)
        → dequeue q 0 s ≡ (ok (some d), s1)
        → process t host codecs registry q d s1 ≡ (processed, s2)
        → processed.settled ≡ ok outcome
        → Consumed
            (write_outcome t host codecs registry q processed.message_id outcome
              (report t host codecs registry q processed.message_id processed.attempt s2))
            outcomes
            s'
        → Consumed s (outcome ∷ outcomes) s'

  abbrev Counts : ℕ → ConsumeTally → S → Result CommandError ConsumeTally × S → Type 0
  Counts n tally s (err e, s') = Unit {0}
  Counts n tally s (ok tally', s') =
      (outcomes : List SettleOutcome) × Consumed s outcomes s'
      × (length outcomes ≤ n)
      × (tally' ≡ count_all tally outcomes)

  abbrev Rest : Type 0
  Rest = ConsumeTally → S → Result CommandError ConsumeTally × S

  add_step :
      (n : ℕ) (tally : ConsumeTally) (outcome : SettleOutcome) (s s0 : S)
      (p : Result CommandError ConsumeTally × S)
      → ((outcomes : List SettleOutcome) (s' : S)
          → Consumed s0 outcomes s'
          → Consumed s (outcome ∷ outcomes) s')
      → Counts n (count_outcome tally outcome) s0 p
      → Counts (suc n) tally s p
  add_step n tally outcome s s0 (err e, s') add h = tt
  add_step n tally outcome s s0 (ok tally', s') add (outcomes, consumed, b, same) =
      (outcome ∷ outcomes, add outcomes s' consumed, (omega arith), same)

  settled-Counts :
      (n : ℕ) (tally : ConsumeTally) (s s1 s2 : S) (d : Delivery) (processed : ProcessedDelivery)
      (r : Result SettleError SettleOutcome) (rest : Rest)
      → dequeue q 0 s ≡ (ok (some d), s1)
      → process t host codecs registry q d s1 ≡ (processed, s2)
      → processed.settled ≡ r
      → ((tally' : ConsumeTally) (s' : S) → Counts n tally' s' (rest tally' s'))
      → Counts (suc n) tally s (
          settled_or_stop t host codecs registry q tally processed.message_id r
            (report t host codecs registry q processed.message_id processed.attempt s2)
            rest)
  settled-Counts n tally s s1 s2 d processed (err e) rest took ran got counts = tt
  settled-Counts n tally s s1 s2 d processed (ok outcome) rest took ran got counts =
      add_step n tally outcome s _ (rest (count_outcome tally outcome) _)
        (λ outcomes s' consumed. step s s1 s2 s' d processed outcome outcomes took ran got consumed)
        (counts (count_outcome tally outcome) _)

  after_process-Counts :
      (n : ℕ) (tally : ConsumeTally) (s s1 : S) (d : Delivery) (p : ProcessedDelivery × S)
      (rest : Rest)
      → dequeue q 0 s ≡ (ok (some d), s1)
      → process t host codecs registry q d s1 ≡ p
      → ((tally' : ConsumeTally) (s' : S) → Counts n tally' s' (rest tally' s'))
      → Counts (suc n) tally s (after_process t host codecs registry q tally p rest)
  after_process-Counts n tally s s1 d (processed, s2) rest took ran counts =
      settled-Counts n tally s s1 s2 d processed processed.settled rest took ran refl counts

  after_dequeue-Counts :
      (n : ℕ) (tally : ConsumeTally) (s : S) (p : Result QueueError (Option Delivery) × S)
      (rest : Rest)
      → dequeue q 0 s ≡ p
      → ((tally' : ConsumeTally) (s' : S) → Counts n tally' s' (rest tally' s'))
      → Counts (suc n) tally s (after_dequeue t host codecs registry q tally p rest)
  after_dequeue-Counts n tally s (err e, s1) rest took counts = tt
  after_dequeue-Counts n tally s (ok none, s1) rest took counts =
      ([], found_none s s1 took, (omega arith), refl)
  after_dequeue-Counts n tally s (ok (some d), s1) rest took counts =
      after_process-Counts n tally s s1 d (process t host codecs registry q d s1) rest took refl
        counts

  loop-Counts :
      (n : ℕ) (tally : ConsumeTally) (s : S)
      → Counts n tally s (consume_loop t host codecs registry q n tally s)
  unfolding consume_loop
  loop-Counts zero tally s = ([], stopped s, (omega arith), refl)
  loop-Counts (suc n) tally s =
      after_dequeue-Counts n tally s (dequeue q 0 s)
        (λ tally' s'. consume_loop t host codecs registry q n tally' s') refl
        (λ tally' s'. loop-Counts n tally' s')

  abbrev WhenOk : (S → Type 0) → CommandResult × S → Type 0
  WhenOk P (err e, s') = Unit {0}
  WhenOk P (ok done, s') = P s'

  abbrev pub AllConsumed : ℕ → S → S → Type 0
  AllConsumed n s s' =
      (outcomes : List SettleOutcome) × Consumed s outcomes s'
      × (length outcomes ≤ n)
      × AllAcknowledged outcomes

  finish_ok :
      (n : ℕ) (s : S) (p : Result CommandError ConsumeTally × S)
      → Counts n no_messages s p
      → WhenOk (AllConsumed n s) (finish t host codecs registry q p)
  finish_ok n s (err e, s') h = tt
  finish_ok n s (ok tally, s') (outcomes, consumed, b, same) =
      elim (Bool-cases (ltb 0 (incomplete tally))) [
        | inl y ↦ rw y tt
        | inr z ↦ rw z (
          outcomes,
          consumed,
          b,
          all_complete no_messages outcomes (ap incomplete (sym same) ∙ none_left z),
        )
      ]
    where
      none_left : ltb 0 (incomplete tally) ≡ false → incomplete tally ≡ 0
      none_left z = ground arith

  -- A consume that succeeds has dequeued, run and settled messages one after the other, as many as
  -- its limit at most, or 2 ^ 64 - 1 without one, and every one of them was acknowledged.
  pub consume_ok :
      (limit : Option ℕ) (s s' : S)
      → consume t host codecs registry q limit s ≡ (ok tt, s')
      → AllConsumed (or_max limit) s s'
  unfolding consume
  consume_ok limit s s' e =
      subst (WhenOk (AllConsumed (or_max limit) s)) e
        (finish_ok (or_max limit) s _ (loop-Counts (or_max limit) no_messages s))
