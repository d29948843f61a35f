-- ===== src/Queue/Processing/Settling.antt =====
-- What becomes of a claimed message: the policy of inengine-core/src/queue/delivery.rs over the
-- settles of inengine-core/src/queue/mod.rs.
use in_engine_net.Prelude.{
  ℕ, zero, suc, ◌+◌, ◌-◌, ◌<◌, ◌≤◌, ◌≡◌, refl, ap, ◌∙◌, ◌⊎◌, inl, inr, Bool, true, false, Option,
  none, some, Bytes, Bool-cases, Result, ok, err, arith, if◌then◌else◌, leb, u32_mod,
}
use mathlib.Core.Option.{some_inj}
use in_engine_net.Error.{QueueError}
use in_engine_net.Queue.Types.{Stage, pending, failed, lane_eq}
use in_engine_net.Queue.Envelope.{Envelope, has_retries_left, count_attempt}
use in_engine_net.Queue.Delivery.{
  Delivery, Receipt, SettleError, rejected, lost, AttemptKind, succeeded, command_failed,
  unrunnable, interrupted, SettleAction, acknowledge, retry, move_to_failed, release, SettleOutcome,
  acknowledged, retried, moved_to_failed, released, into_delivery, for_attempt,
}
use in_engine_net.Queue.Delivery
use in_engine_net.Queue.Api
use in_engine_net.Queue.Api.{Queue, Driver, Action, by_receipt, file, redis, uncount_attempt}
use in_engine_net.Queue.Processing.{perform, settle, with_outcome}

-- The envelope after a number of claims.
abbrev pub claims : ℕ → Envelope → Envelope
claims zero e = e
claims (suc n) e = count_attempt (claims n e)

claims_attempts :
    (n : ℕ) (e : Envelope)
    → e.attempts + n < u32_mod
    → ((claims n e).attempts ≡ e.attempts + n) × ((claims n e).max_retries ≡ e.max_retries)
unfolding count_attempt
claims_attempts zero e h = ground arith
claims_attempts (suc n) e h = ground (arith, claims_attempts n e)

-- A message with no attempts yet and fewer than 2 ^ 32 - 1 retries whose command always fails
-- returns to pending after each of its first claims, as many as its retries, and moves to the
-- failed stage after the next one.
pub for_attempt-claims :
    (n : ℕ) (e : Envelope)
    → e.attempts ≡ 0
    → e.max_retries + 1 < u32_mod
    → n ≤ e.max_retries + 1
    → for_attempt command_failed (claims n e)
      ≡ (if leb n e.max_retries then retry else move_to_failed)
unfolding for_attempt has_retries_left
for_attempt-claims n e z b h = ground (arith, claims_attempts n e)

-- The receipt, when the driver of the queue gave it.
abbrev pub receipt_of : {S : Type 0} → Queue S → Receipt → Option Bytes
receipt_of (file drv) (Receipt.file name) = some name
receipt_of (redis drv) (Receipt.redis element) = some element
receipt_of _ _ = none

abbrev pub driver_of : {S : Type 0} → Queue S → Driver S
driver_of (file drv) = drv
driver_of (redis drv) = drv

-- The delivery that a settle works on.
abbrev pub settled_delivery : AttemptKind → Delivery → Delivery
settled_delivery interrupted d = uncount_attempt d
settled_delivery _ d = d

abbrev Call : Type 0 → Type 0
Call S = Driver S → Bytes → Action S Bool

module _ {S : Type 0} where
  abbrev pub answer :
      SettleOutcome → Delivery → Result QueueError Bool × S → Result SettleError SettleOutcome × S
  answer outcome d (ok true, s) = (ok outcome, s)
  answer outcome d (ok false, s) = (err lost, s)
  answer outcome d (err e, s) = (err (Delivery.interrupted d e), s)

  -- What each kind of attempt asks of the driver: one call, and nothing else.
  abbrev pub asked :
      Driver S → Bytes → Delivery → AttemptKind → S → Result SettleError SettleOutcome × S
  asked drv name d succeeded s = answer acknowledged d (drv.acknowledge name s)
  asked drv name d command_failed s =
      if leb d.envelope.attempts d.envelope.max_retries
      then answer retried d (drv.move_claimed name d.envelope pending s)
      else answer moved_to_failed d (drv.move_claimed name d.envelope failed s)
  asked drv name d unrunnable s =
      answer moved_to_failed d (drv.move_claimed name d.envelope failed s)
  asked drv name d interrupted s =
      answer released (uncount_attempt d)
        (drv.move_claimed name (uncount_attempt d).envelope pending s)

  abbrev settled_by : Delivery → Result QueueError Bool × S → Result SettleError (Unit {0}) × S
  settled_by d (r, s) = (Api.settle_result d r, s)

  by_receipt_own :
      (q : Queue S) (r : Receipt) (d : Delivery) (call : Driver S → Bytes → Action S Bool)
      (name : Bytes) (s : S)
      → receipt_of q r ≡ some name
      → lane_eq d.lane (driver_of q).lane ≡ true
      → by_receipt q r d call s ≡ settled_by d (call (driver_of q) name s)
  unfolding Api.owns Api.lane
  by_receipt_own (file drv) (Receipt.file n) d call name s h l =
      rw l (ap (λ m. settled_by d (call drv m s)) (some_inj.0 h))
  by_receipt_own (redis drv) (Receipt.redis n) d call name s h l =
      rw l (ap (λ m. settled_by d (call drv m s)) (some_inj.0 h))
  by_receipt_own (file drv) (Receipt.redis n) d call name s h l = cc
  by_receipt_own (redis drv) (Receipt.file n) d call name s h l = cc

  by_receipt_other :
      (q : Queue S) (r : Receipt) (d : Delivery) (call : Driver S → Bytes → Action S Bool) (s : S)
      → (receipt_of q r ≡ none) ⊎ (lane_eq d.lane (driver_of q).lane ≡ false)
      → by_receipt q r d call s ≡ (err (rejected d), s)
  unfolding Api.owns Api.lane
  by_receipt_other (file drv) (Receipt.file n) d call s (inl h) = cc
  by_receipt_other (redis drv) (Receipt.redis n) d call s (inl h) = cc
  by_receipt_other (file drv) (Receipt.file n) d call s (inr h) = rw h refl
  by_receipt_other (redis drv) (Receipt.redis n) d call s (inr h) = rw h refl
  by_receipt_other (file drv) (Receipt.redis n) d call s h = refl
  by_receipt_other (redis drv) (Receipt.file n) d call s h = refl

  with_outcome_settled :
      (outcome : SettleOutcome) (d : Delivery) (r : Result QueueError Bool × S)
      → with_outcome outcome (settled_by d r) ≡ answer outcome d r
  unfolding Api.settle_result
  with_outcome_settled outcome d (ok true, s) = refl
  with_outcome_settled outcome d (ok false, s) = refl
  with_outcome_settled outcome d (err e, s) = refl

  own_call :
      (outcome : SettleOutcome) (q : Queue S) (d : Delivery) (call : Call S) (name : Bytes) (s : S)
      → receipt_of q d.receipt ≡ some name
      → lane_eq d.lane (driver_of q).lane ≡ true
      → with_outcome outcome (Api.with_receipt q d call s)
        ≡ answer outcome d (call (driver_of q) name s)
  unfolding Api.with_receipt
  own_call outcome q d call name s h l =
      ap (with_outcome outcome) (by_receipt_own q d.receipt d call name s h l)
      ∙ with_outcome_settled outcome d (call (driver_of q) name s)

  other_call :
      (outcome : SettleOutcome) (q : Queue S) (d : Delivery) (call : Call S) (s : S)
      → (receipt_of q d.receipt ≡ none) ⊎ (lane_eq d.lane (driver_of q).lane ≡ false)
      → with_outcome outcome (Api.with_receipt q d call s) ≡ (err (rejected d), s)
  unfolding Api.with_receipt
  other_call outcome q d call s h =
      ap (with_outcome outcome) (by_receipt_other q d.receipt d call s h)

  abbrev acknowledging : Call S
  acknowledging drv receipt = drv.acknowledge receipt

  abbrev moving : Envelope → Stage → Call S
  moving e target drv receipt = drv.move_claimed receipt e target

  -- A message of the queue's own lane and driver is settled by one call of the driver: a success
  -- acknowledges it; a failure returns it to pending while its attempts are at most its retries,
  -- and moves it to the failed stage after that; a message that cannot be built moves there at
  -- once; an interruption returns it to pending with one attempt less. The call's answer is the
  -- outcome, a lost message, or the delivery with the error.
  pub settle_own :
      (q : Queue S) (d : Delivery) (kind : AttemptKind) (name : Bytes) (s : S)
      → receipt_of q d.receipt ≡ some name
      → lane_eq d.lane (driver_of q).lane ≡ true
      → settle q d kind s ≡ asked (driver_of q) name d kind s
  unfolding settle perform for_attempt has_retries_left Api.acknowledge Api.retry Api.move_to_failed
      Api.release Api.move_claimed uncount_attempt
  settle_own q d succeeded name s h l = own_call acknowledged q d acknowledging name s h l
  settle_own q d unrunnable name s h l =
      own_call moved_to_failed q d (moving d.envelope failed) name s h l
  settle_own q d interrupted name s h l =
      own_call released q (uncount_attempt d) (moving (uncount_attempt d).envelope pending) name s h
        l
  settle_own q d command_failed name s h l =
      elim (Bool-cases (leb d.envelope.attempts d.envelope.max_retries)) [
        | inl e ↦ rw e (own_call retried q d (moving d.envelope pending) name s h l)
        | inr e ↦ rw e (own_call moved_to_failed q d (moving d.envelope failed) name s h l)
      ]

  -- A message of another lane or driver is rejected with the delivery, and nothing is written.
  pub settle_rejected :
      (q : Queue S) (d : Delivery) (kind : AttemptKind) (s : S)
      → (receipt_of q d.receipt ≡ none) ⊎ (lane_eq d.lane (driver_of q).lane ≡ false)
      → settle q d kind s ≡ (err (rejected (settled_delivery kind d)), s)
  unfolding settle perform for_attempt has_retries_left Api.acknowledge Api.retry Api.move_to_failed
      Api.release Api.move_claimed uncount_attempt
  settle_rejected q d succeeded s h = other_call acknowledged q d acknowledging s h
  settle_rejected q d unrunnable s h = other_call moved_to_failed q d (moving d.envelope failed) s h
  settle_rejected q d interrupted s h =
      other_call released q (uncount_attempt d) (moving (uncount_attempt d).envelope pending) s h
  settle_rejected q d command_failed s h =
      elim (Bool-cases (leb d.envelope.attempts d.envelope.max_retries)) [
        | inl e ↦ rw e (other_call retried q d (moving d.envelope pending) s h)
        | inr e ↦ rw e (other_call moved_to_failed q d (moving d.envelope failed) s h)
      ]

  -- A release of the queue's own message that the driver fails hands back a delivery with one
  -- attempt less; settled again as an interruption, with a driver call that succeeds, it stores two
  -- attempts less than the delivery had at first.
  pub settle_release_again :
      (q : Queue S) (d : Delivery) (name : Bytes) (s s1 s2 : S) (e : QueueError)
      → receipt_of q d.receipt ≡ some name
      → lane_eq d.lane (driver_of q).lane ≡ true
      → (driver_of q).move_claimed name
          (record d.envelope { attempts = d.envelope.attempts - 1 })
          pending
          s
        ≡ (err e, s1)
      → (driver_of q).move_claimed name
          (record d.envelope { attempts = d.envelope.attempts - 2 })
          pending
          s1
        ≡ (ok true, s2)
      → (settle q d interrupted s ≡ (err (Delivery.interrupted (uncount_attempt d) e), s1))
        × (settle q (uncount_attempt d) interrupted s1 ≡ (ok released, s2))
  unfolding uncount_attempt
  settle_release_again q d name s s1 s2 e h l m n = (
    settle_own q d interrupted name s h l ∙ ap (answer released (uncount_attempt d)) m,
    settle_own q (uncount_attempt d) interrupted name s1 h l
        ∙ ap (answer released (uncount_attempt (uncount_attempt d))) n',
  )
    where
      twice : d.envelope.attempts - 1 - 1 ≡ d.envelope.attempts - 2
      twice = omega arith

      n' :
          (driver_of q).move_claimed name
            (record d.envelope { attempts = d.envelope.attempts - 1 - 1 })
            pending
            s1
          ≡ (ok true, s2)
      n' =
          ap (λ k. (driver_of q).move_claimed name (record d.envelope { attempts = k }) pending s1)
            twice
          ∙ n
