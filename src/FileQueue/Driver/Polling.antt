-- ===== src/FileQueue/Driver/Polling.antt =====
-- The dequeue of inengine-core/src/queue/driver/file/mod.rs ends.
use in_engine_net.Prelude.{
  ℕ, zero, suc, ◌+◌, ◌-◌, ◌*◌, ◌≤◌, ◌<◌, ◌==◌, ◌≡◌, refl, min, Bool-cases, inl, inr, leb, true,
  Option, none, some, Bytes, Result, ok, err, arith,
}
use in_engine_net.Error.{QueueError}
use in_engine_net.Queue.Types.{QueueLane}
use in_engine_net.Queue.Envelope.{Json}
use in_engine_net.Queue.Delivery.{Delivery}
use in_engine_net.FileQueue.Claim.{claim_oldest}
use in_engine_net.FileQueue.Driver.{
  Pool, IsTimed, poll_interval, joined, on_blocking_pool, call_store, wait_or_stop, after_claim,
  poll, dequeue,
}

module _ {S : Type 0} (pool : Pool S) (json : Json) (lane : QueueLane) (time : S → ℕ)
    (timed : IsTimed pool time) where
  abbrev Out : Type 0
  Out = Result QueueError (Option Delivery) × S

  -- An answer of no message comes at the deadline at the earliest.
  abbrev pub InTime : ℕ → Out → Type 0
  InTime deadline (ok none, s) = deadline ≤ time s
  InTime deadline (ok (some delivery), s) = Unit {0}
  InTime deadline (err e, s) = Unit {0}

  abbrev EndsInTime : ℕ → Option Out → Type 0
  EndsInTime deadline x = (out : Out) × (x ≡ some out) × InTime deadline out

  wait_or_stop-Ends :
      (deadline : ℕ) (p : ℕ × S) (rest : S → Option Out)
      → deadline ≤ time p.1 + p.0
      → (0 < p.0
          → (s : S) → time p.1 + min p.0 poll_interval ≤ time s
          → EndsInTime deadline (rest s))
      → EndsInTime deadline (wait_or_stop pool json lane p rest)
  wait_or_stop-Ends deadline (left, s) rest b ends = elim (Bool-cases (left == 0)) [
    | inl z ↦ rw z ((ok none, s), refl, (ground arith))
    | inr n ↦ rw n (
        ends (ground arith) (pool.sleep (min left poll_interval) s)
          (timed.sleep_later (min left poll_interval) s))
  ]

  after_claim-Ends :
      (deadline start : ℕ) (p : Out) (rest : S → Option Out)
      → start ≤ time p.1
      → (start < deadline
          → (s : S) → min deadline (start + poll_interval) ≤ time s
          → EndsInTime deadline (rest s))
      → EndsInTime deadline (after_claim pool json lane (some deadline) p rest)
  after_claim-Ends deadline start (err e, s) rest b ends = ((err e, s), refl, tt)
  after_claim-Ends deadline start (ok (some delivery), s) rest b ends =
      ((ok (some delivery), s), refl, tt)
  after_claim-Ends deadline start (ok none, s) rest b ends =
      wait_or_stop-Ends deadline (deadline - (pool.now s).0, (pool.now s).1) rest
        (omega (arith, timed.now_to s))
        (λ more s' b'.
          ends (omega (arith, timed.now_from s)) s'
            (omega (arith, timed.now_from s, timed.now_to s)))

  call_store_later : (r : S) → time r ≤ time (call_store pool (claim_oldest json lane) r).1
  unfolding call_store on_blocking_pool
  call_store_later r =
      joined_later (pool.spawn_blocking (claim_oldest json lane) r)
        (timed.spawn_blocking_later (claim_oldest json lane) r)
    where
      joined_later :
          (p : Result Bytes (Result QueueError (Option Delivery)) × S)
          → time r ≤ time p.1
          → time r ≤ time (joined p).1
      joined_later (ok result, s) b = b
      joined_later (err text, s) b = b

  poll-Ends :
      (fuel deadline : ℕ) (s : S)
      → deadline ≤ time s + fuel * poll_interval
      → EndsInTime deadline (poll pool json lane (suc fuel) (some deadline) s)
  unfolding poll
  poll-Ends zero deadline s b =
      after_claim-Ends deadline (time s) (call_store pool (claim_oldest json lane) s) _
        (call_store_later s) (λ early s' b'. elim (absurd early) [ ])
    where
      absurd : time s < deadline → ⊥
      absurd early = omega arith
  poll-Ends (suc fuel) deadline s b =
      after_claim-Ends deadline (time s) (call_store pool (claim_oldest json lane) s) _
        (call_store_later s) (λ early s' b'. poll-Ends fuel deadline s' (omega arith))

  -- When the deadline can be represented, a dequeue of the file driver returns, after one look at
  -- the store for each second of its wait and one more, whatever the store answers; and it says
  -- that there is no message only when the wait is over.
  pub dequeue-Ends :
      (fuel last wait : ℕ) (s : S)
      → (pool.now s).0 + wait ≤ last
      → wait ≤ fuel * poll_interval
      → (out : Result QueueError (Option Delivery) × S) × (dequeue pool json lane
            (suc fuel)
            last
            wait
            s
          ≡ some out)
        × InTime ((pool.now s).0 + wait) out
  unfolding dequeue
  dequeue-Ends fuel last wait s fits b =
      let e : leb ((pool.now s).0 + wait) last ≡ true = ground arith in
      rw e (poll-Ends fuel ((pool.now s).0 + wait) (pool.now s).1 (omega (arith, timed.now_to s)))
