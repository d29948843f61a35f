-- ===== src/Server/Consumers/Settling.antt =====
-- The settle loop of inengine-core/src/server/consumers.rs ends.
use in_engine_net.Prelude.{
  ◌≢◌, ℕ, zero, suc, ◌+◌, ◌≡◌, refl, ◌⊎◌, inl, inr, ap, ◌∙◌, Bool, true, Option, some, Result, ok,
  err, arith, Bool-cases,
}
use in_engine_net.Queue.Delivery.{SettleError, lost, rejected, AttemptKind, SettleOutcome}
use in_engine_net.Queue.Delivery
use in_engine_net.Queue.Api.{Queue}
use in_engine_net.Queue.Processing.{settle}
use in_engine_net.Server.Consumers.{
  Ending, settled, left_in_progress_stage, rejected_delivery, stays_in_progress, gives_up,
  settle_until_done, shutdown_settle_retries,
}

module _ {S : Type 0} (q : Queue S) (kind : AttemptKind) (cancelled : ℕ → Bool) where
  abbrev pub Ends : Option Ending × S → Type 0
  Ends r = (e : Ending) × (r.0 ≡ some e)

  pub Ends-by :
      (left rounds : ℕ) (result : Result SettleError SettleOutcome) (s : S)
      → gives_up kind cancelled (rounds + left) ≡ true
      → Ends (settle_until_done (suc left) q kind cancelled rounds result s)
  unfolding settle_until_done
  Ends-by left rounds (ok outcome) s h = (settled outcome, refl)
  Ends-by left rounds (err lost) s h = (left_in_progress_stage, refl)
  Ends-by left rounds (err (rejected d)) s h = (rejected_delivery, refl)
  Ends-by zero rounds (err (Delivery.interrupted d e)) s h = (
    stays_in_progress,
    rw (ap (gives_up kind cancelled) {x = rounds} {y = rounds + 0} (omega arith) ∙ h) refl,
  )
  Ends-by (suc left) rounds (err (Delivery.interrupted d e)) s h =
      elim (Bool-cases (gives_up kind cancelled rounds)) [
        | inl g ↦ rw g (stays_in_progress, refl)
        | inr g ↦ rw g (
            Ends-by left (rounds + 1) (settle q d kind s).0 (settle q d kind s).1
              (ap (gives_up kind cancelled) (omega arith) ∙ h))
      ]

abbrev pub Stops : AttemptKind → (ℕ → Bool) → ℕ → Type 0
Stops kind cancelled last =
    ((kind ≡ AttemptKind.interrupted) × (last ≡ shutdown_settle_retries))
    ⊎ ((kind ≢ AttemptKind.interrupted) × (cancelled last ≡ true))

stops :
    (kind : AttemptKind) (cancelled : ℕ → Bool) (last : ℕ)
    → Stops kind cancelled last
    → gives_up kind cancelled (0 + last) ≡ true
unfolding gives_up
stops AttemptKind.interrupted cancelled last (inl (e, l)) = ground arith
stops AttemptKind.interrupted cancelled last (inr (n, c)) = absurd (n refl)
stops _ cancelled last (inl (e, l)) = cc
stops _ cancelled last (inr (n, c)) = ap cancelled (omega arith) ∙ c

-- A consumer's settle ends, with an outcome or with the message left where it is: after a run that
-- the shutdown interrupted, within three more settles, whatever the driver answers; after any other
-- run, at the latest in the round in which the server stops.
pub settle_until_done_ends :
    {S : Type 0} (q : Queue S) (kind : AttemptKind) (cancelled : ℕ → Bool) (last : ℕ)
    (result : Result SettleError SettleOutcome) (s : S)
    → Stops kind cancelled last
    → (e : Ending) × ((settle_until_done (suc last) q kind cancelled 0 result s).0 ≡ some e)
settle_until_done_ends q kind cancelled last result s h =
    Ends-by q kind cancelled last 0 result s (stops kind cancelled last h)
