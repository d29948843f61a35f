-- ===== src/Queue/Processing/Interrupted.antt =====
-- When inengine-core/src/queue/processing.rs takes an attempt for interrupted.
use in_engine_net.Prelude.{
  ◌≡◌, refl, sym, ◌∙◌, ◌⊎◌, inl, inr, Bool, true, false, ok, err, Result-cases,
}
use in_engine_net.Error
use in_engine_net.Queue.Delivery.{Delivery}
use in_engine_net.Queue.Registry.{CommandRegistry}
use in_engine_net.Queue.Compression.{Codecs, to_command}
use in_engine_net.Queue.Api.{Queue}
use in_engine_net.Command.{CommandResult}
use in_engine_net.Queue.Processing.{
  interrupted, unrunnable, attempt_of, Run, run_attempt, process_delivery,
}

attempt_of_interrupted :
    (r : CommandResult) (fired : Bool)
    → attempt_of r fired ≡ interrupted
    → (r ≡ err Error.interrupted) × (fired ≡ true)
unfolding attempt_of
attempt_of_interrupted (ok done) fired h = cc
attempt_of_interrupted (err Error.interrupted) true h = (refl, refl)
attempt_of_interrupted (err Error.interrupted) false h = cc
attempt_of_interrupted (err e) fired h = cc

module _ {S C : Type 0} (codecs : Codecs) (registry : CommandRegistry C) (run : Run S C) where
  -- The command was built, ran, and ended as interrupted with the token fired.
  abbrev pub RanInterrupted : Delivery → S → Type 0
  RanInterrupted d s =
      (command : C) × (to_command codecs d.envelope registry ≡ ok command)
      × ((run command s).0.0 ≡ err Error.interrupted)
      × ((run command s).0.1 ≡ true)

  built :
      (d : Delivery) (s : S) (c : C)
      → to_command codecs d.envelope registry ≡ ok c
      → (run_attempt codecs registry run d s).0 ≡ attempt_of (run c s).0.0 (run c s).0.1
  unfolding run_attempt
  built d s c e = rw e refl

  not_built :
      (d : Delivery) (s : S) (x : Error.QueueError)
      → to_command codecs d.envelope registry ≡ err x
      → (run_attempt codecs registry run d s).0 ≡ unrunnable x
  unfolding run_attempt
  not_built d s x e = rw e refl

  clash :
      (d : Delivery) (s : S) (x : Error.QueueError)
      → unrunnable x ≡ interrupted
      → RanInterrupted d s
  clash d s x h = cc

  run_attempt_interrupted :
      (d : Delivery) (s : S)
      → (run_attempt codecs registry run d s).0 ≡ interrupted
      → RanInterrupted d s
  run_attempt_interrupted d s h = elim (Result-cases (to_command codecs d.envelope registry)) [
    | inl (c, e) ↦
        let (r, f) = attempt_of_interrupted (run c s).0.0 (run c s).0.1 (sym (built d s c e) ∙ h) in
        (c, e, r, f)
    | inr (x, e) ↦ clash d s x (sym (not_built d s x e) ∙ h)
  ]

  -- An attempt counts as interrupted, and so returns the message without using a retry, only when
  -- the token had fired: before the command was built, or by the time that its run ended as
  -- interrupted.
  pub process_delivery_interrupted :
      (q : Queue S) (d : Delivery) (cancelled : Bool) (s : S)
      → (process_delivery codecs registry run q d cancelled s).0.attempt ≡ interrupted
      → (cancelled ≡ true) ⊎ RanInterrupted d s
  unfolding process_delivery
  process_delivery_interrupted q d true s h = inl refl
  process_delivery_interrupted q d false s h = inr (run_attempt_interrupted d s h)
