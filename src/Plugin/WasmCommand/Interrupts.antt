-- ===== src/Plugin/WasmCommand/Interrupts.antt =====
-- When a plugin command of inengine-core/src/plugin/wasm_command.rs reports an interruption or a
-- timeout.
use in_engine_net.Prelude.{
  ℕ, ◌≤◌, ◌≡◌, refl, ◌⊎◌, inl, inr, ltb, leb, true, false, Bool-cases, Option, none, some, List, [],
  ◌∷◌, Bytes, Result, ok, err, arith,
}
use mathlib.Core.Path.{subst}
use in_engine_net.Error.{CommandError, interrupted}
use in_engine_net.Error
use in_engine_net.Command.{CommandDeadline, CommandResult, as_secs, instant_after}
use in_engine_net.Output.{Terminal, Output}
use in_engine_net.Plugin.LoadError.{WasmError, interrupt, memory_limit_exceeded, other}
use in_engine_net.Plugin.WasmCommand.{
  PluginLimits, InterruptCause, deadline_passed, shutdown, PluginStoreData, new_store, Epoch,
  epoch_cause, CallEnd, returned, out_of_memory, trapped, ended, stop_or, call_plugin, CallDeadline,
  context, plugin_limit, WasmCommand, earlier, call_deadline, classify_call_failure, interrupted_by,
  answer, run,
}

abbrev pub SomeEpoch : (Epoch → Type 0) → List Epoch → Type 0
SomeEpoch P [] = ⊥
SomeEpoch P (e ∷ es) = P e ⊎ SomeEpoch P es

abbrev Cancelled : Epoch → Type 0
Cancelled e = e.0 ≡ true

abbrev Late : ℕ → Epoch → Type 0
Late deadline e = deadline ≤ e.1

-- What a cause says of the epochs.
abbrev Means : ℕ → List Epoch → Option InterruptCause → Type 0
Means deadline epochs none = Unit {0}
Means deadline epochs (some shutdown) = SomeEpoch Cancelled epochs
Means deadline epochs (some deadline_passed) = SomeEpoch (Late deadline) epochs

Means-later :
    (deadline : ℕ) (e : Epoch) (epochs : List Epoch) (cause : Option InterruptCause)
    → Means deadline epochs cause
    → Means deadline (e ∷ epochs) cause
Means-later deadline e epochs none h = tt
Means-later deadline e epochs (some shutdown) h = inr h
Means-later deadline e epochs (some deadline_passed) h = inr h

Means-epoch_cause :
    (e : Epoch) (epochs : List Epoch) (store : PluginStoreData)
    → Means store.deadline (e ∷ epochs) (epoch_cause e store)
unfolding epoch_cause
Means-epoch_cause (true, now) epochs store = inl refl
Means-epoch_cause (false, now) epochs store = elim (Bool-cases (leb store.deadline now)) [
  | inl y ↦ rw y (inl (ground arith))
  | inr n ↦ rw n tt
]

abbrev Answer : Type 0
Answer = Result WasmError (Result Bytes Bytes) × PluginStoreData

abbrev CallMeans : ℕ → List Epoch → Answer → Type 0
CallMeans deadline epochs (ok answer, store) = Unit {0}
CallMeans deadline epochs (err interrupt, store) = Means deadline epochs store.interrupt_cause
CallMeans deadline epochs (err e, store) = Unit {0}

CallMeans-later :
    (deadline : ℕ) (e : Epoch) (epochs : List Epoch) (p : Answer)
    → CallMeans deadline epochs p
    → CallMeans deadline (e ∷ epochs) p
CallMeans-later deadline e epochs (ok answer, store) h = tt
CallMeans-later deadline e epochs (err interrupt, store) h =
    Means-later deadline e epochs store.interrupt_cause h
CallMeans-later deadline e epochs (err (memory_limit_exceeded limit), store) h = tt
CallMeans-later deadline e epochs (err (other text), store) h = tt

CallMeans-ended :
    (deadline : ℕ) (end : CallEnd) (store : PluginStoreData)
    → CallMeans deadline [] (ended end, store)
CallMeans-ended deadline (returned answer) store = tt
CallMeans-ended deadline (out_of_memory limit) store = tt
CallMeans-ended deadline (trapped text) store = tt

CallMeans-stop_or :
    (deadline : ℕ) (epochs : List Epoch) (cause : Option InterruptCause) (store : PluginStoreData)
    (rest : Answer)
    → Means deadline epochs cause
    → CallMeans deadline epochs rest
    → CallMeans deadline epochs (stop_or cause store rest)
CallMeans-stop_or deadline epochs none store rest h later = later
CallMeans-stop_or deadline epochs (some cause) store rest h later = h

CallMeans-call_plugin :
    (epochs : List Epoch) (end : CallEnd) (store : PluginStoreData)
    → CallMeans store.deadline epochs (call_plugin epochs end store)
unfolding call_plugin
CallMeans-call_plugin [] end store = CallMeans-ended store.deadline end store
CallMeans-call_plugin (e ∷ epochs) end store =
    CallMeans-stop_or store.deadline (e ∷ epochs) (epoch_cause e store) store
      (call_plugin epochs end store) (Means-epoch_cause e epochs store)
      (CallMeans-later store.deadline e epochs (call_plugin epochs end store)
        (CallMeans-call_plugin epochs end store))

-- What the error of a run says: the token had fired at an epoch, or the context's deadline had
-- passed at one and its own limit is reported. Other results say nothing of the epochs.
abbrev pub Explained : Option CommandDeadline → List Epoch → CommandResult → Type 0
Explained deadline epochs (err interrupted) = SomeEpoch (λ e. e.0 ≡ true) epochs
Explained deadline epochs (err (Error.timeout seconds)) =
    (d : CommandDeadline) × (deadline ≡ some d)
    × (seconds ≡ as_secs d.timeout)
    × SomeEpoch (λ e. d.at ≤ e.1) epochs
Explained deadline epochs (err (Error.failed message)) = Unit {0}
Explained deadline epochs (ok done) = Unit {0}

-- A call deadline that comes from the context is the context's.
abbrev FromContext : Option CommandDeadline → ℕ × CallDeadline → Type 0
FromContext deadline (at, plugin_limit seconds) = Unit {0}
FromContext deadline (at, context seconds) =
    (d : CommandDeadline) × (deadline ≡ some d) × (seconds ≡ as_secs d.timeout) × (at ≡ d.at)

FromContext-earlier :
    (limit_deadline : ℕ) (limits : PluginLimits) (deadline : Option CommandDeadline)
    → FromContext deadline (earlier limit_deadline limits deadline)
FromContext-earlier limit_deadline limits none = tt
FromContext-earlier limit_deadline limits (some d) = elim (Bool-cases (ltb d.at limit_deadline)) [
  | inl y ↦ rw y (d, refl, refl, refl)
  | inr n ↦ rw n tt
]

module _ (t : Terminal) (command : WasmCommand) (deadline : Option CommandDeadline)
    (epochs : List Epoch) where
  Explained-interrupted_by :
      (call : ℕ × CallDeadline) (cause : Option InterruptCause)
      → FromContext deadline call
      → Means call.0 epochs cause
      → Explained deadline epochs (err (interrupted_by command cause call.1))
  Explained-interrupted_by (at, limit) none from h = tt
  Explained-interrupted_by (at, limit) (some shutdown) from h = h
  Explained-interrupted_by (at, plugin_limit seconds) (some deadline_passed) from h = tt
  Explained-interrupted_by (at, context seconds) (some deadline_passed) (d, same, limit, time) h =
      (d, same, limit, subst (λ n. SomeEpoch (λ e. n ≤ e.1) epochs) time h)

  Explained-answer :
      (call : ℕ × CallDeadline) (output : Output t) (p : Answer)
      → FromContext deadline call
      → CallMeans call.0 epochs p
      → Explained deadline epochs (answer t command call.1 output p).0
  unfolding classify_call_failure
  Explained-answer call output (ok (ok text), store) from h = tt
  Explained-answer call output (ok (err message), store) from h = tt
  Explained-answer call output (err interrupt, store) from h =
      Explained-interrupted_by call store.interrupt_cause from h
  Explained-answer call output (err (memory_limit_exceeded limit), store) from h = tt
  Explained-answer call output (err (other text), store) from h = tt

  -- A plugin command reports an interruption only when at an epoch of its call the token had fired,
  -- and a timeout only with the limit of its context's deadline, when that had passed at an epoch.
  pub Explained-run :
      (last now : ℕ) (end : CallEnd) (output : Output t)
      → Explained deadline epochs (run t last now epochs end command deadline output).0
  unfolding run new_store call_deadline
  Explained-run last now end output =
      Explained-answer call output (call_plugin epochs end (new_store command.limits call.0))
        (FromContext-earlier (instant_after last now command.limits.timeout) command.limits
          deadline)
        (CallMeans-call_plugin epochs end (new_store command.limits call.0))
    where
      call : ℕ × CallDeadline
      call = call_deadline last now command deadline
