-- ===== src/Exec/Run/Outcome.antt =====
-- What a success of the exec command in inengine-core/src/commands/exec/mod.rs says.
use in_engine_net.Prelude.{
  ℕ, ◌≡◌, refl, Bool, true, false, Bool-cases, inl, inr, Option, none, some, [], Bytes, Result, ok,
  err,
}
use mathlib.Core.Path.{subst}
use in_engine_net.Error.{IoError, CommandError}
use in_engine_net.Command.{CommandDeadline, CommandResult}
use in_engine_net.Output.{Terminal, Output}
use in_engine_net.Output
use in_engine_net.Exec.Pipe.{KeptOutput, take_kept, into_text}
use in_engine_net.Exec.Process.{ExitStatus, success, Os, Pipe, take}
use in_engine_net.Exec.Wait.{wait_for_exit}
use in_engine_net.Exec.Run.{
  Exec, ProcessRun, readers_of, verdict, taken_after, after_spawn, run_process, written,
  run_whitelisted, run,
}

module _ {S : Type 0} (t : Terminal) (os : Os S) (fuel last : ℕ) (deadline : Option CommandDeadline)
    (exec : Exec) where
  abbrev Answer : Type 0
  Answer = Option ((CommandResult × Output t) × S)

  -- `P` of the output and the state of a run that succeeded.
  abbrev WhenOk : (Output t → S → Type 0) → Answer → Type 0
  WhenOk P none = Unit {0}
  WhenOk P (some ((err e, output), s)) = Unit {0}
  WhenOk P (some ((ok done, output), s)) = P output s

  abbrev WhenRun : (ProcessRun → S → Type 0) → Option (Result CommandError ProcessRun × S) → Type 0
  WhenRun P none = Unit {0}
  WhenRun P (some (err e, s)) = Unit {0}
  WhenRun P (some (ok process, s)) = P process s

  -- What was kept of a pipe, when there is one.
  abbrev pub Took : Pipe → Bool → S → KeptOutput → S → Type 0
  Took pipe true s kept s' = os.lock pipe take_kept s ≡ (kept, s')
  Took pipe false s kept s' = (kept ≡ record { head = []; dropped = 0; tail = [] }) × (s' ≡ s)

  -- The process was started, the wait gave the status, and then what was kept of its standard
  -- output was taken, and what was kept of its standard error after it.
  abbrev pub Ran : Bytes → S → ProcessRun → S → Type 0
  Ran path s process s' =
      (pipes : Bool × Bool) × (s1 : S) × (os.spawn path exec.arguments s ≡ (ok pipes, s1))
      × (s2 : S) × (wait_for_exit os path fuel last exec.timeout deadline (readers_of pipes) s1
          ≡ some (process.status, s2))
      × (s3 : S) × Took Pipe.stdout pipes.0 s2 process.stdout s3
      × Took Pipe.stderr pipes.1 s3 process.stderr s'

  taken_after-Ran :
      (path : Bytes) (s s1 : S) (pipes : Bool × Bool)
      (waited : Option (Result CommandError ExitStatus × S))
      → os.spawn path exec.arguments s ≡ (ok pipes, s1)
      → wait_for_exit os path fuel last exec.timeout deadline (readers_of pipes) s1 ≡ waited
      → WhenRun
          (λ process s'. Ran path s process s')
          (taken_after t os fuel last deadline exec (readers_of pipes) waited)
  unfolding take
  taken_after-Ran path s s1 pipes none started w = tt
  taken_after-Ran path s s1 (true, true) (some (status, s2)) started w =
      ((true, true), s1, started, s2, w, _, refl, refl)
  taken_after-Ran path s s1 (true, false) (some (status, s2)) started w =
      ((true, false), s1, started, s2, w, _, refl, (refl, refl))
  taken_after-Ran path s s1 (false, true) (some (status, s2)) started w =
      ((false, true), s1, started, s2, w, s2, (refl, refl), refl)
  taken_after-Ran path s s1 (false, false) (some (status, s2)) started w =
      ((false, false), s1, started, s2, w, s2, (refl, refl), (refl, refl))

  after_spawn-Ran :
      (path : Bytes) (s : S) (p : Result IoError (Bool × Bool) × S)
      → os.spawn path exec.arguments s ≡ p
      → WhenRun
          (λ process s'. Ran path s process s')
          (after_spawn t os fuel last deadline exec path p)
  after_spawn-Ran path s (err e, s1) started = tt
  after_spawn-Ran path s (ok pipes, s1) started = taken_after-Ran path s s1 pipes _ started refl

  run_process-Ran :
      (path : Bytes) (s : S)
      → WhenRun
          (λ process s'. Ran path s process s')
          (run_process t os fuel last deadline exec path s)
  unfolding run_process
  run_process-Ran path s = after_spawn-Ran path s _ refl

  -- What a success says of the process and the output.
  abbrev pub Succeeded : Bytes → S → Output t → Output t → S → Type 0
  Succeeded path s output output' s' =
      (process : ProcessRun) × Ran path s process s'
      × (status : ExitStatus) × (process.status ≡ ok status)
      × (success status ≡ true)
      × (output'
          ≡ Output.text t (Output.text t output (into_text process.stdout))
              (into_text process.stderr))

  verdict_ok :
      (path : Bytes) (s : S) (output : Output t) (process : ProcessRun)
      (r : Result CommandError ExitStatus) (s' : S)
      → process.status ≡ r
      → Ran path s process s'
      → WhenOk
          (λ output' s'. Succeeded path s output output' s')
          (some (
            (
              verdict path r,
              Output.text t
                  (Output.text t output (into_text process.stdout))
                  (into_text process.stderr),
            ),
            s',
          ))
  verdict_ok path s output process (err e) s' same ran = tt
  verdict_ok path s output process (ok status) s' same ran = elim (Bool-cases (success status)) [
    | inl y ↦ rw y (process, ran, status, same, y, refl)
    | inr n ↦ rw n tt
  ]

  written_ok :
      (path : Bytes) (s : S) (output : Output t) (ran : Option (Result CommandError ProcessRun × S))
      → WhenRun (λ process s'. Ran path s process s') ran
      → WhenOk
          (λ output' s'. Succeeded path s output output' s')
          (written t os fuel last deadline exec path output ran)
  written_ok path s output none h = tt
  written_ok path s output (some (err e, s')) h = tt
  written_ok path s output (some (ok process, s')) h =
      verdict_ok path s output process process.status s' refl h

  whitelisted_ok :
      (whitelist : Bytes → Option Bytes) (output : Output t) (s : S) (found : Option Bytes)
      → whitelist exec.executable ≡ found
      → WhenOk
          (λ output' s'.
            (path : Bytes) × (whitelist exec.executable ≡ some path)
            × Succeeded path s output output' s')
          (run_whitelisted t os fuel last deadline exec found output s)
  whitelisted_ok whitelist output s none e = tt
  whitelisted_ok whitelist output s (some path) e =
      add
        (written t os fuel last deadline exec path output
          (run_process t os fuel last deadline exec path s))
        (written_ok path s output _ (run_process-Ran path s))
    where
      add :
          (a : Answer)
          → WhenOk (λ output' s'. Succeeded path s output output' s') a
          → WhenOk
              (λ output' s'.
                (path : Bytes) × (whitelist exec.executable ≡ some path)
                × Succeeded path s output output' s')
              a
      add none h = tt
      add (some ((err x, o), s')) h = tt
      add (some ((ok done, o), s')) h = (path, e, h)

  -- A run that succeeds had its executable in the whitelist, started that path with the command's
  -- arguments, waited for it, and saw it exit with code 0; then it took what was kept of the
  -- process's standard output, and after it of its standard error, nothing for a pipe that there is
  -- not, and added the text of the first, then that of the second, to the output.
  pub run_ok :
      (whitelist : Bytes → Option Bytes) (output output' : Output t) (s s' : S)
      → run t os fuel last deadline exec whitelist output s ≡ some ((ok tt, output'), s')
      → (path : Bytes) × (whitelist exec.executable ≡ some path)
        × Succeeded path s output output' s'
  unfolding run
  run_ok whitelist output output' s s' e =
      subst
        (λ x.
          WhenOk
            (λ output' s'.
              (path : Bytes) × (whitelist exec.executable ≡ some path)
              × Succeeded path s output output' s')
            x)
        e (whitelisted_ok whitelist output s _ refl)
