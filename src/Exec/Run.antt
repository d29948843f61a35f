-- ===== src/Exec/Run.antt =====
-- The exec command of inengine-core/src/commands/exec/mod.rs. A path is shown as its own text.
pub mod Outcome
mod Examples
use in_engine_net.Prelude.{
  ℕ, Bool, true, false, Option, none, some, List, [], Bytes, codes, ◌++◌, Result, ok, err,
  if◌then◌else◌,
}
use in_engine_net.Error.{IoError, not_found, permission_denied, CommandError}
use in_engine_net.Error
use in_engine_net.Output.{Terminal, Output}
use in_engine_net.Output
use in_engine_net.Command.{CommandDeadline, CommandResult}
use in_engine_net.Exec.Pipe.{KeptOutput, into_text, decimal}
use in_engine_net.Exec.Process.{ExitStatus, success, Os, Pipe, stdout, stderr, PipeReader, take}
use in_engine_net.Exec.Wait.{Readers, wait_for_exit}

pub record Exec : Type 0 where
  pub executable : Bytes
  pub arguments : List Bytes
  pub timeout : ℕ

-- An exit code of a process is below 256.
abbrev describe_ending : Bytes → Option ℕ → Option ℕ → Bytes → Bytes
describe_ending path (some code) signal text = path ++ codes " exited with code " ++ decimal 20 code
describe_ending path none (some signal) text =
    path ++ codes " was stopped by signal " ++ decimal 20 signal
describe_ending path none none text = path ++ codes " ended with " ++ text

unfoldable pub describe_failure : Bytes → ExitStatus → Bytes
unfolding decimal
describe_failure path status = describe_ending path status.code status.signal status.text

abbrev start_error : Bytes → IoError → CommandError
start_error path not_found =
    Error.failed
      (codes "could not run " ++ path ++ codes ": it does not exist or is not accessible")
start_error path permission_denied =
    Error.failed
      (codes "could not run " ++ path ++ codes ": it does not exist or is not accessible")
start_error path error = Error.failed (codes "could not start " ++ path)

pub record ProcessRun : Type 0 where
  pub status : Result CommandError ExitStatus
  pub stdout : KeptOutput
  pub stderr : KeptOutput

abbrev nothing_kept : KeptOutput
nothing_kept = record { head = []; dropped = 0; tail = [] }

abbrev spawned : Pipe → Bool → Option PipeReader
spawned pipe true = some (record { pipe = pipe; done = false })
spawned pipe false = none

abbrev pub readers_of : Bool × Bool → Readers
readers_of (out, error) = (spawned stdout out, spawned stderr error)

abbrev pub verdict : Bytes → Result CommandError ExitStatus → CommandResult
verdict path (err e) = err e
verdict path (ok status) =
    if success status then ok tt else err (Error.failed (describe_failure path status))

module _ {S : Type 0} (t : Terminal) (os : Os S) (fuel last : ℕ) (deadline : Option CommandDeadline)
    (exec : Exec) where
  abbrev taken : Option PipeReader → S → KeptOutput × S
  taken none s = (nothing_kept, s)
  taken (some reader) s = take os reader s

  abbrev take_second :
      Result CommandError ExitStatus → Option PipeReader → KeptOutput × S → ProcessRun × S
  take_second status error (kept, s) =
      let (kept', s') = taken error s in
      (record { status = status; stdout = kept; stderr = kept' }, s')

  -- After the wait the buffers are taken, stdout first.
  abbrev pub take_both : Readers → Result CommandError ExitStatus × S → ProcessRun × S
  take_both (out, error) (status, s) = take_second status error (taken out s)

  abbrev pub taken_after :
      Readers
      → Option (Result CommandError ExitStatus × S)
      → Option (Result CommandError ProcessRun × S)
  taken_after readers none = none
  taken_after readers (some w) = let (run, s) = take_both readers w in some (ok run, s)

  abbrev pub after_spawn :
      Bytes → Result IoError (Bool × Bool) × S → Option (Result CommandError ProcessRun × S)
  after_spawn path (err e, s) = some (err (start_error path e), s)
  after_spawn path (ok pipes, s) =
      taken_after (readers_of pipes)
        (wait_for_exit os path fuel last exec.timeout deadline (readers_of pipes) s)

  -- On the wait's fuel: `none` when it is used up.
  unfoldable pub run_process : Bytes → S → Option (Result CommandError ProcessRun × S)
  unfolding wait_for_exit take
  run_process path s = after_spawn path (os.spawn path exec.arguments s)

  abbrev pub written :
      Bytes
      → Output t
      → Option (Result CommandError ProcessRun × S)
      → Option ((CommandResult × Output t) × S)
  written path output none = none
  written path output (some (err e, s)) = some ((err e, output), s)
  written path output (some (ok run, s)) = some (
    (
      verdict path run.status,
      Output.text t (Output.text t output (into_text run.stdout)) (into_text run.stderr),
    ),
    s,
  )

  abbrev pub run_whitelisted : Option Bytes → Output t → S → Option ((CommandResult × Output t) × S)
  run_whitelisted none output s =
      some (
        (err (Error.failed (codes "executable is not whitelisted: " ++ exec.executable)), output),
        s,
      )
  run_whitelisted (some path) output s = written path output (run_process path s)

  -- `whitelist` is the look up in `settings.exec_whitelist`.
  unfoldable pub run :
      (Bytes → Option Bytes) → Output t → S → Option ((CommandResult × Output t) × S)
  unfolding run_process
  run whitelist output s = run_whitelisted (whitelist exec.executable) output s
