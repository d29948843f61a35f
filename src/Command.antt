-- ===== src/Command.antt =====
-- inengine-core/src/command.rs: a command's context, its deadline, and the run on a thread that
-- may block. Times are milliseconds; an `Instant` is one counted from the start of the clock, and
-- the last one that can be represented is a parameter.
pub mod Blocking
mod Examples
use in_engine_net.Prelude.{
  ℕ, ◌+◌, ◌*◌, ◌/◌, Bool, true, false, Option, none, some, Bytes, codes, Result, ok, err,
  if◌then◌else◌, leb, max,
}
use in_engine_net.Error.{CommandError, interrupted}
use in_engine_net.Error

abbrev pub CommandResult : Type 0
CommandResult = Result CommandError (Unit {0})

abbrev pub enforcement_grace : ℕ
enforcement_grace = 1000

pub record CommandDeadline : Type 0 where
  pub at : ℕ
  pub timeout : ℕ

-- `Duration::as_secs`
abbrev pub as_secs : ℕ → ℕ
as_secs d = d / 1000

abbrev pub far_future : ℕ
far_future = 100 * 365 * 24 * 60 * 60 * 1000

abbrev pub checked_add : ℕ → ℕ → ℕ → Option ℕ
checked_add last now d = if leb (now + d) last then some (now + d) else none

abbrev later : ℕ → Option ℕ → Option ℕ → ℕ
later now (some t) second = t
later now none (some t) = t
later now none none = now

unfoldable pub instant_after : ℕ → ℕ → ℕ → ℕ
instant_after last now duration =
    later now (checked_add last now duration) (checked_add last now far_future)

unfoldable pub after : ℕ → ℕ → ℕ → CommandDeadline
unfolding instant_after
after last now timeout = record { at = instant_after last now timeout; timeout = timeout }

-- The output, the settings and the token are other components'.
pub record CommandContext (Output Settings Token : Type 0) : Type 0 where
  pub output : Output
  pub settings : Settings
  pub deadline : Option CommandDeadline
  pub cancel : Token

unfoldable pub new :
    {Output Settings Token : Type 0}
    → Token
    → Output
    → Settings
    → CommandContext Output Settings Token
new unfired output settings = record {
  output = output;
  settings = settings;
  deadline = none;
  cancel = unfired;
}

unfoldable pub with_deadline :
    {Output Settings Token : Type 0}
    → CommandContext Output Settings Token
    → CommandDeadline
    → CommandContext Output Settings Token
with_deadline ctx deadline = record ctx { deadline = some deadline }

unfoldable pub with_cancel :
    {Output Settings Token : Type 0}
    → CommandContext Output Settings Token
    → Token
    → CommandContext Output Settings Token
with_cancel ctx cancel = record ctx { cancel = cancel }

-- A `JoinError` of the runtime: the task was cancelled, or it panicked.
pub data JoinError : Type 0 where
  cancelled : JoinError
  panic : JoinError

pub data RunBlockingError : Type 0 where
  panicked : JoinError → RunBlockingError
  deadline_ignored : ℕ → RunBlockingError

-- `impl From<RunBlockingError> for CommandError`
unfoldable pub from_run_blocking : RunBlockingError → CommandError
from_run_blocking (panicked cancelled) = interrupted
from_run_blocking (panicked panic) = Error.failed (codes "the command panicked")
from_run_blocking (deadline_ignored seconds) = Error.timeout seconds

-- A blocking task: how long it runs, if it ends, and its result with the text that it wrote.
pub record Task : Type 0 where
  pub lasts : Option ℕ
  pub joined : Result JoinError (CommandResult × Bytes)

abbrev pub Returned : Type 0
Returned = Result RunBlockingError (CommandResult × Bytes)

abbrev pub joined : Result JoinError (CommandResult × Bytes) → Returned
joined (ok answer) = ok answer
joined (err e) = err (panicked e)

abbrev when_ended : ℕ → Option ℕ → Returned → Option (ℕ × Returned)
when_ended now none answer = none
when_ended now (some d) answer = some (now + d, answer)

-- `timeout_at` of the runtime, called at `now`: the time limit is `at`, or the call when that is
-- later, and a task that has ended by then is answered for.
abbrev pub timeout_at : ℕ → ℕ → ℕ → Option ℕ → Returned → ℕ × Returned
timeout_at now at seconds none answer = (max now at, err (deadline_ignored seconds))
timeout_at now at seconds (some d) answer =
    if leb (now + d) (max now at)
    then (now + d, answer)
    else (max now at, err (deadline_ignored seconds))

abbrev wait_until : ℕ → Option ℕ → ℕ → Task → Option (ℕ × Returned)
wait_until now none seconds task = when_ended now task.lasts (joined task.joined)
wait_until now (some at) seconds task =
    some (timeout_at now at seconds task.lasts (joined task.joined))

-- When the call made at `now` returns, if it does, and what.
unfoldable pub run_blocking : ℕ → ℕ → Option CommandDeadline → Task → Option (ℕ × Returned)
run_blocking last now none task = wait_until now none 0 task
run_blocking last now (some deadline) task =
    wait_until now (checked_add last deadline.at enforcement_grace) (as_secs deadline.timeout) task
