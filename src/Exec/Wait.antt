-- ===== src/Exec/Wait.antt =====
-- `wait_limit`, `wait_for_exit` and `stop_child` of inengine-core/src/commands/exec/mod.rs. Times
-- are milliseconds. The log line of a failed kill is left out.
pub mod Ending
pub mod Reaping
use in_engine_net.Prelude.{
  ℕ, zero, suc, ◌+◌, ◌-◌, ◌*◌, ltb, leb, Bool, true, false, ◌&&◌, Option, none, some, Bytes, codes,
  ◌++◌, Result, ok, err, if◌then◌else◌,
}
use in_engine_net.Error.{IoError, CommandError, interrupted}
use in_engine_net.Error
use in_engine_net.Command.{CommandDeadline, as_secs}
use in_engine_net.Command
use in_engine_net.Exec.Process.{ExitStatus, Os, PipeReader, poll}

abbrev pub wait_poll_interval : ℕ
wait_poll_interval = 10

abbrev pub pipe_drain_limit : ℕ
pipe_drain_limit = 1000

pub record WaitLimit : Type 0 where
  pub at : ℕ
  pub seconds : ℕ

abbrev process_limit : ℕ → ℕ → ℕ → Option WaitLimit
process_limit last now timeout =
    if ltb 0 timeout
    then some (record { at = Command.instant_after last now (timeout * 1000); seconds = timeout })
    else none

abbrev context_limit : Option CommandDeadline → Option WaitLimit
context_limit none = none
context_limit (some deadline) =
    some (record { at = deadline.at; seconds = as_secs deadline.timeout })

abbrev earlier : Option WaitLimit → Option WaitLimit → Option WaitLimit
earlier (some process) (some context) =
    if ltb context.at process.at then some context else some process
earlier (some process) none = some process
earlier none context = context

unfoldable pub wait_limit : ℕ → ℕ → ℕ → Option CommandDeadline → Option WaitLimit
wait_limit last now timeout deadline =
    earlier (process_limit last now timeout) (context_limit deadline)

-- The status and when it was seen.
abbrev pub Exit : Type 0
Exit = Option (ExitStatus × ℕ)

abbrev pub Readers : Type 0
Readers = Option PipeReader × Option PipeReader

-- How the loop ended, and whether the child had exited.
abbrev pub Waited : Type 0
Waited = Result CommandError ExitStatus × Bool

abbrev pub has_exited : Exit → Bool
has_exited none = false
has_exited (some e) = true

module _ {S : Type 0} (os : Os S) (path : Bytes) where
  abbrev pub Rest : Type 0
  Rest = S → Option (Waited × S)

  abbrev seen_at : ExitStatus → ℕ × S → Exit × S
  seen_at status (t, s) = (some (status, t), s)

  abbrev pub after_try :
      Result IoError (Option ExitStatus) × S
      → (Exit → S → Option (Waited × S))
      → Option (Waited × S)
  after_try (err e, s) rest =
      some ((err (Error.failed (codes "could not wait for " ++ path)), false), s)
  after_try (ok none, s) rest = rest none s
  after_try (ok (some status), s) rest = let seen = seen_at status (os.now s) in rest seen.0 seen.1

  abbrev pub try_exit : Exit → S → (Exit → S → Option (Waited × S)) → Option (Waited × S)
  try_exit (some e) s rest = rest (some e) s
  try_exit none s rest = after_try (os.try_wait s) rest

  abbrev kept_reader :
      (Result IoError Bool × PipeReader) × S → (Result IoError Bool × Option PipeReader) × S
  kept_reader ((polled, reader), s) = ((polled, some reader), s)

  abbrev pub poll_one : Option PipeReader → S → (Result IoError Bool × Option PipeReader) × S
  poll_one none s = ((ok true, none), s)
  poll_one (some reader) s = kept_reader (poll os reader s)

  abbrev pub both :
      Bool
      → Option PipeReader
      → (Result IoError Bool × Option PipeReader) × S
      → (Result IoError Bool × Readers) × S
  both done first ((ok done', second), s) = ((ok (done && done'), (first, second)), s)
  both done first ((err e, second), s) = ((err e, (first, second)), s)

  -- The first error ends the polling.
  abbrev pub and_second :
      Option PipeReader
      → (Result IoError Bool × Option PipeReader) × S
      → (Result IoError Bool × Readers) × S
  and_second second ((err e, first), s) = ((err e, (first, second)), s)
  and_second second ((ok done, first), s) = both done first (poll_one second s)

  unfoldable pub poll_readers : Readers → S → (Result IoError Bool × Readers) × S
  unfolding poll
  poll_readers (first, second) s = and_second second (poll_one first s)

  abbrev pub after_poll :
      Bool
      → (Result IoError Bool × Readers) × S
      → (Bool → Readers → S → Option (Waited × S))
      → Option (Waited × S)
  after_poll exited ((err e, readers), s) rest =
      some ((err (Error.failed (codes "could not read the output of " ++ path)), exited), s)
  after_poll exited ((ok drained, readers), s) rest = rest drained readers s

  abbrev pub since : ExitStatus → ℕ → ℕ × S → Rest → Option (Waited × S)
  since status exited_at (t, s) rest =
      if leb pipe_drain_limit (t - exited_at) then some ((ok status, true), s) else rest s

  abbrev pub check_exit : Exit → Bool → S → Rest → Option (Waited × S)
  check_exit none drained s rest = rest s
  check_exit (some (status, exited_at)) true s rest = some ((ok status, true), s)
  check_exit (some (status, exited_at)) false s rest = since status exited_at (os.now s) rest

  abbrev pub check_cancel : Bool → Bool × S → Rest → Option (Waited × S)
  check_cancel exited (true, s) rest = some ((err interrupted, exited), s)
  check_cancel exited (false, s) rest = rest s

  abbrev pub past : Bool → WaitLimit → ℕ × S → Rest → Option (Waited × S)
  past exited limit (t, s) rest =
      if leb limit.at t then some ((err (Error.timeout limit.seconds), exited), s) else rest s

  abbrev pub check_limit : Bool → Option WaitLimit → S → Rest → Option (Waited × S)
  check_limit exited none s rest = rest s
  check_limit exited (some limit) s rest = past exited limit (os.now s) rest

  -- What a round does after the look at the child.
  abbrev pub round : Option WaitLimit → Readers → (Exit → Readers → Rest) → Exit → Rest
  round limit readers next exit s =
      after_poll (has_exited exit) (poll_readers readers s) (λ drained readers' s1.
        check_exit exit drained s1 (λ s2. check_cancel (has_exited exit) (os.is_cancelled s2) (λ s3.
          check_limit (has_exited exit) limit s3
            (λ s4. next exit readers' (os.sleep wait_poll_interval s4)))))

  -- The loop, on fuel: `none` when the fuel is used up.
  unfoldable pub wait_loop : ℕ → Option WaitLimit → Exit → Readers → Rest
  unfolding poll_readers
  wait_loop zero limit exit readers s = none
  wait_loop (suc fuel) limit exit readers s =
      try_exit exit s
        (round limit readers (λ exit' readers' s'. wait_loop fuel limit exit' readers' s'))

  -- The wait's own result is dropped.
  abbrev pub after_wait : Option (Result IoError ExitStatus × S) → Option S
  after_wait none = none
  after_wait (some (r, s)) = some s

  unfoldable pub stop_child : Bool → S → Option S
  stop_child true s = some s
  stop_child false s = after_wait (os.wait (os.kill s).1)

  abbrev pub failed_with : CommandError → Option S → Option (Result CommandError ExitStatus × S)
  failed_with e none = none
  failed_with e (some s) = some (err e, s)

  abbrev pub stopped : Waited × S → Option (Result CommandError ExitStatus × S)
  stopped ((ok status, exited), s) = some (ok status, s)
  stopped ((err e, exited), s) = failed_with e (stop_child exited s)

  abbrev pub stop_waited : Option (Waited × S) → Option (Result CommandError ExitStatus × S)
  stop_waited none = none
  stop_waited (some w) = stopped w

  -- The clock is read for the process timeout only.
  abbrev limit_from : ℕ → ℕ → Option CommandDeadline → ℕ × S → Option WaitLimit × S
  limit_from last timeout deadline (now, s) = (wait_limit last now timeout deadline, s)

  unfoldable pub find_limit : ℕ → ℕ → Option CommandDeadline → S → Option WaitLimit × S
  unfolding wait_limit
  find_limit last timeout deadline s =
      if ltb 0 timeout
      then limit_from last timeout deadline (os.now s)
      else (wait_limit last 0 timeout deadline, s)

  -- `none` when the fuel is used up, or the wait for a child that was not killed never returns.
  -- `last` is the last instant of the clock, `timeout` the command's own limit in seconds.
  unfoldable pub wait_for_exit :
      ℕ → ℕ → ℕ → Option CommandDeadline → Readers → S → Option (Result CommandError ExitStatus × S)
  unfolding find_limit wait_loop stop_child
  wait_for_exit fuel last timeout deadline readers s =
      let found = find_limit last timeout deadline s in
      stop_waited (wait_loop fuel found.0 none readers found.1)
