-- ===== src/Exec/Run/Examples.antt =====
-- Runs of the exec command of inengine-core/src/commands/exec/mod.rs on a sample system.
use in_engine_net.Prelude.{
  ◌≡◌, inr, refl, Option, none, some, [], ◌∷◌, Bytes, bytes_eq, codes, ok, if◌then◌else◌, arith,
  true, false,
}
use in_engine_net.Std.Utf8.{is_utf8}
use in_engine_net.Output
use in_engine_net.Output.{Output}
use in_engine_net.Output.Examples.{terminal}
use in_engine_net.Command
use in_engine_net.Command.{CommandDeadline}
use in_engine_net.Exec.Pipe
use in_engine_net.Exec.Pipe.{into_text}
use in_engine_net.Exec.Process.{stdout, stderr}
use in_engine_net.Exec.Wait.{
  WaitLimit, Waited, Readers, find_limit, wait_limit, wait_loop, wait_for_exit,
}
use in_engine_net.Exec.Wait.Ending.{wait_loop-Ends}
use in_engine_net.Exec.Wait.Reaping.{Reaps, wait_for_exit-Reaps}
use in_engine_net.Exec.Run.{Exec, run}
use in_engine_net.Exec.Run.Outcome.{Succeeded, run_ok}
use in_engine_net.Exec.Sample.{Now, os, time, Killed, Reaped, os-IsClock, os-IsChild, exited}

abbrev exec : Exec
exec = record { executable = codes "make"; arguments = codes "-s" ∷ []; timeout = 5 }

abbrev whitelist : Bytes → Option Bytes
whitelist name = if bytes_eq name (codes "make") then some (codes "/usr/bin/make") else none

abbrev readers : Readers
readers =
    (some (record { pipe = stdout; done = false }), some (record { pipe = stderr; done = false }))

-- The context's deadline is before the command's own limit of 5 seconds.
abbrev deadline : CommandDeadline
deadline = record { at = 3_000; timeout = 3_000 }

abbrev limit : WaitLimit
limit = record { at = 3_000; seconds = 3 }

limit_found :
    (find_limit (os true) (codes "/usr/bin/make") 1_000_000 5 (some deadline) (0, false)).0
    ≡ some limit
unfolding find_limit wait_limit Command.instant_after
limit_found = refl

started_at :
    (find_limit (os true) (codes "/usr/bin/make") 1_000_000 5 (some deadline) (0, false)).1
    ≡ (1, false)
unfolding find_limit
started_at = refl

wait_for_exit-Reaps_example :
    Reaps
      (os true)
      (codes "/usr/bin/make")
      Killed
      Reaped
      (os-IsChild true)
      (wait_loop
        (os true)
        (codes "/usr/bin/make")
        301
        (find_limit (os true) (codes "/usr/bin/make") 1_000_000 5 (some deadline) (0, false)).0
        none
        readers
        (find_limit (os true) (codes "/usr/bin/make") 1_000_000 5 (some deadline) (0, false)).1)
      (wait_for_exit
        (os true)
        (codes "/usr/bin/make")
        301
        1_000_000
        5
        (some deadline)
        readers
        (0, false))
wait_for_exit-Reaps_example =
    wait_for_exit-Reaps (os true) (codes "/usr/bin/make") Killed Reaped (os-IsChild true) time
      (os-IsClock true) 300 1_000_000 5 (some deadline) readers (0, false) limit limit_found
      (rw started_at (omega arith))

-- The exit was seen at 25 ms, and a background process holds standard error.
wait_loop-Ends_example :
    (out : Waited × Now) × (wait_loop
        (os true)
        (codes "/usr/bin/make")
        101
        none
        (some (exited, 25))
        readers
        (30, true)
      ≡ some out)
wait_loop-Ends_example =
    wait_loop-Ends (os true) (codes "/usr/bin/make") time (os-IsClock true) 100 none
      (some (exited, 25)) readers 1_025 (30, true) (inr (omega arith)) (omega arith)

abbrev written : Output terminal
written =
    Output.text terminal (Output.text terminal (Output.new terminal false) (codes "built\n"))
      (codes "warned\n")

makes :
    run terminal (os false) 10 1_000_000 none exec whitelist (Output.new terminal false) (0, false)
    ≡ some ((ok tt, written), (35, true))
unfolding run Output.text bytes_eq into_text is_utf8 Command.instant_after Pipe.take_kept Pipe.push
    Pipe.new Output.new
makes = refl

run_ok_example :
    (path : Bytes) × (whitelist (codes "make") ≡ some path)
    × Succeeded terminal
        (os false)
        10
        1_000_000
        none
        exec
        path
        (0, false)
        (Output.new terminal false)
        written
        (35, true)
run_ok_example =
    run_ok terminal (os false) 10 1_000_000 none exec whitelist (Output.new terminal false) written
      (0, false) (35, true) makes
