-- ===== src/Command/Examples.antt =====
-- Runs of inengine-core/src/command.rs.
use in_engine_net.Prelude.{◌≡◌, refl, some, none, ok, err, arith, codes}
use in_engine_net.Command.{CommandDeadline, Task, deadline_ignored, joined, run_blocking}
use in_engine_net.Command.Blocking.{AnsweredBy, run_blocking_returns}

abbrev deadline : CommandDeadline
deadline = record { at = 5_000; timeout = 3_500 }

abbrev slow_task : Task
slow_task = record { lasts = some 4_001; joined = ok (ok tt, codes "done") }

run_blocking_returns_example :
    AnsweredBy 2_000 6_000 3
      (some 4_001)
      (joined slow_task.joined)
      (run_blocking 100_000 2_000 (some deadline) slow_task)
run_blocking_returns_example = run_blocking_returns 100_000 2_000 deadline slow_task (omega arith)

-- The slow task is given up with its limit of 3 seconds.
gives_up :
    run_blocking 100_000 2_000 (some deadline) slow_task ≡ some (6_000, err (deadline_ignored 3))
unfolding run_blocking
gives_up = refl

-- A call after the deadline's second gives a running task up at once.
gives_up_late :
    run_blocking 100_000 7_000 (some deadline) slow_task ≡ some (7_000, err (deadline_ignored 3))
unfolding run_blocking
gives_up_late = refl

-- A task of no deadline is waited for.
waits : run_blocking 100_000 2_000 none slow_task ≡ some (6_001, ok (ok tt, codes "done"))
unfolding run_blocking
waits = refl
