-- ===== src/Scheduling/Scheduler.antt =====
-- inengine-core/src/scheduling/scheduler.rs: the loop of one job. Each job has a task of its own.
pub mod Running
use in_engine_net.Prelude.{
  ℕ, zero, suc, ◌+◌, Bool, true, false, Option, none, some, List, [], ◌∷◌, Result, ok, err,
  if◌then◌else◌,
}
use in_engine_net.Command.{CommandResult}
use in_engine_net.Scheduling.Schedule.{ScheduledJob}

-- Why the task ended.
pub data Stopped : Type 0 where
  no_upcoming : Stopped
  cancelled : Stopped

module _ {C K S : Type 0} where
  -- What the cron crate and the clock say in round `n`: the time up to the next run, if there is
  -- one; whether the token fires before it; and the run with its lifecycle.
  module _ (upcoming : ℕ → K → Option ℕ) (fires : ℕ → ℕ → Bool)
      (run_with_lifecycle : ScheduledJob C K S → S → CommandResult × S) where
    abbrev pub Ended : Type 0
    Ended = Option (Stopped × List CommandResult) × S

    abbrev log : CommandResult → Ended → Ended
    log result (none, s) = (none, s)
    log result (some (stopped, results), s) = (some (stopped, result ∷ results), s)

    abbrev pub after_run : CommandResult × S → (S → Ended) → Ended
    after_run (result, s) rest = log result (rest s)

    abbrev pub wait_and_run : ScheduledJob C K S → ℕ → Option ℕ → S → (S → Ended) → Ended
    wait_and_run job round none s rest = (some (no_upcoming, []), s)
    wait_and_run job round (some duration) s rest =
        if fires round duration
        then (some (cancelled, []), s)
        else after_run (run_with_lifecycle job s) rest

    -- The loop, on fuel, with the results that it logs in order.
    unfoldable pub run_job : ℕ → ScheduledJob C K S → ℕ → S → Ended
    run_job zero job round s = (none, s)
    run_job (suc fuel) job round s =
        wait_and_run job round (upcoming round job.cron_schedule) s
          (λ s'. run_job fuel job (round + 1) s')
