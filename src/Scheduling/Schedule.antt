-- ===== src/Scheduling/Schedule.antt =====
-- inengine-core/src/scheduling/schedule.rs. The cron crate is a parameter: its parser, with the
-- text of its errors, and the schedules that it makes. A command is any type with a name.
pub mod Building
mod Examples
use in_engine_net.Prelude.{
  ℕ, Option, none, some, List, [], ◌∷◌, ◌++◌, Bytes, codes, Result, ok, err,
}
use in_engine_net.Std.Text.{last_line_or_all, trim}
use in_engine_net.Exec.Pipe.{decimal}
use in_engine_net.Server.Lifecycle.{CommandLifecycle, default_lifecycle}

pub data ScheduleError : Type 0 where
  invalid_cron : Bytes → Bytes → ScheduleError

unfoldable pub last_line : Bytes → Bytes
unfolding last_line_or_all trim
last_line message = trim (last_line_or_all message)

-- `C` is the type of commands, `K` that of parsed schedules, `S` the state that hooks change.
pub record ScheduledJob (C K S : Type 0) : Type 0 where
  pub command : C
  pub name : Bytes
  pub cron_expression : Bytes
  pub cron_schedule : K
  pub lifecycle : CommandLifecycle S

pub record UnscheduledJob (C : Type 0) : Type 0 where
  pub command : C
  pub name : Bytes

pub record Schedule (C K S : Type 0) : Type 0 where
  pub jobs : List (ScheduledJob C K S)

module _ {C K S : Type 0} where
  unfoldable pub ping_before : ScheduledJob C K S → Bytes → ScheduledJob C K S
  ping_before job url = record job {
    lifecycle = record job.lifecycle {
      options = record job.lifecycle.options { ping_before_url = some url };
    };
  }

  unfoldable pub ping_after : ScheduledJob C K S → Bytes → ScheduledJob C K S
  ping_after job url = record job {
    lifecycle = record job.lifecycle {
      options = record job.lifecycle.options { ping_after_url = some url };
    };
  }

  unfoldable pub write_output_to : ScheduledJob C K S → Bytes → ScheduledJob C K S
  write_output_to job path = record job {
    lifecycle = record job.lifecycle {
      options = record job.lifecycle.options { write_output_to = some path };
    };
  }

  unfoldable pub append_output_to : ScheduledJob C K S → Bytes → ScheduledJob C K S
  append_output_to job path = record job {
    lifecycle = record job.lifecycle {
      options = record job.lifecycle.options { append_output_to = some path };
    };
  }

  unfoldable pub email_output_to : ScheduledJob C K S → Bytes → ScheduledJob C K S
  email_output_to job address = record job {
    lifecycle = record job.lifecycle {
      options = record job.lifecycle.options { email_output_to = some address };
    };
  }

  unfoldable pub timeout : ScheduledJob C K S → ℕ → ScheduledJob C K S
  timeout job limit = record job {
    lifecycle = record job.lifecycle {
      options = record job.lifecycle.options { timeout = some limit };
    };
  }

  unfoldable pub before_run : ScheduledJob C K S → (S → S) → ScheduledJob C K S
  before_run job hook = record job {
    lifecycle = record job.lifecycle {
      hooks = record job.lifecycle.hooks { before_run = some hook };
    };
  }

  unfoldable pub after_run : ScheduledJob C K S → (S → S) → ScheduledJob C K S
  after_run job hook = record job {
    lifecycle = record job.lifecycle {
      hooks = record job.lifecycle.hooks { after_run = some hook };
    };
  }

  unfoldable pub new : Schedule C K S
  new = record { jobs = [] }

  unfoldable pub command_with_name : Schedule C K S → Bytes → C → UnscheduledJob C
  command_with_name schedule name command = record { command = command; name = name }

  -- `name_of` is the command's `name`.
  unfoldable pub command : (C → Bytes) → Schedule C K S → C → UnscheduledJob C
  unfolding command_with_name
  command name_of schedule cmd = command_with_name schedule (name_of cmd) cmd

  -- `chain` makes the chain of the commands.
  unfoldable pub commands : (List C → C) → Schedule C K S → List C → UnscheduledJob C
  unfolding command_with_name
  commands chain schedule cmds = command_with_name schedule (codes "chain") (chain cmds)

  unfoldable pub add : Schedule C K S → ScheduledJob C K S → Schedule C K S
  add schedule job = record { jobs = schedule.jobs ++ job ∷ [] }

  unfoldable pub jobs : Schedule C K S → List (ScheduledJob C K S)
  jobs schedule = schedule.jobs

  unfoldable pub into_jobs : Schedule C K S → List (ScheduledJob C K S)
  into_jobs schedule = schedule.jobs

-- The parser of the cron crate, with the text of its error.
module _ {C K : Type 0} (S : Type 0) (from_str : Bytes → Result Bytes K) where
  abbrev pub parsed :
      UnscheduledJob C → Bytes → Result Bytes K → Result ScheduleError (ScheduledJob C K S)
  parsed job expression (err message) = err (invalid_cron expression (last_line message))
  parsed job expression (ok schedule) = ok (record {
    command = job.command;
    name = job.name;
    cron_expression = expression;
    cron_schedule = schedule;
    lifecycle = default_lifecycle;
  })

  unfoldable pub cron : UnscheduledJob C → Bytes → Result ScheduleError (ScheduledJob C K S)
  unfolding last_line
  cron job expression = parsed job expression (from_str expression)

  unfoldable pub every_second : UnscheduledJob C → Result ScheduleError (ScheduledJob C K S)
  unfolding cron
  every_second job = cron job (codes "* * * * * *")

  unfoldable pub every_minute : UnscheduledJob C → Result ScheduleError (ScheduledJob C K S)
  unfolding cron
  every_minute job = cron job (codes "0 * * * * *")

  unfoldable pub every_five_minutes : UnscheduledJob C → Result ScheduleError (ScheduledJob C K S)
  unfolding cron
  every_five_minutes job = cron job (codes "0 */5 * * * *")

  unfoldable pub every_ten_minutes : UnscheduledJob C → Result ScheduleError (ScheduledJob C K S)
  unfolding cron
  every_ten_minutes job = cron job (codes "0 */10 * * * *")

  unfoldable pub every_fifteen_minutes :
      UnscheduledJob C → Result ScheduleError (ScheduledJob C K S)
  unfolding cron
  every_fifteen_minutes job = cron job (codes "0 */15 * * * *")

  unfoldable pub every_thirty_minutes : UnscheduledJob C → Result ScheduleError (ScheduledJob C K S)
  unfolding cron
  every_thirty_minutes job = cron job (codes "0 */30 * * * *")

  unfoldable pub hourly : UnscheduledJob C → Result ScheduleError (ScheduledJob C K S)
  unfolding cron
  hourly job = cron job (codes "0 0 * * * *")

  -- A `u32` has 10 digits at most.
  unfoldable pub hourly_at : UnscheduledJob C → ℕ → Result ScheduleError (ScheduledJob C K S)
  unfolding cron decimal
  hourly_at job minutes = cron job (codes "0 " ++ decimal 20 minutes ++ codes " * * * *")

  unfoldable pub daily : UnscheduledJob C → Result ScheduleError (ScheduledJob C K S)
  unfolding cron
  daily job = cron job (codes "0 0 0 * * *")

  unfoldable pub daily_at : UnscheduledJob C → ℕ → ℕ → Result ScheduleError (ScheduledJob C K S)
  unfolding cron decimal
  daily_at job hours minutes =
      cron job (codes "0 " ++ decimal 20 minutes ++ codes " " ++ decimal 20 hours ++ codes " * * *")
