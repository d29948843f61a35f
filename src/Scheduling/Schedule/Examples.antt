-- ===== src/Scheduling/Schedule/Examples.antt =====
-- Runs of inengine-core/src/scheduling on a sample parser.
use in_engine_net.Prelude.{
  ℕ, suc, ◌+◌, ◌<◌, ◌≡◌, refl, Bool, ◌==◌, none, some, List, [], ◌∷◌, ◌++◌, Bytes, bytes_eq, codes,
  Result, ok, err, if◌then◌else◌, arith,
}
use in_engine_net.Std.Text.{trim, NoNewline}
use in_engine_net.Command.{CommandResult}
use in_engine_net.Scheduling.Schedule
use in_engine_net.Scheduling.Schedule.{
  ScheduleError, invalid_cron, ScheduledJob, UnscheduledJob, cron, last_line, daily_at,
}
use in_engine_net.Scheduling.Schedule.Building.{
  Setting, set_timeout, set_ping_before, set_all, BuiltAs, set_all-BuiltAs, cron-invalid,
}
use in_engine_net.Scheduling.Scheduler.{cancelled, run_job}
use in_engine_net.Scheduling.Scheduler.Running.{decision, runs, run_job-runs}
use in_engine_net.Server.Lifecycle.{default_lifecycle}

-- Schedules are texts, and states count runs.
abbrev from_str : Bytes → Result Bytes Bytes
from_str expression =
    if bytes_eq expression (codes "soon")
    then err (codes "soon\n^\n no seconds ")
    else ok expression

abbrev unscheduled : UnscheduledJob ℕ
unscheduled = record { command = 7; name = codes "report" }

abbrev daily_job : ScheduledJob ℕ Bytes ℕ
daily_job = record {
  command = 7;
  name = codes "report";
  cron_expression = codes "0 30 6 * * *";
  cron_schedule = codes "0 30 6 * * *";
  lifecycle = default_lifecycle;
}

daily_parsed : cron ℕ from_str unscheduled (codes "0 30 6 * * *") ≡ ok daily_job
unfolding cron bytes_eq
daily_parsed = refl

-- `daily_at` writes the minutes before the hours.
daily_at_half_past_six : daily_at ℕ from_str unscheduled 6 30 ≡ ok daily_job
unfolding daily_at bytes_eq
daily_at_half_past_six = refl

abbrev settings : List (Setting ℕ)
settings = set_timeout 9_000 ∷ set_ping_before (codes "http://up") ∷ set_timeout 5_000 ∷ []

set_all-BuiltAs_example :
    BuiltAs ℕ from_str unscheduled (codes "0 30 6 * * *") settings (set_all settings daily_job)
set_all-BuiltAs_example =
    set_all-BuiltAs ℕ from_str unscheduled (codes "0 30 6 * * *") settings daily_job daily_parsed

-- The last limit counts.
last_timeout : (set_all settings daily_job).lifecycle.options.timeout ≡ some 5_000
unfolding Schedule.timeout Schedule.ping_before
last_timeout = refl

refused : from_str (codes "soon") ≡ err (codes "soon\n^" ++ b'\n' ∷ codes " no seconds ")
unfolding bytes_eq
refused = refl

one_line : NoNewline (b' ' ∷ codes "no seconds ")
one_line = (
  refl,
  (refl, (refl, (refl, (refl, (refl, (refl, (refl, (refl, (refl, (refl, (refl, tt))))))))))),
)

cron-invalid_example :
    cron ℕ from_str unscheduled (codes "soon")
    ≡ err (invalid_cron (codes "soon") (trim (codes " no seconds ")))
cron-invalid_example =
    cron-invalid ℕ from_str unscheduled (codes "soon") (codes "soon\n^") b' ' (codes "no seconds ")
      one_line refused

trimmed : trim (codes " no seconds ") ≡ codes "no seconds"
unfolding trim
trimmed = refl

-- The token fires in round 2.
abbrev fires : ℕ → ℕ → Bool
fires round duration = round == 2

abbrev counting : ScheduledJob ℕ Bytes ℕ → ℕ → CommandResult × ℕ
counting job s = (ok tt, suc s)

goes : (m : ℕ) → m < 2 → decision (some 60) (fires (0 + m)) ≡ none
goes m b = ground arith

run_job-runs_example : run_job (λ round schedule. some 60) fires counting 3 daily_job 0 10 ≡ (
  some (cancelled, (runs (λ round schedule. some 60) fires counting 2 daily_job 10).0),
  (runs (λ round schedule. some 60) fires counting 2 daily_job 10).1,
)
run_job-runs_example =
    run_job-runs (λ round schedule. some 60) fires counting 2 daily_job 0 10 cancelled goes refl
