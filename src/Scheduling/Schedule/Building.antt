-- ===== src/Scheduling/Schedule/Building.antt =====
-- The jobs that inengine-core/src/scheduling/schedule.rs can build.
use in_engine_net.Prelude.{
  ℕ, ◌≡◌, refl, ap, ◌∙◌, Option, none, some, List, [], ◌∷◌, ◌++◌, Bytes, Result, ok, err,
}
use mathlib.Core.Path.{subst}
use in_engine_net.Std.Text.{trim, NoNewline, last_line_or_all-append}
use in_engine_net.Server.Lifecycle.{CommandLifecycle}
use in_engine_net.Scheduling.Schedule
use in_engine_net.Scheduling.Schedule.{
  ScheduleError, invalid_cron, ScheduledJob, UnscheduledJob, last_line, parsed, cron,
}

-- A setter of a job, with its value.
pub data Setting (S : Type 0) : Type 0 where
  set_ping_before : Bytes → Setting S
  set_ping_after : Bytes → Setting S
  set_write_output_to : Bytes → Setting S
  set_append_output_to : Bytes → Setting S
  set_email_output_to : Bytes → Setting S
  set_timeout : ℕ → Setting S
  set_before_run : (S → S) → Setting S
  set_after_run : (S → S) → Setting S

abbrev or_else : {A : Type 0} → Option A → Option A → Option A
or_else none a = a
or_else (some b) a = some b

-- What a setting gives each option and hook.
module _ {S : Type 0} where
  abbrev pub ping_before_of : Setting S → Option Bytes
  ping_before_of (set_ping_before url) = some url
  ping_before_of _ = none

  abbrev pub ping_after_of : Setting S → Option Bytes
  ping_after_of (set_ping_after url) = some url
  ping_after_of _ = none

  abbrev pub write_output_of : Setting S → Option Bytes
  write_output_of (set_write_output_to p) = some p
  write_output_of _ = none

  abbrev pub append_output_of : Setting S → Option Bytes
  append_output_of (set_append_output_to p) = some p
  append_output_of _ = none

  abbrev pub email_output_of : Setting S → Option Bytes
  email_output_of (set_email_output_to address) = some address
  email_output_of _ = none

  abbrev pub timeout_of : Setting S → Option ℕ
  timeout_of (set_timeout limit) = some limit
  timeout_of _ = none

  abbrev pub before_run_of : Setting S → Option (S → S)
  before_run_of (set_before_run hook) = some hook
  before_run_of _ = none

  abbrev pub after_run_of : Setting S → Option (S → S)
  after_run_of (set_after_run hook) = some hook
  after_run_of _ = none

  -- The last value that some settings give, or the one from before them.
  abbrev pub last_of :
      {A : Type 0} → (Setting S → Option A) → List (Setting S) → Option A → Option A
  last_of f [] a = a
  last_of f (x ∷ xs) a = last_of f xs (or_else (f x) a)

  abbrev pub settled : List (Setting S) → CommandLifecycle S → CommandLifecycle S
  settled xs l = record {
    options = record {
      ping_before_url = last_of ping_before_of xs l.options.ping_before_url;
      ping_after_url = last_of ping_after_of xs l.options.ping_after_url;
      write_output_to = last_of write_output_of xs l.options.write_output_to;
      append_output_to = last_of append_output_of xs l.options.append_output_to;
      email_output_to = last_of email_output_of xs l.options.email_output_to;
      timeout = last_of timeout_of xs l.options.timeout;
    };
    hooks = record {
      before_run = last_of before_run_of xs l.hooks.before_run;
      after_run = last_of after_run_of xs l.hooks.after_run;
    };
  }

module _ {C K S : Type 0} where
  -- The calls of the setters, one after the other.
  abbrev pub set_all : List (Setting S) → ScheduledJob C K S → ScheduledJob C K S
  set_all [] job = job
  set_all (set_ping_before url ∷ xs) job = set_all xs (Schedule.ping_before job url)
  set_all (set_ping_after url ∷ xs) job = set_all xs (Schedule.ping_after job url)
  set_all (set_write_output_to p ∷ xs) job = set_all xs (Schedule.write_output_to job p)
  set_all (set_append_output_to p ∷ xs) job = set_all xs (Schedule.append_output_to job p)
  set_all (set_email_output_to a ∷ xs) job = set_all xs (Schedule.email_output_to job a)
  set_all (set_timeout limit ∷ xs) job = set_all xs (Schedule.timeout job limit)
  set_all (set_before_run hook ∷ xs) job = set_all xs (Schedule.before_run job hook)
  set_all (set_after_run hook ∷ xs) job = set_all xs (Schedule.after_run job hook)

  set_all-settled :
      (xs : List (Setting S)) (job : ScheduledJob C K S)
      → set_all xs job ≡ record job { lifecycle = settled xs job.lifecycle }
  unfolding Schedule.ping_before Schedule.ping_after Schedule.write_output_to
      Schedule.append_output_to Schedule.email_output_to Schedule.timeout Schedule.before_run
      Schedule.after_run
  set_all-settled [] job = refl
  set_all-settled (set_ping_before url ∷ xs) job = set_all-settled xs (Schedule.ping_before job url)
  set_all-settled (set_ping_after url ∷ xs) job = set_all-settled xs (Schedule.ping_after job url)
  set_all-settled (set_write_output_to p ∷ xs) job =
      set_all-settled xs (Schedule.write_output_to job p)
  set_all-settled (set_append_output_to p ∷ xs) job =
      set_all-settled xs (Schedule.append_output_to job p)
  set_all-settled (set_email_output_to a ∷ xs) job =
      set_all-settled xs (Schedule.email_output_to job a)
  set_all-settled (set_timeout limit ∷ xs) job = set_all-settled xs (Schedule.timeout job limit)
  set_all-settled (set_before_run hook ∷ xs) job = set_all-settled xs (Schedule.before_run job hook)
  set_all-settled (set_after_run hook ∷ xs) job = set_all-settled xs (Schedule.after_run job hook)

module _ {C K : Type 0} (S : Type 0) (from_str : Bytes → Result Bytes K) where
  -- The job of an unscheduled one, an expression and some settings.
  abbrev pub BuiltAs : UnscheduledJob C → Bytes → List (Setting S) → ScheduledJob C K S → Type 0
  BuiltAs u expression xs job =
      (k : K) × (from_str expression ≡ ok k)
      × (job ≡ record {
        command = u.command;
        name = u.name;
        cron_expression = expression;
        cron_schedule = k;
        lifecycle = settled xs (record {
          options = record {
            ping_before_url = none;
            ping_after_url = none;
            write_output_to = none;
            append_output_to = none;
            email_output_to = none;
            timeout = none;
          };
          hooks = record { before_run = none; after_run = none };
        });
      })

  abbrev WhenOk : (ScheduledJob C K S → Type 0) → Result ScheduleError (ScheduledJob C K S) → Type 0
  WhenOk P (ok job) = P job
  WhenOk P (err e) = Unit {0}

  parsed-BuiltAs :
      (u : UnscheduledJob C) (expression : Bytes) (xs : List (Setting S)) (r : Result Bytes K)
      → from_str expression ≡ r
      → WhenOk (λ job. BuiltAs u expression xs (set_all xs job)) (parsed S from_str u expression r)
  parsed-BuiltAs u expression xs (ok k) e = (k, e, set_all-settled xs _)
  parsed-BuiltAs u expression xs (err message) e = tt

  -- A job that a cron expression gave, after any calls of its setters in any order, has the command
  -- and the name that it was made of, the expression and its parsed form, and in each option and
  -- hook the last value that it was set to, or none.
  pub set_all-BuiltAs :
      (u : UnscheduledJob C) (expression : Bytes) (xs : List (Setting S)) (job : ScheduledJob C K S)
      → cron S from_str u expression ≡ ok job
      → BuiltAs u expression xs (set_all xs job)
  unfolding cron
  set_all-BuiltAs u expression xs job e =
      subst (WhenOk (λ job. BuiltAs u expression xs (set_all xs job))) e
        (parsed-BuiltAs u expression xs (from_str expression) refl)

  -- The error for an expression that does not parse shows the expression and, of the parser's
  -- message, what comes after its last newline, trimmed, when that is not empty.
  pub cron-invalid :
      (u : UnscheduledJob C) (expression before : Bytes) (b : ℕ) (line : Bytes)
      → NoNewline (b ∷ line)
      → from_str expression ≡ err (before ++ b'\n' ∷ b ∷ line)
      → cron S from_str u expression ≡ err (invalid_cron expression (trim (b ∷ line)))
  unfolding cron last_line
  cron-invalid u expression before b line one e =
      ap (parsed S from_str u expression) e
      ∙ ap (λ l. err (invalid_cron expression (trim l))) (last_line_or_all-append before b line one)
