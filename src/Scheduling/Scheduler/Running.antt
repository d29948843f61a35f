-- ===== src/Scheduling/Scheduler/Running.antt =====
-- How often the loop of inengine-core/src/scheduling/scheduler.rs runs a job.
use in_engine_net.Prelude.{
  ℕ, zero, suc, ◌+◌, ◌<◌, ◌≡◌, refl, ap, ◌∙◌, Bool, Bool-cases, inl, inr, Option, none, some, List,
  [], ◌∷◌, if◌then◌else◌, arith,
}
use in_engine_net.Command.{CommandResult}
use in_engine_net.Scheduling.Schedule.{ScheduledJob}
use in_engine_net.Scheduling.Scheduler.{
  Stopped, no_upcoming, cancelled, after_run, wait_and_run, run_job,
}

-- What a round does: nothing when it runs the command.
abbrev pub decision : Option ℕ → (ℕ → Bool) → Option Stopped
decision none fires = some no_upcoming
decision (some duration) fires = if fires duration then some cancelled else none

module _ {C K S : Type 0} (upcoming : ℕ → K → Option ℕ) (fires : ℕ → ℕ → Bool)
    (run_with_lifecycle : ScheduledJob C K S → S → CommandResult × S) where
  -- `n` runs, one after the other, with their results.
  unfoldable pub runs : ℕ → ScheduledJob C K S → S → List CommandResult × S
  runs zero job s = ([], s)
  runs (suc n) job s =
      let (result, s') = run_with_lifecycle job s in
      let (results, s'') = runs n job s' in (result ∷ results, s'')

  abbrev decided : ScheduledJob C K S → ℕ → Option Stopped
  decided job round = decision (upcoming round job.cron_schedule) (fires round)

  abbrev Rest : Type 0
  Rest = S → Option (Stopped × List CommandResult) × S

  abbrev act :
      ScheduledJob C K S → S → Rest → Option Stopped → Option (Stopped × List CommandResult) × S
  act job s rest none = after_run upcoming fires run_with_lifecycle (run_with_lifecycle job s) rest
  act job s rest (some stopped) = (some (stopped, []), s)

  wait_and_run-act :
      (job : ScheduledJob C K S) (round : ℕ) (next : Option ℕ) (s : S) (rest : Rest)
      → wait_and_run upcoming fires run_with_lifecycle job round next s rest
        ≡ act job s rest (decision next (fires round))
  wait_and_run-act job round none s rest = refl
  wait_and_run-act job round (some duration) s rest = elim (Bool-cases (fires round duration)) [
    | inl y ↦ rw y refl
    | inr n ↦ rw n refl
  ]

  after_run-some :
      (p : CommandResult × S) (stopped : Stopped) (rest : Rest)
      (results : S → List CommandResult × S)
      → ((s : S) → rest s ≡ (some (stopped, (results s).0), (results s).1))
      → after_run upcoming fires run_with_lifecycle p rest
        ≡ (some (stopped, p.0 ∷ (results p.1).0), (results p.1).1)
  after_run-some (result, s) stopped rest results h = rw (h s) refl

  -- When the rounds before one find a next fire time and no cancellation before it, and that one
  -- does not, the task ends there, for that reason, having run the job once in each round before
  -- it, one run after the other, whatever the runs gave.
  pub run_job-runs :
      (n : ℕ) (job : ScheduledJob C K S) (round : ℕ) (s : S) (stopped : Stopped)
      → ((m : ℕ) → m < n → decided job (round + m) ≡ none)
      → decided job (round + n) ≡ some stopped
      → run_job upcoming fires run_with_lifecycle (suc n) job round s
        ≡ (some (stopped, (runs n job s).0), (runs n job s).1)
  unfolding run_job runs
  run_job-runs zero job round s stopped goes stops =
      wait_and_run-act job round _ s (λ s'. (none, s'))
      ∙ ap (act job s (λ s'. (none, s'))) (ap (decided job) (omega arith) ∙ stops)
  run_job-runs (suc n) job round s stopped goes stops =
      wait_and_run-act job round _ s rest
      ∙ ap (act job s rest) (ap (decided job) (omega arith) ∙ goes 0 (omega arith))
      ∙ after_run-some (run_with_lifecycle job s) stopped rest (runs n job) (λ s'.
        run_job-runs n job (round + 1) s' stopped
          (λ m b. ap (decided job) (omega arith) ∙ goes (suc m) (omega arith))
          (ap (decided job) (omega arith) ∙ stops))
    where
      rest : Rest
      rest = λ s'. run_job upcoming fires run_with_lifecycle (suc n) job (round + 1) s'
