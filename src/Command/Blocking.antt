-- ===== src/Command/Blocking.antt =====
-- `run_blocking` of inengine-core/src/command.rs keeps its deadline.
use in_engine_net.Prelude.{
  ℕ, ◌+◌, ◌/◌, ◌<◌, ◌≤◌, ◌≡◌, ◌⊎◌, inl, inr, refl, true, Option, none, some, err, leb, max, arith,
  Bool-cases,
}
use in_engine_net.Command.{
  CommandDeadline, Task, Returned, deadline_ignored, joined, timeout_at, run_blocking,
}

-- A task that starts at `now` does not end by `t`.
abbrev pub RunsPast : ℕ → ℕ → Option ℕ → Type 0
RunsPast now t none = Unit {0}
RunsPast now t (some d) = t < now + d

-- The answer `r` of a wait from `now` to `t` for a task.
abbrev pub AnsweredBy : ℕ → ℕ → ℕ → Option ℕ → Returned → Option (ℕ × Returned) → Type 0
AnsweredBy now t seconds lasts answer r =
    ((d : ℕ) × (lasts ≡ some d) × (now + d ≤ t) × (r ≡ some (now + d, answer)))
    ⊎ (RunsPast now t lasts × (r ≡ some (t, err (deadline_ignored seconds))))

timeout_at-AnsweredBy :
    (now at seconds : ℕ) (lasts : Option ℕ) (answer : Returned)
    → AnsweredBy now
        (max now at)
        seconds
        lasts
        answer
        (some (timeout_at now at seconds lasts answer))
timeout_at-AnsweredBy now at seconds none answer = inr (tt, refl)
timeout_at-AnsweredBy now at seconds (some d) answer =
    elim (Bool-cases (leb (now + d) (max now at))) [
      | inl y ↦ inl (d, refl, (ground arith), rw y refl)
      | inr n ↦ inr ((ground arith), rw n refl)
    ]

-- With a deadline whose end one second later can be represented, a run returns at the latest 1000
-- ms after the deadline, or at once when it is called later than that: with the command's own
-- result when it ends by then, and otherwise exactly then, with the deadline's limit in whole
-- seconds.
pub run_blocking_returns :
    (last now : ℕ) (deadline : CommandDeadline) (task : Task)
    → deadline.at + 1000 ≤ last
    → AnsweredBy now
        (max now (deadline.at + 1000))
        (deadline.timeout / 1000)
        task.lasts
        (joined task.joined)
        (run_blocking last now (some deadline) task)
unfolding run_blocking
run_blocking_returns last now deadline task fits =
    let e : leb (deadline.at + 1000) last ≡ true = ground arith in
    rw e (
      timeout_at-AnsweredBy now (deadline.at + 1000) (deadline.timeout / 1000) task.lasts
        (joined task.joined))
