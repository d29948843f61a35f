-- ===== src/Exec/Wait/Ending.antt =====
-- The wait of inengine-core/src/commands/exec/mod.rs ends.
use in_engine_net.Prelude.{
  ℕ, zero, suc, ◌+◌, ◌-◌, ◌*◌, ◌≤◌, ◌<◌, ◌≡◌, refl, sym, ◌⊎◌, inl, inr, leb, Bool, true, false,
  Option, none, some, Bytes, Result, ok, err, Bool-cases, arith,
}
use mathlib.Core.Path.{subst}
use in_engine_net.Error.{IoError}
use in_engine_net.Command.{CommandDeadline}
use in_engine_net.Exec.Process.{
  ExitStatus, Os, IsClock, PipeReader, TryRecv, received, empty, disconnected, after_recv,
  poll_when, poll,
}
use in_engine_net.Exec.Wait.{
  WaitLimit, Exit, Readers, Waited, has_exited, pipe_drain_limit, wait_poll_interval, after_try,
  try_exit, poll_one, poll_readers, both, and_second, after_poll, since, check_exit, check_cancel,
  past, check_limit, round, wait_loop, find_limit,
}

-- By the time `T` the limit has passed.
abbrev pub LimitDue : Option WaitLimit → ℕ → Type 0
LimitDue none T = ⊥
LimitDue (some limit) T = limit.at ≤ T

-- By the time `T` the pipes of the exited child are drained no longer.
abbrev pub DrainDue : Exit → ℕ → Type 0
DrainDue none T = ⊥
DrainDue (some e) T = e.1 + pipe_drain_limit ≤ T

abbrev pub Ends : {A : Type 0} → Option A → Type 0
Ends {A} x = (out : A) × (x ≡ some out)

module _ {S : Type 0} (os : Os S) (path : Bytes) (time : S → ℕ) (clock : IsClock os time) where
  abbrev Rest : Type 0
  Rest = S → Option (Waited × S)

  -- `rest` ends in every state that is not earlier than `t`.
  abbrev EndsFrom : ℕ → Rest → Type 0
  EndsFrom t rest = (s : S) → t ≤ time s → Ends (rest s)

  EndsFrom-later : (t u : ℕ) (rest : Rest) → t ≤ u → EndsFrom t rest → EndsFrom u rest
  EndsFrom-later t u rest h ends s b = ends s (omega arith)

  check_cancel-Ends :
      (exited : Bool) (p : Bool × S) (rest : Rest)
      → EndsFrom (time p.1) rest
      → Ends (check_cancel os path exited p rest)
  check_cancel-Ends exited (true, s) rest ends = (_, refl)
  check_cancel-Ends exited (false, s) rest ends = ends s (omega arith)

  past-Ends :
      (exited : Bool) (limit : WaitLimit) (p : ℕ × S) (rest : Rest)
      → (p.0 < limit.at → Ends (rest p.1))
      → Ends (past os path exited limit p rest)
  past-Ends exited limit (t, s) rest ends = elim (Bool-cases (leb limit.at t)) [
    | inl y ↦ rw y (_, refl)
    | inr n ↦ rw n (ends (ground arith))
  ]

  check_limit-Ends :
      (exited : Bool) (limit : Option WaitLimit) (s : S) (rest : Rest)
      → EndsFrom (time s) rest
      → Ends (check_limit os path exited limit s rest)
  check_limit-Ends exited none s rest ends = ends s (omega arith)
  check_limit-Ends exited (some limit) s rest ends =
      past-Ends exited limit (os.now s) rest
        (λ h. ends (os.now s).1 (omega (arith, clock.now_from s, clock.now_to s)))

  check_limit_due :
      (exited : Bool) (limit : Option WaitLimit) (T : ℕ) (s : S) (rest : Rest)
      → LimitDue limit T
      → (time s < T → EndsFrom (time s) rest)
      → Ends (check_limit os path exited limit s rest)
  check_limit_due exited none T s rest due ends = elim due [ ]
  check_limit_due exited (some limit) T s rest due ends =
      past-Ends exited limit (os.now s) rest (λ h.
        ends (omega (arith, clock.now_from s)) (os.now s).1
          (omega (arith, clock.now_from s, clock.now_to s)))

  since-Ends :
      (status : ExitStatus) (exited_at : ℕ) (p : ℕ × S) (rest : Rest)
      → (p.0 < exited_at + pipe_drain_limit → Ends (rest p.1))
      → Ends (since os path status exited_at p rest)
  since-Ends status exited_at (t, s) rest ends =
      elim (Bool-cases (leb pipe_drain_limit (t - exited_at))) [
        | inl y ↦ rw y (_, refl)
        | inr n ↦ rw n (ends (ground arith))
      ]

  check_exit-Ends :
      (exit : Exit) (drained : Bool) (s : S) (rest : Rest)
      → EndsFrom (time s) rest
      → Ends (check_exit os path exit drained s rest)
  check_exit-Ends none drained s rest ends = ends s (omega arith)
  check_exit-Ends (some (status, t)) true s rest ends = (_, refl)
  check_exit-Ends (some (status, t)) false s rest ends =
      since-Ends status t (os.now s) rest
        (λ h. ends (os.now s).1 (omega (arith, clock.now_from s, clock.now_to s)))

  check_exit_due :
      (exit : Exit) (drained : Bool) (T : ℕ) (s : S) (rest : Rest)
      → DrainDue exit T
      → (time s < T → EndsFrom (time s) rest)
      → Ends (check_exit os path exit drained s rest)
  check_exit_due none drained T s rest due ends = elim due [ ]
  check_exit_due (some (status, t)) true T s rest due ends = (_, refl)
  check_exit_due (some (status, t)) false T s rest due ends =
      since-Ends status t (os.now s) rest (λ h.
        ends (omega (arith, clock.now_from s)) (os.now s).1
          (omega (arith, clock.now_from s, clock.now_to s)))

  after_recv_later : (reader : PipeReader) (p : TryRecv × S) → (after_recv reader p).1 ≡ p.1
  after_recv_later reader (received (ok done), s) = refl
  after_recv_later reader (received (err e), s) = refl
  after_recv_later reader (empty, s) = refl
  after_recv_later reader (disconnected, s) = refl

  poll_when_later :
      (done : Bool) (reader : PipeReader) (s : S) → time s ≤ time (poll_when os done reader s).1
  poll_when_later true reader s = omega arith
  poll_when_later false reader s =
      rw (after_recv_later reader (os.try_recv reader.pipe s)) (clock.try_recv_later reader.pipe s)

  both_later :
      (done : Bool) (first : Option PipeReader) (p : (Result IoError Bool × Option PipeReader) × S)
      → time p.1 ≤ time (both os path done first p).1
  both_later done first ((ok done', second), s) = omega arith
  both_later done first ((err e, second), s) = omega arith

  poll_one_later :
      (reader : Option PipeReader) (s : S) → time s ≤ time (poll_one os path reader s).1
  unfolding poll
  poll_one_later none s = omega arith
  poll_one_later (some reader) s = poll_when_later reader.done reader s

  and_second_later :
      (second : Option PipeReader) (p : (Result IoError Bool × Option PipeReader) × S)
      → time p.1 ≤ time (and_second os path second p).1
  and_second_later second ((err e, first), s) = omega arith
  and_second_later second ((ok done, first), s) =
      omega (arith, poll_one_later second s, both_later done first (poll_one os path second s))

  poll_readers_later :
      (readers : Readers) (s : S) → time s ≤ time (poll_readers os path readers s).1
  unfolding poll_readers
  poll_readers_later (first, second) s =
      omega (arith, poll_one_later first s, and_second_later second (poll_one os path first s))

  after_poll-Ends :
      (exited : Bool) (p : (Result IoError Bool × Readers) × S)
      (rest : Bool → Readers → S → Option (Waited × S))
      → ((drained : Bool) (readers : Readers) → Ends (rest drained readers p.1))
      → Ends (after_poll os path exited p rest)
  after_poll-Ends exited ((err e, readers), s) rest ends = (_, refl)
  after_poll-Ends exited ((ok drained, readers), s) rest ends = ends drained readers

  abbrev Due : Option WaitLimit → Exit → ℕ → Type 0
  Due limit exit T = LimitDue limit T ⊎ DrainDue exit T

  round-Ends :
      (limit : Option WaitLimit) (readers : Readers) (next : Exit → Readers → Rest) (exit : Exit)
      (T : ℕ) (s : S)
      → Due limit exit T
      → (time s < T
          → (readers' : Readers) → EndsFrom (time s + wait_poll_interval) (next exit readers'))
      → Ends (round os path limit readers next exit s)
  round-Ends limit readers next exit T s due ends =
      after_poll-Ends (has_exited exit) (poll_readers os path readers s) _ (λ drained readers'.
        elim due [
          | inl limit_due ↦ check_exit-Ends exit drained s1 _ (λ s2 b2.
              check_cancel-Ends (has_exited exit) (os.is_cancelled s2) _ (λ s3 b3.
                check_limit_due (has_exited exit) limit T s3 _ limit_due (λ early s4 b4.
                  ends (omega (arith, poll_readers_later readers s, clock.is_cancelled_later s2))
                    readers' (os.sleep wait_poll_interval s4)
                    (omega (
                      arith,
                      clock.sleep_later wait_poll_interval s4,
                      clock.is_cancelled_later s2,
                      poll_readers_later readers s,
                    )))))
          | inr drain_due ↦ check_exit_due exit drained T s1 _ drain_due (λ early s2 b2.
              check_cancel-Ends (has_exited exit) (os.is_cancelled s2) _ (λ s3 b3.
                check_limit-Ends (has_exited exit) limit s3 _ (λ s4 b4.
                  ends (omega (arith, poll_readers_later readers s)) readers'
                    (os.sleep wait_poll_interval s4)
                    (omega (
                      arith,
                      clock.sleep_later wait_poll_interval s4,
                      clock.is_cancelled_later s2,
                      poll_readers_later readers s,
                    )))))
        ])
    where
      s1 : S
      s1 = (poll_readers os path readers s).1

  after_try-Ends :
      (p : Result IoError (Option ExitStatus) × S) (rest : Exit → Rest)
      → ((exit : Exit) → EndsFrom (time p.1) (rest exit))
      → Ends (after_try os path p rest)
  after_try-Ends (err e, s) rest ends = (_, refl)
  after_try-Ends (ok none, s) rest ends = ends none s (omega arith)
  after_try-Ends (ok (some status), s) rest ends =
      ends (some (status, (os.now s).0)) (os.now s).1
        (omega (arith, clock.now_from s, clock.now_to s))

  -- A limit that is due stays due whatever the child does; a drain that is due is of an exit seen.
  try_exit-Ends :
      (limit : Option WaitLimit) (exit : Exit) (T : ℕ) (s : S) (rest : Exit → Rest)
      → Due limit exit T
      → ((exit' : Exit) → Due limit exit' T → EndsFrom (time s) (rest exit'))
      → Ends (try_exit os path exit s rest)
  try_exit-Ends limit (some e) T s rest due ends = ends (some e) due s (omega arith)
  try_exit-Ends limit none T s rest (inl due) ends =
      after_try-Ends (os.try_wait s) rest
        (λ exit' s' b. ends exit' (inl due) s' (omega (arith, clock.try_wait_later s)))
  try_exit-Ends limit none T s rest (inr due) ends = elim due [ ]

  -- Whatever the child and its pipes do, the loop ends within a round for each 10 ms up to the
  -- time `T`, and one more, when by `T` the limit has passed, or one second after the exit of a
  -- child whose exit has been seen.
  pub wait_loop-Ends :
      (fuel : ℕ) (limit : Option WaitLimit) (exit : Exit) (readers : Readers) (T : ℕ) (s : S)
      → LimitDue limit T ⊎ DrainDue exit T
      → T ≤ time s + fuel * wait_poll_interval
      → Ends (wait_loop os path (suc fuel) limit exit readers s)
  unfolding wait_loop
  wait_loop-Ends zero limit exit readers T s due b =
      try_exit-Ends limit exit T s _ due (λ exit' due' s' b'.
        round-Ends limit readers (λ e r x. none) exit' T s' due'
          (λ early readers'. elim (absurd early b b') [ ]))
    where
      absurd : {m : ℕ} → m < T → T ≤ time s + zero * wait_poll_interval → time s ≤ m → ⊥
      absurd early b b' = omega arith
  wait_loop-Ends (suc fuel) limit exit readers T s due b =
      try_exit-Ends limit exit T s _ due (λ exit' due' s' b'.
        round-Ends limit readers (λ e r x. wait_loop os path (suc fuel) limit e r x) exit' T s' due'
          (λ early readers' s4 b4.
            wait_loop-Ends fuel limit exit' readers' T s4 due' (omega arith)))

  -- With a limit, from the command or its context, the loop of the wait ends within a round for
  -- each 10 ms up to the limit, and one more, whatever the child and its pipes do.
  pub limited_loop-Ends :
      (fuel last timeout : ℕ) (deadline : Option CommandDeadline) (readers : Readers) (s : S)
      (limit : WaitLimit)
      → (find_limit os path last timeout deadline s).0 ≡ some limit
      → limit.at ≤ time (find_limit os path last timeout deadline s).1 + fuel * wait_poll_interval
      → Ends (
          wait_loop os path
            (suc fuel)
            (find_limit os path last timeout deadline s).0
            none
            readers
            (find_limit os path last timeout deadline s).1)
  limited_loop-Ends fuel last timeout deadline readers s limit found b =
      wait_loop-Ends fuel (find_limit os path last timeout deadline s).0 none readers limit.at
        (find_limit os path last timeout deadline s).1
        (inl (subst (λ l. LimitDue l limit.at) (sym found) (omega arith))) b
