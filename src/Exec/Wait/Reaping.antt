-- ===== src/Exec/Wait/Reaping.antt =====
-- The wait of inengine-core/src/commands/exec/mod.rs leaves no child behind.
use in_engine_net.Prelude.{
  ℕ, zero, suc, ◌+◌, ◌*◌, ◌≤◌, ◌≡◌, refl, sym, leb, Bool, true, false, Option, none, some, Bytes,
  Result, ok, err, ◌⊎◌, inl, inr, Bool-cases, Result-cases, ◌-◌,
}
use mathlib.Core.Path.{subst}
use in_engine_net.Error.{IoError, CommandError}
use in_engine_net.Command.{CommandDeadline}
use in_engine_net.Exec.Process.{
  ExitStatus, Os, IsChild, IsClock, PipeReader, TryRecv, received, empty, disconnected, after_recv,
  poll_when, poll,
}
use in_engine_net.Exec.Wait.{
  WaitLimit, Exit, Readers, Waited, has_exited, pipe_drain_limit, wait_poll_interval, after_try,
  try_exit, poll_one, both, and_second, poll_readers, after_poll, since, check_exit, check_cancel,
  past, check_limit, round, wait_loop, find_limit, stop_child, failed_with, stopped, stop_waited,
  wait_for_exit,
}
use in_engine_net.Exec.Wait.Ending.{limited_loop-Ends}

module _ {S : Type 0} (os : Os S) (path : Bytes) (Killed Reaped : S → Type 0)
    (child : IsChild os Killed Reaped) where
  abbrev Rest : Type 0
  Rest = S → Option (Waited × S)

  -- What is known of a state: the child whose exit was seen is reaped.
  abbrev Known : Bool → S → Type 0
  Known false s = Unit {0}
  Known true s = Reaped s

  abbrev KnownWaited : Waited × S → Type 0
  KnownWaited ((ok status, exited), s) = Reaped s
  KnownWaited ((err e, exited), s) = Known exited s

  abbrev Fine : Option (Waited × S) → Type 0
  Fine none = Unit {0}
  Fine (some w) = KnownWaited w

  abbrev Keeps : Bool → Rest → Type 0
  Keeps exited rest = (s : S) → Known exited s → Fine (rest s)

  check_cancel-Fine :
      (exited : Bool) (p : Bool × S) (rest : Rest)
      → Known exited p.1
      → Keeps exited rest
      → Fine (check_cancel os path exited p rest)
  check_cancel-Fine exited (true, s) rest k fine = k
  check_cancel-Fine exited (false, s) rest k fine = fine s k

  Known-is_cancelled : (exited : Bool) (s : S) → Known exited s → Known exited (os.is_cancelled s).1
  Known-is_cancelled true s k = child.is_cancelled_keeps s k
  Known-is_cancelled false s k = tt

  Known-now : (exited : Bool) (s : S) → Known exited s → Known exited (os.now s).1
  Known-now true s k = child.now_keeps s k
  Known-now false s k = tt

  Known-sleep : (exited : Bool) (d : ℕ) (s : S) → Known exited s → Known exited (os.sleep d s)
  Known-sleep true d s k = child.sleep_keeps d s k
  Known-sleep false d s k = tt

  past-Fine :
      (exited : Bool) (limit : WaitLimit) (p : ℕ × S) (rest : Rest)
      → Known exited p.1
      → Keeps exited rest
      → Fine (past os path exited limit p rest)
  past-Fine exited limit (t, s) rest k fine = elim (Bool-cases (leb limit.at t)) [
    | inl y ↦ rw y k
    | inr n ↦ rw n (fine s k)
  ]

  check_limit-Fine :
      (exited : Bool) (limit : Option WaitLimit) (s : S) (rest : Rest)
      → Known exited s
      → Keeps exited rest
      → Fine (check_limit os path exited limit s rest)
  check_limit-Fine exited none s rest k fine = fine s k
  check_limit-Fine exited (some limit) s rest k fine =
      past-Fine exited limit (os.now s) rest (Known-now exited s k) fine

  since-Fine :
      (status : ExitStatus) (exited_at : ℕ) (p : ℕ × S) (rest : Rest)
      → Reaped p.1
      → Keeps true rest
      → Fine (since os path status exited_at p rest)
  since-Fine status exited_at (t, s) rest k fine =
      elim (Bool-cases (leb pipe_drain_limit (t - exited_at))) [
        | inl y ↦ rw y k
        | inr n ↦ rw n (fine s k)
      ]

  check_exit-Fine :
      (exit : Exit) (drained : Bool) (s : S) (rest : Rest)
      → Known (has_exited exit) s
      → Keeps (has_exited exit) rest
      → Fine (check_exit os path exit drained s rest)
  check_exit-Fine none drained s rest k fine = fine s tt
  check_exit-Fine (some (status, t)) true s rest k fine = k
  check_exit-Fine (some (status, t)) false s rest k fine =
      since-Fine status t (os.now s) rest (child.now_keeps s k) fine

  Known-after_recv :
      (exited : Bool) (reader : PipeReader) (p : TryRecv × S)
      → Known exited p.1
      → Known exited (after_recv reader p).1
  Known-after_recv exited reader (received (ok done), s) k = k
  Known-after_recv exited reader (received (err e), s) k = k
  Known-after_recv exited reader (empty, s) k = k
  Known-after_recv exited reader (disconnected, s) k = k

  Known-try_recv :
      (exited : Bool) (reader : PipeReader) (s : S)
      → Known exited s
      → Known exited (os.try_recv reader.pipe s).1
  Known-try_recv true reader s k = child.try_recv_keeps reader.pipe s k
  Known-try_recv false reader s k = tt

  Known-poll_when :
      (exited done : Bool) (reader : PipeReader) (s : S)
      → Known exited s
      → Known exited (poll_when os done reader s).1
  Known-poll_when exited true reader s k = k
  Known-poll_when exited false reader s k =
      Known-after_recv exited reader (os.try_recv reader.pipe s) (Known-try_recv exited reader s k)

  Known-poll_one :
      (exited : Bool) (reader : Option PipeReader) (s : S)
      → Known exited s
      → Known exited (poll_one os path reader s).1
  unfolding poll
  Known-poll_one exited none s k = k
  Known-poll_one exited (some reader) s k = Known-poll_when exited reader.done reader s k

  Known-both :
      (exited done : Bool) (first : Option PipeReader)
      (p : (Result IoError Bool × Option PipeReader) × S)
      → Known exited p.1
      → Known exited (both os path done first p).1
  Known-both exited done first ((ok done', second), s) k = k
  Known-both exited done first ((err e, second), s) k = k

  Known-and_second :
      (exited : Bool) (second : Option PipeReader)
      (p : (Result IoError Bool × Option PipeReader) × S)
      → Known exited p.1
      → Known exited (and_second os path second p).1
  Known-and_second exited second ((err e, first), s) k = k
  Known-and_second exited second ((ok done, first), s) k =
      Known-both exited done first (poll_one os path second s) (Known-poll_one exited second s k)

  Known-poll_readers :
      (exited : Bool) (readers : Readers) (s : S)
      → Known exited s
      → Known exited (poll_readers os path readers s).1
  unfolding poll_readers
  Known-poll_readers exited (first, second) s k =
      Known-and_second exited second (poll_one os path first s) (Known-poll_one exited first s k)

  after_poll-Fine :
      (exited : Bool) (p : (Result IoError Bool × Readers) × S)
      (rest : Bool → Readers → S → Option (Waited × S))
      → Known exited p.1
      → ((drained : Bool) (readers : Readers) → Keeps exited (rest drained readers))
      → Fine (after_poll os path exited p rest)
  after_poll-Fine exited ((err e, readers), s) rest k fine = k
  after_poll-Fine exited ((ok drained, readers), s) rest k fine = fine drained readers s k

  round-Fine :
      (limit : Option WaitLimit) (readers : Readers) (next : Exit → Readers → Rest) (exit : Exit)
      → ((readers' : Readers) → Keeps (has_exited exit) (next exit readers'))
      → Keeps (has_exited exit) (round os path limit readers next exit)
  round-Fine limit readers next exit fine s k =
      after_poll-Fine (has_exited exit) (poll_readers os path readers s) _
        (Known-poll_readers (has_exited exit) readers s k)
        (λ drained readers' s1 k1. check_exit-Fine exit drained s1 _ k1 (λ s2 k2.
          check_cancel-Fine (has_exited exit) (os.is_cancelled s2) _
            (Known-is_cancelled (has_exited exit) s2 k2)
            (λ s3 k3. check_limit-Fine (has_exited exit) limit s3 _ k3 (λ s4 k4.
              fine readers' (os.sleep wait_poll_interval s4)
                (Known-sleep (has_exited exit) wait_poll_interval s4 k4)))))

  after_try-Fine :
      (p : Result IoError (Option ExitStatus) × S) (rest : Exit → Rest)
      → ((status : ExitStatus) → p.0 ≡ ok (some status) → Reaped p.1)
      → ((exit : Exit) → Keeps (has_exited exit) (rest exit))
      → Fine (after_try os path p rest)
  after_try-Fine (err e, s) rest reaps fine = tt
  after_try-Fine (ok none, s) rest reaps fine = fine none s tt
  after_try-Fine (ok (some status), s) rest reaps fine =
      fine (some (status, (os.now s).0)) (os.now s).1 (child.now_keeps s (reaps status refl))

  try_exit-Fine :
      (exit : Exit) (rest : Exit → Rest) (s : S)
      → ((exit' : Exit) → Keeps (has_exited exit') (rest exit'))
      → Known (has_exited exit) s
      → Fine (try_exit os path exit s rest)
  try_exit-Fine none rest s fine k =
      after_try-Fine (os.try_wait s) rest (child.try_wait_reaps s) fine
  try_exit-Fine (some e) rest s fine k = fine (some e) s k

  wait_loop-Fine :
      (fuel : ℕ) (limit : Option WaitLimit) (exit : Exit) (readers : Readers)
      → Keeps (has_exited exit) (wait_loop os path fuel limit exit readers)
  unfolding wait_loop
  wait_loop-Fine zero limit exit readers s k = tt
  wait_loop-Fine (suc fuel) limit exit readers s k =
      try_exit-Fine exit _ s
        (λ exit' s' k'.
          round-Fine limit readers (λ e r x. wait_loop os path fuel limit e r x) exit'
            (λ readers' s4 k4. wait_loop-Fine fuel limit exit' readers' s4 k4) s' k')
        k

  -- The wait returned, and the child is reaped; or the loop ended in an error with the child
  -- running, and the kill failed.
  abbrev pub Reaps : Option (Waited × S) → Option (Result CommandError ExitStatus × S) → Type 0
  Reaps looped answer =
      ((r : Result CommandError ExitStatus) × (s' : S) × (answer ≡ some (r, s')) × Reaped s')
      ⊎ ((e : CommandError) × (s' : S) × (looped ≡ some ((err e, false), s'))
          × (x : IoError) × ((os.kill s').0 ≡ err x))

  -- After a kill that reached the child.
  waited_Reaps :
      (e : CommandError) (s : S) (looped : Option (Waited × S))
      → Killed (os.kill s).1
      → Reaps looped (failed_with os path e (stop_child os path false s))
  unfolding stop_child
  waited_Reaps e s looped killed =
      let (r, s', w, reaped) = child.wait_reaps (os.kill s).1 killed in
      inl (err e, s', rw w refl, reaped)

  stopped-Reaps : (w : Waited × S) → KnownWaited w → Reaps (some w) (stopped os path w)
  unfolding stop_child
  stopped-Reaps ((ok status, exited), s) k = inl (ok status, s, refl, k)
  stopped-Reaps ((err e, true), s) k = inl (err e, s, refl, k)
  stopped-Reaps ((err e, false), s) k = elim (Result-cases (os.kill s).0) [
    | inl (u, sent) ↦ waited_Reaps e s (some ((err e, false), s)) (child.kill_reaches s sent)
    | inr (x, failed) ↦ inr (e, s, refl, x, failed)
  ]

  -- With a limit, from the command or its context, the loop of the wait ends within a round for
  -- each 10 ms up to the limit, and one more. Unless it then gives up a running child whose kill
  -- fails, the wait returns, and whether it returns the status or an error, the child has exited
  -- and been reaped.
  pub wait_for_exit-Reaps :
      (time : S → ℕ)
      → IsClock os time
      → (fuel last timeout : ℕ) (deadline : Option CommandDeadline) (readers : Readers) (s : S)
        (limit : WaitLimit)
      → (find_limit os path last timeout deadline s).0 ≡ some limit
      → limit.at ≤ time (find_limit os path last timeout deadline s).1 + fuel * wait_poll_interval
      → Reaps
          (wait_loop os path
            (suc fuel)
            (find_limit os path last timeout deadline s).0
            none
            readers
            (find_limit os path last timeout deadline s).1)
          (wait_for_exit os path (suc fuel) last timeout deadline readers s)
  unfolding wait_for_exit
  wait_for_exit-Reaps time clock fuel last timeout deadline readers s limit found b =
      let (w, e) =
        limited_loop-Ends os path time clock fuel last timeout deadline readers s limit found b in
      subst (λ looped. Reaps looped (stop_waited os path looped)) (sym e)
        (stopped-Reaps w (
          subst Fine e (
            wait_loop-Fine (suc fuel) (find_limit os path last timeout deadline s).0 none readers
              (find_limit os path last timeout deadline s).1 tt)))
