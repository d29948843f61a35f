-- ===== src/Exec/Sample.antt =====
-- A sample operating system for inengine-core/src/commands/exec: a child that exits with code 0 at
-- 25 ms. Its standard error may be held open by a process that it left in the background.
use in_engine_net.Prelude.{
  ℕ, ◌+◌, ◌≤◌, ◌≡◌, refl, sym, Option, Result, leb, Bool, true, false, none, some, codes, ok, err,
  arith,
}
use mathlib.Core.Path.{subst}
use in_engine_net.Error.{IoError}
use in_engine_net.Exec.Pipe.{StreamBuffer, new, push}
use in_engine_net.Exec.Process.{
  ExitStatus, Os, IsClock, IsChild, Pipe, stdout, stderr, TryRecv, received, empty,
}

-- The time, and whether the child is reaped.
abbrev pub Now : Type 0
Now = ℕ × Bool

abbrev pub exited : ExitStatus
exited = record { code = some 0; signal = none; text = codes "exit status: 0" }

abbrev pub buffered : Pipe → StreamBuffer
buffered stdout = push (new 8 8) (codes "built\n")
buffered stderr = push (new 8 8) (codes "warned\n")

abbrev closed : Bool → Pipe → TryRecv
closed held stdout = received (ok tt)
closed true stderr = empty
closed false stderr = received (ok tt)

abbrev look : Bool → Now → Result IoError (Option ExitStatus) × Now
look true s = (ok (some exited), (s.0, true))
look false s = (ok none, s)

abbrev pub os : Bool → Os Now
os held = record {
  spawn = λ path arguments s. (ok (true, true), s);
  try_wait = λ s. look (leb 25 s.0) s;
  try_recv = λ pipe s. (closed held pipe, s);
  lock = λ pipe f s. ((f (buffered pipe)).0, s);
  now = λ s. (s.0, (s.0 + 1, s.1));
  is_cancelled = λ s. (false, s);
  sleep = λ d s. (s.0 + d, s.1);
  kill = λ s. (ok tt, s);
  wait = λ s. some (ok exited, (s.0, true));
}

abbrev pub time : Now → ℕ
time s = s.0

-- A kill always reaches the child.
abbrev pub Killed : Now → Type 0
Killed s = Unit {0}

abbrev pub Reaped : Now → Type 0
Reaped s = s.1 ≡ true

look_later : (due : Bool) (s : Now) → time s ≤ time (look due s).1
look_later true s = omega arith
look_later false s = omega arith

abbrev HasStatus : Result IoError (Option ExitStatus) → Type 0
HasStatus (ok (some status)) = Unit {0}
HasStatus (ok none) = ⊥
HasStatus (err e) = ⊥

look_reaps :
    (due : Bool) (s : Now) (status : ExitStatus)
    → (look due s).0 ≡ ok (some status)
    → Reaped (look due s).1
look_reaps true s status e = refl
look_reaps false s status e = elim (subst HasStatus (sym e) tt) [ ]

pub os-IsClock : (held : Bool) → IsClock (os held) time
os-IsClock held = record {
  try_wait_later = λ s. look_later (leb 25 s.0) s;
  try_recv_later = λ pipe s. (omega arith);
  is_cancelled_later = λ s. (omega arith);
  now_from = λ s. (omega arith);
  now_to = λ s. (omega arith);
  sleep_later = λ d s. (omega arith);
}

pub os-IsChild : (held : Bool) → IsChild (os held) Killed Reaped
os-IsChild held = record {
  try_wait_reaps = λ s status e. look_reaps (leb 25 s.0) s status e;
  kill_reaches = λ s e. tt;
  wait_reaps = λ s k. (ok exited, (s.0, true), refl, refl);
  try_recv_keeps = λ pipe s h. h;
  is_cancelled_keeps = λ s h. h;
  now_keeps = λ s h. h;
  sleep_keeps = λ d s h. h;
}
