-- ===== src/Exec/Process.antt =====
-- The process and pipe calls of inengine-core/src/commands/exec/mod.rs, on a state that stands for
-- the operating system, and the `PipeReader` of inengine-core/src/commands/exec/pipe.rs.
use in_engine_net.Prelude.{
  ℕ, ◌+◌, ◌≤◌, ◌≡◌, Bool, true, false, Option, none, some, List, Bytes, Result, ok, err, ◌==◌,
}
use in_engine_net.Error.{IoError, other}
use in_engine_net.Exec.Pipe.{StreamBuffer, KeptOutput, take_kept}

-- `std::process::ExitStatus`, and its own text.
pub record ExitStatus : Type 0 where
  pub code : Option ℕ
  pub signal : Option ℕ
  pub text : Bytes

abbrev pub is_zero : Option ℕ → Bool
is_zero none = false
is_zero (some code) = code == 0

abbrev pub success : ExitStatus → Bool
success status = is_zero status.code

pub data Pipe : Type 0 where
  stdout : Pipe
  stderr : Pipe

-- What `try_recv` gives of the reader thread's channel.
pub data TryRecv : Type 0 where
  received : Result IoError (Unit {0}) → TryRecv
  empty : TryRecv
  disconnected : TryRecv

pub record Os (S : Type 0) : Type 0 where
  pub spawn : Bytes → List Bytes → S → Result IoError (Bool × Bool) × S  -- which pipes there are
  pub try_wait : S → Result IoError (Option ExitStatus) × S
  pub try_recv : Pipe → S → TryRecv × S
  pub lock : Pipe → (StreamBuffer → KeptOutput × StreamBuffer) → S → KeptOutput × S
  pub now : S → ℕ × S
  pub is_cancelled : S → Bool × S
  pub sleep : ℕ → S → S
  pub kill : S → Result IoError (Unit {0}) × S
  -- `none` when the wait never returns.
  pub wait : S → Option (Result IoError ExitStatus × S)

-- The clock and the waits: time passes, and a sleep lasts at least its length.
pub record IsClock {S : Type 0} (os : Os S) (time : S → ℕ) : Type 0 where
  pub try_wait_later : (s : S) → time s ≤ time (os.try_wait s).1
  pub try_recv_later : (p : Pipe) (s : S) → time s ≤ time (os.try_recv p s).1
  pub is_cancelled_later : (s : S) → time s ≤ time (os.is_cancelled s).1
  pub now_from : (s : S) → time s ≤ (os.now s).0
  pub now_to : (s : S) → (os.now s).0 ≤ time (os.now s).1
  pub sleep_later : (d : ℕ) (s : S) → time s + d ≤ time (os.sleep d s)

-- A child that a kill has reached, or that has exited, is reaped by a wait, which then returns; it
-- is reaped by a `try_wait` that gives its status; and it stays so. A wait for a child that no kill
-- has reached may last for ever, or fail.
pub record IsChild {S : Type 0} (os : Os S) (Killed Reaped : S → Type 0) : Type 0 where
  pub try_wait_reaps :
      (s : S) (status : ExitStatus)
      → (os.try_wait s).0 ≡ ok (some status)
      → Reaped (os.try_wait s).1
  pub kill_reaches : (s : S) → (os.kill s).0 ≡ ok tt → Killed (os.kill s).1
  pub wait_reaps :
      (s : S)
      → Killed s
      → (r : Result IoError ExitStatus) × (s' : S) × (os.wait s ≡ some (r, s')) × Reaped s'
  pub try_recv_keeps : (p : Pipe) (s : S) → Reaped s → Reaped (os.try_recv p s).1
  pub is_cancelled_keeps : (s : S) → Reaped s → Reaped (os.is_cancelled s).1
  pub now_keeps : (s : S) → Reaped s → Reaped (os.now s).1
  pub sleep_keeps : (d : ℕ) (s : S) → Reaped s → Reaped (os.sleep d s)

pub record PipeReader : Type 0 where
  pub pipe : Pipe
  pub done : Bool

-- `io::Error::other("the reader thread stopped")`
abbrev pub reader_stopped : IoError
reader_stopped = other 0

abbrev pub after_recv :
    {S : Type 0} → PipeReader → TryRecv × S → (Result IoError Bool × PipeReader) × S
after_recv reader (received (ok done), s) = ((ok true, record reader { done = true }), s)
after_recv reader (received (err e), s) = ((err e, reader), s)
after_recv reader (empty, s) = ((ok false, reader), s)
after_recv reader (disconnected, s) = ((err reader_stopped, reader), s)

module _ {S : Type 0} (os : Os S) where
  abbrev pub poll_when : Bool → PipeReader → S → (Result IoError Bool × PipeReader) × S
  poll_when true reader s = ((ok true, reader), s)
  poll_when false reader s = after_recv reader (os.try_recv reader.pipe s)

  unfoldable pub poll : PipeReader → S → (Result IoError Bool × PipeReader) × S
  poll reader s = poll_when reader.done reader s

  unfoldable pub take : PipeReader → S → KeptOutput × S
  take reader s = os.lock reader.pipe take_kept s
