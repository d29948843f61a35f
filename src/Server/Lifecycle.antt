-- ===== src/Server/Lifecycle.antt =====
-- inengine-core/src/server/lifecycle.rs: what runs around a scheduled command. The outside world
-- is a state; the calls of the HTTP client, the file system and the mail client, and the run of
-- the command itself, are parameters that change it. The log line of a failed save is left out.
pub mod Outcome
mod Examples
use in_engine_net.Prelude.{
  ℕ, Bool, true, false, Option, none, some, List, [], ◌∷◌, ◌++◌, Bytes, codes, Result, ok, err,
  ◌==◌, if◌then◌else◌,
}
use in_engine_net.Error.{CommandError, interrupted}
use in_engine_net.Command.{CommandResult}

pub record LifecycleOptions : Type 0 where
  pub ping_before_url : Option Bytes
  pub ping_after_url : Option Bytes
  pub write_output_to : Option Bytes
  pub append_output_to : Option Bytes
  pub email_output_to : Option Bytes
  pub timeout : Option ℕ

pub record LifecycleHooks (S : Type 0) : Type 0 where
  pub before_run : Option (S → S)
  pub after_run : Option (S → S)

pub record CommandLifecycle (S : Type 0) : Type 0 where
  pub options : LifecycleOptions
  pub hooks : LifecycleHooks S

abbrev pub default_lifecycle : {S : Type 0} → CommandLifecycle S
default_lifecycle = record {
  options = record {
    ping_before_url = none;
    ping_after_url = none;
    write_output_to = none;
    append_output_to = none;
    email_output_to = none;
    timeout = none;
  };
  hooks = record { before_run = none; after_run = none };
}

abbrev pub Step : Type 0 → Type 0 → Type 0
Step S A = S → Result CommandError A × S

abbrev pub go_on :
    {S A B : Type 0} → (A → Step S B) → Result CommandError A × S → Result CommandError B × S
go_on f (ok a, s) = f a s
go_on f (err e, s) = (err e, s)

infixl 5 ◌>>=◌
abbrev pub ◌>>=◌ : {S A B : Type 0} → Step S A → (A → Step S B) → Step S B
(m >>= f) s = go_on f (m s)

-- The calls that leave the program. `run_blocking` gives the command's result and its output.
pub record World (S : Type 0) : Type 0 where
  pub ping : Bytes → Step S (Unit {0})
  pub run_blocking : Option ℕ → Step S (CommandResult × Bytes)
  pub write_file : Bytes → Bytes → Step S (Unit {0})
  pub append_file : Bytes → Bytes → Step S (Unit {0})
  pub send_email : Bytes → Bytes → Bytes → Step S (Unit {0})
  pub describe_error_chain : CommandError → Bytes

abbrev pub if_some : {S A : Type 0} → Option A → (A → Step S (Unit {0})) → Step S (Unit {0})
if_some none f s = (ok tt, s)
if_some (some a) f s = f a s

abbrev pub call_hook : {S : Type 0} → Option (S → S) → Step S (Unit {0})
call_hook none s = (ok tt, s)
call_hook (some action) s = (ok tt, action s)

abbrev ends_with_newline : Bytes → Bool
ends_with_newline [] = false
ends_with_newline (b ∷ []) = b == b'\n'
ends_with_newline (b ∷ c ∷ cs) = ends_with_newline (c ∷ cs)

abbrev pub with_newline : Bytes → Bytes
with_newline [] = []
with_newline (b ∷ bs) = if ends_with_newline (b ∷ bs) then b ∷ bs else (b ∷ bs) ++ b'\n' ∷ []

module _ {S : Type 0} (world : World S) (options : LifecycleOptions) where
  unfoldable pub persist_output : Bytes → Bytes → Bytes → Step S (Unit {0})
  persist_output text subject body = do
    _ ← if_some options.write_output_to (λ p. world.write_file p text)
    _ ← if_some options.append_output_to (λ p. world.append_file p text)
    if_some options.email_output_to (λ address. world.send_email address subject body)

  -- What comes before the run: the ping, then the hook.
  unfoldable pub before : LifecycleHooks S → Step S (Unit {0})
  before hooks = do _ ← if_some options.ping_before_url world.ping; call_hook hooks.before_run

  -- After a failure, an error of the save is only logged.
  abbrev save_failed : Bytes → Bytes → CommandError → S → S
  save_failed name text error s =
      (persist_output text (codes "Command failed: " ++ name)
        (with_newline text ++ world.describe_error_chain error) s).1

  abbrev pub after_failure : Bytes → Bytes → CommandError → S → S
  after_failure name text interrupted s = s
  after_failure name text error s = save_failed name text error s

  unfoldable pub finish : LifecycleHooks S → Bytes → CommandResult × Bytes → Step S (Unit {0})
  finish hooks name (ok done, text) = do
    _ ← call_hook hooks.after_run
    _ ← if_some options.ping_after_url world.ping
    persist_output text (codes "Command completed: " ++ name) text
  finish hooks name (err error, text) = λ s. (err error, after_failure name text error s)

  unfoldable pub run_with_lifecycle : LifecycleHooks S → Bytes → Step S (Unit {0})
  unfolding before finish persist_output
  run_with_lifecycle hooks name = do
    _ ← before hooks
    answer ← world.run_blocking options.timeout
    finish hooks name answer
