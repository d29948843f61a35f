-- ===== src/Plugin/WasmCommand.antt =====
-- inengine-core/src/plugin/wasm_command.rs, and the store of inengine-core/src/plugin/runtime.rs.
-- A call of a plugin is followed through the epochs at which the engine asks the store whether to
-- go on.
pub mod Interrupts
mod Examples
use Prim.Native.String.{String}
use in_engine_net.Prelude.{
  ℕ, ltb, leb, Bool, true, false, Option, none, some, List, [], ◌∷◌, ◌++◌, Bytes, codes, Result, ok,
  err, if◌then◌else◌,
}
use in_engine_net.Error.{CommandError, interrupted}
use in_engine_net.Error
use in_engine_net.Command.{CommandDeadline, CommandResult, as_secs, instant_after}
use in_engine_net.Output.{Terminal, Output}
use in_engine_net.Output
use in_engine_net.Exec.Pipe.{decimal}
use in_engine_net.Plugin.Limiter.{PluginLimiter}
use in_engine_net.Plugin.Limiter
use in_engine_net.Plugin.LoadError.{WasmError, interrupt, memory_limit_exceeded, other}

-- Times are in milliseconds.
pub record PluginLimits : Type 0 where
  pub timeout : ℕ
  pub memory_bytes : ℕ

pub data InterruptCause : Type 0 where
  deadline_passed : InterruptCause
  shutdown : InterruptCause

pub record PluginStoreData : Type 0 where
  pub deadline : ℕ
  pub interrupt_cause : Option InterruptCause
  pub limiter : PluginLimiter

unfoldable pub new_store : PluginLimits → ℕ → PluginStoreData
unfolding Limiter.new
new_store limits deadline = record {
  deadline = deadline;
  interrupt_cause = none;
  limiter = Limiter.new limits.memory_bytes;
}

-- An epoch: whether the token has fired, and the time.
abbrev pub Epoch : Type 0
Epoch = Bool × ℕ

-- The cause that the callback of the epoch deadline finds; with none the call goes on for an epoch.
unfoldable pub epoch_cause : Epoch → PluginStoreData → Option InterruptCause
epoch_cause (cancelled, now) data_of =
    if cancelled
    then some shutdown
    else if leb data_of.deadline now
    then some deadline_passed
    else none

-- How a call ends that is not interrupted.
pub data CallEnd : Type 0 where
  returned : Result Bytes Bytes → CallEnd
  out_of_memory : ℕ → CallEnd
  trapped : Bytes → CallEnd

abbrev pub ended : CallEnd → Result WasmError (Result Bytes Bytes)
ended (returned answer) = ok answer
ended (out_of_memory limit) = err (memory_limit_exceeded limit)
ended (trapped text) = err (other text)

-- The engine's side: the epochs of a call in order, then its end.
abbrev pub stop_or :
    Option InterruptCause
    → PluginStoreData
    → Result WasmError (Result Bytes Bytes) × PluginStoreData
    → Result WasmError (Result Bytes Bytes) × PluginStoreData
stop_or none store rest = rest
stop_or (some cause) store rest = (err interrupt, record store { interrupt_cause = some cause })

unfoldable pub call_plugin :
    List Epoch → CallEnd → PluginStoreData → Result WasmError (Result Bytes Bytes) × PluginStoreData
unfolding epoch_cause
call_plugin [] end store = (ended end, store)
call_plugin (epoch ∷ epochs) end store =
    stop_or (epoch_cause epoch store) store (call_plugin epochs end store)

pub data CallDeadline : Type 0 where
  context : ℕ → CallDeadline
  plugin_limit : ℕ → CallDeadline

pub record WasmCommand : Type 0 where
  pub plugin_name : Bytes
  pub command_name : Bytes
  pub args_json : Bytes
  pub limits : PluginLimits

abbrev by_limit : ℕ → PluginLimits → ℕ × CallDeadline
by_limit limit_deadline limits = (limit_deadline, plugin_limit (as_secs limits.timeout))

abbrev pub earlier : ℕ → PluginLimits → Option CommandDeadline → ℕ × CallDeadline
earlier limit_deadline limits none = by_limit limit_deadline limits
earlier limit_deadline limits (some deadline) =
    if ltb deadline.at limit_deadline
    then (deadline.at, context (as_secs deadline.timeout))
    else by_limit limit_deadline limits

-- `last` is the last instant of the clock.
unfoldable pub call_deadline : ℕ → ℕ → WasmCommand → Option CommandDeadline → ℕ × CallDeadline
unfolding instant_after
call_deadline last now command deadline =
    earlier (instant_after last now command.limits.timeout) command.limits deadline

abbrev in_plugin : WasmCommand → Bytes
in_plugin command =
    codes "command '"
    ++ command.command_name
    ++ codes "' in plugin '"
    ++ command.plugin_name
    ++ codes "'"

abbrev runtime_error : WasmCommand → CommandError
runtime_error command = Error.failed (
    codes "runtime error in command '"
    ++ command.command_name
    ++ codes "' in plugin '"
    ++ command.plugin_name
    ++ codes "'")

abbrev pub interrupted_by : WasmCommand → Option InterruptCause → CallDeadline → CommandError
interrupted_by command (some shutdown) deadline = interrupted
interrupted_by command (some deadline_passed) (context seconds) = Error.timeout seconds
interrupted_by command (some deadline_passed) (plugin_limit seconds) = Error.failed (
    in_plugin command
    ++ codes " exceeded the plugin time limit of "
    ++ decimal 20 seconds
    ++ codes " seconds")
interrupted_by command none deadline = runtime_error command

unfoldable pub classify_call_failure :
    WasmCommand → WasmError → PluginStoreData → CallDeadline → CommandError
unfolding decimal
classify_call_failure command interrupt store deadline =
    interrupted_by command store.interrupt_cause deadline
classify_call_failure command (memory_limit_exceeded limit) store deadline =
    Error.failed (in_plugin command ++ codes " ran out of memory")
classify_call_failure command (other text) store deadline = runtime_error command

module _ (t : Terminal) where
  abbrev line_unless_empty : Output t → Bytes → Output t
  line_unless_empty output [] = output
  line_unless_empty output (b ∷ bs) = Output.line t output (b ∷ bs)

  abbrev pub answer :
      WasmCommand
      → CallDeadline
      → Output t
      → Result WasmError (Result Bytes Bytes) × PluginStoreData
      → CommandResult × Output t
  answer command deadline output (ok (ok text), store) = (ok tt, line_unless_empty output text)
  answer command deadline output (ok (err message), store) =
      (err (Error.failed (in_plugin command ++ codes " failed: " ++ message)), output)
  answer command deadline output (err e, store) =
      (err (classify_call_failure command e store deadline), output)

  -- `epochs` and `end` are what the engine does in the call.
  unfoldable pub run :
      ℕ
      → ℕ
      → List Epoch
      → CallEnd
      → WasmCommand
      → Option CommandDeadline
      → Output t
      → CommandResult × Output t
  unfolding call_deadline new_store call_plugin classify_call_failure
  run last now epochs end command deadline output =
      let call = call_deadline last now command deadline in
      answer command call.1 output (call_plugin epochs end (new_store command.limits call.0))
