-- ===== src/Plugin/LoadError.antt =====
-- inengine-core/src/plugin/load_error.rs, and the `PluginError` of inengine-core/src/error.rs. An
-- error of the WebAssembly engine is what the program can find out about it.
use Prim.Native.String.{String}
use in_engine_net.Prelude.{ℕ, Bytes}
use in_engine_net.Error.{IoError, DuplicateCommand}
use in_engine_net.Scheduling.Schedule.{ScheduleError}

-- A trap by the epoch, the `MemoryLimitExceeded` of the limiter, or another error.
pub data WasmError : Type 0 where
  interrupt : WasmError
  memory_limit_exceeded : ℕ → WasmError
  other : Bytes → WasmError

-- Ten seconds.
abbrev pub plugin_load_timeout : ℕ
plugin_load_timeout = 10_000

pub data LoadError : Type 0 where
  read_directory : IoError → LoadError
  read_component : IoError → LoadError
  compile : WasmError → LoadError
  timed_out : ℕ → LoadError
  memory_limit : ℕ → LoadError
  instantiate : WasmError → LoadError

unfoldable pub from_load_call : WasmError → LoadError
from_load_call interrupt = timed_out 10
from_load_call (memory_limit_exceeded limit) = memory_limit limit
from_load_call (other text) = instantiate (other text)

pub data ScheduleEntryError : Type 0 where
  not_listed : ScheduleEntryError
  invalid_cron : ScheduleError → ScheduleEntryError

pub data PluginError : Type 0 where
  load : String → Bytes → LoadError → PluginError
  duplicate_command : DuplicateCommand → PluginError
  invalid_schedule_entry : String → String → ScheduleEntryError → PluginError
  engine : WasmError → PluginError
  ticker : IoError → PluginError
