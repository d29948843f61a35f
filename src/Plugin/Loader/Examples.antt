-- ===== src/Plugin/Loader/Examples.antt =====
-- Runs of inengine-core/src/plugin/loader.rs on a sample host.
use Prim.Native.String.{String}
use in_engine_net.Prelude.{
  ℕ, ◌≡◌, refl, List, [], ◌∷◌, Bytes, bytes_eq, bytes_lt, codes, Result, ok, err, if◌then◌else◌,
}
use in_engine_net.Std.Sort.{sort}
use in_engine_net.Error.{not_found}
use in_engine_net.Queue.Registry.{CommandRegistry, get}
use in_engine_net.Scheduling.Schedule
use in_engine_net.Plugin.LoadError.{
  PluginError, other, load, read_directory, compile, invalid_schedule_entry, not_listed,
}
use in_engine_net.Plugin.Loader.{
  LoadedPlugin, Host, load_all, register_commands, register_schedules,
}
use in_engine_net.Plugin.Loader.Loading.{oks, errs, LoadsAll, load_all-LoadsAll}
use in_engine_net.Plugin.Loader.Registering.{
  first_of, find_command, get-register_commands, schedule_outcomes, with_outcomes,
  register_schedules-outcomes,
}

-- A directory with two components, of which one does not compile, and a missing directory.
abbrev host : Host Bytes Bytes
host = record {
  read_dir = λ directory.
      if bytes_eq directory (codes "plugins")
      then ok (codes "notes.txt" ∷ codes "b.wasm" ∷ codes "a.wasm" ∷ codes ".wasm" ∷ [])
      else err not_found;
  read = λ path. ok path;
  compile = λ bytes.
      if bytes_eq bytes (codes "plugins/a.wasm") then err (other (codes "bad")) else ok bytes;
  instantiate = λ component. ok component;
  list_commands = λ i. (ok (record { name = "greet"; help_text = [] } ∷ []), i);
  list_schedules = λ i. (
    ok (
        record { command_name = "greet"; cron_expression = codes "0 0 * * * *" }
        ∷ record { command_name = "leave"; cron_expression = codes "0 0 * * * *" }
        ∷ []),
    i,
  );
}

abbrev directories : List (String × Bytes)
directories = ("tools", codes "plugins") ∷ ("gone", codes "missing") ∷ []

load_all-LoadsAll_example :
    (rs : List (Result PluginError (LoadedPlugin Bytes))) × LoadsAll host directories rs
    × (load_all host directories ≡ (oks rs, errs rs))
load_all-LoadsAll_example = load_all-LoadsAll host directories

abbrev plugin : LoadedPlugin Bytes
plugin = record {
  name = "tools";
  path = codes "plugins/b.wasm";
  component = codes "plugins/b.wasm";
  command_descriptors = record { name = "greet"; help_text = [] } ∷ [];
  schedule_entries =
      record { command_name = "greet"; cron_expression = codes "0 0 * * * *" }
      ∷ record { command_name = "leave"; cron_expression = codes "0 0 * * * *" }
      ∷ [];
}

loads_one : load_all host directories ≡ (
  plugin ∷ [],
  load "tools" (codes "plugins/a.wasm") (compile (other (codes "bad")))
      ∷ load "gone" (codes "missing") (read_directory not_found)
      ∷ [],
)
unfolding load_all bytes_eq sort bytes_lt
loads_one = refl

-- A command is its arguments.
abbrev wasm_command : String → Bytes → String → Bytes → Bytes
wasm_command name component command json = json

abbrev empty_registry : CommandRegistry Bytes
empty_registry = record { plugins = [] }

get-register_commands_example :
    get
      (register_commands wasm_command (plugin ∷ []) (empty_registry, [])).0.plugins
      "tools"
      "greet"
    ≡ first_of
        (get empty_registry.plugins "tools" "greet")
        (find_command wasm_command (plugin ∷ []) "tools" "greet")
get-register_commands_example =
    get-register_commands wasm_command (plugin ∷ []) empty_registry [] "tools" "greet"

register_schedules-outcomes_example :
    register_schedules wasm_command ℕ (λ e. ok e) (plugin ∷ []) (Schedule.new, [])
    ≡ with_outcomes wasm_command ℕ
        (λ e. ok e)
        (Schedule.new, [])
        (schedule_outcomes wasm_command ℕ (λ e. ok e) (plugin ∷ []))
register_schedules-outcomes_example =
    register_schedules-outcomes wasm_command ℕ (λ e. ok e) (plugin ∷ []) (Schedule.new, [])

-- The entry of a command that is not listed is an error.
registers_one :
    (register_schedules wasm_command ℕ (λ e. ok e) (plugin ∷ []) (Schedule.new, [])).1
    ≡ invalid_schedule_entry "tools" "leave" not_listed ∷ []
unfolding register_schedules bytes_eq
registers_one = refl
