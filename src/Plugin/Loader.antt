-- ===== src/Plugin/Loader.antt =====
-- inengine-core/src/plugin/loader.rs. The WebAssembly engine and the file system are parameters; an
-- instance carries its store. The map of the settings is a list, in the order of its iteration.
pub mod Components
pub mod Outcomes
pub mod Loading
pub mod Registering
mod Examples
use Prim.Native.String.{String}
use text.Mathlib.Text.{◌==◌ as str_eq}
use in_engine_net.Prelude.{
  ℕ, Bool, true, false, ◌&&◌, ◌||◌, ◌==◌, ◌<◌, Option, none, some, List, [], ◌∷◌, ◌++◌, Bytes,
  bytes_eq, bytes_lt, codes, Result, ok, err, ◌>>=◌, map_err, map, if◌then◌else◌, length, drop, ltb,
  ◌-◌,
}
use in_engine_net.Error.{IoError, QueueError, DuplicateCommand}
use in_engine_net.Std.Sort.{sort}
use in_engine_net.Std.Utf8.{as_bytes}
use in_engine_net.Queue.Registry.{CommandRegistry, Constructor, register}
use in_engine_net.Scheduling.Schedule.{
  ScheduleError, ScheduledJob, Schedule, command_with_name, cron, add,
}
use in_engine_net.Plugin.LoadError.{
  WasmError, LoadError, read_directory, read_component, compile, from_load_call, ScheduleEntryError,
  not_listed, invalid_cron, PluginError, load, duplicate_command, invalid_schedule_entry,
}

pub record CommandDescriptor : Type 0 where
  pub name : String
  pub help_text : Bytes

pub record ScheduleEntry : Type 0 where
  pub command_name : String
  pub cron_expression : Bytes

pub record LoadedPlugin (Component : Type 0) : Type 0 where
  pub name : String
  pub path : Bytes
  pub component : Component
  pub command_descriptors : List CommandDescriptor
  pub schedule_entries : List ScheduleEntry

abbrev pub any_named : String → List CommandDescriptor → Bool
any_named command [] = false
any_named command (d ∷ ds) = str_eq d.name command || any_named command ds

unfoldable pub lists_command : {Component : Type 0} → LoadedPlugin Component → String → Bool
lists_command plugin command = any_named command plugin.command_descriptors

-- What the loader asks of the engine and the file system. A directory gives the names of its
-- entries.
pub record Host (Component Instance : Type 0) : Type 0 where
  pub read_dir : Bytes → Result IoError (List Bytes)
  pub read : Bytes → Result IoError Bytes
  pub compile : Bytes → Result WasmError Component
  pub instantiate : Component → Result WasmError Instance
  pub list_commands : Instance → Result WasmError (List CommandDescriptor) × Instance
  pub list_schedules : Instance → Result WasmError (List ScheduleEntry) × Instance

-- `path.extension() == Some("wasm")`: the name has a dot after its first byte, and ends so.
unfoldable pub has_wasm_extension : Bytes → Bool
unfolding bytes_eq
has_wasm_extension name =
    ltb 5 (length name) && bytes_eq (drop (length name - 5) name) (codes ".wasm")

abbrev pub filter_wasm : List Bytes → List Bytes
filter_wasm [] = []
filter_wasm (name ∷ names) =
    let rest = filter_wasm names in if has_wasm_extension name then name ∷ rest else rest

abbrev pub join : Bytes → Bytes → Bytes
join directory name = directory ++ b'/' ∷ name

module _ {Component Instance : Type 0} (host : Host Component Instance) where
  -- The calls of `load_component`; the store's deadline is part of the host.
  abbrev listed :
      String
      → Bytes
      → Component
      → Result WasmError (List CommandDescriptor) × Instance
      → Result LoadError (LoadedPlugin Component)
  listed name path component (commands, i) = do
    command_descriptors ← map_err from_load_call commands
    schedule_entries ← map_err from_load_call (host.list_schedules i).0
    ok (record {
      name = name;
      path = path;
      component = component;
      command_descriptors = command_descriptors;
      schedule_entries = schedule_entries;
    })

  unfoldable pub load_component : String → Bytes → Result PluginError (LoadedPlugin Component)
  unfolding from_load_call
  load_component name path =
      map_err (λ e. load name path e)
        (do
          bytes ← map_err read_component (host.read path)
          component ← map_err compile (host.compile bytes)
          i ← map_err from_load_call (host.instantiate component)
          listed name path component (host.list_commands i))

  -- The plugins and the errors so far.
  abbrev pub Loaded : Type 0
  Loaded = List (LoadedPlugin Component) × List PluginError

  abbrev pub push_result : Result PluginError (LoadedPlugin Component) → Loaded → Loaded
  push_result (ok plugin) (plugins, errors) = (plugins ++ plugin ∷ [], errors)
  push_result (err e) (plugins, errors) = (plugins, errors ++ e ∷ [])

  unfoldable pub load_paths : String → List Bytes → Loaded → Loaded
  unfolding load_component
  load_paths name [] loaded = loaded
  load_paths name (path ∷ paths) loaded =
      load_paths name paths (push_result (load_component name path) loaded)

  -- The paths of a directory's components, sorted.
  abbrev pub component_paths : Bytes → List Bytes → List Bytes
  component_paths directory names = sort bytes_lt (map (join directory) (filter_wasm names))

  abbrev pub load_entries : String → Bytes → Result IoError (List Bytes) → Loaded → Loaded
  load_entries name directory (err e) (plugins, errors) =
      (plugins, errors ++ load name directory (read_directory e) ∷ [])
  load_entries name directory (ok names) loaded =
      load_paths name (component_paths directory names) loaded

  unfoldable pub load_directory : String → Bytes → Loaded → Loaded
  unfolding load_paths has_wasm_extension
  load_directory name directory loaded =
      load_entries name directory (host.read_dir directory) loaded

  unfoldable pub load_directories : List (String × Bytes) → Loaded → Loaded
  unfolding load_directory
  load_directories [] loaded = loaded
  load_directories ((name, directory) ∷ directories) loaded =
      load_directories directories (load_directory name directory loaded)

  -- `PluginLoader::load`
  unfoldable pub load_all : List (String × Bytes) → Loaded
  unfolding load_directories
  load_all directories = load_directories directories ([], [])

-- `C` is the type of commands; `wasm_command` makes one from its plugin, component, name and
-- arguments.
module _ {Component C : Type 0} (wasm_command : String → Component → String → Bytes → C) where
  abbrev pub Registered : Type 0
  Registered = CommandRegistry C × List PluginError

  abbrev pub constructor_of : LoadedPlugin Component → CommandDescriptor → Constructor C
  constructor_of plugin descriptor json =
      ok (wasm_command plugin.name plugin.component descriptor.name json)

  abbrev pub push_duplicate :
      Result DuplicateCommand (Unit {0}) × CommandRegistry C → List PluginError → Registered
  push_duplicate (ok done, r) errors = (r, errors)
  push_duplicate (err duplicate, r) errors = (r, errors ++ duplicate_command duplicate ∷ [])

  unfoldable pub register_descriptors :
      LoadedPlugin Component → List CommandDescriptor → Registered → Registered
  unfolding register
  register_descriptors plugin [] registered = registered
  register_descriptors plugin (d ∷ ds) (r, errors) =
      register_descriptors plugin ds
        (push_duplicate (register r plugin.name d.name (constructor_of plugin d)) errors)

  unfoldable pub register_commands : List (LoadedPlugin Component) → Registered → Registered
  unfolding register_descriptors
  register_commands [] registered = registered
  register_commands (plugin ∷ plugins) registered =
      register_commands plugins (register_descriptors plugin plugin.command_descriptors registered)

  module _ {K : Type 0} (S : Type 0) (from_str : Bytes → Result Bytes K) where
    abbrev pub ScheduledSoFar : Type 0
    ScheduledSoFar = Schedule C K S × List PluginError

    -- A job for a listed command, with no arguments.
    unfoldable pub entry_job :
        LoadedPlugin Component
        → ScheduleEntry
        → Schedule C K S
        → Result ScheduleEntryError (ScheduledJob C K S)
    unfolding command_with_name cron lists_command
    entry_job plugin entry schedule =
        if lists_command plugin entry.command_name
        then map_err invalid_cron (
            cron S from_str
              (command_with_name schedule
                (as_bytes plugin.name ++ codes "::" ++ as_bytes entry.command_name)
                (wasm_command plugin.name plugin.component entry.command_name (codes "{}")))
              entry.cron_expression)
        else err not_listed

    abbrev pub push_job :
        LoadedPlugin Component
        → ScheduleEntry
        → Result ScheduleEntryError (ScheduledJob C K S)
        → ScheduledSoFar
        → ScheduledSoFar
    push_job plugin entry (ok job) (schedule, errors) = (add schedule job, errors)
    push_job plugin entry (err e) (schedule, errors) =
        (schedule, errors ++ invalid_schedule_entry plugin.name entry.command_name e ∷ [])

    unfoldable pub register_entries :
        LoadedPlugin Component → List ScheduleEntry → ScheduledSoFar → ScheduledSoFar
    unfolding entry_job add
    register_entries plugin [] so_far = so_far
    register_entries plugin (entry ∷ entries) so_far =
        register_entries plugin entries
          (push_job plugin entry (entry_job plugin entry so_far.0) so_far)

    unfoldable pub register_schedules :
        List (LoadedPlugin Component) → ScheduledSoFar → ScheduledSoFar
    unfolding register_entries
    register_schedules [] so_far = so_far
    register_schedules (plugin ∷ plugins) so_far =
        register_schedules plugins (register_entries plugin plugin.schedule_entries so_far)
