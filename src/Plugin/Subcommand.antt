-- ===== src/Plugin/Subcommand.antt =====
-- inengine/src/plugins.rs: the registry and the schedule with the loaded plugins, the `plugin`
-- subcommand, and the table of the schedule. serde_json, the cron crate and the texts of errors are
-- parameters.
use Prim.Native.String.{String}
use text.Mathlib.Text.{◌==◌ as str_eq}
use in_engine_net.Prelude.{
  ℕ, zero, suc, ◌-◌, Bool, false, ◌&&◌, ◌||◌, Option, none, some, List, [], ◌∷◌, ◌++◌, Bytes, codes,
  Result, ok, err, leb, if◌then◌else◌,
}
use in_engine_net.Error
use in_engine_net.Error.{CommandError, QueueError}
use in_engine_net.Error.Chain.{error_chain_text}
use in_engine_net.Command.{CommandResult}
use in_engine_net.Queue.Registry.{CommandRegistry, build}
use in_engine_net.Plugin.LoadError.{PluginError}
use in_engine_net.Plugin.Loader.{LoadedPlugin, register_commands, register_schedules}
use in_engine_net.Scheduling.Schedule
use in_engine_net.Scheduling.Schedule.{Schedule, ScheduledJob, jobs}
use in_engine_net.QueueAdmin.Publishing.{fields_of}

-- The text of a JSON object with string values, from its fields in the order given.
unfoldable pub args_to_json : (List (Bytes × Bytes) → Bytes) → List Bytes → Bytes
unfolding fields_of
args_to_json object_text args = object_text (fields_of args)

module _ {Component C : Type 0} (wasm_command : String → Component → String → Bytes → C)
    (builtin : CommandRegistry C) where
  abbrev pub Loader : Type 0
  Loader = Option (List (LoadedPlugin Component))

  abbrev any_plugin : String → List (LoadedPlugin Component) → Bool
  any_plugin name [] = false
  any_plugin name (plugin ∷ plugins) = str_eq plugin.name name || any_plugin name plugins

  abbrev is_loaded : Loader → String → Bool
  is_loaded none name = false
  is_loaded (some plugins) name = any_plugin name plugins

  -- With the errors that are logged.
  unfoldable pub registry_with_plugins : Loader → CommandRegistry C × List PluginError
  unfolding register_commands
  registry_with_plugins none = (builtin, [])
  registry_with_plugins (some plugins) = register_commands wasm_command plugins (builtin, [])

  abbrev run_built :
      {S : Type 0} → (C → S → CommandResult × S) → Result QueueError C → S → CommandResult × S
  run_built run (ok command) s = run command s
  run_built run (err e) s = (err (Error.failed (codes "could not run the plugin command")), s)

  unfoldable pub run_plugin_command :
      {S : Type 0}
      → (C → S → CommandResult × S)
      → (List (Bytes × Bytes) → Bytes)
      → (String → Bytes)
      → Loader
      → String
      → String
      → List Bytes
      → S
      → CommandResult × S
  unfolding registry_with_plugins build args_to_json
  run_plugin_command run object_text string_text plugins plugin_name command_name args s =
      if is_loaded plugins plugin_name
      then run_built run
          (build (registry_with_plugins plugins).0 plugin_name command_name
            (args_to_json object_text args))
          s
      else (
        err (Error.failed (codes "plugin '" ++ string_text plugin_name ++ codes "' is not loaded")),
        s,
      )

  module _ {K : Type 0} (S : Type 0) (from_str : Bytes → Result Bytes K) where
    unfoldable pub schedule_with_plugins : Loader → Schedule C K S × List PluginError
    unfolding Schedule.new register_schedules
    schedule_with_plugins none = (Schedule.new, [])
    schedule_with_plugins (some plugins) =
        register_schedules wasm_command S from_str plugins (Schedule.new, [])

-- The characters of UTF-8 text: every byte but the continuations.
abbrev char_count : Bytes → ℕ
char_count [] = 0
char_count (b ∷ bs) = let rest = char_count bs in if leb 128 b && leb b 191 then rest else suc rest

abbrev spaces : ℕ → Bytes
spaces zero = []
spaces (suc n) = b' ' ∷ spaces n

-- `{:<width}`
abbrev left_aligned : ℕ → Bytes → Bytes
left_aligned width text = text ++ spaces (width - char_count text)

abbrev or_none : Option Bytes → Bytes
or_none none = codes "none"
or_none (some text) = text

abbrev warnings : (PluginError → List Bytes) → List PluginError → Bytes
warnings error_texts [] = []
warnings error_texts (e ∷ errors) =
    codes "warning: " ++ error_chain_text (error_texts e) ++ b'\n' ∷ warnings error_texts errors

module _ {C K S : Type 0} (next_fire_time : K → Option Bytes) where
  abbrev job_line : ScheduledJob C K S → Bytes
  job_line job =
      left_aligned 30 job.name
      ++ left_aligned 25 job.cron_expression
      ++ or_none (next_fire_time job.cron_schedule)
      ++ b'\n' ∷ []

  abbrev job_lines : List (ScheduledJob C K S) → Bytes
  job_lines [] = []
  job_lines (job ∷ rest) = job_line job ++ job_lines rest

  abbrev job_table : List (ScheduledJob C K S) → Bytes
  job_table [] = codes "No scheduled commands.\n"
  job_table (job ∷ rest) =
      left_aligned 30 (codes "Job")
      ++ left_aligned 25 (codes "Cron Expression")
      ++ codes "Next Fire Time\n"
      ++ job_lines (job ∷ rest)

  unfoldable pub render_schedule :
      (PluginError → List Bytes) → Schedule C K S → List PluginError → Bytes
  unfolding jobs error_chain_text
  render_schedule error_texts schedule errors =
      job_table (jobs schedule) ++ warnings error_texts errors
