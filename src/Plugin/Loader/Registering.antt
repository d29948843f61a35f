-- ===== src/Plugin/Loader/Registering.antt =====
-- What `register_commands` and `register_schedules` of inengine-core/src/plugin/loader.rs register.
use Prim.Native.String.{String}
use text.Mathlib.Text.{◌==◌ as str_eq}
use mathlib.Core.List.{append-nil, append_assoc}
use in_engine_net.Prelude.{
  ◌≡◌, refl, sym, ap, ◌∙◌, Bool, true, false, ◌&&◌, Option, none, some, List, [], ◌∷◌, ◌++◌, Bytes,
  Result, ok, err, if◌then◌else◌,
}
use in_engine_net.Error.{DuplicateCommand}
use in_engine_net.Queue.Registry.{
  CommandRegistry, Constructor, register, get, or_else, get-insert_new,
}
use in_engine_net.Scheduling.Schedule
use in_engine_net.Scheduling.Schedule.{ScheduledJob, Schedule}
use in_engine_net.Plugin.LoadError.{PluginError, ScheduleEntryError, invalid_schedule_entry}
use in_engine_net.Plugin.Loader.{
  CommandDescriptor, ScheduleEntry, LoadedPlugin, constructor_of, push_duplicate,
  register_descriptors, register_commands, entry_job, push_job, register_entries,
  register_schedules,
}
use in_engine_net.Plugin.Loader.Loading.{oks, errs, oks-append, errs-append}

-- The first of two, where there is one.
abbrev pub first_of : {V : Type 0} → Option V → Option V → Option V
first_of none second = second
first_of (some v) second = some v

first_of_assoc :
    {V : Type 0} (a b c : Option V) → first_of (first_of a b) c ≡ first_of a (first_of b c)
first_of_assoc none b c = refl
first_of_assoc (some v) b c = refl

first_none : {V : Type 0} (o : Option V) → o ≡ first_of o none
first_none none = refl
first_none (some v) = refl

module _ {Component C : Type 0} (wasm_command : String → Component → String → Bytes → C) where
  abbrev first_if : Bool → Constructor C → Option (Constructor C) → Option (Constructor C)
  first_if true f rest = some f
  first_if false f rest = rest

  -- The first listing of a pair of names among a plugin's commands, and among those of all plugins.
  abbrev pub find_descriptor :
      LoadedPlugin Component → List CommandDescriptor → String → String → Option (Constructor C)
  find_descriptor plugin [] p c = none
  find_descriptor plugin (d ∷ ds) p c =
      first_if (str_eq plugin.name p && str_eq d.name c) (constructor_of wasm_command plugin d)
        (find_descriptor plugin ds p c)

  abbrev pub find_command : List (LoadedPlugin Component) → String → String → Option (Constructor C)
  find_command [] p c = none
  find_command (plugin ∷ plugins) p c =
      first_of (find_descriptor plugin plugin.command_descriptors p c) (find_command plugins p c)

  registry-push_duplicate :
      (p : Result DuplicateCommand (Unit {0}) × CommandRegistry C) (errors : List PluginError)
      → (push_duplicate wasm_command p errors).0 ≡ p.1
  registry-push_duplicate (ok done, r) errors = refl
  registry-push_duplicate (err e, r) errors = refl

  get-register :
      (r : CommandRegistry C) (plugin command p c : String) (f : Constructor C)
      → get (register r plugin command f).1.plugins p c ≡ (
          if str_eq plugin p && str_eq command c
          then or_else (get r.plugins p c) f
          else get r.plugins p c)
  unfolding register
  get-register r plugin command p c f = get-insert_new r.plugins plugin command p c f

  add_first :
      (same : Bool) (before : Option (Constructor C)) (f : Constructor C)
      (rest : Option (Constructor C))
      → first_of (if same then or_else before f else before) rest
        ≡ first_of before (first_if same f rest)
  add_first true none f rest = refl
  add_first true (some v) f rest = refl
  add_first false before f rest = refl

  get-register_descriptors :
      (plugin : LoadedPlugin Component) (ds : List CommandDescriptor) (r : CommandRegistry C)
      (errors : List PluginError) (p c : String)
      → get (register_descriptors wasm_command plugin ds (r, errors)).0.plugins p c
        ≡ first_of (get r.plugins p c) (find_descriptor plugin ds p c)
  unfolding register_descriptors
  get-register_descriptors plugin [] r errors p c = first_none (get r.plugins p c)
  get-register_descriptors plugin (d ∷ ds) r errors p c =
      get-register_descriptors plugin ds (push_duplicate wasm_command registered errors).0
        (push_duplicate wasm_command registered errors).1 p c
      ∙ ap
          (λ (r' : CommandRegistry C).
            first_of (get r'.plugins p c) (find_descriptor plugin ds p c))
          (registry-push_duplicate registered errors)
      ∙ ap (λ o. first_of o (find_descriptor plugin ds p c))
          (get-register r plugin.name d.name p c (constructor_of wasm_command plugin d))
      ∙ add_first (str_eq plugin.name p && str_eq d.name c) (get r.plugins p c)
          (constructor_of wasm_command plugin d) (find_descriptor plugin ds p c)
    where
      registered : Result DuplicateCommand (Unit {0}) × CommandRegistry C
      registered = register r plugin.name d.name (constructor_of wasm_command plugin d)

  -- After the plugins' commands are registered, a pair of names has the constructor that it had
  -- before, if there was one, and otherwise that of the first plugin component in load order, and
  -- its first command, that lists the pair.
  pub get-register_commands :
      (plugins : List (LoadedPlugin Component)) (r : CommandRegistry C) (errors : List PluginError)
      (p c : String)
      → get (register_commands wasm_command plugins (r, errors)).0.plugins p c
        ≡ first_of (get r.plugins p c) (find_command plugins p c)
  unfolding register_commands
  get-register_commands [] r errors p c = first_none (get r.plugins p c)
  get-register_commands (plugin ∷ plugins) r errors p c =
      get-register_commands plugins registered.0 registered.1 p c
      ∙ ap (λ o. first_of o (find_command plugins p c))
          (get-register_descriptors plugin plugin.command_descriptors r errors p c)
      ∙ first_of_assoc (get r.plugins p c) (find_descriptor plugin plugin.command_descriptors p c)
          (find_command plugins p c)
    where
      registered : CommandRegistry C × List PluginError
      registered = register_descriptors wasm_command plugin plugin.command_descriptors (r, errors)

  module _ {K : Type 0} (S : Type 0) (from_str : Bytes → Result Bytes K) where
    abbrev Outcome : Type 0
    Outcome = Result PluginError (ScheduledJob C K S)

    abbrev named_error :
        LoadedPlugin Component
        → ScheduleEntry
        → Result ScheduleEntryError (ScheduledJob C K S)
        → Outcome
    named_error plugin entry (ok job) = ok job
    named_error plugin entry (err e) = err (invalid_schedule_entry plugin.name entry.command_name e)

    -- The result of an entry, which does not depend on the schedule so far.
    abbrev entry_outcome : LoadedPlugin Component → ScheduleEntry → Outcome
    entry_outcome plugin entry =
        named_error plugin entry (entry_job wasm_command S from_str plugin entry Schedule.new)

    abbrev entry_outcomes : LoadedPlugin Component → List ScheduleEntry → List Outcome
    entry_outcomes plugin [] = []
    entry_outcomes plugin (entry ∷ entries) =
        entry_outcome plugin entry ∷ entry_outcomes plugin entries

    abbrev pub schedule_outcomes : List (LoadedPlugin Component) → List Outcome
    schedule_outcomes [] = []
    schedule_outcomes (plugin ∷ plugins) =
        entry_outcomes plugin plugin.schedule_entries ++ schedule_outcomes plugins

    abbrev SoFar : Type 0
    SoFar = Schedule C K S × List PluginError

    abbrev pub with_outcomes : SoFar → List Outcome → SoFar
    with_outcomes (schedule, errors) rs =
        (record { jobs = schedule.jobs ++ oks rs }, errors ++ errs rs)

    entry_job_same :
        (plugin : LoadedPlugin Component) (entry : ScheduleEntry) (schedule : Schedule C K S)
        → entry_job wasm_command S from_str plugin entry schedule
          ≡ entry_job wasm_command S from_str plugin entry Schedule.new
    unfolding entry_job Schedule.command_with_name
    entry_job_same plugin entry schedule = refl

    push_job-outcome :
        (plugin : LoadedPlugin Component) (entry : ScheduleEntry)
        (r : Result ScheduleEntryError (ScheduledJob C K S)) (so_far : SoFar) (rs : List Outcome)
        → with_outcomes (push_job wasm_command S from_str plugin entry r so_far) rs
          ≡ with_outcomes so_far (named_error plugin entry r ∷ rs)
    unfolding Schedule.add
    push_job-outcome plugin entry (ok job) (schedule, errors) rs =
        λ i. (record { jobs = append_assoc schedule.jobs (job ∷ []) (oks rs) i }, errors ++ errs rs)
    push_job-outcome plugin entry (err e) (schedule, errors) rs = λ i. (
      record { jobs = schedule.jobs ++ oks rs },
      append_assoc errors (invalid_schedule_entry plugin.name entry.command_name e ∷ []) (errs rs)
          i,
    )

    with_no_outcomes : (so_far : SoFar) → so_far ≡ with_outcomes so_far []
    with_no_outcomes (schedule, errors) =
        λ i. (record { jobs = sym (append-nil schedule.jobs) i }, sym (append-nil errors) i)

    register_entries-outcomes :
        (plugin : LoadedPlugin Component) (entries : List ScheduleEntry) (so_far : SoFar)
        → register_entries wasm_command S from_str plugin entries so_far
          ≡ with_outcomes so_far (entry_outcomes plugin entries)
    unfolding register_entries
    register_entries-outcomes plugin [] so_far = with_no_outcomes so_far
    register_entries-outcomes plugin (entry ∷ entries) so_far =
        register_entries-outcomes plugin entries (
          push_job wasm_command S from_str plugin entry
            (entry_job wasm_command S from_str plugin entry so_far.0) so_far)
        ∙ push_job-outcome plugin entry (entry_job wasm_command S from_str plugin entry so_far.0)
            so_far (entry_outcomes plugin entries)
        ∙ ap
            (λ r. with_outcomes so_far (named_error plugin entry r ∷ entry_outcomes plugin entries))
            (entry_job_same plugin entry so_far.0)

    with_outcomes-append :
        (so_far : SoFar) (xs ys : List Outcome)
        → with_outcomes (with_outcomes so_far xs) ys ≡ with_outcomes so_far (xs ++ ys)
    with_outcomes-append (schedule, errors) xs ys = λ i. (
      record {
        jobs =
            (append_assoc schedule.jobs (oks xs) (oks ys)
                ∙ ap (schedule.jobs ++◌) (sym (oks-append xs ys)))
              i;
      },
      (append_assoc errors (errs xs) (errs ys) ∙ ap (errors ++◌) (sym (errs-append xs ys))) i,
    )

    -- Each schedule entry of each plugin gives, in order, a job at the end of the schedule or an
    -- error at the end of the errors, and what was there before stays.
    pub register_schedules-outcomes :
        (plugins : List (LoadedPlugin Component)) (so_far : SoFar)
        → register_schedules wasm_command S from_str plugins so_far
          ≡ with_outcomes so_far (schedule_outcomes plugins)
    unfolding register_schedules
    register_schedules-outcomes [] so_far = with_no_outcomes so_far
    register_schedules-outcomes (plugin ∷ plugins) so_far =
        register_schedules-outcomes plugins
          (register_entries wasm_command S from_str plugin plugin.schedule_entries so_far)
        ∙ ap (λ s. with_outcomes s (schedule_outcomes plugins))
            (register_entries-outcomes plugin plugin.schedule_entries so_far)
        ∙ with_outcomes-append so_far (entry_outcomes plugin plugin.schedule_entries)
            (schedule_outcomes plugins)
