-- ===== src/Plugin/Loader/Loading.antt =====
-- What `PluginLoader::load` of inengine-core/src/plugin/loader.rs loads.
use Prim.Native.String.{String}
use in_engine_net.Prelude.{
  ◌≡◌, refl, sym, ap, ◌∙◌, List, [], ◌∷◌, ◌++◌, Bytes, Result, ok, err, map,
}
use mathlib.Core.List.{append-nil, append_assoc}
use in_engine_net.Error.{IoError}
use in_engine_net.Plugin.LoadError.{PluginError, load, read_directory}
use in_engine_net.Plugin.Loader.{
  LoadedPlugin, Host, component_paths, load_component, push_result, load_paths, load_entries,
  load_directory, load_directories, load_all,
}
use in_engine_net.Plugin.Loader.Components.{SortedComponents, sort-SortedComponents}
use in_engine_net.Plugin.Loader.Outcomes.{AllLoads, map-AllLoads}

-- The successes and the failures of a list of results, in order.
module _ {E A : Type 0} where
  abbrev pub oks : List (Result E A) → List A
  oks [] = []
  oks (ok a ∷ rs) = a ∷ oks rs
  oks (err e ∷ rs) = oks rs

  abbrev pub errs : List (Result E A) → List E
  errs [] = []
  errs (ok a ∷ rs) = errs rs
  errs (err e ∷ rs) = e ∷ errs rs

  pub oks-append : (xs ys : List (Result E A)) → oks (xs ++ ys) ≡ oks xs ++ oks ys
  oks-append [] ys = refl
  oks-append (ok a ∷ xs) ys = ap (◌∷◌ a) (oks-append xs ys)
  oks-append (err e ∷ xs) ys = oks-append xs ys

  pub errs-append : (xs ys : List (Result E A)) → errs (xs ++ ys) ≡ errs xs ++ errs ys
  errs-append [] ys = refl
  errs-append (ok a ∷ xs) ys = errs-append xs ys
  errs-append (err e ∷ xs) ys = ap (◌∷◌ e) (errs-append xs ys)

module _ {Component Instance : Type 0} (host : Host Component Instance) where
  abbrev Loaded : Type 0
  Loaded = List (LoadedPlugin Component) × List PluginError

  abbrev Outcome : Type 0
  Outcome = Result PluginError (LoadedPlugin Component)

  -- What a list of results adds.
  abbrev with_outcomes : Loaded → List Outcome → Loaded
  with_outcomes (plugins, errors) rs = (plugins ++ oks rs, errors ++ errs rs)

  -- The results of a directory: its error, or one for each component in path order.
  abbrev pub LoadsDirectory : String → Bytes → Result IoError (List Bytes) → List Outcome → Type 0
  LoadsDirectory name directory (err e) rs = rs ≡ err (load name directory (read_directory e)) ∷ []
  LoadsDirectory name directory (ok names) rs =
      (paths : List Bytes) × SortedComponents directory names paths × AllLoads host name paths rs

  abbrev pub LoadsAll : List (String × Bytes) → List Outcome → Type 0
  LoadsAll [] rs = rs ≡ []
  LoadsAll ((name, directory) ∷ directories) rs =
      (first : List Outcome) × (rest : List Outcome) × (rs ≡ first ++ rest)
      × LoadsDirectory name directory (host.read_dir directory) first
      × LoadsAll directories rest

  -- The results that the loader goes through.
  abbrev directory_outcomes : String → Bytes → Result IoError (List Bytes) → List Outcome
  directory_outcomes name directory (err e) = err (load name directory (read_directory e)) ∷ []
  directory_outcomes name directory (ok names) =
      map (load_component host name) (component_paths host directory names)

  abbrev outcomes : List (String × Bytes) → List Outcome
  outcomes [] = []
  outcomes ((name, directory) ∷ directories) =
      directory_outcomes name directory (host.read_dir directory) ++ outcomes directories

  directory_outcomes-LoadsDirectory :
      (name : String) (directory : Bytes) (r : Result IoError (List Bytes))
      → LoadsDirectory name directory r (directory_outcomes name directory r)
  directory_outcomes-LoadsDirectory name directory (err e) = refl
  directory_outcomes-LoadsDirectory name directory (ok names) = (
    component_paths host directory names,
    sort-SortedComponents directory names,
    map-AllLoads host name (component_paths host directory names),
  )

  outcomes-LoadsAll :
      (directories : List (String × Bytes)) → LoadsAll directories (outcomes directories)
  outcomes-LoadsAll [] = refl
  outcomes-LoadsAll ((name, directory) ∷ directories) = (
    directory_outcomes name directory (host.read_dir directory),
    outcomes directories,
    refl,
    directory_outcomes-LoadsDirectory name directory (host.read_dir directory),
    outcomes-LoadsAll directories,
  )

  push-with_outcomes :
      (r : Outcome) (rs : List Outcome) (loaded : Loaded)
      → with_outcomes (push_result host r loaded) rs ≡ with_outcomes loaded (r ∷ rs)
  push-with_outcomes (ok plugin) rs (plugins, errors) =
      ap (λ l. (l, errors ++ errs rs)) (append_assoc plugins (plugin ∷ []) (oks rs))
  push-with_outcomes (err e) rs (plugins, errors) =
      ap (λ l. (plugins ++ oks rs, l)) (append_assoc errors (e ∷ []) (errs rs))

  load_paths-outcomes :
      (name : String) (paths : List Bytes) (loaded : Loaded)
      → load_paths host name paths loaded
        ≡ with_outcomes loaded (map (load_component host name) paths)
  unfolding load_paths
  load_paths-outcomes name [] (plugins, errors) =
      λ i. (sym (append-nil plugins) i, sym (append-nil errors) i)
  load_paths-outcomes name (path ∷ paths) loaded =
      load_paths-outcomes name paths (push_result host (load_component host name path) loaded)
      ∙ push-with_outcomes (load_component host name path) (map (load_component host name) paths)
          loaded

  load_entries-outcomes :
      (name : String) (directory : Bytes) (r : Result IoError (List Bytes)) (loaded : Loaded)
      → load_entries host name directory r loaded
        ≡ with_outcomes loaded (directory_outcomes name directory r)
  load_entries-outcomes name directory (err e) (plugins, errors) =
      λ i. (sym (append-nil plugins) i, errors ++ load name directory (read_directory e) ∷ [])
  load_entries-outcomes name directory (ok names) loaded =
      load_paths-outcomes name (component_paths host directory names) loaded

  with_outcomes-append :
      (loaded : Loaded) (xs ys : List Outcome)
      → with_outcomes (with_outcomes loaded xs) ys ≡ with_outcomes loaded (xs ++ ys)
  with_outcomes-append (plugins, errors) xs ys = λ i. (
    (append_assoc plugins (oks xs) (oks ys) ∙ ap (plugins ++◌) (sym (oks-append xs ys))) i,
    (append_assoc errors (errs xs) (errs ys) ∙ ap (errors ++◌) (sym (errs-append xs ys))) i,
  )

  load_directories-outcomes :
      (directories : List (String × Bytes)) (loaded : Loaded)
      → load_directories host directories loaded ≡ with_outcomes loaded (outcomes directories)
  unfolding load_directories load_directory
  load_directories-outcomes [] (plugins, errors) =
      λ i. (sym (append-nil plugins) i, sym (append-nil errors) i)
  load_directories-outcomes ((name, directory) ∷ directories) loaded =
      load_directories-outcomes directories
        (load_entries host name directory (host.read_dir directory) loaded)
      ∙ ap (λ l. with_outcomes l (outcomes directories))
          (load_entries-outcomes name directory (host.read_dir directory) loaded)
      ∙ with_outcomes-append loaded (directory_outcomes name directory (host.read_dir directory))
          (outcomes directories)

  -- The loader tries, directory after directory, every entry of each that can be read whose name
  -- ends in `.wasm` after something, in path order: reading, compiling and instantiating it, and
  -- asking the instance for its commands and its schedules. The plugins are those that load, and
  -- the errors are those of the others, with the step that failed, and of the directories that
  -- cannot be read, each in that order.
  pub load_all-LoadsAll :
      (directories : List (String × Bytes))
      → (rs : List Outcome) × LoadsAll directories rs
        × (load_all host directories ≡ (oks rs, errs rs))
  unfolding load_all
  load_all-LoadsAll directories = (
    outcomes directories,
    outcomes-LoadsAll directories,
    load_directories-outcomes directories ([], []),
  )
