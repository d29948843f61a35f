-- ===== src/Plugin/Loader/Outcomes.antt =====
-- What `load_component` of inengine-core/src/plugin/loader.rs makes of a path.
use Prim.Native.String.{String}
use in_engine_net.Prelude.{
  ◌≡◌, refl, List, [], ◌∷◌, Bytes, Result, ok, err, Result-cases, inl, inr, map,
}
use in_engine_net.Error.{IoError}
use in_engine_net.Plugin.LoadError.{
  WasmError, LoadError, read_component, compile, from_load_call, PluginError, load,
}
use in_engine_net.Plugin.Loader.{CommandDescriptor, LoadedPlugin, Host, load_component}

module _ {Component Instance : Type 0} (host : Host Component Instance) where
  abbrev Outcome : Type 0
  Outcome = Result PluginError (LoadedPlugin Component)

  -- Why a component does not load.
  pub data Fails (path : Bytes) : LoadError → Type 0 where
    not_read : (x : IoError) → host.read path ≡ err x → Fails path (read_component x)
    not_compiled :
        (bytes : Bytes) (x : WasmError)
        → host.read path ≡ ok bytes
        → host.compile bytes ≡ err x
        → Fails path (compile x)
    not_instantiated :
        (bytes : Bytes) (c : Component) (x : WasmError)
        → host.read path ≡ ok bytes
        → host.compile bytes ≡ ok c
        → host.instantiate c ≡ err x
        → Fails path (from_load_call x)
    no_commands :
        (bytes : Bytes) (c : Component) (i : Instance) (x : WasmError)
        → host.read path ≡ ok bytes
        → host.compile bytes ≡ ok c
        → host.instantiate c ≡ ok i
        → (host.list_commands i).0 ≡ err x
        → Fails path (from_load_call x)
    no_schedules :
        (bytes : Bytes) (c : Component) (i i' : Instance) (ds : List CommandDescriptor)
        (x : WasmError)
        → host.read path ≡ ok bytes
        → host.compile bytes ≡ ok c
        → host.instantiate c ≡ ok i
        → host.list_commands i ≡ (ok ds, i')
        → (host.list_schedules i').0 ≡ err x
        → Fails path (from_load_call x)

  -- A plugin is the compiled component of the path, with the commands and the schedules that its
  -- instance lists; a failure names the plugin, the path and why.
  abbrev pub Loads : String → Bytes → Outcome → Type 0
  Loads name path (ok plugin) =
      (plugin.name ≡ name)
      × (plugin.path ≡ path)
      × (bytes : Bytes) × (host.read path ≡ ok bytes)
      × (host.compile bytes ≡ ok plugin.component)
      × (i : Instance) × (host.instantiate plugin.component ≡ ok i)
      × (i' : Instance) × (host.list_commands i ≡ (ok plugin.command_descriptors, i'))
      × ((host.list_schedules i').0 ≡ ok plugin.schedule_entries)
  Loads name path (err e) = (x : LoadError) × (e ≡ load name path x) × Fails path x

  -- One result for each path, in order.
  abbrev pub AllLoads : String → List Bytes → List Outcome → Type 0
  AllLoads name [] [] = Unit {0}
  AllLoads name (path ∷ paths) (r ∷ rs) = Loads name path r × AllLoads name paths rs
  AllLoads name [] (r ∷ rs) = ⊥
  AllLoads name (path ∷ paths) [] = ⊥

  load_component-Loads :
      (name : String) (path : Bytes) → Loads name path (load_component host name path)
  unfolding load_component
  load_component-Loads name path = elim (Result-cases (host.read path)) [
    | inr (x, e0) ↦ rw e0 (read_component x, refl, not_read x e0)
    | inl (bytes, e0) ↦ elim (Result-cases (host.compile bytes)) [
      | inr (x, e1) ↦ rw (e0, e1) (compile x, refl, not_compiled bytes x e0 e1)
      | inl (c, e1) ↦ elim (Result-cases (host.instantiate c)) [
        | inr (x, e2) ↦
            rw (e0, e1, e2) (from_load_call x, refl, not_instantiated bytes c x e0 e1 e2)
        | inl (i, e2) ↦ elim (Result-cases (host.list_commands i).0) [
          | inr (x, e3) ↦
              rw (e0, e1, e2, e3) (from_load_call x, refl, no_commands bytes c i x e0 e1 e2 e3)
          | inl (ds, e3) ↦ elim (Result-cases (host.list_schedules (host.list_commands i).1).0) [
            | inr (x, e4) ↦
                rw (e0, e1, e2, e3, e4)
                  (
                    from_load_call x,
                    refl,
                    no_schedules bytes c i (host.list_commands i).1 ds x e0 e1 e2
                        (λ j. (e3 j, (host.list_commands i).1)) e4,
                  )
            | inl (ss, e4) ↦
                rw (e0, e1, e2, e3, e4)
                  (
                    refl,
                    refl,
                    bytes,
                    e0,
                    e1,
                    i,
                    e2,
                    (host.list_commands i).1,
                    (λ j. (e3 j, (host.list_commands i).1)),
                    e4,
                  )
          ]
        ]
      ]
    ]
  ]

  pub map-AllLoads :
      (name : String) (paths : List Bytes)
      → AllLoads name paths (map (load_component host name) paths)
  map-AllLoads name [] = tt
  map-AllLoads name (path ∷ paths) = (load_component-Loads name path, map-AllLoads name paths)
