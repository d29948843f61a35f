-- ===== src/Queue/Registry.antt =====
-- inengine-core/src/queue/registry.rs: from plugin and command names to constructors. A constructor
-- is a function from a JSON payload; what a built command is, is a parameter.
use Prim.Native.String.{String}
use text.Mathlib.Text.{◌==◌ as str_eq}
use text.Mathlib.TextEquality.{eq_iff}
use in_engine_net.Prelude.{
  ◌≡◌, refl, Bool, true, false, ◌&&◌, not, Option, none, some, [], Bytes, Result, ok, err, ok_or,
  ◌>>=◌, arith, if◌then◌else◌, Option-cases, Bool-cases, inl, inr,
}
use in_engine_net.Prelude.Assoc.{Assoc, lookup, insert, lookup-insert}
use in_engine_net.Error.{QueueError, unknown_command, DuplicateCommand}

abbrev pub Constructor : Type 0 → Type 0
Constructor C = Bytes → Result QueueError C

pub record CommandRegistry (C : Type 0) : Type 0 where
  pub plugins : Assoc (Assoc (Constructor C))

-- The two levels of names, for any values.
module _ {V : Type 0} where
  -- `get(plugin).and_then(|commands| commands.get(command))`
  abbrev pub get_in : Option (Assoc V) → String → Option V
  get_in none command = none
  get_in (some commands) command = lookup command commands

  unfoldable pub get : Assoc (Assoc V) → String → String → Option V
  get plugins plugin command = get_in (lookup plugin plugins) command

  -- `entry(plugin).or_default()`
  abbrev or_default : Option (Assoc V) → Assoc V
  or_default none = []
  or_default (some commands) = commands

  abbrev pub contains_key : Option V → Bool
  contains_key none = false
  contains_key (some v) = true

  -- The flag says whether the pair was free. `entry` puts an empty map in place in either case.
  unfoldable pub insert_new : Assoc (Assoc V) → String → String → V → Bool × Assoc (Assoc V)
  insert_new plugins plugin command v =
      let commands = or_default (lookup plugin plugins) in
      if contains_key (lookup command commands)
      then (false, insert plugin commands plugins)
      else (true, insert plugin (insert command v commands) plugins)

  abbrev pub or_else : Option V → V → Option V
  or_else none v = some v
  or_else (some w) v = some w

  pub get-insert_new :
      (plugins : Assoc (Assoc V)) (plugin command p c : String) (v : V)
      → get (insert_new plugins plugin command v).1 p c ≡ (
          if str_eq plugin p && str_eq command c
          then or_else (get plugins p c) v
          else get plugins p c)
  unfolding get insert_new lookup
  get-insert_new plugins plugin command p c v = elim (Option-cases (lookup plugin plugins)) [
    | inl e ↦ elim (Bool-cases (str_eq plugin p)) [
      | inl h ↦ ground (
        arith,
        eq_iff plugin p,
        lookup-insert plugin p (insert command v []) plugins,
        lookup-insert command c v [],
      )
      | inr h ↦ ground (arith, lookup-insert plugin p (insert command v []) plugins)
    ]
    | inr (commands, e) ↦ elim (Option-cases (lookup command commands)) [
      | inl d ↦ ground (
        arith,
        eq_iff plugin p,
        eq_iff command c,
        lookup-insert plugin p (insert command v commands) plugins,
        lookup-insert command c v commands,
      )
      | inr (g, d) ↦
          ground (arith, eq_iff plugin p, eq_iff command c, lookup-insert plugin p commands plugins)
    ]
  ]

  pub insert_new_free :
      (plugins : Assoc (Assoc V)) (plugin command : String) (v : V)
      → (insert_new plugins plugin command v).0 ≡ not (contains_key (get plugins plugin command))
  unfolding get insert_new lookup
  insert_new_free plugins plugin command v = elim (Option-cases (lookup plugin plugins)) [
    | inl e ↦ ground arith
    | inr (commands, e) ↦ elim (Option-cases (lookup command commands)) [
      | inl d ↦ ground arith
      | inr (g, d) ↦ ground arith
    ]
  ]

if-not : {A : Type 0} (b : Bool) (x y : A) → (if not b then x else y) ≡ (if b then y else x)
if-not true x y = refl
if-not false x y = refl

module _ {C : Type 0} where
  unfoldable pub register :
      CommandRegistry C
      → String
      → String
      → Constructor C
      → Result DuplicateCommand (Unit {0}) × CommandRegistry C
  unfolding insert_new
  register r plugin command constructor =
      let (free, plugins) = insert_new r.plugins plugin command constructor in
      (
        if free then ok tt else err (record { plugin = plugin; command = command }),
        record { plugins = plugins },
      )

  unfoldable pub build : CommandRegistry C → String → String → Bytes → Result QueueError C
  unfolding get
  build r plugin command json = do
    constructor ← ok_or (get r.plugins plugin command) (unknown_command plugin command)
    constructor json

  -- `CommandRegistry::new` registers echo, then exec; the error of a repeated name is a panic.
  unfoldable pub builtin :
      Constructor C → Constructor C → Result DuplicateCommand (CommandRegistry C)
  unfolding register
  builtin echo exec =
      let (first, r) = register (record { plugins = [] }) "inengine-core" "echo" echo in
      let (second, r') = register r "inengine-core" "exec" exec in do _ ← first; _ ← second; ok r'

  -- What `build` does with the constructor that it found.
  abbrev pub apply : String → String → Bytes → Option (Constructor C) → Result QueueError C
  apply plugin command json none = err (unknown_command plugin command)
  apply plugin command json (some f) = f json

  build-apply :
      (r : CommandRegistry C) (plugin command : String) (json : Bytes) (o : Option (Constructor C))
      → get r.plugins plugin command ≡ o
      → build r plugin command json ≡ apply plugin command json o
  unfolding build
  build-apply r plugin command json none e = rw e refl
  build-apply r plugin command json (some f) e = rw e refl

  -- A pair of names that is free takes the constructor, and a pair that is taken answers with the
  -- error of those names and keeps its first constructor; every other pair builds as before.
  pub build-register :
      (r : CommandRegistry C) (plugin command p c : String) (f : Constructor C) (json : Bytes)
      → ((register r plugin command f).0 ≡ (
          if contains_key (get r.plugins plugin command)
          then err (record { plugin = plugin; command = command })
          else ok tt))
        × (build (register r plugin command f).1 p c json
            ≡ apply p c json (
                if str_eq plugin p && str_eq command c
                then or_else (get r.plugins p c) f
                else get r.plugins p c))
  unfolding register
  build-register r plugin command p c f json = (
    rw (insert_new_free r.plugins plugin command f)
        (if-not (contains_key (get r.plugins plugin command)) _ _),
    build-apply (record { plugins = (insert_new r.plugins plugin command f).1 }) p c json _
        (get-insert_new r.plugins plugin command p c f),
  )
