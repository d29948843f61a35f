-- ===== src/Prelude/Assoc.antt =====
-- `HashMap<String, V>` as an association list: only lookups and insertions are used, so the order
-- of the entries never shows.
use Prim.Native.String.{String}
use mathlib.Core.Path.{◌≡◌, refl}
use mathlib.Core.Option.{Option, none, some}
use mathlib.Core.List.{List, [], ◌∷◌}
use native.Mathlib.Omega.{arith}
use text.Mathlib.Text.{◌==◌ as str_eq}
use text.Mathlib.TextEquality.{eq_iff}
use in_engine_net.Prelude.Tests.{if◌then◌else◌}

abbrev pub Assoc {ℓ} : Type ℓ → Type ℓ
Assoc V = List (String × V)

module _ {ℓ} {V : Type ℓ} where
  unfoldable pub lookup : String → Assoc V → Option V
  lookup key [] = none
  lookup key ((name, value) ∷ entries) = if str_eq name key then some value else lookup key entries

  unfoldable pub insert : String → V → Assoc V → Assoc V
  insert key new [] = (key, new) ∷ []
  insert key new ((name, value) ∷ entries) =
      let rest = insert key new entries in
      if str_eq name key then (key, new) ∷ entries else (name, value) ∷ rest

  -- An insertion answers for its own key, and for no other.
  pub lookup-insert :
      (key other : String) (new : V) (entries : Assoc V)
      → lookup other (insert key new entries)
        ≡ (if str_eq key other then some new else lookup other entries)
  unfolding lookup insert
  lookup-insert key other new [] = refl
  lookup-insert key other new ((name, value) ∷ entries) = ground (
    arith,
    lookup-insert key other new entries,
    eq_iff name other,
    eq_iff name key,
    eq_iff key other,
  )
