-- ===== src/Plugin/Loader/Components.antt =====
-- Which entries of a directory inengine-core/src/plugin/loader.rs takes for components.
use mathlib.Core.List.{Perm}
use in_engine_net.Prelude.{
  ℕ, suc, ◌-◌, ◌≤◌, ◌≡◌, refl, sym, ap, ◌∙◌, inl, inr, true, false, List, [], ◌∷◌, ◌++◌, Bytes,
  bytes_eq, bytes_eq→eq, bytes_lt, bytes_lt_asymm, bytes_lt_trans, bytes_lt_total, codes, map,
  Bool-cases, arith, length, take, drop, take-append-drop, length-append, ltb,
}
use in_engine_net.Std.Sort.{sort, IsSorted, sort-Perm, sort-IsSorted}
use in_engine_net.Plugin.Loader.{has_wasm_extension, filter_wasm, join}

-- A name that ends in `.wasm`, with something before it.
abbrev pub IsComponentName : Bytes → Type 0
IsComponentName name = (b : ℕ) × (stem : Bytes) × (name ≡ b ∷ stem ++ codes ".wasm")

-- The names of a directory's entries, and the paths of those that are components.
pub data ComponentsOf (directory : Bytes) : List Bytes → List Bytes → Type 0 where
  no_entry : ComponentsOf directory [] []
  component :
      (name : Bytes) (names paths : List Bytes)
      → IsComponentName name
      → ComponentsOf directory names paths
      → ComponentsOf directory (name ∷ names) ((directory ++ b'/' ∷ name) ∷ paths)
  no_component :
      (name : Bytes) (names paths : List Bytes)
      → ¬ IsComponentName name
      → ComponentsOf directory names paths
      → ComponentsOf directory (name ∷ names) paths

drop-append : (p s : Bytes) → drop (length p) (p ++ s) ≡ s
drop-append [] s = refl
drop-append (x ∷ p) s = drop-append p s

named : (name : Bytes) → has_wasm_extension name ≡ true → IsComponentName name
unfolding has_wasm_extension
named [] h = absurd (ground arith)
named (x ∷ xs) h =
    let long : 5 ≤ length xs = ground arith in
    let ends : drop (length (x ∷ xs) - 5) (x ∷ xs) ≡ codes ".wasm" =
      bytes_eq→eq (drop (length (x ∷ xs) - 5) (x ∷ xs)) (codes ".wasm") (ground arith) in
    let at : length (x ∷ xs) - 5 ≡ suc (length xs - 5) = omega arith in
    (
      x,
      take (length xs - 5) xs,
      ap (x ∷◌) (
          sym (take-append-drop (length xs - 5) xs)
          ∙ ap (take (length xs - 5) xs ++◌) (sym (ap (λ n. drop n (x ∷ xs)) at) ∙ ends)),
    )

has_extension : (b : ℕ) (stem : Bytes) → has_wasm_extension (b ∷ stem ++ codes ".wasm") ≡ true
unfolding has_wasm_extension
has_extension b stem =
    let at : length (b ∷ stem ++ codes ".wasm") - 5 ≡ length (b ∷ stem) =
      omega (arith, length-append stem (codes ".wasm")) in
    let long : ltb 5 (length (b ∷ stem ++ codes ".wasm")) ≡ true =
      ground (arith, length-append stem (codes ".wasm")) in
    rw (long, at) (rw (drop-append (b ∷ stem) (codes ".wasm")) refl)

filter_wasm-ComponentsOf :
    (directory : Bytes) (names : List Bytes)
    → ComponentsOf directory names (map (join directory) (filter_wasm names))
filter_wasm-ComponentsOf directory [] = no_entry
filter_wasm-ComponentsOf directory (name ∷ names) =
    let rest = filter_wasm-ComponentsOf directory names in
    elim (Bool-cases (has_wasm_extension name)) [
      | inl e ↦ rw e (component name names _ (named name e) rest)
      | inr e ↦ rw e (no_component name names _ (unnamed e) rest)
    ]
  where
    unnamed : has_wasm_extension name ≡ false → ¬ IsComponentName name
    unnamed e (b, stem, split) = cc (e, split, has_extension b stem)

bytes_lt-back : (a b c : Bytes) → bytes_lt b a ≡ false → bytes_lt c b ≡ false → bytes_lt c a ≡ false
bytes_lt-back a b c h k = elim (Bool-cases (bytes_lt c a)) [
  | inr e ↦ e
  | inl e ↦ elim (Bool-cases (bytes_eq b a)) [
    | inl s ↦ absurd (cc (k, e, bytes_eq→eq b a s))
    | inr s ↦ absurd (cc (k, bytes_lt_trans c a b e (bytes_lt_total b a h s)))
  ]
]

-- The paths of a directory's components, in order.
abbrev pub SortedComponents : Bytes → List Bytes → List Bytes → Type 0
SortedComponents directory names paths =
    (found : List Bytes) × ComponentsOf directory names found
    × Perm found paths
    × IsSorted bytes_lt paths

pub sort-SortedComponents :
    (directory : Bytes) (names : List Bytes)
    → SortedComponents directory names (sort bytes_lt (map (join directory) (filter_wasm names)))
sort-SortedComponents directory names = (
  map (join directory) (filter_wasm names),
  filter_wasm-ComponentsOf directory names,
  sort-Perm bytes_lt (map (join directory) (filter_wasm names)),
  sort-IsSorted bytes_lt bytes_lt_asymm bytes_lt-back (map (join directory) (filter_wasm names)),
)
