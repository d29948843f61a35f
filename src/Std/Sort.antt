-- ===== src/Std/Sort.antt =====
-- `sort` of the standard library, by an order given as a test, as an insertion sort.
use mathlib.Core.Path.{subst}
use mathlib.Core.List.{Perm}
use mathlib.Core.List.Perm
use in_engine_net.Prelude.{
  ◌≡◌, Bool, true, false, inl, inr, List, [], ◌∷◌, if◌then◌else◌, Bool-cases,
}

module _ {ℓ} {A : Type ℓ} (lt : A → A → Bool) where
  unfoldable pub insert_sorted : A → List A → List A
  insert_sorted a [] = a ∷ []
  insert_sorted a (x ∷ xs) = if lt x a then x ∷ insert_sorted a xs else a ∷ x ∷ xs

  unfoldable pub sort : List A → List A
  unfolding insert_sorted
  sort [] = []
  sort (x ∷ xs) = insert_sorted x (sort xs)

-- `P` holds of every member.
abbrev pub All {ℓ κ} : {A : Type ℓ} → (A → Type κ) → List A → Type κ
All P [] = Unit
All P (x ∷ xs) = P x × All P xs

pub All-map {ℓ κ μ} :
    {A : Type ℓ} (P : A → Type κ) (Q : A → Type μ) (xs : List A)
    → ((x : A) → P x → Q x)
    → All P xs
    → All Q xs
All-map P Q [] f h = tt
All-map P Q (x ∷ xs) f h = (f x h.0, All-map P Q xs f h.1)

module _ {ℓ κ} {A : Type ℓ} (lt : A → A → Bool) (P : A → Type κ) where
  pub All-insert_sorted : (a : A) (xs : List A) → P a → All P xs → All P (insert_sorted lt a xs)
  unfolding insert_sorted
  All-insert_sorted a [] p h = (p, tt)
  All-insert_sorted a (x ∷ xs) p h = elim (Bool-cases (lt x a)) [
    | inl e ↦ rw e (h.0, All-insert_sorted a xs p h.1)
    | inr e ↦ rw e (p, h)
  ]

  pub All-sort : (xs : List A) → All P xs → All P (sort lt xs)
  unfolding sort
  All-sort [] h = tt
  All-sort (x ∷ xs) h = All-insert_sorted x (sort lt xs) h.0 (All-sort xs h.1)

  insert_sorted-All : (a : A) (xs : List A) → All P (insert_sorted lt a xs) → P a × All P xs
  unfolding insert_sorted
  insert_sorted-All a [] h = h
  insert_sorted-All a (x ∷ xs) h = elim (Bool-cases (lt x a)) [
    | inl e ↦
        found (insert_sorted-All a xs)
          (subst (λ b. All P (if b then x ∷ insert_sorted lt a xs else a ∷ x ∷ xs)) e h)
    | inr e ↦ subst (λ b. All P (if b then x ∷ insert_sorted lt a xs else a ∷ x ∷ xs)) e h
  ]
    where
      found :
          (All P (insert_sorted lt a xs) → P a × All P xs)
          → P x × All P (insert_sorted lt a xs)
          → P a × (P x × All P xs)
      found go k = let (p, r) = go k.1 in (p, (k.0, r))

  pub sort-All : (xs : List A) → All P (sort lt xs) → All P xs
  unfolding sort
  sort-All [] h = tt
  sort-All (x ∷ xs) h = let (p, k) = insert_sorted-All x (sort lt xs) h in (p, sort-All xs k)

-- No member comes before one that is earlier in the list.
abbrev pub IsSorted {ℓ} : {A : Type ℓ} → (A → A → Bool) → List A → Type 0
IsSorted lt [] = Unit
IsSorted lt (x ∷ xs) = All (λ y. lt y x ≡ false) xs × IsSorted lt xs

module _ {ℓ} {A : Type ℓ} (lt : A → A → Bool) where
  insert_sorted-Perm : (a : A) (xs : List A) → Perm (a ∷ xs) (insert_sorted lt a xs)
  unfolding insert_sorted
  insert_sorted-Perm a [] = Perm.rfl
  insert_sorted-Perm a (x ∷ xs) = elim (Bool-cases (lt x a)) [
    | inl e ↦ rw e (Perm.trans (Perm.swap x a xs) (Perm.cons x (insert_sorted-Perm a xs)))
    | inr e ↦ rw e Perm.rfl
  ]

  pub sort-Perm : (xs : List A) → Perm xs (sort lt xs)
  unfolding sort
  sort-Perm [] = Perm.rfl
  sort-Perm (x ∷ xs) = Perm.trans (Perm.cons x (sort-Perm xs)) (insert_sorted-Perm x (sort lt xs))

-- An order in which one of two comes first only if it comes after no member between them.
module _ {ℓ} {A : Type ℓ} (lt : A → A → Bool) (asymm : (a b : A) → lt a b ≡ true → lt b a ≡ false)
    (back : (a b c : A) → lt b a ≡ false → lt c b ≡ false → lt c a ≡ false) where
  insert_sorted-IsSorted :
      (a : A) (xs : List A) → IsSorted lt xs → IsSorted lt (insert_sorted lt a xs)
  unfolding insert_sorted
  insert_sorted-IsSorted a [] h = (tt, tt)
  insert_sorted-IsSorted a (x ∷ xs) h = elim (Bool-cases (lt x a)) [
    | inl e ↦ rw e (
      All-insert_sorted lt (λ y. lt y x ≡ false) a xs (asymm x a e) h.0,
      insert_sorted-IsSorted a xs h.1,
    )
    | inr e ↦
        rw e (
          (e, All-map (λ y. lt y x ≡ false) (λ y. lt y a ≡ false) xs (λ y k. back a x y e k) h.0),
          h,
        )
  ]

  pub sort-IsSorted : (xs : List A) → IsSorted lt (sort lt xs)
  unfolding sort
  sort-IsSorted [] = tt
  sort-IsSorted (x ∷ xs) = insert_sorted-IsSorted x (sort lt xs) (sort-IsSorted xs)
