-- ===== src/Base/Sort.antt =====
-- Sorting as the code uses it: `slices.Sort`, `slices.SortFunc`, `sort.SliceStable`.
use mathlib.Core.Path.{◌≡◌, refl, sym, ap, ◌∙◌}
use mathlib.Core.Logic.{inl, inr, ◌↔◌}
use native.Mathlib.Omega.{arith}
use Prim.Native.Nat.{suc}
use mathlib.Core.Bool.{Bool, true, false}
use mathlib.Core.List.{List, [], ◌∷◌}
use deep_agent_cli.Base.Tests.{if◌then◌else◌, Bool-cases}
use deep_agent_cli.Base.Lists.{In, All, length, All-map, Unique}

-- Equal elements keep their order, as `sort.SliceStable` promises; `slices.SortFunc` leaves the
-- order of equal elements open.
module _ {ℓ} {A : Type ℓ} (le : A → A → Bool) where
  unfoldable pub insert : A → List A → List A
  insert a [] = a ∷ []
  insert a (x ∷ xs) = if le a x then a ∷ x ∷ xs else x ∷ insert a xs

  unfoldable pub sort : List A → List A
  unfolding insert
  sort [] = []
  sort (x ∷ xs) = insert x (sort xs)

  abbrev pub IsSorted : List A → Type 0
  IsSorted [] = Unit {0}
  IsSorted (x ∷ xs) = All (λ y. le x y ≡ true) xs × IsSorted xs

module _ {A : Type 0} (le : A → A → Bool) where
  In-insert :
      (a x : A) (xs : List A)
      → (In a (insert le x xs) → In a (x ∷ xs)) × (In a (x ∷ xs) → In a (insert le x xs))
  unfolding insert
  In-insert a x [] = (λ h. h, λ h. h)
  In-insert a x (y ∷ xs) = elim (Bool-cases (le x y)) [
    | inl e ↦ rw e (λ h. h, λ h. h)
    | inr e ↦ rw e (ground (arith, In-insert a x xs))
  ]

  -- Sorting neither adds nor drops an element.
  pub In-sort : (a : A) (xs : List A) → In a (sort le xs) ↔ In a xs
  unfolding sort
  In-sort a [] = (λ h. h, λ h. h)
  In-sort a (x ∷ xs) = ground (arith, In-insert a x (sort le xs), In-sort a xs)

  length-insert : (x : A) (xs : List A) → length (insert le x xs) ≡ suc (length xs)
  unfolding insert
  length-insert x [] = refl
  length-insert x (y ∷ xs) = ground (arith, length-insert x xs)

  pub length-sort : (xs : List A) → length (sort le xs) ≡ length xs
  unfolding sort
  length-sort [] = refl
  length-sort (x ∷ xs) = length-insert x (sort le xs) ∙ ap suc (length-sort xs)

  All-insert {κ} : (P : A → Type κ) (x : A) (xs : List A) → P x → All P xs → All P (insert le x xs)
  unfolding insert
  All-insert P x [] p h = (p, h)
  All-insert P x (y ∷ xs) p h = elim (Bool-cases (le x y)) [
    | inl e ↦ rw e (p, h)
    | inr e ↦ rw e (h.0, All-insert P x xs p h.1)
  ]

  pub All-sort {κ} : (P : A → Type κ) (xs : List A) → All P xs → All P (sort le xs)
  unfolding sort
  All-sort P [] h = h
  All-sort P (x ∷ xs) h = All-insert P x (sort le xs) h.0 (All-sort P xs h.1)

-- The laws of a comparison that sorts: any two elements compare, and comparisons chain.
pub record IsOrder {A : Type 0} (le : A → A → Bool) : Type 0 where
  pub total : (a b : A) → le a b ≡ false → le b a ≡ true
  pub trans : (a b c : A) → le a b ≡ true → le b c ≡ true → le a c ≡ true

module _ {A : Type 0} (le : A → A → Bool) (o : IsOrder le) where
  insert-IsSorted : (x : A) (xs : List A) → IsSorted le xs → IsSorted le (insert le x xs)
  unfolding insert
  insert-IsSorted x [] h = (tt, tt)
  insert-IsSorted x (y ∷ xs) h = elim (Bool-cases (le x y)) [
    | inl e ↦ rw e ((e, All-map (λ b p. o.trans x y b e p) xs h.0), h)
    | inr e ↦
        rw e (All-insert le (λ b. le y b ≡ true) x xs (o.total x y e) h.0, insert-IsSorted x xs h.1)
  ]

  -- Sorting by a total order yields a sorted list.
  pub sort-IsSorted : (xs : List A) → IsSorted le (sort le xs)
  unfolding sort
  sort-IsSorted [] = tt
  sort-IsSorted (x ∷ xs) = insert-IsSorted x (sort le xs) (sort-IsSorted xs)

module _ {A : Type 0} (le : A → A → Bool) where
  insert-Unique : (x : A) (xs : List A) → Unique xs → (¬ In x xs) → Unique (insert le x xs)
  unfolding insert
  insert-Unique x [] u h = (λ i. i, tt)
  insert-Unique x (y ∷ xs) u h = elim (Bool-cases (le x y)) [
    | inl e ↦ rw e (h, u)
    | inr e ↦ rw e (
      λ i. elim ((In-insert le y x xs).0 i) [ inl p ↦ h (inl (sym p)) | inr j ↦ u.0 j ],
      insert-Unique x xs u.1 (λ i. h (inr i)),
    )
  ]

  pub sort-Unique : (xs : List A) → Unique xs → Unique (sort le xs)
  unfolding sort
  sort-Unique [] u = tt
  sort-Unique (x ∷ xs) u =
      insert-Unique x (sort le xs) (sort-Unique xs u.1) (λ i. u.0 ((In-sort le x xs).0 i))

-- Each element is related to all the later ones.
abbrev pub InOrder : {A : Type 0} → (A → A → Type 0) → List A → Type 0
InOrder R [] = Unit
InOrder R (x ∷ xs) = All (R x) xs × InOrder R xs

pub IsSorted-InOrder :
    {A : Type 0} (le : A → A → Bool) (R : A → A → Type 0)
    → ((a b : A) → le a b ≡ true → R a b)
    → (xs : List A) → IsSorted le xs
    → InOrder R xs
IsSorted-InOrder le R f [] h = tt
IsSorted-InOrder le R f (x ∷ xs) h = (All-map (f x) xs h.0, IsSorted-InOrder le R f xs h.1)
