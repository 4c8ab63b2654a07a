-- ===== src/Base/Sort.antt =====
-- A stable sort by a Boolean order, and counting by a test.
use Prim.Native.Nat.{ℕ, suc, ◌+◌}
use mathlib.Core.Path.{◌≡◌, refl, ap, ◌∙◌}
use mathlib.Core.Logic.{◌⊎◌, inl, inr}
use mathlib.Core.Bool.{Bool, true, false}
use mathlib.Core.List.{List, [], ◌∷◌, ◌++◌}
use native.Mathlib.Omega.{arith}
use ai_soc.Base.Tests.{if◌then◌else◌, Bool-cases}
use ai_soc.Base.Lists.{IsIn, length, filter}

module _ {A : Type 0} where
  abbrev pub insert_by : (A → A → Bool) → A → List A → List A
  insert_by le x [] = x ∷ []
  insert_by le x (y ∷ ys) = let rest = insert_by le x ys in if le x y then x ∷ y ∷ ys else y ∷ rest

  unfoldable pub sort_by : (A → A → Bool) → List A → List A
  sort_by le [] = []
  sort_by le (x ∷ xs) = insert_by le x (sort_by le xs)

  abbrev pub count_if : (A → Bool) → List A → ℕ
  count_if p [] = 0
  count_if p (x ∷ xs) = let rest = count_if p xs in if p x then suc rest else rest

  -- Each element is in order with the next.
  abbrev pub IsSortedBy : (A → A → Bool) → List A → Type 0
  IsSortedBy le [] = Unit
  IsSortedBy le (x ∷ []) = Unit
  IsSortedBy le (x ∷ y ∷ ys) = (le x y ≡ true) × IsSortedBy le (y ∷ ys)

  pub count_if-insert_by :
      (p : A → Bool) (le : A → A → Bool) (x : A) (xs : List A)
      → count_if p (insert_by le x xs) ≡ count_if p (x ∷ xs)
  count_if-insert_by p le x [] = refl
  count_if-insert_by p le x (y ∷ ys) = ground (arith, count_if-insert_by p le x ys)

  pub count_if-sort_by :
      (p : A → Bool) (le : A → A → Bool) (xs : List A) → count_if p (sort_by le xs) ≡ count_if p xs
  unfolding sort_by
  count_if-sort_by p le [] = refl
  count_if-sort_by p le (x ∷ xs) =
      count_if-insert_by p le x (sort_by le xs)
      ∙ ap (λ (n : ℕ). if p x then suc n else n) (count_if-sort_by p le xs)

  pub count_if-append :
      (p : A → Bool) (xs ys : List A) → count_if p (xs ++ ys) ≡ count_if p xs + count_if p ys
  count_if-append p [] ys = omega arith
  count_if-append p (x ∷ xs) ys = ground (arith, count_if-append p xs ys)

  module _ (le : A → A → Bool) (total : (x y : A) → le x y ≡ false → le y x ≡ true) where
    insert_by-IsSortedBy :
        (x : A) (xs : List A) → IsSortedBy le xs → IsSortedBy le (insert_by le x xs)
    insert_by-IsSortedBy x [] h = tt
    insert_by-IsSortedBy x (y ∷ []) h = ground (arith, total x y)
    insert_by-IsSortedBy x (y ∷ z ∷ zs) h =
        ground (arith, h, total x y, insert_by-IsSortedBy x (z ∷ zs) h.1)

    pub sort_by-IsSortedBy : (xs : List A) → IsSortedBy le (sort_by le xs)
    unfolding sort_by
    sort_by-IsSortedBy [] = tt
    sort_by-IsSortedBy (x ∷ xs) = insert_by-IsSortedBy x (sort_by le xs) (sort_by-IsSortedBy xs)

  pub IsIn-insert_by :
      (le : A → A → Bool) (a x : A) (xs : List A) → IsIn a (insert_by le x xs) → IsIn a (x ∷ xs)
  IsIn-insert_by le a x [] h = h
  IsIn-insert_by le a x (y ∷ ys) h = elim (Bool-cases (le x y)) [
    | inl before ↦ rw before at h
    | inr after ↦ later (rw after at h) (IsIn-insert_by le a x ys)
  ]
    where
      later :
          (y ≡ a) ⊎ IsIn a (insert_by le x ys)
          → (IsIn a (insert_by le x ys) → IsIn a (x ∷ ys))
          → IsIn a (x ∷ y ∷ ys)
      later (inl e) ih = inr (inl e)
      later (inr m) ih = elim (ih m) [ inl e ↦ inl e | inr k ↦ inr (inr k) ]

  insert_by-IsIn :
      (le : A → A → Bool) (a x : A) (xs : List A) → IsIn a (x ∷ xs) → IsIn a (insert_by le x xs)
  insert_by-IsIn le a x [] h = h
  insert_by-IsIn le a x (y ∷ ys) h = elim (Bool-cases (le x y)) [
    | inl before ↦ rw before h
    | inr after ↦ rw after (later h (insert_by-IsIn le a x ys))
  ]
    where
      later :
          IsIn a (x ∷ y ∷ ys)
          → (IsIn a (x ∷ ys) → IsIn a (insert_by le x ys))
          → (y ≡ a) ⊎ IsIn a (insert_by le x ys)
      later (inl e) ih = inr (ih (inl e))
      later (inr (inl e)) ih = inl e
      later (inr (inr m)) ih = inr (ih (inr m))

  pub IsIn-sort_by : (le : A → A → Bool) (a : A) (xs : List A) → IsIn a (sort_by le xs) → IsIn a xs
  unfolding sort_by
  IsIn-sort_by le a [] h = h
  IsIn-sort_by le a (x ∷ xs) h = elim (IsIn-insert_by le a x (sort_by le xs) h) [
    | inl e ↦ inl e
    | inr m ↦ inr (IsIn-sort_by le a xs m)
  ]

  pub sort_by-IsIn : (le : A → A → Bool) (a : A) (xs : List A) → IsIn a xs → IsIn a (sort_by le xs)
  unfolding sort_by
  sort_by-IsIn le a [] h = h
  sort_by-IsIn le a (x ∷ xs) (inl e) = insert_by-IsIn le a x (sort_by le xs) (inl e)
  sort_by-IsIn le a (x ∷ xs) (inr m) =
      insert_by-IsIn le a x (sort_by le xs) (inr (sort_by-IsIn le a xs m))

module _ {A : Type 0} where
  pub length-filter_count : (p : A → Bool) (xs : List A) → length (filter p xs) ≡ count_if p xs
  length-filter_count p [] = refl
  length-filter_count p (x ∷ xs) = ground (arith, length-filter_count p xs)

  length-insert_by :
      (le : A → A → Bool) (x : A) (xs : List A) → length (insert_by le x xs) ≡ suc (length xs)
  length-insert_by le x [] = refl
  length-insert_by le x (y ∷ ys) = ground (arith, length-insert_by le x ys)

  pub length-sort_by : (le : A → A → Bool) (xs : List A) → length (sort_by le xs) ≡ length xs
  unfolding sort_by
  length-sort_by le [] = refl
  length-sort_by le (x ∷ xs) = length-insert_by le x (sort_by le xs) ∙ ap suc (length-sort_by le xs)
