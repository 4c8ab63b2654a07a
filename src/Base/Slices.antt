-- ===== src/Base/Slices.antt =====
-- Python's slices of a list, and membership in slices, sums and images of lists.
use Prim.Native.Nat.{ℕ, zero, suc, ◌-◌, ◌≤◌}
use mathlib.Core.Path.{◌≡◌, refl, ap, subst}
use mathlib.Core.Logic.{◌⊎◌, inl, inr}
use mathlib.Core.List.{List, [], ◌∷◌, ◌++◌, map}
use native.Mathlib.Omega.{arith}
use ai_soc.Base.Lists.{IsIn, length}

module _ {A : Type 0} where
  -- `xs[:n]`
  abbrev pub take : ℕ → List A → List A
  take zero xs = []
  take (suc n) [] = []
  take (suc n) (x ∷ xs) = x ∷ take n xs

  abbrev pub drop : ℕ → List A → List A
  drop zero xs = xs
  drop (suc n) [] = []
  drop (suc n) (x ∷ xs) = drop n xs

  -- `xs[-n:]`, for a positive `n`
  abbrev pub take_last : ℕ → List A → List A
  take_last n xs = drop (length xs - n) xs

  pub take-append-drop : (n : ℕ) (xs : List A) → take n xs ++ drop n xs ≡ xs
  take-append-drop zero xs = refl
  take-append-drop (suc n) [] = refl
  take-append-drop (suc n) (x ∷ xs) = ap (λ ys. x ∷ ys) (take-append-drop n xs)

  pub length-take : (n : ℕ) (xs : List A) → length (take n xs) ≤ n
  length-take zero xs = omega arith
  length-take (suc n) [] = omega arith
  length-take (suc n) (x ∷ xs) = omega (arith, length-take n xs)

  pub IsIn-take : (n : ℕ) (a : A) (xs : List A) → IsIn a (take n xs) → IsIn a xs
  IsIn-take zero a xs m = absurd m
  IsIn-take (suc n) a [] m = m
  IsIn-take (suc n) a (x ∷ xs) (inl e) = inl e
  IsIn-take (suc n) a (x ∷ xs) (inr m) = inr (IsIn-take n a xs m)

  pub IsIn-append : (a : A) (xs ys : List A) → IsIn a (xs ++ ys) → IsIn a xs ⊎ IsIn a ys
  IsIn-append a [] ys m = inr m
  IsIn-append a (x ∷ xs) ys (inl e) = inl (inl e)
  IsIn-append a (x ∷ xs) ys (inr m) = elim (IsIn-append a xs ys m) [
    | inl k ↦ inl (inr k)
    | inr k ↦ inr k
  ]

  pub append-IsIn_left : (a : A) (xs ys : List A) → IsIn a xs → IsIn a (xs ++ ys)
  append-IsIn_left a [] ys m = absurd m
  append-IsIn_left a (x ∷ xs) ys (inl e) = inl e
  append-IsIn_left a (x ∷ xs) ys (inr m) = inr (append-IsIn_left a xs ys m)

  pub append-IsIn_right : (a : A) (xs ys : List A) → IsIn a ys → IsIn a (xs ++ ys)
  append-IsIn_right a [] ys m = m
  append-IsIn_right a (x ∷ xs) ys m = inr (append-IsIn_right a xs ys m)

module _ {A B : Type 0} (f : A → B) where
  pub length-map : (xs : List A) → length (map f xs) ≡ length xs
  length-map [] = refl
  length-map (x ∷ xs) = ap suc (length-map xs)

  pub IsIn-map : (b : B) (xs : List A) → IsIn b (map f xs) → (a : A) × (IsIn a xs × (f a ≡ b))
  IsIn-map b [] m = absurd m
  IsIn-map b (x ∷ xs) (inl e) = (x, (inl refl, e))
  IsIn-map b (x ∷ xs) (inr m) = let (a, (k, e)) = IsIn-map b xs m in (a, (inr k, e))

  pub map-IsIn : (a : A) (xs : List A) → IsIn a xs → IsIn (f a) (map f xs)
  map-IsIn a [] m = m
  map-IsIn a (x ∷ xs) (inl e) = inl (ap f e)
  map-IsIn a (x ∷ xs) (inr m) = inr (map-IsIn a xs m)

-- Everything in the first list is in the second.
abbrev pub Subset : {A : Type 0} → List A → List A → Type 0
Subset {A} xs ys = (a : A) → IsIn a xs → IsIn a ys

module _ {A : Type 0} where
  pub drop-Subset : (n : ℕ) (xs : List A) → Subset (drop n xs) xs
  drop-Subset zero xs a m = m
  drop-Subset (suc n) [] a m = m
  drop-Subset (suc n) (x ∷ xs) a m = inr (drop-Subset n xs a m)

  pub append-Subset :
      (xs ys us vs : List A) → Subset xs us → Subset ys vs → Subset (xs ++ ys) (us ++ vs)
  append-Subset xs ys us vs h k a m = elim (IsIn-append a xs ys m) [
    | inl l ↦ append-IsIn_left a us vs (h a l)
    | inr r ↦ append-IsIn_right a us vs (k a r)
  ]

  pub length-drop : (n : ℕ) (xs : List A) → length (drop n xs) ≡ length xs - n
  length-drop zero xs = omega arith
  length-drop (suc n) [] = omega arith
  length-drop (suc n) (x ∷ xs) = omega (arith, length-drop n xs)

-- What an image shows of a part.
pub map-Subset :
    {A B : Type 0} (f : A → B) (xs ys : List A) → Subset xs ys → Subset (map f xs) (map f ys)
map-Subset f xs ys h b m =
    let (a, (k, e)) = IsIn-map f b xs m in
    subst (λ y. IsIn y (map f ys)) e (map-IsIn f a ys (h a k))
