-- ===== src/Base/Lists.antt =====
-- Lists measured by native numbers, membership tests and filters by Boolean tests.
use Prim.Native.Nat.{ℕ, suc, ◌+◌, ◌≤◌}
use mathlib.Core.Path.{◌≡◌, refl, ap, sym, ◌∙◌}
use mathlib.Core.Logic.{◌⊎◌, inl, inr}
use mathlib.Core.Bool.{Bool, true, false, ◌||◌, ◌&&◌}
use mathlib.Core.Option.{Option, none, some}
use mathlib.Core.List.{List, [], ◌∷◌, ◌++◌, map}
use native.Mathlib.Omega.{arith}
use ai_soc.Base.Tests.{if◌then◌else◌, Bool-cases}
use ai_soc.Base.Compare.{Equality, ◌==◌}

module _ {ℓ} {A : Type ℓ} where
  abbrev pub length : List A → ℕ
  length [] = 0
  length (x ∷ xs) = suc (length xs)

  pub length-append : (xs ys : List A) → length (xs ++ ys) ≡ length xs + length ys
  length-append [] ys = omega arith
  length-append (x ∷ xs) ys = omega (arith, length-append xs ys)

  -- Equal sums of equally long first parts have equal parts.
  pub append_inj :
      (xs ys s t : List A) → length xs ≡ length ys → xs ++ s ≡ ys ++ t → (xs ≡ ys) × (s ≡ t)
  append_inj [] [] s t l e = (refl, e)
  append_inj [] (y ∷ ys) s t l e = absurd (omega arith)
  append_inj (x ∷ xs) [] s t l e = absurd (omega arith)
  append_inj (x ∷ xs) (y ∷ ys) s t l e =
      let (p, q) = append_inj xs ys s t (omega arith) (cc) in (cc, q)

  abbrev pub filter : (A → Bool) → List A → List A
  filter p [] = []
  filter p (x ∷ xs) = let rest = filter p xs in if p x then x ∷ rest else rest

  abbrev pub any : (A → Bool) → List A → Bool
  any p [] = false
  any p (x ∷ xs) = p x || any p xs

  abbrev pub all : (A → Bool) → List A → Bool
  all p [] = true
  all p (x ∷ xs) = p x && all p xs

  abbrev pub find : (A → Bool) → List A → Option A
  find p [] = none
  find p (x ∷ xs) = let rest = find p xs in if p x then some x else rest

  pub length-filter : (p : A → Bool) (xs : List A) → length (filter p xs) ≤ length xs
  length-filter p [] = omega arith
  length-filter p (x ∷ xs) = ground (arith, length-filter p xs)

module _ {A : Type 0} where
  -- `a ∈ xs`, by recursion.
  abbrev pub IsIn : A → List A → Type 0
  IsIn a [] = ⊥
  IsIn a (x ∷ xs) = (x ≡ a) ⊎ IsIn a xs

  IsIn-filter_head :
      (p : A → Bool) (a x : A) (xs : List A)
      → (IsIn a (filter p xs) → IsIn a xs × (p a ≡ true))
      → p x ≡ true
      → IsIn a (x ∷ filter p xs)
      → IsIn a (x ∷ xs) × (p a ≡ true)
  IsIn-filter_head p a x xs ih kept (inl e) = (inl e, sym (ap p e) ∙ kept)
  IsIn-filter_head p a x xs ih kept (inr m) = let (m', t) = ih m in (inr m', t)

  pub IsIn-filter :
      (p : A → Bool) (a : A) (xs : List A) → IsIn a (filter p xs) → IsIn a xs × (p a ≡ true)
  IsIn-filter p a [] h = absurd h
  IsIn-filter p a (x ∷ xs) h = elim (Bool-cases (p x)) [
    | inl kept ↦ IsIn-filter_head p a x xs (IsIn-filter p a xs) kept (rw kept at h)
    | inr dropped ↦ let (m, t) = IsIn-filter p a xs (rw dropped at h) in (inr m, t)
  ]

  pub filter-IsIn :
      (p : A → Bool) (a : A) (xs : List A) → IsIn a xs → p a ≡ true → IsIn a (filter p xs)
  filter-IsIn p a [] h t = h
  filter-IsIn p a (x ∷ xs) (inl e) t = rw (ap p e ∙ t) (inl e)
  filter-IsIn p a (x ∷ xs) (inr m) t = elim (Bool-cases (p x)) [
    | inl kept ↦ rw kept (inr (filter-IsIn p a xs m t))
    | inr dropped ↦ rw dropped (filter-IsIn p a xs m t)
  ]

module _ {A : Type 0} where
  -- A filter that keeps nothing.
  pub filter-none :
      (p : A → Bool) (xs : List A) → ((a : A) → IsIn a xs → p a ≡ false) → filter p xs ≡ []
  filter-none p [] h = refl
  filter-none p (x ∷ xs) h = rw (h x (inl refl)) (filter-none p xs (λ a m. h a (inr m)))

-- What `find` gives is in the list and passes the test.
pub find-IsIn :
    {A : Type 0} (p : A → Bool) (xs : List A) (a : A)
    → find p xs ≡ some a
    → IsIn a xs × (p a ≡ true)
find-IsIn p [] a e = absurd (cc)
find-IsIn p (x ∷ xs) a e = elim (Bool-cases (p x)) [
  | inl t ↦ let same : x ≡ a = some_inj (rw t at e) in (inl same, sym (ap p same) ∙ t)
  | inr f ↦ let (m, t) = find-IsIn p xs a (rw f at e) in (inr m, t)
]
  where
    some_inj : {A : Type 0} {x y : A} → Path (Option A) (some x) (some y) → x ≡ y
    some_inj q = cc

pub find-append :
    {A : Type 0} (p : A → Bool) (xs : List A) (a : A)
    → find p xs ≡ none
    → p a ≡ true
    → find p (xs ++ a ∷ []) ≡ some a
find-append p [] a e t = rw t refl
find-append p (x ∷ xs) a e t = elim (Bool-cases (p x)) [
  | inl h ↦ absurd (some_is_not (rw h at e))
  | inr h ↦ rw h (find-append p xs a (rw h at e) t)
]
  where
    some_is_not : {A : Type 0} {y : A} → Path (Option A) (some y) none → ⊥
    some_is_not q = cc

module _ {A : Type 0} ⦃e : Equality A⦄ where
  -- `a in xs`, as Python tests it.
  abbrev pub contains : List A → A → Bool
  contains xs a = any (λ x. x == a) xs

  pub contains→IsIn : (a : A) (xs : List A) → contains xs a ≡ true → IsIn a xs
  contains→IsIn a [] h = cc
  contains→IsIn a (x ∷ xs) h = elim (Bool-cases (x == a)) [
    | inl same ↦ inl ((e.eqb_iff x a).0 same)
    | inr other ↦ inr (contains→IsIn a xs (rw other at h))
  ]

  pub IsIn→contains : (a : A) (xs : List A) → IsIn a xs → contains xs a ≡ true
  IsIn→contains a [] h = absurd h
  IsIn→contains a (x ∷ xs) (inl h) = rw ((e.eqb_iff x a).1 h)
  IsIn→contains a (x ∷ xs) (inr h) = elim (Bool-cases (x == a)) [
    | inl same ↦ rw same
    | inr other ↦ rw other (IsIn→contains a xs h)
  ]

-- Where `find` gives nothing, nothing passes the test.
pub find-none :
    {A : Type 0} (p : A → Bool) (xs : List A) (a : A) → find p xs ≡ none → IsIn a xs → p a ≡ false
find-none p [] a e m = absurd m
find-none p (x ∷ xs) a e m = elim (Bool-cases (p x)) [
  | inl t ↦ absurd (some_is_not (rw t at e))
  | inr f ↦ elim m [ inl same ↦ sym (ap p same) ∙ f | inr k ↦ find-none p xs a (rw f at e) k ]
]
  where
    some_is_not : {A : Type 0} {y : A} → Path (Option A) (some y) none → ⊥
    some_is_not q = cc

pub map-append {ℓ κ} :
    {A : Type ℓ} {B : Type κ} (f : A → B) (xs ys : List A) → map f (xs ++ ys) ≡ map f xs ++ map f ys
map-append f [] ys = refl
map-append f (x ∷ xs) ys = ap (λ bs. f x ∷ bs) (map-append f xs ys)
