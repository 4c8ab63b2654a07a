-- ===== src/Base/Table.antt =====
-- A table is the list of its rows: reading and writing the row of a key.
use Prim.Native.Nat.{ℕ}
use mathlib.Core.Path.{◌≡◌, refl, ap, sym, ◌∙◌, subst}
use mathlib.Core.Logic.{◌⊎◌, ◌≢◌, inl, inr}
use mathlib.Core.Bool.{Bool, true, false}
use mathlib.Core.Option.{Option, some}
use mathlib.Core.List.{List, [], ◌∷◌, ◌++◌, map}
use ai_soc.Base.Tests.{if◌then◌else◌, Bool-cases}
use ai_soc.Base.Compare.{◌==◌, ==_iff, ==_refl, ℕ-equality}
use ai_soc.Base.Lists.{IsIn, find, find-IsIn}
use ai_soc.Base.Sort.{insert_by, IsIn-insert_by, sort_by, IsIn-sort_by}
use ai_soc.Base.Slices.{IsIn-append, map-IsIn}

-- No value twice.
abbrev pub IsNodup : {A : Type 0} → List A → Type 0
IsNodup [] = Unit {0}
IsNodup (x ∷ xs) = ¬ IsIn x xs × IsNodup xs

pub append-IsNodup :
    {A : Type 0} (a : A) (xs : List A) → IsNodup xs → ¬ IsIn a xs → IsNodup (xs ++ a ∷ [])
append-IsNodup a [] h new = (λ m. m, tt)
append-IsNodup a (x ∷ xs) (first, h) new = (
  λ m. elim (IsIn-append x xs (a ∷ []) m) [
    | inl k ↦ first k
    | inr k ↦ elim k [ inl e ↦ new (inl (sym e)) | inr n ↦ absurd n ]
  ],
  append-IsNodup a xs h (λ m. new (inr m)),
)

module _ {A : Type 0} (key : A → ℕ) where
  abbrev pub get_row : ℕ → List A → Option A
  get_row id rows = find (λ r. key r == id) rows

  abbrev pub put_row : A → List A → List A
  put_row a rows = map (λ r. if key r == key a then a else r) rows

  -- Rows with one key are one row.
  pub row_unique :
      (x y : A) (rows : List A)
      → IsNodup (map key rows)
      → IsIn x rows
      → IsIn y rows
      → key x ≡ key y
      → x ≡ y
  row_unique x y [] h m n e = absurd m
  row_unique x y (r ∷ rows) (first, h) (inl p) (inl q) e = sym p ∙ q
  row_unique x y (r ∷ rows) (first, h) (inl p) (inr n) e =
      absurd (
        first (subst (λ k. IsIn k (map key rows)) (sym e ∙ ap key (sym p)) (map-IsIn key y rows n)))
  row_unique x y (r ∷ rows) (first, h) (inr m) (inl q) e =
      absurd
        (first (subst (λ k. IsIn k (map key rows)) (e ∙ ap key (sym q)) (map-IsIn key x rows m)))
  row_unique x y (r ∷ rows) (first, h) (inr m) (inr n) e = row_unique x y rows h m n e

  -- What stands in the table after a write is the new row, or a row of another key.
  pub IsIn-put_row :
      (a b : A) (rows : List A)
      → IsIn b (put_row a rows)
      → (a ≡ b) ⊎ (IsIn b rows × (key b ≢ key a))
  IsIn-put_row a b [] m = absurd m
  IsIn-put_row a b (r ∷ rows) (inl e) = elim (Bool-cases (key r == key a)) [
    | inl same ↦ inl (rw same at e)
    | inr other ↦
        let e' : r ≡ b = rw other at e in
        inr (inl e', λ q. true_false (sym ((==_iff (key r) (key a)).1 (ap key e' ∙ q)) ∙ other))
  ]
    where
      true_false : Path Bool true false → ⊥
      true_false q = cc
  IsIn-put_row a b (r ∷ rows) (inr m) = elim (IsIn-put_row a b rows m) [
    | inl e ↦ inl e
    | inr (k, n) ↦ inr (inr k, n)
  ]

  -- A row of another key stays.
  pub put_row-IsIn :
      (a b : A) (rows : List A) → IsIn b rows → key b ≢ key a → IsIn b (put_row a rows)
  put_row-IsIn a b [] m n = m
  put_row-IsIn a b (r ∷ rows) (inl e) n = elim (Bool-cases (key r == key a)) [
    | inl same ↦ absurd (n (ap key (sym e) ∙ (==_iff (key r) (key a)).0 same))
    | inr other ↦ inl (rw other e)
  ]
  put_row-IsIn a b (r ∷ rows) (inr m) n = inr (put_row-IsIn a b rows m n)

  -- A write keeps whatever the new row has in common with the old one.
  pub map-put_row :
      {B : Type 0} (f : A → B) (a : A) (rows : List A)
      → ((x : A) → IsIn x rows → key x ≡ key a → f x ≡ f a)
      → map f (put_row a rows) ≡ map f rows
  map-put_row f a [] h = refl
  map-put_row f a (r ∷ rows) h =
      let rest = map-put_row f a rows (λ x m. h x (inr m)) in
      elim (Bool-cases (key r == key a)) [
        | inl same ↦
            rw same
              (rw (h r (inl refl) ((==_iff (key r) (key a)).0 same)) (ap (λ bs. f a ∷ bs) rest))
        | inr other ↦ rw other (ap (λ bs. f r ∷ bs) rest)
      ]

  -- What is read under a key has it, and stands in the table.
  pub get_row-IsIn :
      (id : ℕ) (rows : List A) (a : A) → get_row id rows ≡ some a → IsIn a rows × (key a ≡ id)
  get_row-IsIn id rows a e =
      let (m, t) = find-IsIn (λ r. key r == id) rows a e in (m, (==_iff (key a) id).0 t)

  pub put_row-at : (a b : A) (rows : List A) → IsIn b rows → key b ≡ key a → IsIn a (put_row a rows)
  put_row-at a b [] m e = absurd m
  put_row-at a b (r ∷ rows) (inl p) e = rw ((==_iff (key r) (key a)).1 (ap key p ∙ e)) (inl refl)
  put_row-at a b (r ∷ rows) (inr m) e = inr (put_row-at a b rows m e)

  pub IsIn-get_row :
      (a : A) (rows : List A) → IsNodup (map key rows) → IsIn a rows → get_row (key a) rows ≡ some a
  IsIn-get_row a [] h m = absurd m
  IsIn-get_row a (r ∷ rows) (first, h) (inl e) =
      rw (ap (λ k. key k == key a) e ∙ ==_refl (key a)) (ap some e)
  IsIn-get_row a (r ∷ rows) (first, h) (inr m) = elim (Bool-cases (key r == key a)) [
    | inl same ↦ absurd (
        first (
          subst (λ k. IsIn k (map key rows)) (sym ((==_iff (key r) (key a)).0 same))
            (map-IsIn key a rows m)))
    | inr other ↦ rw other (IsIn-get_row a rows h m)
  ]

  -- The second of two writes under one key counts.
  pub put_row-put_row :
      (a b : A) (rows : List A) → key a ≡ key b → put_row a (put_row b rows) ≡ put_row a rows
  put_row-put_row a b [] e = refl
  put_row-put_row a b (r ∷ rows) e = elim (Bool-cases (key r == key b)) [
    | inl same ↦ rw same (
        rw
          (
            (==_iff (key b) (key a)).1 (sym e),
            (==_iff (key r) (key a)).1 ((==_iff (key r) (key b)).0 same ∙ sym e),
          )
          (ap (λ rs. a ∷ rs) (put_row-put_row a b rows e)))
    | inr other ↦
        rw other (ap (λ rs. (if key r == key a then a else r) ∷ rs) (put_row-put_row a b rows e))
  ]

  module _ (r a : A) (rows : List A) (ids : IsNodup (map key rows)) (there : IsIn r rows)
      (same : key r ≡ key a) where
    -- A column that the new row has in common with the old one is kept in the whole table.
    pub map-put_row_same :
        {B : Type 0} (f : A → B) → f r ≡ f a → map f (put_row a rows) ≡ map f rows
    map-put_row_same f e =
        map-put_row f a rows (λ x m q. ap f (row_unique x r rows ids m there (q ∙ sym same)) ∙ e)

    -- The row that was written is read.
    pub get_row-put_row : get_row (key a) (put_row a rows) ≡ some a
    get_row-put_row =
        IsIn-get_row a (put_row a rows) (subst IsNodup (sym (map-put_row_same key same)) ids)
          (put_row-at a r rows there same)

insert_by-IsNodup :
    {A : Type 0} (le : A → A → Bool) (x : A) (xs : List A)
    → ¬ IsIn x xs
    → IsNodup xs
    → IsNodup (insert_by le x xs)
insert_by-IsNodup le x [] new h = (λ m. m, tt)
insert_by-IsNodup le x (y ∷ ys) new (first, h) = elim (Bool-cases (le x y)) [
  | inl before ↦ rw before (new, (first, h))
  | inr after ↦ rw after (
    λ m. elim (IsIn-insert_by le y x ys m) [ inl e ↦ new (inl (sym e)) | inr k ↦ first k ],
    insert_by-IsNodup le x ys (λ m. new (inr m)) h,
  )
]

pub sort_by-IsNodup :
    {A : Type 0} (le : A → A → Bool) (xs : List A) → IsNodup xs → IsNodup (sort_by le xs)
unfolding sort_by
sort_by-IsNodup le [] h = tt
sort_by-IsNodup le (x ∷ xs) (first, h) =
    insert_by-IsNodup le x (sort_by le xs) (λ m. first (IsIn-sort_by le x xs m))
      (sort_by-IsNodup le xs h)
