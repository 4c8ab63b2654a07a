-- ===== src/Repository/Incidents/Links.antt =====
-- backend/app/repositories/incident_repository.py: what the table of links holds after
-- `add_alert_links`.
use ai_soc.Base.{
  ℕ, ◌≤◌, ◌≡◌, refl, ap, ◌∙◌, subst, ◌≢◌, ◌⊎◌, inl, inr, Bool, true, false, List, [], ◌∷◌, ◌++◌,
  arith, nat_eq, ℕ-equality, any, IsIn, Bool-cases,
}
use ai_soc.Base.Sort.{count_if, count_if-append}
use ai_soc.Models.{IncidentAlert}
use ai_soc.Repository.Incidents.{is_link, new_links, add_alert_links}

-- The table's primary key: a pair of an incident and an alert has at most one row.
abbrev pub IsKeyed : List IncidentAlert → Type 0
IsKeyed links = (incident alert : ℕ) → count_if (is_link incident alert) links ≤ 1

-- No identifier is there twice.
abbrev pub IsDistinct : List ℕ → Type 0
IsDistinct ids = (a : ℕ) → count_if (nat_eq a) ids ≤ 1

count_if-none : {A : Type 0} (p : A → Bool) (xs : List A) → any p xs ≡ false → count_if p xs ≡ 0
count_if-none p [] h = refl
count_if-none p (x ∷ xs) h = ground (arith, count_if-none p xs)

any-append :
    {A : Type 0} (p : A → Bool) (xs ys : List A) → any p xs ≡ true → any p (xs ++ ys) ≡ true
any-append p [] ys h = cc
any-append p (x ∷ xs) ys h = ground (arith, any-append p xs ys)

any-append_right :
    {A : Type 0} (p : A → Bool) (xs ys : List A) → any p ys ≡ true → any p (xs ++ ys) ≡ true
any-append_right p [] ys h = h
any-append_right p (x ∷ xs) ys h = ground (arith, any-append_right p xs ys)

-- The new rows: none for a pair that is there, none of another incident, and no more than asked.
count_if-new_links_old :
    (i a : ℕ) (ids : List ℕ) (links : List IncidentAlert)
    → any (is_link i a) links ≡ true
    → count_if (is_link i a) (new_links i ids links) ≡ 0
unfolding new_links
count_if-new_links_old i a [] links h = refl
count_if-new_links_old i a (x ∷ ids) links h = elim (Bool-cases (any (is_link i x) links)) [
  | inl there ↦ rw there (count_if-new_links_old i a ids links h)
  | inr new ↦ rw new (ground (arith, count_if-new_links_old i a ids links h, other new))
]
  where
    other : any (is_link i x) links ≡ false → x ≢ a
    other new e = cc

count_if-new_links_other :
    (i j a : ℕ) (ids : List ℕ) (links : List IncidentAlert)
    → i ≢ j
    → count_if (is_link j a) (new_links i ids links) ≡ 0
unfolding new_links
count_if-new_links_other i j a [] links h = refl
count_if-new_links_other i j a (x ∷ ids) links h =
    ground (arith, h, count_if-new_links_other i j a ids links h)

count_if-new_links_asked :
    (i j a : ℕ) (ids : List ℕ) (links : List IncidentAlert)
    → count_if (is_link j a) (new_links i ids links) ≤ count_if (nat_eq a) ids
unfolding new_links
count_if-new_links_asked i j a [] links = omega arith
count_if-new_links_asked i j a (x ∷ ids) links =
    ground (arith, count_if-new_links_asked i j a ids links)

is_link-cases : (i j a : ℕ) → (i ≡ j) ⊎ (i ≢ j)
is_link-cases i j a = ground arith

-- A list of distinct identifiers leaves the table keyed.
pub add_alert_links-IsKeyed :
    (i : ℕ) (ids : List ℕ) (links : List IncidentAlert)
    → IsDistinct ids
    → IsKeyed links
    → IsKeyed (add_alert_links i ids links)
unfolding add_alert_links
add_alert_links-IsKeyed i ids links distinct keyed j a =
    rw (count_if-append (is_link j a) links (new_links i ids links))
      (elim (Bool-cases (any (is_link j a) links)) [
        | inl there ↦ elim (is_link-cases i j a) [
          | inl e ↦ omega (
            arith,
            keyed j a,
            subst
                (λ k.
                  any (is_link k a) links ≡ true
                  → count_if (is_link k a) (new_links i ids links) ≡ 0)
                e (count_if-new_links_old i a ids links) there,
          )
          | inr n ↦ omega (arith, keyed j a, count_if-new_links_other i j a ids links n)
        ]
        | inr new ↦ omega (
          arith,
          count_if-none (is_link j a) links new,
          distinct a,
          count_if-new_links_asked i j a ids links,
        )
      ])

any-new_links :
    (i a : ℕ) (ids : List ℕ) (links : List IncidentAlert)
    → IsIn a ids
    → any (is_link i a) links ≡ false
    → any (is_link i a) (new_links i ids links) ≡ true
unfolding new_links
any-new_links i a [] links m new = absurd m
any-new_links i a (x ∷ ids) links (inl e) new =
    rw (ap (λ k. any (is_link i k) links) e ∙ new) (ground (arith, e))
any-new_links i a (x ∷ ids) links (inr m) new = ground (arith, any-new_links i a ids links m new)

-- Each alert that was asked for is linked afterwards.
pub any-add_alert_links :
    (i a : ℕ) (ids : List ℕ) (links : List IncidentAlert)
    → IsIn a ids
    → any (is_link i a) (add_alert_links i ids links) ≡ true
unfolding add_alert_links
any-add_alert_links i a ids links m = elim (Bool-cases (any (is_link i a) links)) [
  | inl there ↦ any-append (is_link i a) links (new_links i ids links) there
  | inr new ↦
      any-append_right (is_link i a) links (new_links i ids links)
        (any-new_links i a ids links m new)
]
