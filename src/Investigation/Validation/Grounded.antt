-- ===== src/Investigation/Validation/Grounded.antt =====
-- backend/app/investigation/validation.py: which results are accepted.
use ai_soc.Base.{
  ◌≡◌, refl, ap, ◌∙◌, subst, ◌≢◌, ◌↔◌, inl, inr, false, not, List, [], ◌∷◌, ◌++◌, map, filter,
  filter-none, filter-IsIn, IsIn, contains, contains→IsIn, IsIn→contains, ◌==◌, ==_iff,
  String-equality, Text-equality, Bool-cases, Result, ok, err,
}
use ai_soc.Base.Text.{Text}
use ai_soc.Base.Sort.{sort_by, sort_by-IsIn}
use ai_soc.Correlation.Identity.{text_le}
use ai_soc.Base.Slices.{IsIn-map, map-IsIn}
use ai_soc.Investigation.Schemas.{EvidenceFinding, Recommendation, InvestigationResult}
use ai_soc.Investigation.Validation.{
  Cited, cited_finding, cited_recommendation, Label, finding, recommendation, ValidationError,
  severity_from_score, distinct, unknown_error, validate_refs, missing_error, validate_cited,
  severity_error, raise_any, validate_investigation_result,
}

-- It cites something, and only what the context has.
abbrev pub IsGrounded : List Text → List Text → Type 0
IsGrounded valid refs = (refs ≢ []) × ((t : Text) → IsIn t refs → IsIn t valid)

AllGrounded : List Text → List Cited → Type 0
AllGrounded valid cs = (c : Cited) → IsIn c cs → IsGrounded valid c.evidence_refs

cons_is_not : {A : Type 0} {z : A} {zs : List A} → z ∷ zs ≡ [] → ⊥
cons_is_not q = cc

append-nothing : {A : Type 0} (xs ys : List A) → xs ++ ys ≡ [] → (xs ≡ []) × (ys ≡ [])
append-nothing [] ys e = (refl, e)
append-nothing (x ∷ xs) ys e = absurd (cons_is_not e)

pub IsIn-distinct : (t : Text) (ts : List Text) → IsIn t (distinct ts) → IsIn t ts
IsIn-distinct t [] m = m
IsIn-distinct t (s ∷ ts) m = elim (Bool-cases (contains (distinct ts) s)) [
  | inl old ↦ inr (IsIn-distinct t ts (rw old at m))
  | inr new ↦ elim (rw new at m) [ inl e ↦ inl e | inr k ↦ inr (IsIn-distinct t ts k) ]
]

pub distinct-IsIn : (t : Text) (ts : List Text) → IsIn t ts → IsIn t (distinct ts)
distinct-IsIn t [] m = m
distinct-IsIn t (s ∷ ts) (inl e) = elim (Bool-cases (contains (distinct ts) s)) [
  | inl old ↦ rw old (subst (λ x. IsIn x (distinct ts)) e (contains→IsIn s (distinct ts) old))
  | inr new ↦ rw new (inl e)
]
distinct-IsIn t (s ∷ ts) (inr m) = elim (Bool-cases (contains (distinct ts) s)) [
  | inl old ↦ rw old (distinct-IsIn t ts m)
  | inr new ↦ rw new (inr (distinct-IsIn t ts m))
]

validate_refs_iff :
    (refs valid : List Text) (label : Label)
    → (validate_refs refs valid label ≡ []) ↔ ((t : Text) → IsIn t refs → IsIn t valid)
unfolding validate_refs sort_by
validate_refs_iff refs valid label = (
  only,
  λ h.
      ap (λ ts. unknown_error label (sort_by text_le ts))
        (filter-none _ (distinct refs) (λ t m. known t (h t (IsIn-distinct t refs m)))),
)
  where
    known : (t : Text) → IsIn t valid → not (contains valid t) ≡ false
    known t m = rw (IsIn→contains t valid m) refl

    nothing : (ts : List Text) → unknown_error label ts ≡ [] → (t : Text) → IsIn t ts → ⊥
    nothing [] e t m = m
    nothing (s ∷ ts) e t m = cons_is_not e

    only :
        unknown_error label (sort_by text_le (filter (λ t. not (contains valid t)) (distinct refs)))
          ≡ []
        → (t : Text) → IsIn t refs
        → IsIn t valid
    only e t m = elim (Bool-cases (contains valid t)) [
      | inl there ↦ contains→IsIn t valid there
      | inr out ↦ absurd (
          nothing _ e t (
            sort_by-IsIn text_le t _ (
              filter-IsIn (λ s. not (contains valid s)) t (distinct refs) (distinct-IsIn t refs m)
                (ap not out))))
    ]

missing_error_iff :
    (refs : List Text) (label : Label) → (missing_error refs label ≡ []) ↔ (refs ≢ [])
missing_error_iff [] label = (λ e. absurd (cons_is_not e), λ n. absurd (n refl))
missing_error_iff (t ∷ ts) label = (λ e p. cons_is_not p, λ n. refl)

validate_cited_iff :
    (label : Text → Label) (valid : List Text) (cs : List Cited)
    → (validate_cited label valid cs ≡ []) ↔ AllGrounded valid cs
unfolding validate_cited AllGrounded
validate_cited_iff label valid [] = (λ e c m. absurd m, λ h. refl)
validate_cited_iff label valid (c ∷ cs) =
    let ih = validate_cited_iff label valid cs in (only ih.0, enough ih.1)
  where
    only :
        (validate_cited label valid cs ≡ [] → AllGrounded valid cs)
        → validate_cited label valid (c ∷ cs) ≡ []
        → AllGrounded valid (c ∷ cs)
    only later e =
        let (some_refs, rest) =
          append-nothing (missing_error c.evidence_refs (label c.title)) _ e in
        let (known_refs, others) =
          append-nothing (validate_refs c.evidence_refs valid (label c.title)) _ rest in
        λ d m. elim m [
          | inl same ↦
              subst (λ (x : Cited). IsGrounded valid x.evidence_refs) same
                (
                  (missing_error_iff c.evidence_refs (label c.title)).0 some_refs,
                  (validate_refs_iff c.evidence_refs valid (label c.title)).0 known_refs,
                )
          | inr k ↦ later others d k
        ]

    enough :
        (AllGrounded valid cs → validate_cited label valid cs ≡ [])
        → AllGrounded valid (c ∷ cs)
        → validate_cited label valid (c ∷ cs) ≡ []
    enough later h =
        let (some_refs, known_refs) = h c (inl refl) in
        ap
          (λ es.
            es
            ++ (validate_refs c.evidence_refs valid (label c.title)
                ++ validate_cited label valid cs))
          ((missing_error_iff c.evidence_refs (label c.title)).1 some_refs)
        ∙ ap (λ es. es ++ validate_cited label valid cs)
            ((validate_refs_iff c.evidence_refs valid (label c.title)).1 known_refs)
        ∙ later (λ d m. h d (inr m))

validate_all_iff :
    {A : Type 0} (f : A → Cited) (label : Text → Label) (valid : List Text) (xs : List A)
    → (validate_cited label valid (map f xs) ≡ [])
      ↔ ((x : A) → IsIn x xs → IsGrounded valid (f x).evidence_refs)
unfolding AllGrounded
validate_all_iff f label valid xs =
    let (only, enough) = validate_cited_iff label valid (map f xs) in
    (
      λ e x m. only e (f x) (map-IsIn f x xs m),
      λ h. enough (λ c m.
          let (x, (k, same)) = IsIn-map f c xs m in
          subst (λ (d : Cited). IsGrounded valid d.evidence_refs) same (h x k)),
    )

-- The severity is that of the score, and every finding and every recommendation cites something and
-- only what the context has.
abbrev pub IsAcceptable : InvestigationResult → List Text → Type 0
IsAcceptable r valid =
    (r.risk_analysis.severity ≡ severity_from_score r.risk_analysis.score)
    × (((f : EvidenceFinding) → IsIn f r.findings → IsGrounded valid f.evidence_refs)
        × ((c : Recommendation) → IsIn c r.recommendations → IsGrounded valid c.evidence_refs))

raise_any_iff : (es : List ValidationError) → (raise_any es ≡ ok tt) ↔ (es ≡ [])
raise_any_iff [] = (λ e. refl, λ e. refl)
raise_any_iff (x ∷ es) = (λ e. absurd (err_is_not e), λ e. absurd (cons_is_not e))
  where
    err_is_not :
        {y : List ValidationError}
        → Path (Result (List ValidationError) (Unit {0})) (err y) (ok tt)
        → ⊥
    err_is_not q = cc

severity_error_iff :
    (r : InvestigationResult)
    → (severity_error r ≡ [])
      ↔ (r.risk_analysis.severity ≡ severity_from_score r.risk_analysis.score)
severity_error_iff r =
    elim (Bool-cases (r.risk_analysis.severity == severity_from_score r.risk_analysis.score)) [
      | inl t ↦ (
        λ e. (==_iff r.risk_analysis.severity (severity_from_score r.risk_analysis.score)).0 t,
        λ e. rw t refl,
      )
      | inr f ↦ (
        λ e. absurd (cons_is_not (rw f at e)),
        λ e.
            rw ((==_iff r.risk_analysis.severity (severity_from_score r.risk_analysis.score)).1 e)
              refl,
      )
    ]

-- The result of the language model is accepted exactly when its severity is that of its score and
-- every finding and every recommendation cites something, and only what the context has.
pub validate_investigation_result_exact :
    (r : InvestigationResult) (valid : List Text)
    → (validate_investigation_result r valid ≡ ok tt) ↔ IsAcceptable r valid
unfolding validate_investigation_result AllGrounded
validate_investigation_result_exact r valid = (only, enough)
  where
    cited : List ValidationError
    cited =
        validate_cited finding valid (map cited_finding r.findings)
        ++ validate_cited recommendation valid (map cited_recommendation r.recommendations)

    only : raise_any (severity_error r ++ cited) ≡ ok tt → IsAcceptable r valid
    only e =
        let (fits, rest) =
          append-nothing (severity_error r) cited
            ((raise_any_iff (severity_error r ++ cited)).0 e) in
        let (f, g) =
          append-nothing (validate_cited finding valid (map cited_finding r.findings))
            (validate_cited recommendation valid (map cited_recommendation r.recommendations))
            rest in
        (
          (severity_error_iff r).0 fits,
          (
            (validate_all_iff cited_finding finding valid r.findings).0 f,
            (validate_all_iff cited_recommendation recommendation valid r.recommendations).0 g,
          ),
        )

    enough : IsAcceptable r valid → raise_any (severity_error r ++ cited) ≡ ok tt
    enough (fits, (f, g)) =
        ap (λ es. raise_any (es ++ cited)) ((severity_error_iff r).1 fits)
        ∙ ap
            (λ es. raise_any (
              es
              ++ validate_cited recommendation valid (map cited_recommendation r.recommendations)))
            ((validate_all_iff cited_finding finding valid r.findings).1 f)
        ∙ ap raise_any
            ((validate_all_iff cited_recommendation recommendation valid r.recommendations).1 g)
