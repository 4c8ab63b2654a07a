-- ===== src/Investigation/Validation.antt =====
-- backend/app/investigation/validation.py: the result of the language model is accepted if it cites
-- what the context has. A message is a constructor with its values.
pub mod Grounded
use ai_soc.Base.{
  ℕ, Bool, true, false, not, String, List, [], ◌∷◌, ◌++◌, map, filter, contains, leb, ◌==◌,
  String-equality, Text-equality, if◌then◌else◌, Result, ok, err,
}
use ai_soc.Base.Text.{Text}
use ai_soc.Base.Sort.{sort_by}
use ai_soc.Correlation.Identity.{text_le}
use ai_soc.Investigation.Schemas.{EvidenceFinding, Recommendation, InvestigationResult}

-- What the loops read of a finding or a recommendation.
pub record Cited : Type 0 where
  pub title : Text
  pub evidence_refs : List Text

abbrev pub cited_finding : EvidenceFinding → Cited
cited_finding f = record { title = f.title; evidence_refs = f.evidence_refs }

abbrev pub cited_recommendation : Recommendation → Cited
cited_recommendation r = record { title = r.title; evidence_refs = r.evidence_refs }

pub data Label : Type 0 where
  finding recommendation : Text → Label

pub data ValidationError : Type 0 where
  severity_mismatch : String → ValidationError
  no_references : Label → ValidationError
  unknown_references : Label → List Text → ValidationError

unfoldable pub severity_from_score : ℕ → String
severity_from_score n =
    if leb 85 n
    then "critical"
    else if leb 65 n
    then "high"
    else if leb 35 n
    then "medium"
    else "low"

-- `set(texts)`, as a list.
abbrev pub distinct : List Text → List Text
distinct [] = []
distinct (t ∷ ts) = let rest = distinct ts in if contains rest t then rest else t ∷ rest

abbrev pub unknown_error : Label → List Text → List ValidationError
unknown_error label [] = []
unknown_error label (t ∷ ts) = unknown_references label (t ∷ ts) ∷ []

-- `_validate_refs`
unfoldable pub validate_refs : List Text → List Text → Label → List ValidationError
validate_refs refs valid label =
    unknown_error label (sort_by text_le (filter (λ t. not (contains valid t)) (distinct refs)))

abbrev pub missing_error : List Text → Label → List ValidationError
missing_error [] label = no_references label ∷ []
missing_error (t ∷ ts) label = []

unfoldable pub validate_cited : (Text → Label) → List Text → List Cited → List ValidationError
validate_cited label valid [] = []
validate_cited label valid (c ∷ cs) =
    missing_error c.evidence_refs (label c.title)
    ++ (validate_refs c.evidence_refs valid (label c.title) ++ validate_cited label valid cs)

abbrev pub severity_error : InvestigationResult → List ValidationError
severity_error r =
    let expected = severity_from_score r.risk_analysis.score in
    if not (r.risk_analysis.severity == expected) then severity_mismatch expected ∷ [] else []

abbrev pub raise_any : List ValidationError → Result (List ValidationError) (Unit {0})
raise_any [] = ok tt
raise_any (e ∷ es) = err (e ∷ es)

unfoldable pub validate_investigation_result :
    InvestigationResult → List Text → Result (List ValidationError) (Unit {0})
validate_investigation_result r valid = raise_any (
    severity_error r
    ++ (validate_cited finding valid (map cited_finding r.findings)
        ++ validate_cited recommendation valid (map cited_recommendation r.recommendations)))
