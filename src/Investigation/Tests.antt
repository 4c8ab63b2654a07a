-- ===== src/Investigation/Tests.antt =====
-- Runs of the validation, and its theorem at concrete inputs.
use ai_soc.Base.{◌≡◌, refl, [], ◌∷◌, err, text_eq}
use ai_soc.Base.Text.{codes}
use ai_soc.Base.Sort.{sort_by}
use ai_soc.Investigation.Schemas.{InvestigationResult}
use ai_soc.Investigation.Validation.{
  finding, unknown_references, severity_from_score, validate_refs, validate_cited,
  validate_investigation_result,
}

abbrev claimed : InvestigationResult
claimed = record {
  executive_summary = codes "Many failures";
  attack_story = codes "Failures, then a login";
  confidence = 700000;
  findings =
      record {
        title = codes "Guessed password";
        summary = codes "Five failures";
        severity = "high";
        confidence = 700000;
        evidence_refs = codes "alert:1" ∷ codes "alert:9" ∷ [];
      }
      ∷ [];
  evidence_gaps = [];
  risk_analysis = record {
    score = 70;
    severity = "high";
    rationale = codes "Privileged";
    factors = [];
  };
  mitre_context = [];
  recommendations = [];
}

validate_run :
    validate_investigation_result claimed (codes "alert:1" ∷ [])
    ≡ err (unknown_references (finding (codes "Guessed password")) (codes "alert:9" ∷ []) ∷ [])
unfolding validate_investigation_result validate_cited validate_refs severity_from_score sort_by
    text_eq
validate_run = refl
