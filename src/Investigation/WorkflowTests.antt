-- ===== src/Investigation/WorkflowTests.antt =====
-- The theorem on the workflow at a concrete input.
use ai_soc.Base.{ℕ, ◌≡◌, refl, false, [], ◌∷◌, none, some, Result, ok, text_eq}
use ai_soc.Base.Text.{Text, codes}
use ai_soc.Base.Sort.{sort_by}
use ai_soc.Correlation.Identity.{text_le}
use ai_soc.Investigation.Schemas.{
  EvidenceFinding, RiskAnalysis, Recommendation, analyst_supplied, InvestigationContext,
}
use ai_soc.Investigation.Network.{assess_network_evidence, relevant_items, risky_items, gaps_of}
use ai_soc.Investigation.Validation.{
  severity_from_score, validate_refs, validate_cited, validate_investigation_result,
}
use ai_soc.Investigation.Workflow.{
  ProviderResult, LlmProvider, Analysis, analyse, provider_update, cap, merge_evidence,
  mitre_context_node, cap_narrative, merge_recommendations, validation_node,
}
use ai_soc.Investigation.Workflow.Outcome.{IsSound, analyse-IsSound}

abbrev pub context : InvestigationContext
context = record {
  incident = record {
    id = 4;
    risk_score = 70;
    primary_username = none;
    primary_source_ip = some (codes "203.0.113.9");
    first_seen = 10;
    last_seen = 20;
    evidence_quality = analyst_supplied;
    context_truncated = false;
  };
  alerts = [];
  events = [];
  incident_evidence = [];
  timeline = [];
  techniques = [];
  valid_evidence_refs = codes "incident:4" ∷ [];
}

abbrev finding : ℕ → EvidenceFinding
finding confidence = record {
  title = codes "Guessed password";
  summary = codes "Five failures";
  severity = "high";
  confidence = confidence;
  evidence_refs = codes "incident:4" ∷ [];
}

abbrev advice : Recommendation
advice = record {
  title = codes "Reset the password";
  priority = "high";
  rationale = codes "It may be known";
  actions = codes "Reset" ∷ [];
  evidence_refs = codes "incident:4" ∷ [];
  remediation_plan = none;
}

abbrev risk : RiskAnalysis
risk = record { score = 70; severity = "high"; rationale = codes "Privileged"; factors = [] }

abbrev answer : {A : Type 0} → A → Result Text (ProviderResult A)
answer a = ok (record { output = a; response_id = codes "r"; input_tokens = 5; output_tokens = 2 })

-- It is surer than it may be, and plans an action.
abbrev pub provider : LlmProvider ℕ
provider = record {
  analyse_evidence = λ c. answer (record { findings = finding 900000 ∷ []; gaps = [] });
  analyse_risk = λ c e. answer risk;
  narrate = λ c e k m.
      answer
        (record { executive_summary = codes "s"; attack_story = codes "t"; confidence = 900000 });
  recommend = λ c e k n. answer (record { recommendations = advice ∷ []; action_plan = 1 ∷ [] });
}

abbrev pub analysis : Analysis ℕ
analysis = record {
  result = record {
    executive_summary = codes "s";
    attack_story = codes "t";
    confidence = 650000;
    findings = finding 650000 ∷ [];
    evidence_gaps =
        codes
          "No structured network observation was supplied; network exposure and segmentation cannot be assessed."
        ∷ [];
    risk_analysis = risk;
    mitre_context = [];
    recommendations = advice ∷ [];
  };
  recommendation_set = record { recommendations = advice ∷ []; action_plan = [] };
  usage = record {
    provider_response_ids = codes "r" ∷ codes "r" ∷ codes "r" ∷ codes "r" ∷ [];
    input_tokens = 20;
    output_tokens = 8;
  };
}

pub analyse_run : analyse provider context none ≡ ok analysis
unfolding analyse provider_update cap merge_evidence mitre_context_node cap_narrative
    merge_recommendations validation_node assess_network_evidence relevant_items risky_items gaps_of
    validate_investigation_result validate_cited validate_refs severity_from_score sort_by text_eq
    text_le
analyse_run = refl

analyse-IsSound_example :
    IsSound context analysis.result × (analysis.recommendation_set.action_plan ≡ [])
analyse-IsSound_example = analyse-IsSound provider context none analysis analyse_run
