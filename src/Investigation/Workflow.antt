-- ===== src/Investigation/Workflow.antt =====
-- backend/app/investigation/workflow.py: the nodes up to the validation. A node gets what it reads of
-- the state and returns what it adds. The provider is the protocol of provider.py: a call of
-- `generate_structured` for each model, given what its payload shows.
pub mod Actions
pub mod Outcome
use ai_soc.Base.{
  ℕ, ◌+◌, min, Bool, true, false, List, [], ◌∷◌, ◌++◌, map, Option, none, some, Result, ok, err,
  ◌>>=◌, ◌>>◌,
}
use ai_soc.Base.Text.{Text, codes}
use ai_soc.Base.Slices.{take}
use ai_soc.Investigation.Schemas.{
  EvidenceFinding, EvidenceAnalysis, RiskAnalysis, MitreContextItem, InvestigationNarrative,
  RecommendationSet, InvestigationResult, EvidenceQuality, corroborated_telemetry, analyst_supplied,
  report_only, TechniqueContext, InvestigationContext,
}
use ai_soc.Investigation.Network.{assess_network_evidence}
use ai_soc.Investigation.Validation.{ValidationError, validate_investigation_result}

pub record ProviderResult (A : Type 0) : Type 0 where
  pub output : A
  pub response_id : Text
  pub input_tokens : ℕ
  pub output_tokens : ℕ

-- `LLMProvider`
pub record LlmProvider (D : Type 0) : Type 0 where
  pub analyse_evidence : InvestigationContext → Result Text (ProviderResult EvidenceAnalysis)
  pub analyse_risk :
      InvestigationContext → EvidenceAnalysis → Result Text (ProviderResult RiskAnalysis)
  pub narrate :
      InvestigationContext
      → EvidenceAnalysis
      → RiskAnalysis
      → List MitreContextItem
      → Result Text (ProviderResult InvestigationNarrative)
  pub recommend :
      InvestigationContext
      → EvidenceAnalysis
      → RiskAnalysis
      → InvestigationNarrative
      → Result Text (ProviderResult (RecommendationSet D))

pub data WorkflowError : Type 0 where
  provider_failed : Text → WorkflowError
  result_invalid : List ValidationError → WorkflowError
  was_cancelled investigation_gone incident_not_found context_too_large : WorkflowError

-- The part of the state that `_provider_update` extends.
pub record Usage : Type 0 where
  pub provider_response_ids : List Text
  pub input_tokens : ℕ
  pub output_tokens : ℕ

abbrev pub no_usage : Usage
no_usage = record { provider_response_ids = []; input_tokens = 0; output_tokens = 0 }

unfoldable pub provider_update : {A : Type 0} → Usage → ProviderResult A → Usage
provider_update u r = record {
  provider_response_ids = u.provider_response_ids ++ r.response_id ∷ [];
  input_tokens = u.input_tokens + r.input_tokens;
  output_tokens = u.output_tokens + r.output_tokens;
}

abbrev pub raised : {A : Type 0} → Result Text A → Result WorkflowError A
raised (ok a) = ok a
raised (err e) = err (provider_failed e)

-- `_check_cancelled`: with no queue there is nothing to ask.
abbrev pub check_cancelled : Option Bool → Result WorkflowError (Unit {0})
check_cancelled (some true) = err was_cancelled
check_cancelled _ = ok tt

-- What an unproven report may claim at most.
abbrev pub confidence_ceiling : EvidenceQuality → Option ℕ
confidence_ceiling report_only = some 500000
confidence_ceiling analyst_supplied = some 650000
confidence_ceiling corroborated_telemetry = none

unfoldable pub cap : Option ℕ → ℕ → ℕ
cap none n = n
cap (some c) n = min n c

abbrev pub cap_finding : Option ℕ → EvidenceFinding → EvidenceFinding
cap_finding ceiling f = record f { confidence = cap ceiling f.confidence }

abbrev pub quality_of : InvestigationContext → EvidenceQuality
quality_of context = context.incident.evidence_quality

-- What `evidence_analysis_node` makes of the answer.
unfoldable pub merge_evidence : InvestigationContext → EvidenceAnalysis → EvidenceAnalysis
merge_evidence context answer =
    let network = assess_network_evidence context.incident_evidence in
    record {
      findings =
          map (cap_finding (confidence_ceiling (quality_of context)))
            (take 20 (network.findings ++ answer.findings));
      gaps = take 20 (answer.gaps ++ network.gaps);
    }

unfoldable pub mitre_context_node : InvestigationContext → List MitreContextItem
mitre_context_node context =
    map
      (λ (t : TechniqueContext). record {
        technique_id = t.technique_id;
        name = t.name;
        tactics = t.tactics;
        relevance = codes "Mapped from one or more detection rules attached to this incident.";
      })
      context.techniques

unfoldable pub cap_narrative :
    InvestigationContext → InvestigationNarrative → InvestigationNarrative
cap_narrative context n = record n {
  confidence = cap (confidence_ceiling (quality_of context)) n.confidence;
}

-- The set that `recommendation_node` stores: it is built of the recommendations, and its plan is the
-- default of the class.
unfoldable pub merge_recommendations :
    {D : Type 0} → InvestigationContext → RecommendationSet D → RecommendationSet D
merge_recommendations context answer =
    let network = assess_network_evidence context.incident_evidence in
    record {
      recommendations = take 20 (network.recommendations ++ answer.recommendations);
      action_plan = [];
    }

abbrev pub result_of :
    {D : Type 0}
    → EvidenceAnalysis
    → RiskAnalysis
    → List MitreContextItem
    → InvestigationNarrative
    → RecommendationSet D
    → InvestigationResult
result_of evidence risk mitre narrative set = record {
  executive_summary = narrative.executive_summary;
  attack_story = narrative.attack_story;
  confidence = narrative.confidence;
  findings = evidence.findings;
  evidence_gaps = evidence.gaps;
  risk_analysis = risk;
  mitre_context = mitre;
  recommendations = set.recommendations;
}

-- The state after the validation.
pub record Analysis (D : Type 0) : Type 0 where
  pub result : InvestigationResult
  pub recommendation_set : RecommendationSet D
  pub usage : Usage

abbrev checked : Result (List ValidationError) (Unit {0}) → Result WorkflowError (Unit {0})
checked (ok u) = ok u
checked (err es) = err (result_invalid es)

-- `validation_node`
unfoldable pub validation_node :
    InvestigationContext → InvestigationResult → Result WorkflowError (Unit {0})
validation_node context result =
    checked (validate_investigation_result result context.valid_evidence_refs)

module _ {D : Type 0} (provider : LlmProvider D) (context : InvestigationContext) where
  unfoldable pub evidence_analysis_node :
      Option Bool → Usage → Result WorkflowError (EvidenceAnalysis × Usage)
  evidence_analysis_node cancelled u = do
    check_cancelled cancelled
    r ← raised (provider.analyse_evidence context)
    ok (merge_evidence context r.output, provider_update u r)

  unfoldable pub risk_analysis_node :
      EvidenceAnalysis → Usage → Result WorkflowError (RiskAnalysis × Usage)
  risk_analysis_node evidence u = do
    r ← raised (provider.analyse_risk context evidence)
    ok (r.output, provider_update u r)

  unfoldable pub investigation_node :
      EvidenceAnalysis
      → RiskAnalysis
      → Usage
      → Result WorkflowError (InvestigationNarrative × Usage)
  investigation_node evidence risk u = do
    r ← raised (provider.narrate context evidence risk (mitre_context_node context))
    ok (cap_narrative context r.output, provider_update u r)

  unfoldable pub recommendation_node :
      EvidenceAnalysis
      → RiskAnalysis
      → InvestigationNarrative
      → Usage
      → Result WorkflowError (RecommendationSet D × Usage)
  recommendation_node evidence risk narrative u = do
    r ← raised (provider.recommend context evidence risk narrative)
    ok (merge_recommendations context r.output, provider_update u r)

  -- The nodes from `evidence_analysis` to `validation`, in the order of the graph.
  unfoldable pub analyse : Option Bool → Result WorkflowError (Analysis D)
  unfolding evidence_analysis_node risk_analysis_node investigation_node recommendation_node
  analyse cancelled = do
    e ← evidence_analysis_node cancelled no_usage
    k ← risk_analysis_node e.0 e.1
    n ← investigation_node e.0 k.0 k.1
    r ← recommendation_node e.0 k.0 n.0 n.1
    let result = result_of e.0 k.0 (mitre_context_node context) n.0 r.0
    validation_node context result
    ok (record { result = result; recommendation_set = r.0; usage = r.1 })
