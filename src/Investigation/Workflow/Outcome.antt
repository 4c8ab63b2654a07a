-- ===== src/Investigation/Workflow/Outcome.antt =====
-- backend/app/investigation/workflow.py: what a result is, whatever the provider answers.
use ai_soc.Base.{
  ℕ, ◌≤◌, ◌≡◌, refl, sym, subst, Bool, List, [], Option, none, some, IsIn, Result, ok, err,
  >>=-eq-ok, ok_inj, arith,
}
use ai_soc.Base.Slices.{IsIn-map}
use ai_soc.Investigation.Schemas.{
  EvidenceFinding, EvidenceAnalysis, RiskAnalysis, InvestigationNarrative, RecommendationSet,
  InvestigationResult, InvestigationContext,
}
use ai_soc.Investigation.Validation.{ValidationError, validate_investigation_result}
use ai_soc.Investigation.Validation.Grounded.{IsAcceptable, validate_investigation_result_exact}
use ai_soc.Investigation.Workflow.{
  LlmProvider, Usage, confidence_ceiling, cap, quality_of, merge_evidence, cap_narrative,
  merge_recommendations, raised, check_cancelled, mitre_context_node, result_of, checked,
  validation_node, Analysis, no_usage, evidence_analysis_node, risk_analysis_node,
  investigation_node, recommendation_node, analyse,
}

-- Below the ceiling, where there is one.
abbrev pub IsCapped : Option ℕ → ℕ → Type 0
IsCapped none n = Unit {0}
IsCapped (some c) n = n ≤ c

cap-IsCapped : (ceiling : Option ℕ) (n : ℕ) → IsCapped ceiling (cap ceiling n)
unfolding cap
cap-IsCapped none n = tt
cap-IsCapped (some c) n = ground arith

-- What holds of a result for its context.
pub record IsSound (context : InvestigationContext) (r : InvestigationResult) : Type 0 where
  pub acceptable : IsAcceptable r context.valid_evidence_refs
  pub confidence_capped : IsCapped (confidence_ceiling (quality_of context)) r.confidence
  pub findings_capped :
      (f : EvidenceFinding)
      → IsIn f r.findings
      → IsCapped (confidence_ceiling (quality_of context)) f.confidence

validation_node-IsAcceptable :
    (context : InvestigationContext) (r : InvestigationResult)
    → validation_node context r ≡ ok tt
    → IsAcceptable r context.valid_evidence_refs
unfolding validation_node
validation_node-IsAcceptable context r e =
    (validate_investigation_result_exact r context.valid_evidence_refs).0
      (passed (validate_investigation_result r context.valid_evidence_refs) e)
  where
    passed : (v : Result (List ValidationError) (Unit {0})) → checked v ≡ ok tt → v ≡ ok tt
    passed (ok u) q = refl
    passed (err es) q = absurd (cc)

merge_evidence-IsCapped :
    (context : InvestigationContext) (answer : EvidenceAnalysis) (f : EvidenceFinding)
    → IsIn f (merge_evidence context answer).findings
    → IsCapped (confidence_ceiling (quality_of context)) f.confidence
unfolding merge_evidence
merge_evidence-IsCapped context answer f m =
    let (g, (k, same)) = IsIn-map _ f _ m in
    subst (λ (x : EvidenceFinding). IsCapped (confidence_ceiling (quality_of context)) x.confidence)
      same (cap-IsCapped (confidence_ceiling (quality_of context)) g.confidence)

cap_narrative-IsCapped :
    (context : InvestigationContext) (n : InvestigationNarrative)
    → IsCapped (confidence_ceiling (quality_of context)) (cap_narrative context n).confidence
unfolding cap_narrative
cap_narrative-IsCapped context n =
    cap-IsCapped (confidence_ceiling (quality_of context)) n.confidence

merge_recommendations-plan :
    {D : Type 0} (context : InvestigationContext) (answer : RecommendationSet D)
    → (merge_recommendations context answer).action_plan ≡ []
unfolding merge_recommendations
merge_recommendations-plan context answer = refl

module _ {D : Type 0} (provider : LlmProvider D) (context : InvestigationContext) where
  evidence_analysis_node-IsCapped :
      (cancelled : Option Bool) (u : Usage) (p : EvidenceAnalysis × Usage)
      → evidence_analysis_node provider context cancelled u ≡ ok p
      → (f : EvidenceFinding) → IsIn f p.0.findings
      → IsCapped (confidence_ceiling (quality_of context)) f.confidence
  unfolding evidence_analysis_node
  evidence_analysis_node-IsCapped cancelled u p e f m =
      let (x, (s0, e0)) = >>=-eq-ok (check_cancelled cancelled) _ e in
      let (r, (s1, e1)) = >>=-eq-ok (raised (provider.analyse_evidence context)) _ e0 in
      merge_evidence-IsCapped context r.output f
        (subst (λ (q : EvidenceAnalysis × Usage). IsIn f q.0.findings) (sym (ok_inj e1)) m)

  investigation_node-IsCapped :
      (evidence : EvidenceAnalysis) (risk : RiskAnalysis) (u : Usage)
      (p : InvestigationNarrative × Usage)
      → investigation_node provider context evidence risk u ≡ ok p
      → IsCapped (confidence_ceiling (quality_of context)) p.0.confidence
  unfolding investigation_node
  investigation_node-IsCapped evidence risk u p e =
      let (r, (s, e1)) =
        >>=-eq-ok (raised (provider.narrate context evidence risk (mitre_context_node context))) _
          e in
      subst
        (λ (q : InvestigationNarrative × Usage).
          IsCapped (confidence_ceiling (quality_of context)) q.0.confidence)
        (ok_inj e1) (cap_narrative-IsCapped context r.output)

  recommendation_node-plan :
      (evidence : EvidenceAnalysis) (risk : RiskAnalysis) (narrative : InvestigationNarrative)
      (u : Usage) (p : RecommendationSet D × Usage)
      → recommendation_node provider context evidence risk narrative u ≡ ok p
      → p.0.action_plan ≡ []
  unfolding recommendation_node
  recommendation_node-plan evidence risk narrative u p e =
      let (r, (s, e1)) =
        >>=-eq-ok (raised (provider.recommend context evidence risk narrative)) _ e in
      subst (λ (q : RecommendationSet D × Usage). q.0.action_plan ≡ []) (ok_inj e1)
        (merge_recommendations-plan context r.output)

  IsOf : Analysis D → Type 0
  IsOf a = IsSound context a.result × (a.recommendation_set.action_plan ≡ [])

  -- Whatever the provider answers, a workflow that gets past the validation has a result whose
  -- severity is that of its score, whose findings and recommendations cite something and only what
  -- the context lists as valid, and whose confidence, and that of each finding, is at most the
  -- ceiling of unproven evidence where the context has one; and the plan of actions is empty.
  pub analyse-IsSound :
      (cancelled : Option Bool) (a : Analysis D)
      → analyse provider context cancelled ≡ ok a
      → IsSound context a.result × (a.recommendation_set.action_plan ≡ [])
  unfolding analyse IsOf
  analyse-IsSound cancelled a h =
      let (e, (s1, e1)) =
        >>=-eq-ok (evidence_analysis_node provider context cancelled no_usage) _ h in
      let (k, (s2, e2)) = >>=-eq-ok (risk_analysis_node provider context e.0 e.1) _ e1 in
      let (n, (s3, e3)) = >>=-eq-ok (investigation_node provider context e.0 k.0 k.1) _ e2 in
      let (r, (s4, e4)) = >>=-eq-ok (recommendation_node provider context e.0 k.0 n.0 n.1) _ e3 in
      let (v, (valid, e5)) =
        >>=-eq-ok (validation_node context (result_of e.0 k.0 (mitre_context_node context) n.0 r.0))
          _ e4 in
      subst IsOf (ok_inj e5) (
        record {
          acceptable = validation_node-IsAcceptable context _ valid;
          confidence_capped = investigation_node-IsCapped e.0 k.0 k.1 n s3;
          findings_capped = evidence_analysis_node-IsCapped cancelled no_usage e s1;
        },
        recommendation_node-plan e.0 k.0 n.0 n.1 r s4,
      )
