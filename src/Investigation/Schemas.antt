-- ===== src/Investigation/Schemas.antt =====
-- backend/app/schemas/investigation.py and schemas/incident_evidence.py: what the language model
-- returns, what it is shown, and what is stored. A confidence is a number of millionths.
use ai_soc.Base.{ℕ, Bool, String, List, Option}
use ai_soc.Base.Text.{Text}

pub data Zone : Type 0 where
  internet dmz internal restricted unknown_zone : Zone

pub data Protocol : Type 0 where
  tcp udp : Protocol

pub data Disposition : Type 0 where
  allowed blocked unknown : Disposition

pub record NetworkObservation : Type 0 where
  pub source_zone : Zone
  pub destination_zone : Zone
  pub destination_port : ℕ
  pub protocol : Protocol
  pub disposition : Disposition

pub record EvidenceFinding : Type 0 where
  pub title : Text
  pub summary : Text
  pub severity : String
  pub confidence : ℕ
  pub evidence_refs : List Text

pub record EvidenceAnalysis : Type 0 where
  pub findings : List EvidenceFinding
  pub gaps : List Text

pub record RiskAnalysis : Type 0 where
  pub score : ℕ
  pub severity : String
  pub rationale : Text
  pub factors : List Text

pub record MitreContextItem : Type 0 where
  pub technique_id : Text
  pub name : Text
  pub tactics : List Text
  pub relevance : Text

pub record InvestigationNarrative : Type 0 where
  pub executive_summary : Text
  pub attack_story : Text
  pub confidence : ℕ

pub record RemediationPlan : Type 0 where
  pub verification_steps : List Text
  pub change_steps : List Text
  pub validation_steps : List Text
  pub rollback_steps : List Text
  pub impact : Text

pub record Recommendation : Type 0 where
  pub title : Text
  pub priority : String
  pub rationale : Text
  pub actions : List Text
  pub evidence_refs : List Text
  pub remediation_plan : Option RemediationPlan

-- `RecommendationSet` and `PlannedRecommendationSet`. A step of the plan is a dictionary that is
-- validated later: `D` is the type of such dictionaries.
pub record RecommendationSet (D : Type 0) : Type 0 where
  pub recommendations : List Recommendation
  pub action_plan : List D

-- `InvestigationResult`, without its `action_plan`, which the workflow leaves empty.
pub record InvestigationResult : Type 0 where
  pub executive_summary : Text
  pub attack_story : Text
  pub confidence : ℕ
  pub findings : List EvidenceFinding
  pub evidence_gaps : List Text
  pub risk_analysis : RiskAnalysis
  pub mitre_context : List MitreContextItem
  pub recommendations : List Recommendation

pub data EvidenceQuality : Type 0 where
  corroborated_telemetry analyst_supplied report_only : EvidenceQuality

-- The dictionaries of the context. Fields that no code reads are left out.
pub record IncidentContext : Type 0 where
  pub id : ℕ
  pub risk_score : ℕ
  pub primary_username : Option Text
  pub primary_source_ip : Option Text
  pub first_seen : ℕ
  pub last_seen : ℕ
  pub evidence_quality : EvidenceQuality
  pub context_truncated : Bool

pub record AlertContext : Type 0 where
  pub ref : Text
  pub rule_id : String
  pub severity : String
  pub confidence : ℕ
  pub description : Text

pub record EventContext : Type 0 where
  pub ref : Text
  pub event_type : String
  pub timestamp : ℕ
  pub username : Option Text
  pub source_ip : Option Text

pub record EvidenceContext : Type 0 where
  pub ref : Text
  pub kind : String
  pub source : Text
  pub summary : Text
  pub network : Option NetworkObservation

pub record TechniqueContext : Type 0 where
  pub technique_id : Text
  pub name : Text
  pub tactics : List Text
  pub description : Text

pub record TimelineContext : Type 0 where
  pub timestamp : ℕ
  pub description : Text

pub record InvestigationContext : Type 0 where
  pub incident : IncidentContext
  pub alerts : List AlertContext
  pub events : List EventContext
  pub incident_evidence : List EvidenceContext
  pub timeline : List TimelineContext
  pub techniques : List TechniqueContext
  pub valid_evidence_refs : List Text
