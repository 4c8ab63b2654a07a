-- ===== src/Investigation/Network.antt =====
-- backend/app/investigation/network_assessment.py: findings from the network observations that
-- analysts attached.
use ai_soc.Base.{
  ℕ, Bool, true, false, ◌&&◌, ◌||◌, List, [], ◌∷◌, ◌++◌, map, filter, Option, none, some, contains,
  ◌==◌, Equality, equality_of, ℕ-equality, String-equality, if◌then◌else◌,
}
use ai_soc.Base.Text.{Text, codes}
use ai_soc.Base.Slices.{take}
use ai_soc.Base.Decimal.{decimal}
use ai_soc.Investigation.Schemas.{
  Zone, internet, dmz, internal, restricted, unknown_zone, Protocol, tcp, udp, Disposition, allowed,
  NetworkObservation, EvidenceFinding, RemediationPlan, Recommendation, EvidenceContext,
}

unfoldable pub Zone-discrete : Discrete Zone
Zone-discrete = hlevel

instance abbrev pub Zone-equality : Equality Zone
Zone-equality = equality_of Zone-discrete

unfoldable pub Disposition-discrete : Discrete Disposition
Disposition-discrete = hlevel

instance abbrev pub Disposition-equality : Equality Disposition
Disposition-equality = equality_of Disposition-discrete

abbrev pub sensitive_ports : List ℕ
sensitive_ports = 22 ∷ 445 ∷ 1433 ∷ 3306 ∷ 3389 ∷ 5432 ∷ 5900 ∷ 6379 ∷ 9200 ∷ 27017 ∷ []

pub record NetworkAssessment : Type 0 where
  pub findings : List EvidenceFinding
  pub recommendations : List Recommendation
  pub gaps : List Text

abbrev pub is_sensitive : NetworkObservation → Bool
is_sensitive n = contains sensitive_ports n.destination_port

abbrev pub internet_to_private : NetworkObservation → Bool
internet_to_private n =
    n.source_zone == internet
    && (n.destination_zone == internal || n.destination_zone == restricted)

abbrev pub lateral_to_restricted : NetworkObservation → Bool
lateral_to_restricted n =
    (n.source_zone == dmz || n.source_zone == internal)
    && n.destination_zone == restricted
    && is_sensitive n

-- The path is reported as open and crosses a border that it should not.
unfoldable pub is_risky : NetworkObservation → Bool
is_risky n = n.disposition == allowed && (internet_to_private n || lateral_to_restricted n)

abbrev zone_text : Zone → Text
zone_text internet = codes "internet"
zone_text dmz = codes "dmz"
zone_text internal = codes "internal"
zone_text restricted = codes "restricted"
zone_text unknown_zone = codes "unknown"

-- `protocol.upper()` and the port
abbrev service_text : NetworkObservation → Text
service_text n = protocol_text n.protocol ++ decimal n.destination_port
  where
    protocol_text : Protocol → Text
    protocol_text tcp = codes "TCP/"
    protocol_text udp = codes "UDP/"

abbrev pub title_of : NetworkObservation → Text
title_of n =
    if internet_to_private n && is_sensitive n
    then codes "Reported internet access to a sensitive service"
    else if internet_to_private n
    then codes "Reported internet path into a private zone"
    else codes "Possible segmentation gap into a restricted zone"

unfoldable pub finding_of : EvidenceContext → NetworkObservation → EvidenceFinding
finding_of item n = record {
  title = title_of n;
  summary =
      codes "Analyst-supplied "
      ++ item.source
      ++ codes " evidence reports an allowed "
      ++ service_text n
      ++ codes " path from "
      ++ zone_text n.source_zone
      ++ codes " to "
      ++ zone_text n.destination_zone
      ++ codes ". This is a reported exposure, not an independently verified vulnerability.";
  severity = if internet_to_private n && is_sensitive n then "high" else "medium";
  confidence = if internet_to_private n && is_sensitive n then 600000 else 500000;
  evidence_refs = item.ref ∷ [];
}

abbrev remediation_plan : RemediationPlan
remediation_plan = record {
  verification_steps =
      codes
        "Confirm the affected assets and the reported path using firewall rules, flow logs, and the asset owner's intended access policy."
      ∷ [];
  change_steps =
      codes "Save the current rule configuration and obtain the approved change window."
      ∷ codes
          "Restrict the unauthorized path to the approved sources, destinations, and ports; retain a tested administrator access path."
      ∷ [];
  validation_steps =
      codes
        "Verify that an unauthorized source is blocked and required business traffic still succeeds."
      ∷ codes "Review firewall and flow logs for continued access attempts after the change."
      ∷ [];
  rollback_steps =
      codes
        "If required traffic fails, restore the approved previous configuration or a narrower temporary rule while investigating the failure."
      ∷ codes
          "Verify administrator access and document any remaining exposure with the incident owner."
      ∷ [];
  impact =
      codes
        "Restricting this path can interrupt legitimate remote administration or application connections; confirm dependencies with the asset owner.";
}

unfoldable pub recommendation_of : EvidenceContext → NetworkObservation → Recommendation
recommendation_of item n = record {
  title = codes "Review and restrict reported " ++ service_text n ++ codes " access";
  priority = if internet_to_private n && is_sensitive n then "high" else "medium";
  rationale =
      codes
        "The supplied network observation suggests a path that may exceed intended access policy; verify before changing production rules.";
  actions =
      codes "Verify the observation against firewall, flow, and asset-owner records."
      ∷ codes
          "If unauthorized, limit the rule to approved sources and required destinations under change control."
      ∷ codes "Test legitimate traffic after the change and monitor for repeat attempts."
      ∷ [];
  evidence_refs = item.ref ∷ [];
  remediation_plan = some remediation_plan;
}

-- `relevant`: the observations with their network details.
abbrev of_network :
    EvidenceContext
    → Option NetworkObservation
    → List (EvidenceContext × NetworkObservation)
    → List (EvidenceContext × NetworkObservation)
of_network item none rest = rest
of_network item (some n) rest =
    if item.kind == "network_observation" then (item, n) ∷ rest else rest

unfoldable pub relevant_items : List EvidenceContext → List (EvidenceContext × NetworkObservation)
relevant_items [] = []
relevant_items (item ∷ items) = of_network item item.network (relevant_items items)

unfoldable pub risky_items : List EvidenceContext → List (EvidenceContext × NetworkObservation)
risky_items items = filter (λ p. is_risky p.1) (relevant_items items)

abbrev is_empty : {A : Type 0} → List A → Bool
is_empty [] = true
is_empty (x ∷ xs) = false

unfoldable pub gaps_of :
    List (EvidenceContext × NetworkObservation)
    → List (EvidenceContext × NetworkObservation)
    → List Text
gaps_of relevant risky =
    if is_empty relevant
    then codes
        "No structured network observation was supplied; network exposure and segmentation cannot be assessed."
      ∷ []
    else if is_empty risky
    then codes
        "No risky allowed path was identified in supplied observations; this does not prove the network is secure."
      ∷ []
    else []

unfoldable pub assess_network_evidence : List EvidenceContext → NetworkAssessment
assess_network_evidence items = record {
  findings = take 10 (map (λ p. finding_of p.0 p.1) (risky_items items));
  recommendations = take 10 (map (λ p. recommendation_of p.0 p.1) (risky_items items));
  gaps = gaps_of (relevant_items items) (risky_items items);
}
