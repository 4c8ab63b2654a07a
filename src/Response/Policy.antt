-- ===== src/Response/Policy.antt =====
-- backend/app/response/policy.py: the deterministic gate that every proposed action passes.
-- The texts of the reasons are data here: the case, with the values that the message shows.
pub mod Gate
use ai_soc.Base.{
  ℕ, ◌+◌, ◌*◌, Bool, true, false, not, List, [], ◌∷◌, Option, none, some, map, leb, ltb, contains,
  filter, find, Text-equality, if◌then◌else◌,
}
use ai_soc.Base.Text.{Text, codes, strip, lower}
use ai_soc.Base.Ipv4.{Network, in_network, parse_ipv4}
use ai_soc.Response.Actions.{ProposedAction, ActionTier, tier, tier_value}
use ai_soc.Response.Breaker.{CircuitBreaker, TripReason, is_tripped}

-- `text.strip().lower()`
unfoldable pub normalize : Text → Text
normalize s = lower (strip s)

abbrev pub default_protected_entities : List Text
default_protected_entities =
    codes "admin"
    ∷ codes "root"
    ∷ codes "administrator"
    ∷ codes "soc_admin"
    ∷ codes "break_glass"
    ∷ codes "emergency_admin"
    ∷ codes "127.0.0.1"
    ∷ codes "::1"
    ∷ codes "localhost"
    ∷ []

-- 127.0.0.0/8 and 169.254.0.0/16
abbrev pub loopback : Network
loopback = record { address = 127 * 16777216; host_bits = 24 }

abbrev pub link_local : Network
link_local = record { address = (169 * 256 + 254) * 65536; host_bits = 16 }

abbrev pub default_protected_networks : List Network
default_protected_networks = loopback ∷ link_local ∷ []

pub record PolicyContext : Type 0 where
  pub incident_id : ℕ
  pub incident_entities : List Text
  pub valid_evidence_refs : List Text
  pub protected_entities : List Text
  pub min_auto_confidence : ℕ

-- A context with the defaults of the class.
abbrev pub new_context : ℕ → List Text → List Text → PolicyContext
new_context id entities refs = record {
  incident_id = id;
  incident_entities = entities;
  valid_evidence_refs = refs;
  protected_entities = default_protected_entities;
  min_auto_confidence = 800000;
}

pub data Reason : Type 0 where
  breaker_tripped : TripReason → Reason
  ungrounded_target protected_entity : Text → Reason
  protected_network : Text → Network → Reason
  ungrounded_evidence : List Text → Reason
  tier_3_needs_approval tier_2_needs_approval tier_1_approved tier_0_approved : Reason
  low_confidence : ℕ → ℕ → Reason

pub record PolicyDecision : Type 0 where
  pub allowed : Bool
  pub requires_human_approval : Bool
  pub reason : Reason
  pub action : ProposedAction

abbrev pub deny : Reason → ProposedAction → PolicyDecision
deny r a = record { allowed = false; requires_human_approval = false; reason = r; action = a }

abbrev pub defer : Reason → ProposedAction → PolicyDecision
defer r a = record { allowed = true; requires_human_approval = true; reason = r; action = a }

abbrev pub approve : Reason → ProposedAction → PolicyDecision
approve r a = record { allowed = true; requires_human_approval = false; reason = r; action = a }

-- 2. The normalized target is among the normalized entities of the incident.
unfoldable pub is_grounded : ProposedAction → PolicyContext → Bool
is_grounded a c = contains (map normalize c.incident_entities) (normalize a.target)

-- 3. It is one of the protected entities.
unfoldable pub is_protected : ProposedAction → PolicyContext → Bool
is_protected a c = contains (map normalize c.protected_entities) (normalize a.target)

abbrev first_network : Option ℕ → Option Network
first_network none = none
first_network (some ip) = find (in_network ip) default_protected_networks

-- 3b. The first protected network that the target lies in, if it is an address.
unfoldable pub protecting_network : ProposedAction → Option Network
protecting_network a = first_network (parse_ipv4 (strip a.target))

-- 4. The cited references that the incident does not have.
unfoldable pub invalid_refs : ProposedAction → PolicyContext → List Text
invalid_refs a c = filter (λ r. not (contains c.valid_evidence_refs r)) a.evidence_refs

-- 5. The gate by tiers.
unfoldable pub evaluate_tier : ProposedAction → PolicyContext → PolicyDecision
evaluate_tier a c =
    let value = tier_value (tier a) in
    if leb 3 value
    then defer tier_3_needs_approval a
    else if leb 2 value
    then defer tier_2_needs_approval a
    else if leb 1 value
    then (if ltb a.confidence c.min_auto_confidence
        then defer (low_confidence a.confidence c.min_auto_confidence) a
        else approve tier_1_approved a)
    else approve tier_0_approved a

abbrev evidence_gate : List Text → ProposedAction → PolicyContext → PolicyDecision
evidence_gate [] a c = evaluate_tier a c
evidence_gate (r ∷ rs) a c = deny (ungrounded_evidence (r ∷ rs)) a

abbrev network_gate : Option Network → ProposedAction → PolicyContext → PolicyDecision
network_gate (some net) a c = deny (protected_network a.target net) a
network_gate none a c = evidence_gate (invalid_refs a c) a c

-- Steps 2 to 5, once the breaker lets the action through.
unfoldable pub evaluate_target : ProposedAction → PolicyContext → PolicyDecision
evaluate_target a c =
    if not (is_grounded a c)
    then deny (ungrounded_target a.target) a
    else if is_protected a c
    then deny (protected_entity a.target) a
    else network_gate (protecting_network a) a c

-- The whole gate. The breaker prunes its history, so it is returned too.
unfoldable pub evaluate :
    ℕ → CircuitBreaker → ProposedAction → PolicyContext → CircuitBreaker × PolicyDecision
evaluate now b a c =
    let (b', (tripped, why)) = is_tripped now b in
    (b', if tripped then deny (breaker_tripped why) a else evaluate_target a c)
