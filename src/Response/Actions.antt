-- ===== src/Response/Actions.antt =====
-- backend/app/response/actions.py: action types, their tiers, and a proposed action with the limits
-- that its pydantic fields declare. Confidence is a fixed-point number in millionths.
use ai_soc.Base.{ℕ, String, Bool, true, ◌&&◌, List, Option, none, some, leb, length}
use ai_soc.Base.Text.{Text}

pub data ActionTier : Type 0 where
  tier_0_auto tier_1_low tier_2_medium tier_3_high : ActionTier

-- The value of the `IntEnum`, by which tiers are compared.
abbrev pub tier_value : ActionTier → ℕ
tier_value tier_0_auto = 0
tier_value tier_1_low = 1
tier_value tier_2_medium = 2
tier_value tier_3_high = 3

pub data ActionType : Type 0 where
  notify enrich_threat_intel snapshot_evidence block_ip revoke_sessions : ActionType
  disable_user remove_role isolate_host : ActionType

-- `ACTION_TIERS`
abbrev pub action_tiers : ActionType → ActionTier
action_tiers notify = tier_0_auto
action_tiers enrich_threat_intel = tier_0_auto
action_tiers snapshot_evidence = tier_0_auto
action_tiers block_ip = tier_1_low
action_tiers revoke_sessions = tier_1_low
action_tiers disable_user = tier_2_medium
action_tiers remove_role = tier_2_medium
action_tiers isolate_host = tier_3_high

-- A value of `parameters`: `str | int | float | bool`, the float again in millionths.
pub data ParameterValue : Type 0 where
  text : String → ParameterValue
  int float : ℕ → ParameterValue
  bool : Bool → ParameterValue

pub record ProposedAction : Type 0 where
  pub action_type : ActionType
  pub target : Text
  pub reason : Text
  pub evidence_refs : List Text
  pub confidence : ℕ
  pub ttl_seconds : Option ℕ
  pub parameters : List (String × ParameterValue)

abbrev pub one : ℕ
one = 1000000

abbrev between : ℕ → ℕ → ℕ → Bool
between lo hi n = leb lo n && leb n hi

abbrev ttl_in_range : Option ℕ → Bool
ttl_in_range none = true
ttl_in_range (some t) = between 60 2592000 t

-- The `Field` limits: what `model_validate` accepts.
unfoldable pub accepts : ProposedAction → Bool
accepts a =
    between 1 256 (length a.target)
    && between 5 500 (length a.reason)
    && between 1 20 (length a.evidence_refs)
    && leb a.confidence one
    && ttl_in_range a.ttl_seconds

-- The property `tier`.
abbrev pub tier : ProposedAction → ActionTier
tier a = action_tiers a.action_type
