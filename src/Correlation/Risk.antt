-- ===== src/Correlation/Risk.antt =====
-- backend/app/correlation/risk_scoring.py: the score of an incident's alerts and the severity of a
-- score. Weights are not negative. Confidences are whole hundredths and their mean is exact, where
-- Python computes it in floating point; `int` drops the fraction.
use ai_soc.Base.{
  ℕ, ◌+◌, ◌*◌, ◌/◌, Bool, ◌&&◌, ◌||◌, String, List, [], ◌∷◌, map, leb, ◌==◌, String-equality,
  if◌then◌else◌, length, contains, min, max,
}
use ai_soc.Models.{Alert}

pub record Weights : Type 0 where
  pub risk_score_high_severity_weight : ℕ
  pub risk_score_medium_severity_weight : ℕ
  pub risk_score_low_severity_weight : ℕ
  pub risk_score_confidence_multiplier : ℕ
  pub risk_score_combo_bonus : ℕ
  pub risk_score_supporting_bonus : ℕ

abbrev pub brute_force : String
brute_force = "rule_001_brute_force"

abbrev pub password_spray : String
password_spray = "rule_002_password_spray"

abbrev pub privilege_change : String
privilege_change = "rule_003_suspicious_privilege_change"

abbrev pub large_download : String
large_download = "rule_004_large_download"

abbrev pub login_after_failures : String
login_after_failures = "rule_005_login_after_failures"

abbrev pub cloud_finding : String
cloud_finding = "rule_006_cloud_finding"

unfoldable pub severity_weight : Weights → String → ℕ
severity_weight w severity =
    if severity == "critical"
    then w.risk_score_high_severity_weight + 10
    else if severity == "high"
    then w.risk_score_high_severity_weight
    else if severity == "medium"
    then w.risk_score_medium_severity_weight
    else w.risk_score_low_severity_weight

unfoldable pub severity_score : Weights → List Alert → ℕ
severity_score w [] = 0
severity_score w (a ∷ alerts) = severity_weight w a.severity + severity_score w alerts

unfoldable pub confidence_sum : List Alert → ℕ
confidence_sum [] = 0
confidence_sum (a ∷ alerts) = a.confidence + confidence_sum alerts

unfoldable pub has_rule : String → List Alert → Bool
has_rule rule alerts = contains (map (λ (a : Alert). a.rule_id) alerts) rule

unfoldable pub combo_bonus : Weights → List Alert → ℕ
combo_bonus w alerts =
    (if has_rule login_after_failures alerts
        && (has_rule brute_force alerts || has_rule password_spray alerts)
      then w.risk_score_combo_bonus
      else 0)
    + (if has_rule privilege_change alerts || has_rule large_download alerts
        then w.risk_score_supporting_bonus
        else 0)

unfoldable pub score : Weights → List Alert → ℕ
score w [] = 0
score w (a ∷ rest) =
    let alerts = a ∷ rest in
    max 0 (
      min 100 (
        severity_score w alerts
        + (confidence_sum alerts * w.risk_score_confidence_multiplier) / (length alerts * 100)
        + combo_bonus w alerts))

unfoldable pub severity_from_score : ℕ → String
severity_from_score n =
    if leb 85 n
    then "critical"
    else if leb 65 n
    then "high"
    else if leb 35 n
    then "medium"
    else "low"
