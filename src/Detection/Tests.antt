-- ===== src/Detection/Tests.antt =====
-- Runs of detection, and its theorems at concrete inputs: two failed logins from one address.
use ai_soc.Base.{◌*◌, ◌≡◌, refl, List, [], ◌∷◌, none, some, ok, text_eq}
use ai_soc.Base.Text.{codes}
use ai_soc.Base.Sort.{sort_by}
use ai_soc.Models.{Event, second}
use ai_soc.Repository.Events.{
  recent_login_failures_by_source_ip, recent_login_failures_for_identity,
  recent_authentication_context_for_privilege_change,
}
use ai_soc.Detection.Rules.{
  DetectionResult, Settings, brute_force, suspicious_privilege_change, found,
}
use ai_soc.Detection.Engine.{DetectionRule, new_registry, evaluate_event}

abbrev settings : Settings
settings = record {
  brute_force_window_seconds = 60;
  brute_force_threshold = 2;
  password_spray_window_seconds = 300;
  password_spray_unique_users = 5;
  privilege_change_lookback_seconds = 900;
  large_download_threshold_bytes = 1000000;
  login_after_failures_window_seconds = 900;
  login_after_failures_threshold = 1;
}

abbrev first : Event
first = record {
  id = 1;
  event_id = "evt-1";
  timestamp = 100 * second;
  source = codes "auth";
  source_type = "app";
  event_type = "login_failure";
  category = "authentication";
  severity = none;
  username = some (codes "alice");
  source_ip = some (codes "203.0.113.9");
  status = none;
  resource = none;
  bytes_received = none;
  event_metadata = [];
  created_at = 100 * second;
}

abbrev next : Event
next = record first { id = 2; event_id = "evt-2"; timestamp = 160 * second }

abbrev entered : Event
entered = record first {
  id = 3;
  event_id = "evt-3";
  timestamp = 170 * second;
  event_type = "login_success";
}

abbrev events : List Event
events = first ∷ next ∷ entered ∷ []

abbrev rules : List DetectionRule
rules =
    record { id = "rule_001_brute_force"; evaluate = brute_force settings }
    ∷ record {
      id = "rule_003_suspicious_privilege_change";
      evaluate = suspicious_privilege_change settings;
    }
    ∷ []

abbrev match : DetectionResult
match = found "rule_001_brute_force" "high" 90 next (100 * second) (160 * second)

registry_run : new_registry [] rules ≡ ok rules
unfolding new_registry
registry_run = refl

evaluate_run : evaluate_event rules events next ≡ ok (match ∷ [])
unfolding evaluate_event brute_force suspicious_privilege_change recent_login_failures_by_source_ip
    recent_authentication_context_for_privilege_change recent_login_failures_for_identity sort_by
    text_eq
evaluate_run = refl
