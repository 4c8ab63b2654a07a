-- ===== src/Ingestion/Tests.antt =====
-- A run of the pipeline: the second failed login from one address raises an alert.
use ai_soc.Base.{◌*◌, ◌≡◌, refl, List, [], ◌∷◌, none, some, arith, IsIn, ok, text_eq}
use ai_soc.Base.Text.{codes}
use ai_soc.Base.Sort.{sort_by}
use ai_soc.Models.{Event, Alert, second}
use ai_soc.Repository.Events.{
  recent_login_failures_by_source_ip, recent_login_failures_for_identity,
  recent_authentication_context_for_privilege_change, distinct_usernames_for_failures_by_source_ip,
  distinct_usernames,
}
use ai_soc.Correlation.Risk.{has_rule}
use ai_soc.Detection.Rules as Detection
use ai_soc.Detection.Rules.{
  Verdict, DetectionResult, found, brute_force, password_spray, suspicious_privilege_change,
  large_download, login_after_failures, cloud_finding,
}
use ai_soc.Detection.Engine.{DetectionRule, alert_of, evaluate_event, build_alerts}
use ai_soc.Detection.Threshold.{IsBruteForce}
use ai_soc.Correlation.Service as Correlation
use ai_soc.Correlation.Service.{
  State, correlate_credentials, credential_compromise_candidates, with_candidates,
}
use ai_soc.Ingestion.{
  EventCreate, Draw, build_rule_registry, Ingested, normalize, create_event_row, run_detection,
  ingest,
}
use ai_soc.Ingestion.Pipeline.{IsAccepted, ingest-IsAccepted}
use ai_soc.Ingestion.Detected.{ingest-brute_force}
use ai_soc.Correlation.Service.Cloud.{correlate, correlate_from, correlate_alert}
use ai_soc.Repository.Alerts.{related_alerts}

abbrev pub detection : Detection.Settings
detection = record {
  brute_force_window_seconds = 60;
  brute_force_threshold = 2;
  password_spray_window_seconds = 300;
  password_spray_unique_users = 5;
  privilege_change_lookback_seconds = 900;
  large_download_threshold_bytes = 1000000;
  login_after_failures_window_seconds = 900;
  login_after_failures_threshold = 1;
}

abbrev pub settings : Correlation.Settings
settings = record {
  weights = record {
    risk_score_high_severity_weight = 20;
    risk_score_medium_severity_weight = 10;
    risk_score_low_severity_weight = 5;
    risk_score_confidence_multiplier = 20;
    risk_score_combo_bonus = 15;
    risk_score_supporting_bonus = 10;
  };
  credential_compromise_lookback_seconds = 3600;
  incident_merge_window_seconds = 3600;
}

abbrev pub quiet : List Event → Event → Verdict
quiet events e = ok none

abbrev rules : List DetectionRule
rules = build_rule_registry detection quiet

abbrev pub first : Event
first = record {
  id = 1;
  event_id = "evt-1";
  timestamp = 100 * second;
  source = codes "auth";
  source_type = "app";
  event_type = "login_failure";
  category = "authentication";
  severity = none;
  username = some (codes "alice");
  source_ip = some (codes "203.0.113.9");
  status = none;
  resource = none;
  bytes_received = none;
  event_metadata = [];
  created_at = 100 * second;
}

abbrev pub payload : EventCreate
payload = record {
  timestamp = 160 * second;
  source = codes "auth";
  source_type = "app";
  event_type = "login_failure";
  category = "authentication";
  severity = none;
  event_id = none;
  username = some (codes "alice");
  source_ip = some (codes "203.0.113.9");
  status = none;
  resource = none;
  bytes_received = none;
  metadata = [];
}

abbrev pub draw : Draw
draw = record {
  now = 161 * second;
  event_name = "evt_2";
  event_id = 2;
  alert_id = 1;
  incident_id = 1;
}

abbrev pub start : State
start = record {
  tables = record { events = first ∷ []; alerts = []; incidents = []; links = [] };
  last_created_ids = [];
  locks = [];
}

abbrev pub event : Event
event = record first {
  id = 2;
  event_id = "evt_2";
  timestamp = 160 * second;
  created_at = 161 * second;
}

abbrev match : DetectionResult
match = found "rule_001_brute_force" "high" 90 event (100 * second) (160 * second)

abbrev pub alert : Alert
alert = alert_of event (161 * second) 1 match

-- No alert of a login after the failures is there yet, so no incident is opened.
abbrev pub accepted : Ingested
accepted = record {
  state = record {
    tables = record {
      events = first ∷ event ∷ [];
      alerts = alert ∷ [];
      incidents = [];
      links = [];
    };
    last_created_ids = [];
    locks = [];
  };
  event = event;
  alerts = alert ∷ [];
  incidents = [];
}

ingest_run : ingest (build_rule_registry detection quiet) settings draw payload start ≡ ok accepted
unfolding ingest normalize create_event_row build_rule_registry run_detection evaluate_event
    build_alerts brute_force password_spray suspicious_privilege_change large_download
    login_after_failures cloud_finding recent_login_failures_by_source_ip
    recent_login_failures_for_identity recent_authentication_context_for_privilege_change sort_by
    text_eq correlate correlate_from correlate_alert correlate_credentials
    credential_compromise_candidates with_candidates related_alerts
    distinct_usernames_for_failures_by_source_ip distinct_usernames has_rule
ingest_run = refl

reached : IsBruteForce detection (first ∷ event ∷ []) event
unfolding text_eq
reached = (refl, (codes "203.0.113.9", (refl, omega arith)))

ingest-IsAccepted_example :
    IsAccepted (build_rule_registry detection quiet) draw payload start accepted
ingest-IsAccepted_example =
    ingest-IsAccepted (build_rule_registry detection quiet) settings draw payload start accepted
      ingest_run

ingest-brute_force_example :
    (a : Alert) × (IsIn a accepted.state.tables.alerts
      × ((a.rule_id ≡ "rule_001_brute_force") × (a.event_id ≡ 2)))
ingest-brute_force_example =
    ingest-brute_force detection quiet settings draw payload start accepted (omega arith) ingest_run
      reached
