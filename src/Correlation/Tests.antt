-- ===== src/Correlation/Tests.antt =====
-- Runs of correlation, and its theorems at concrete inputs: two alerts of one identity become one
-- incident.
use ai_soc.Base.{
  ℕ, ◌*◌, ◌≡◌, refl, ◌⊎◌, inl, inr, String, [], ◌∷◌, Option, none, some, arith, any, nat_eq,
  if◌then◌else◌, ok, text_eq,
}
use ai_soc.Base.Text.{Text, codes, lstrip, strip, lower, lower_code, is_space}
use ai_soc.Base.Sort.{sort_by, count_if, IsSortedBy}
use ai_soc.Models.{Alert, Event, Incident, TimelineEntry, second}
use ai_soc.Repository.Events.{get_by_ids, get_event}
use ai_soc.Repository.Alerts.{related_alerts}
use ai_soc.Repository.Incidents.{
  create, update, find_open_related_incident, new_links, add_alert_links, get_alerts_for_incident,
}
use ai_soc.Repository.Incidents.Links.{IsKeyed, IsDistinct, add_alert_links-IsKeyed}
use ai_soc.Correlation.Identity.{normalized, sized, build_correlation_key, build_identity_lock_keys}
use ai_soc.Correlation.Identity.Keys.{build_correlation_key_inj}
use ai_soc.Correlation.Risk.{
  score, severity_from_score, severity_weight, severity_score, confidence_sum, combo_bonus,
  has_rule, brute_force, login_after_failures,
}
use ai_soc.Correlation.Timeline.{entry_le, collect, build_incident_timeline}
use ai_soc.Correlation.Timeline.Order.{
  shows_alert, shows_event, raised_by, build_incident_timeline_exact,
}
use ai_soc.Correlation.Service.{
  Settings, State, earliest, latest, first_present, select_primary, select_primary_username,
  select_primary_source_ip, refreshed, with_candidates, correlate_credentials,
  credential_compromise_candidates, related_to,
}
use ai_soc.Correlation.Service.Joined.{HasJoined, correlate_credentials_joins}
use ai_soc.Correlation.Service.Cloud.{correlate_alert}
use ai_soc.Correlation.Service.Cloud.Consistent.{IsConsistent, correlate_alert-IsConsistent}

abbrev failure_event : Event
failure_event = record {
  id = 11;
  event_id = "evt-11";
  timestamp = 100 * second;
  source = codes "auth";
  source_type = "app";
  event_type = "login_failure";
  category = "authentication";
  severity = none;
  username = some (codes "alice");
  source_ip = some (codes "203.0.113.9");
  status = none;
  resource = none;
  bytes_received = none;
  event_metadata = [];
  created_at = 100 * second;
}

abbrev guessed : Alert
guessed = record {
  id = 1;
  rule_id = brute_force;
  event_id = 11;
  severity = "high";
  confidence = 80;
  status = "new";
  source_ip = some (codes "203.0.113.9");
  username = some (codes "alice");
  first_seen = 100 * second;
  last_seen = 120 * second;
  created_at = 120 * second;
}

abbrev entered : Alert
entered = record guessed {
  id = 2;
  rule_id = login_after_failures;
  severity = "critical";
  confidence = 90;
  first_seen = 130 * second;
  last_seen = 130 * second;
  created_at = 130 * second;
}

abbrev settings : Settings
settings = record {
  weights = record {
    risk_score_high_severity_weight = 20;
    risk_score_medium_severity_weight = 10;
    risk_score_low_severity_weight = 5;
    risk_score_confidence_multiplier = 20;
    risk_score_combo_bonus = 15;
    risk_score_supporting_bonus = 10;
  };
  credential_compromise_lookback_seconds = 3600;
  incident_merge_window_seconds = 3600;
}

abbrev start : State
start = record {
  tables = record {
    events = failure_event ∷ [];
    alerts = guessed ∷ entered ∷ [];
    incidents = [];
    links = [];
  };
  last_created_ids = [];
  locks = [];
}

score_run : score settings.weights (guessed ∷ entered ∷ []) ≡ 82
unfolding score severity_score severity_weight confidence_sum combo_bonus has_rule
score_run = refl

severity_run : severity_from_score 82 ≡ "high"
unfolding severity_from_score
severity_run = refl

-- `evt-11` is shown once for its two alerts.
timeline_run :
    build_incident_timeline (guessed ∷ entered ∷ []) (failure_event ∷ [])
    ≡ TimelineEntry.event_entry failure_event
      ∷ TimelineEntry.alert_entry guessed (some failure_event)
      ∷ TimelineEntry.alert_entry entered (some failure_event)
      ∷ []
unfolding build_incident_timeline collect sort_by get_event
timeline_run = refl

build_incident_timeline_exact_example :
    IsSortedBy entry_le (build_incident_timeline (guessed ∷ entered ∷ []) (failure_event ∷ []))
    × (((id : ℕ)
          → count_if
              (shows_alert id)
              (build_incident_timeline (guessed ∷ entered ∷ []) (failure_event ∷ []))
            ≡ count_if (λ (a : Alert). nat_eq a.id id) (guessed ∷ entered ∷ []))
        × ((id : String)
            → count_if
                (shows_event id)
                (build_incident_timeline (guessed ∷ entered ∷ []) (failure_event ∷ []))
              ≡ (if any (raised_by (failure_event ∷ []) id) (guessed ∷ entered ∷ [])
                  then 1
                  else 0)))
build_incident_timeline_exact_example =
    build_incident_timeline_exact (guessed ∷ entered ∷ []) (failure_event ∷ [])

abbrev username : Option Text
username = some (codes "alice")

abbrev source_ip : Option Text
source_ip = some (codes "203.0.113.9")

abbrev row : Incident
row = record {
  id = 7;
  status = "open";
  severity = "high";
  risk_score = 82;
  correlation_key = build_correlation_key username source_ip;
  primary_username = username;
  primary_source_ip = source_ip;
  first_seen = 100 * second;
  last_seen = 130 * second;
  timeline = build_incident_timeline (guessed ∷ entered ∷ []) (failure_event ∷ []);
}

abbrev after : State
after = record {
  tables = record {
    events = failure_event ∷ [];
    alerts = guessed ∷ entered ∷ [];
    incidents = row ∷ [];
    links =
        record { incident_id = 7; alert_id = 1 } ∷ record { incident_id = 7; alert_id = 2 } ∷ [];
  };
  last_created_ids = 7 ∷ [];
  locks = build_identity_lock_keys username source_ip;
}

correlate_run : correlate_alert settings 7 entered start ≡ ok (after, some row)
unfolding correlate_alert correlate_credentials with_candidates credential_compromise_candidates
    related_alerts refreshed find_open_related_incident add_alert_links new_links
    get_alerts_for_incident create update get_by_ids sort_by select_primary_username
    select_primary_source_ip select_primary first_present earliest latest score severity_score
    severity_weight confidence_sum combo_bonus has_rule severity_from_score text_eq
correlate_run = refl

correlate_alert-IsConsistent_example : IsConsistent after row
correlate_alert-IsConsistent_example =
    correlate_alert-IsConsistent settings 7 entered start after row correlate_run

correlate_credentials_joins_example :
    ((credential_compromise_candidates (related_to settings entered start) ≡ [])
      × (correlate_credentials settings 7 entered start ≡ ok (start, none)))
    ⊎ HasJoined entered (correlate_credentials settings 7 entered start)
correlate_credentials_joins_example =
    correlate_credentials_joins settings 7 entered start (inr (inl refl)) refl

no_link-IsKeyed : IsKeyed []
no_link-IsKeyed i a = omega arith

two_ids-IsDistinct : IsDistinct (1 ∷ 2 ∷ [])
two_ids-IsDistinct a = ground arith

add_alert_links-IsKeyed_example : IsKeyed (add_alert_links 7 (1 ∷ 2 ∷ []) [])
add_alert_links-IsKeyed_example =
    add_alert_links-IsKeyed 7 (1 ∷ 2 ∷ []) [] two_ids-IsDistinct no_link-IsKeyed

abbrev shouted : Option Text
shouted = some (codes " ALICE")

same_key : build_correlation_key username source_ip ≡ build_correlation_key shouted source_ip
unfolding build_correlation_key normalized sized strip lstrip is_space lower lower_code
same_key = refl

build_correlation_key_inj_example :
    (normalized username ≡ normalized shouted) × (normalized source_ip ≡ normalized source_ip)
build_correlation_key_inj_example =
    build_correlation_key_inj username source_ip shouted source_ip same_key
