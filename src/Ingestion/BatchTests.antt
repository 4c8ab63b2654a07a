-- ===== src/Ingestion/BatchTests.antt =====
-- A batch of two failed logins after a first one.
use ai_soc.Base.{ℕ, true, ◌*◌, ◌≡◌, refl, List, [], ◌∷◌, ok, text_eq}
use ai_soc.Base.Text.{Text, codes}
use ai_soc.Base.Sort.{sort_by}
use ai_soc.Models.{Incident, Event, Alert, second}
use ai_soc.Repository.Events.{
  recent_login_failures_by_source_ip, recent_login_failures_for_identity,
  recent_authentication_context_for_privilege_change, distinct_usernames_for_failures_by_source_ip,
  distinct_usernames,
}
use ai_soc.Correlation.Risk.{has_rule}
use ai_soc.Detection.Rules.{
  found, brute_force, password_spray, suspicious_privilege_change, large_download,
  login_after_failures, cloud_finding,
}
use ai_soc.Detection.Engine.{alert_of, evaluate_event, build_alerts}
use ai_soc.Correlation.Service.{
  State, correlate_credentials, credential_compromise_candidates, with_candidates,
}
use ai_soc.Ingestion.{
  EventCreate, Draw, build_rule_registry, Ingested, normalize, create_event_row, run_detection,
  ingest,
}
use ai_soc.Investigation.Service.{LlmSettings}
use ai_soc.Investigation.Automation.{Cooldowns, dispatch}
use ai_soc.Ingestion.Endpoints.{
  Message, Intake, publish_realtime, incidents_of, ingest_all, create_events_bulk,
}
use ai_soc.Ingestion.Batch.{IsStored, create_events_bulk-IsStored}
use ai_soc.Correlation.Service.Cloud.{correlate, correlate_from, correlate_alert}
use ai_soc.Repository.Alerts.{related_alerts}
use ai_soc.Ingestion.Tests.{
  detection, settings, quiet, first, payload, draw, start, event, alert, accepted,
}

abbrev draw_next : Draw
draw_next = record draw { event_name = "evt_3"; event_id = 3; alert_id = 2 }

abbrev event_next : Event
event_next = record event { id = 3; event_id = "evt_3" }

abbrev alert_next : Alert
alert_next =
    alert_of event_next (161 * second) 2
      (found "rule_001_brute_force" "high" 90 event_next (100 * second) (160 * second))

abbrev accepted_next : Ingested
accepted_next = record accepted {
  state = record accepted.state {
    tables = record accepted.state.tables {
      events = first ∷ event ∷ event_next ∷ [];
      alerts = alert ∷ alert_next ∷ [];
    };
  };
  event = event_next;
  alerts = alert_next ∷ [];
}

abbrev llm : LlmSettings
llm = record {
  llm_enabled = true;
  llm_provider = codes "mock";
  llm_model = codes "m";
  llm_api_key = [];
  llm_prompt_version = codes "v1";
  automatic_investigations_enabled = true;
  automatic_investigation_min_severity = codes "high";
  automatic_investigation_cooldown_seconds = 60;
}

abbrev redis : Cooldowns ℕ
redis = record { claim = λ r i s. (r, true); release = λ r i. r }

abbrev intake : State → Intake ℕ
intake st = record { correlation = st; rows = []; queue = []; cooldowns = 0 }

abbrev hash : Incident → Text
hash i = codes "h"

abbrev batch : List (Draw × EventCreate)
batch = (draw, payload) ∷ (draw_next, payload) ∷ []

abbrev messages : List Message
messages =
    Message.event_created "evt_2"
    ∷ Message.alert_created 1
    ∷ Message.event_created "evt_3"
    ∷ Message.alert_created 2
    ∷ []

bulk_run :
    create_events_bulk
      (build_rule_registry detection quiet)
      settings
      llm
      hash
      redis
      (161 * second)
      1
      (λ i. true)
      batch
      (intake start)
    ≡ ok (intake accepted_next.state, (accepted ∷ accepted_next ∷ [], messages))
unfolding create_events_bulk ingest_all publish_realtime incidents_of dispatch ingest normalize
    create_event_row build_rule_registry run_detection evaluate_event build_alerts brute_force
    password_spray suspicious_privilege_change large_download login_after_failures cloud_finding
    recent_login_failures_by_source_ip recent_login_failures_for_identity
    recent_authentication_context_for_privilege_change sort_by text_eq correlate correlate_from
    correlate_alert correlate_credentials credential_compromise_candidates with_candidates
    related_alerts distinct_usernames_for_failures_by_source_ip distinct_usernames has_rule
bulk_run = refl

create_events_bulk-IsStored_example :
    IsStored batch (accepted ∷ accepted_next ∷ []) start accepted_next.state
create_events_bulk-IsStored_example =
    create_events_bulk-IsStored (build_rule_registry detection quiet) settings llm hash redis
      (161 * second) 1 (λ i. true) batch (intake start) (intake accepted_next.state)
      (accepted ∷ accepted_next ∷ []) messages (λ m. m, tt) bulk_run
