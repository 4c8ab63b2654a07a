-- ===== src/Ingestion.antt =====
-- backend/app/services/event_normalizer.py and event_service.py: an event is stored, the rules run on it,
-- their alerts are stored and correlated, and the incidents may be investigated. A call that raises is
-- rolled back, so its error comes without a state.
pub mod Pipeline
pub mod Detected
pub mod Endpoints
pub mod Batch
mod Tests
mod BatchTests
use ai_soc.Base.{
  ℕ, zero, suc, ◌+◌, Bool, true, false, String, List, [], ◌∷◌, ◌++◌, map, Option, none, some, find,
  contains, length, any, ◌==◌, ℕ-equality, String-equality, if◌then◌else◌, Result, ok, err, ◌>>=◌,
  ◌>>◌,
}
use ai_soc.Base.Text.{Text}
use ai_soc.Models.{Event, Alert, Incident}
use ai_soc.Detection.Rules.{
  Verdict, DetectionError, brute_force, password_spray, suspicious_privilege_change, large_download,
  login_after_failures, cloud_finding,
}
use ai_soc.Detection.Rules as Detection
use ai_soc.Detection.Engine.{DetectionRule, evaluate_event, build_alerts}
use ai_soc.Correlation.Service as Correlation
use ai_soc.Correlation.Service.{CorrelationError, State}
use ai_soc.Correlation.Service.Cloud.{correlate}

-- `EventCreate`, the columns that the model of the row has. The validator and the normalizer give
-- its time in UTC.
pub record EventCreate : Type 0 where
  pub timestamp : ℕ
  pub source : Text
  pub source_type : String
  pub event_type : String
  pub category : String
  pub severity : Option String
  pub event_id : Option String
  pub username : Option Text
  pub source_ip : Option Text
  pub status : Option String
  pub resource : Option Text
  pub bytes_received : Option ℕ
  pub metadata : List (String × Text)

-- What one call draws: the time, the text of a random event identifier, and where the unused
-- identifiers of events, alerts and incidents begin.
pub record Draw : Type 0 where
  pub now : ℕ
  pub event_name : String
  pub event_id : ℕ
  pub alert_id : ℕ
  pub incident_id : ℕ

-- `payload.event_id or f"evt_…"`
abbrev or_name : Option String → String → String
or_name none name = name
or_name (some s) name = if s == "" then name else s

-- `GenericJSONNormalizer.normalize`
unfoldable pub normalize : Draw → EventCreate → Event
normalize d p = record {
  id = d.event_id;
  event_id = or_name p.event_id d.event_name;
  timestamp = p.timestamp;
  source = p.source;
  source_type = p.source_type;
  event_type = p.event_type;
  category = p.category;
  severity = p.severity;
  username = p.username;
  source_ip = p.source_ip;
  status = p.status;
  resource = p.resource;
  bytes_received = p.bytes_received;
  event_metadata = p.metadata;
  created_at = d.now;
}

pub data IngestError : Type 0 where
  duplicate_event_id : IngestError
  detection_failed : DetectionError → IngestError
  correlation_failed : CorrelationError → IngestError

-- `build_rule_registry`; the anomaly rule is an argument.
unfoldable pub build_rule_registry :
    Detection.Settings → (List Event → Event → Verdict) → List DetectionRule
build_rule_registry settings ml_anomaly =
    record { id = "rule_001_brute_force"; evaluate = brute_force settings }
    ∷ record { id = "rule_002_password_spray"; evaluate = password_spray settings }
    ∷ record {
      id = "rule_003_suspicious_privilege_change";
      evaluate = suspicious_privilege_change settings;
    }
    ∷ record { id = "rule_004_large_download"; evaluate = large_download settings }
    ∷ record { id = "rule_005_login_after_failures"; evaluate = login_after_failures settings }
    ∷ record { id = "rule_006_ml_anomaly"; evaluate = ml_anomaly }
    ∷ record { id = "rule_006_cloud_finding"; evaluate = cloud_finding settings }
    ∷ []

-- `EventRepository.create`: the column `event_id` is unique.
unfoldable pub create_event_row : Event → State → Result IngestError State
create_event_row e st =
    if any (λ f. f.event_id == e.event_id) st.tables.events
    then err duplicate_event_id
    else ok (record st { tables = record st.tables { events = st.tables.events ++ e ∷ [] } })

abbrev pub create_alerts : List Alert → State → State
create_alerts alerts st = record st {
  tables = record st.tables { alerts = st.tables.alerts ++ alerts };
}

abbrev detected :
    Event
    → Draw
    → Result DetectionError (List Detection.DetectionResult)
    → Result IngestError (List Alert)
detected e d (ok matches) = ok (build_alerts e d.now d.alert_id matches)
detected e d (err x) = err (detection_failed x)

-- `_run_detection` on one event.
unfoldable pub run_detection :
    List DetectionRule → Draw → Event → State → Result IngestError (List Alert)
run_detection rules d e st = detected e d (evaluate_event rules st.tables.events e)

-- The alerts, each with the identifier that a new incident would get.
abbrev number : ℕ → List Alert → List (Alert × ℕ)
number fresh [] = []
number fresh (a ∷ alerts) = (a, fresh) ∷ number (suc fresh) alerts

abbrev correlated : Result CorrelationError (State × List ℕ) → Result IngestError (State × List ℕ)
correlated (ok r) = ok r
correlated (err e) = err (correlation_failed e)

abbrev pub correlate_some :
    Correlation.Settings → Draw → List Alert → State → Result IngestError (State × List ℕ)
correlate_some settings d [] st = ok (st, [])
correlate_some settings d (a ∷ alerts) st =
    correlated (correlate settings (number d.incident_id (a ∷ alerts)) st)

-- What one event did.
pub record Ingested : Type 0 where
  pub state : State
  pub event : Event
  pub alerts : List Alert
  pub incidents : List ℕ

-- The steps that both endpoints take for an event, before the commit.
unfoldable pub ingest :
    List DetectionRule
    → Correlation.Settings
    → Draw
    → EventCreate
    → State
    → Result IngestError Ingested
ingest rules settings d p st = do
  let e = normalize d p
  stored ← create_event_row e st
  alerts ← run_detection rules d e stored
  r ← correlate_some settings d alerts (create_alerts alerts stored)
  ok (record { state = r.0; event = e; alerts = alerts; incidents = r.1 })
