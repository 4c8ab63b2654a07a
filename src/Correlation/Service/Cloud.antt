-- ===== src/Correlation/Service/Cloud.antt =====
-- backend/app/correlation/service.py: alerts about findings of a cloud provider, and `correlate`.
pub mod Consistent
pub mod Kept
use ai_soc.Base.{
  ℕ, zero, suc, ◌+◌, ◌-◌, ◌*◌, Bool, String, List, [], ◌∷◌, ◌++◌, Option, none, some, contains, max,
  ◌==◌, ℕ-equality, String-equality, if◌then◌else◌, Result, ok, err, ◌>>=◌,
}
use ai_soc.Base.Text.{Text, codes}
use ai_soc.Models.{Alert, Event, Incident, second, day}
use ai_soc.Repository.Events.{get_by_ids, get_event}
use ai_soc.Repository.Incidents.{Tables, find_open_related_incident}
use ai_soc.Correlation.Risk.{score, severity_from_score, cloud_finding}
use ai_soc.Correlation.Service.{
  Settings, State, CorrelationError, missing_event, unknown_severity, no_alerts, allowed_rules,
  take_locks, find_or_open, join, latest, timeline_for, correlate_credentials,
}

unfoldable pub metadata_text : String → List (String × Text) → Text
metadata_text key [] = []
metadata_text key ((k, v) ∷ metadata) =
    let rest = metadata_text key metadata in if k == key then v else rest

-- `str(value or default)`
abbrev pub text_or : Text → Text → Text
text_or [] t = t
text_or (c ∷ s) t = c ∷ s

abbrev pub take : ℕ → Text → Text
take zero s = []
take (suc n) [] = []
take (suc n) (c ∷ s) = c ∷ take n s

unfoldable pub finding_key : Event → Text
finding_key e =
    let provider_id =
      text_or (metadata_text "provider_finding_id" e.event_metadata) (codes e.event_id) in
    let account_id = text_or (metadata_text "account_id" e.event_metadata) (codes "local") in
    take 512 (codes "finding:" ++ account_id ++ b':' ∷ provider_id)

-- The dictionary from severities to scores.
unfoldable pub severity_floor : String → Option ℕ
severity_floor severity =
    if severity == "low"
    then some 25
    else if severity == "medium"
    then some 50
    else if severity == "high"
    then some 75
    else if severity == "critical"
    then some 95
    else none

abbrev max_option : Option ℕ → Option ℕ → Option ℕ
max_option (some m) (some n) = some (max m n)
max_option _ _ = none

unfoldable pub highest_floor : ℕ → List Alert → Option ℕ
highest_floor floor [] = some floor
highest_floor floor (a ∷ alerts) =
    max_option (severity_floor a.severity) (highest_floor floor alerts)

abbrev with_floor :
    Settings → Tables → List Alert → ℕ → Incident → Option ℕ → Result CorrelationError Incident
with_floor settings t all last i none = err unknown_severity
with_floor settings t all last i (some floor) =
    let risk_score = max (score settings.weights all) floor in
    ok (record i {
      timeline = timeline_for all t;
      risk_score = risk_score;
      severity = severity_from_score risk_score;
      last_seen = last;
    })

unfoldable pub refreshed_finding :
    Settings → Tables → List Alert → Incident → Result CorrelationError Incident
refreshed_finding settings t [] i = err no_alerts
refreshed_finding settings t (a ∷ alerts) i =
    with_floor settings t (a ∷ alerts) (latest a.last_seen alerts) i (highest_floor 0 (a ∷ alerts))

abbrev pub new_finding : ℕ → Text → Alert → ℕ → Incident
new_finding fresh key alert floor = record {
  id = fresh;
  status = "open";
  severity = alert.severity;
  risk_score = floor;
  correlation_key = key;
  primary_username = alert.username;
  primary_source_ip = alert.source_ip;
  first_seen = alert.first_seen;
  last_seen = alert.last_seen;
  timeline = [];
}

-- A new incident needs the score of the alert's severity.
abbrev pub find_or_open_finding :
    Option Incident
    → Option ℕ
    → ℕ
    → Text
    → Alert
    → State
    → Result CorrelationError (Incident × State)
find_or_open_finding (some i) floor fresh key alert st = ok (i, st)
find_or_open_finding none none fresh key alert st = err unknown_severity
find_or_open_finding none (some floor) fresh key alert st =
    ok (find_or_open none (new_finding fresh key alert floor) st)

abbrev pub join_finding :
    Settings
    → Alert
    → Result CorrelationError (Incident × State)
    → Result CorrelationError (State × Option Incident)
join_finding settings alert (err e) = err e
join_finding settings alert (ok target) = join (refreshed_finding settings) (alert.id ∷ []) target

abbrev pub with_event :
    Settings → ℕ → Alert → Option Event → State → Result CorrelationError (State × Option Incident)
with_event settings fresh alert none st = err missing_event
with_event settings fresh alert (some e) st =
    let key = finding_key e in
    let found =
      find_open_related_incident key none none (alert.first_seen - 90 * day)
        (alert.last_seen + second) st.tables.incidents in
    join_finding settings alert (
      find_or_open_finding found (severity_floor alert.severity) fresh key alert
        (take_locks (key ∷ []) st))

unfoldable pub correlate_cloud_finding :
    Settings → ℕ → Alert → State → Result CorrelationError (State × Option Incident)
correlate_cloud_finding settings fresh alert st =
    with_event settings fresh alert
      (get_event alert.event_id (get_by_ids (alert.event_id ∷ []) st.tables.events)) st

-- `_correlate_alert`, with the identifier that a new incident would get.
unfoldable pub correlate_alert :
    Settings → ℕ → Alert → State → Result CorrelationError (State × Option Incident)
correlate_alert settings fresh alert st =
    if alert.rule_id == cloud_finding
    then correlate_cloud_finding settings fresh alert st
    else if contains allowed_rules alert.rule_id
    then correlate_credentials settings fresh alert st
    else ok (st, none)

abbrev pub collect_id : Option Incident → List ℕ → List ℕ
collect_id none ids = ids
collect_id (some i) ids = if contains ids i.id then ids else ids ++ i.id ∷ []

-- The loop. A returned incident is the object of its row, so its identifier stands for it.
unfoldable pub correlate_from :
    Settings → List (Alert × ℕ) → List ℕ → State → Result CorrelationError (State × List ℕ)
correlate_from settings [] ids st = ok (st, ids)
correlate_from settings ((alert, fresh) ∷ alerts) ids st =
    correlate_alert settings fresh alert st >>= λ r.
    correlate_from settings alerts (collect_id r.1 ids) r.0

unfoldable pub correlate :
    Settings → List (Alert × ℕ) → State → Result CorrelationError (State × List ℕ)
correlate settings alerts st =
    correlate_from settings alerts [] (record st { last_created_ids = [] })
