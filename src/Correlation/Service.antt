-- ===== src/Correlation/Service.antt =====
-- backend/app/correlation/service.py: an alert opens an incident or joins an open one. A rule that
-- raises (`min` of an empty list, a key that a dictionary lacks) gives an error and no state.
pub mod Cloud
pub mod Joined
use ai_soc.Base.{
  ℕ, ◌+◌, ◌-◌, ◌*◌, Bool, true, false, not, ◌&&◌, ◌||◌, String, List, [], ◌∷◌, ◌++◌, map, Option,
  none, some, find, leb, filter, contains, length, max, min, ◌==◌, ℕ-equality, String-equality,
  Text-equality, if◌then◌else◌, Result, ok, err,
}
use ai_soc.Base.Text.{Text, codes}
use ai_soc.Models.{Alert, Event, Incident, IncidentAlert, TimelineEntry, second, day}
use ai_soc.Repository.Events.{get_by_ids, get_event}
use ai_soc.Repository.Alerts.{related_alerts}
use ai_soc.Repository.Incidents
use ai_soc.Repository.Incidents.{
  Tables, find_open_related_incident, add_alert_links, get_alerts_for_incident,
}
use ai_soc.Correlation.Identity.{build_correlation_key, build_identity_lock_keys}
use ai_soc.Correlation.Risk.{
  Weights, score, severity_from_score, has_rule, brute_force, password_spray, privilege_change,
  large_download, login_after_failures, cloud_finding,
}
use ai_soc.Correlation.Timeline.{build_incident_timeline}

pub record Settings : Type 0 where
  pub weights : Weights
  pub credential_compromise_lookback_seconds : ℕ
  pub incident_merge_window_seconds : ℕ

pub data CorrelationError : Type 0 where
  no_alerts missing_event unknown_severity : CorrelationError

-- The tables, `last_created_ids`, and the advisory locks in the order they were taken.
pub record State : Type 0 where
  pub tables : Tables
  pub last_created_ids : List ℕ
  pub locks : List Text

abbrev pub allowed_rules : List String
allowed_rules =
    brute_force ∷ password_spray ∷ privilege_change ∷ large_download ∷ login_after_failures ∷ []

-- `_credential_compromise_candidates`
unfoldable pub credential_compromise_candidates : List Alert → List Alert
credential_compromise_candidates alerts =
    if not (
      (has_rule brute_force alerts || has_rule password_spray alerts)
      && has_rule login_after_failures alerts)
    then []
    else filter (λ a. contains allowed_rules a.rule_id) alerts

-- `_first_present`: a text that is neither missing nor empty.
unfoldable pub first_present : List (Option Text) → Option Text
first_present [] = none
first_present (none ∷ values) = first_present values
first_present (some [] ∷ values) = first_present values
first_present (some (c ∷ s) ∷ values) = some (c ∷ s)

abbrev pub or_else : Option Text → Option Text → Option Text
or_else none t = t
or_else (some s) t = some s

-- The first text of the preferred rules in turn, then of all the alerts.
unfoldable pub select_primary : (Alert → Option Text) → List String → List Alert → Option Text
select_primary column [] alerts = first_present (map column alerts)
select_primary column (rule ∷ rules) alerts =
    or_else (first_present (map column (filter (λ a. a.rule_id == rule) alerts)))
      (select_primary column rules alerts)

unfoldable pub select_primary_username : List Alert → Option Text
select_primary_username alerts =
    select_primary (λ a. a.username) (login_after_failures ∷ privilege_change ∷ large_download ∷ [])
      alerts

unfoldable pub select_primary_source_ip : List Alert → Option Text
select_primary_source_ip alerts =
    select_primary (λ a. a.source_ip)
      (login_after_failures ∷ privilege_change ∷ large_download ∷ brute_force ∷ password_spray ∷ [])
      alerts

unfoldable pub earliest : ℕ → List Alert → ℕ
earliest first [] = first
earliest first (a ∷ alerts) = min a.first_seen (earliest first alerts)

unfoldable pub latest : ℕ → List Alert → ℕ
latest last [] = last
latest last (a ∷ alerts) = max a.last_seen (latest last alerts)

abbrev pub take_locks : List Text → State → State
take_locks keys st = record st { locks = st.locks ++ keys }

abbrev pub opened : Incident → State → State
opened i st = record st {
  tables = record st.tables { incidents = Incidents.create i st.tables.incidents };
  last_created_ids = i.id ∷ st.last_created_ids;
}

abbrev pub linked : Incident → List ℕ → Tables → Tables
linked i ids t = record t { links = add_alert_links i.id ids t.links }

abbrev pub alerts_of : Incident → Tables → List Alert
alerts_of i t = get_alerts_for_incident i.id t.links t.alerts

abbrev pub written : Incident → Tables → Tables
written i t = record t { incidents = Incidents.update i t.incidents }

abbrev pub timeline_for : List Alert → Tables → List TimelineEntry
timeline_for all t =
    build_incident_timeline all (get_by_ids (map (λ (a : Alert). a.event_id) all) t.events)

-- The incident that is found, or the new one, which is stored.
abbrev pub find_or_open : Option Incident → Incident → State → Incident × State
find_or_open (some i) new st = (i, st)
find_or_open none new st = (new, opened new st)

-- The columns that are written again from all the alerts of the incident.
unfoldable pub refreshed :
    Settings
    → Text
    → Option Text
    → Option Text
    → Tables
    → List Alert
    → Incident
    → Result CorrelationError Incident
refreshed settings key username source_ip t [] i = err no_alerts
refreshed settings key username source_ip t (a ∷ alerts) i =
    let all = a ∷ alerts in
    let risk_score = score settings.weights all in
    ok (record i {
      severity = severity_from_score risk_score;
      risk_score = risk_score;
      correlation_key = key;
      primary_username = or_else username i.primary_username;
      primary_source_ip = or_else source_ip i.primary_source_ip;
      first_seen = earliest a.first_seen alerts;
      last_seen = latest a.last_seen alerts;
      timeline = timeline_for all t;
    })

abbrev pub finish :
    State → Result CorrelationError Incident → Result CorrelationError (State × Option Incident)
finish st (err e) = err e
finish st (ok i) = ok (record st { tables = written i st.tables }, some i)

-- Links the alerts, then writes the incident again from all its alerts.
abbrev pub join :
    (Tables → List Alert → Incident → Result CorrelationError Incident)
    → List ℕ
    → Incident × State
    → Result CorrelationError (State × Option Incident)
join rewritten ids (i, st) =
    let t = linked i ids st.tables in
    finish (record st { tables = t }) (rewritten t (alerts_of i t) i)

abbrev pub new_incident : ℕ → Text → Option Text → Option Text → Alert → List Alert → Incident
new_incident fresh key username source_ip a alerts = record {
  id = fresh;
  status = "open";
  severity = "low";
  risk_score = 0;
  correlation_key = key;
  primary_username = username;
  primary_source_ip = source_ip;
  first_seen = earliest a.first_seen alerts;
  last_seen = latest a.last_seen alerts;
  timeline = [];
}

abbrev pub id_of : Alert → ℕ
id_of a = a.id

unfoldable pub with_candidates :
    Settings → ℕ → Alert → List Alert → State → Result CorrelationError (State × Option Incident)
with_candidates settings fresh alert [] st = ok (st, none)
with_candidates settings fresh alert (a ∷ alerts) st =
    let username = select_primary_username (a ∷ alerts) in
    let source_ip = select_primary_source_ip (a ∷ alerts) in
    let key = build_correlation_key username source_ip in
    let found =
      find_open_related_incident key username source_ip
        (alert.last_seen - settings.incident_merge_window_seconds * second) alert.last_seen
        st.tables.incidents in
    join (refreshed settings key username source_ip) (map id_of (a ∷ alerts)) (
      find_or_open found (new_incident fresh key username source_ip a alerts)
        (take_locks (build_identity_lock_keys username source_ip) st))

-- The alerts that share the identity, with the alert itself.
abbrev pub related_to : Settings → Alert → State → List Alert
related_to settings alert st =
    let related =
      related_alerts alert.username alert.source_ip
        (alert.last_seen - settings.credential_compromise_lookback_seconds * second) alert.last_seen
        st.tables.alerts in
    if contains (map id_of related) alert.id then related else related ++ alert ∷ []

unfoldable pub correlate_credentials :
    Settings → ℕ → Alert → State → Result CorrelationError (State × Option Incident)
correlate_credentials settings fresh alert st =
    with_candidates settings fresh alert
      (credential_compromise_candidates (related_to settings alert st)) st
