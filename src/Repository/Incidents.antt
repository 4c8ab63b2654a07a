-- ===== src/Repository/Incidents.antt =====
-- backend/app/repositories/incident_repository.py: the incident tables.
pub mod Links
pub mod Rows
use ai_soc.Base.{
  ℕ, Bool, true, false, not, ◌&&◌, ◌||◌, List, [], ◌∷◌, ◌++◌, Option, none, some, map, filter, any,
  find, leb, ◌==◌, ℕ-equality, String-equality, Text-equality, if◌then◌else◌, contains,
}
use ai_soc.Base.Text.{Text}
use ai_soc.Base.Sort.{sort_by}
use ai_soc.Models.{Alert, Event, Incident, IncidentAlert}
use ai_soc.Repository.Events.{matches_clause}
use ai_soc.Repository.Alerts.{earlier_alert}

-- The tables that correlation reads and writes.
pub record Tables : Type 0 where
  pub events : List Event
  pub alerts : List Alert
  pub incidents : List Incident
  pub links : List IncidentAlert

unfoldable pub create : Incident → List Incident → List Incident
create i incidents = incidents ++ i ∷ []

-- What `flush` writes of a changed row.
unfoldable pub update : Incident → List Incident → List Incident
update i incidents = map (λ j. if j.id == i.id then i else j) incidents

abbrev pub is_link : ℕ → ℕ → IncidentAlert → Bool
is_link incident alert l = l.incident_id == incident && l.alert_id == alert

-- The links that are not there yet.
unfoldable pub new_links : ℕ → List ℕ → List IncidentAlert → List IncidentAlert
new_links incident [] links = []
new_links incident (a ∷ ids) links =
    let rest = new_links incident ids links in
    if any (is_link incident a) links
    then rest
    else record { incident_id = incident; alert_id = a } ∷ rest

unfoldable pub add_alert_links : ℕ → List ℕ → List IncidentAlert → List IncidentAlert
add_alert_links incident ids links = links ++ new_links incident ids links

-- The latest first.
abbrev pub later_incident : Incident → Incident → Bool
later_incident a b = leb b.last_seen a.last_seen

abbrev first_row : List Incident → Option Incident
first_row [] = none
first_row (i ∷ is) = some i

unfoldable pub find_open_related_incident :
    Text → Option Text → Option Text → ℕ → ℕ → List Incident → Option Incident
find_open_related_incident key username source_ip since until incidents = first_row (
    sort_by later_incident (
      filter
        (λ i.
          i.status == "open"
          && (i.correlation_key == key
              || matches_clause username i.primary_username
              || matches_clause source_ip i.primary_source_ip)
          && leb since i.last_seen
          && leb i.last_seen until)
        incidents))

unfoldable pub get_alerts_for_incident : ℕ → List IncidentAlert → List Alert → List Alert
get_alerts_for_incident incident links alerts =
    sort_by earlier_alert (filter (λ a. any (is_link incident a.id) links) alerts)
