-- ===== src/Correlation/Timeline.antt =====
-- backend/app/correlation/timeline.py: the timeline of an incident. The entries are ordered by the
-- text of their time; the ISO texts of times in UTC are ordered as the times are.
pub mod Order
use ai_soc.Base.{
  ℕ, Bool, true, false, not, ◌&&◌, ◌||◌, String, List, [], ◌∷◌, ◌++◌, Option, none, some, leb, ltb,
  nat_eq, String-equality, if◌then◌else◌, contains,
}
use ai_soc.Base.Sort.{sort_by}
use ai_soc.Models.{Alert, Event, TimelineEntry, event_entry, alert_entry}
use ai_soc.Repository.Events.{get_event}
use ai_soc.Repository.Alerts.{earlier_alert}

abbrev pub timestamp : TimelineEntry → ℕ
timestamp (event_entry e) = e.timestamp
timestamp (alert_entry a e) = a.last_seen

abbrev pub is_event : TimelineEntry → Bool
is_event (event_entry e) = true
is_event (alert_entry a e) = false

-- The order by the time, then by the type: "alert" is before "event".
abbrev pub entry_le : TimelineEntry → TimelineEntry → Bool
entry_le s t =
    ltb (timestamp s) (timestamp t)
    || (nat_eq (timestamp s) (timestamp t) && (not (is_event s) || is_event t))

abbrev pub event_part : Option Event → List String → List TimelineEntry
event_part none seen = []
event_part (some e) seen = if contains seen e.event_id then [] else event_entry e ∷ []

abbrev pub mark_seen : Option Event → List String → List String
mark_seen none seen = seen
mark_seen (some e) seen = if contains seen e.event_id then seen else e.event_id ∷ seen

-- The loop over the alerts, with the identifiers of the events that are there.
unfoldable pub collect : List Event → List String → List Alert → List TimelineEntry
collect events seen [] = []
collect events seen (a ∷ alerts) =
    let event = get_event a.event_id events in
    event_part event seen ++ alert_entry a event ∷ collect events (mark_seen event seen) alerts

unfoldable pub build_incident_timeline : List Alert → List Event → List TimelineEntry
build_incident_timeline alerts events =
    sort_by entry_le (collect events [] (sort_by earlier_alert alerts))
