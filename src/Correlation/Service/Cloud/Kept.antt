-- ===== src/Correlation/Service/Cloud/Kept.antt =====
-- backend/app/correlation/service.py: correlation writes incidents and links, and leaves events and alerts alone.
use ai_soc.Base.{
  ℕ, ◌+◌, ◌-◌, ◌*◌, map, ◌≡◌, refl, subst, ◌∙◌, Bool-cases, inl, inr, List, [], ◌∷◌, Option, none,
  some, contains, ◌==◌, String-equality, Result, ok, err, ok_inj, >>=-eq-ok,
}
use ai_soc.Base.Text.{Text}
use ai_soc.Models.{Alert, Event, Incident, second, day}
use ai_soc.Repository.Incidents.{Tables, find_open_related_incident}
use ai_soc.Correlation.Identity.{build_correlation_key, build_identity_lock_keys}
use ai_soc.Correlation.Risk.{cloud_finding}
use ai_soc.Correlation.Service.{
  Settings, CorrelationError, State, allowed_rules, credential_compromise_candidates, related_to,
  select_primary_username, select_primary_source_ip, new_incident, take_locks, refreshed, id_of,
  find_or_open, finish, join, with_candidates, correlate_credentials,
}
use ai_soc.Correlation.Service.Cloud.{
  new_finding, finding_key, severity_floor, find_or_open_finding, join_finding, with_event,
  correlate_cloud_finding, correlate_alert, collect_id, correlate_from, refreshed_finding,
}

-- The events and alerts are those of `t`.
abbrev pub IsKept : Tables → State → Type 0
IsKept t st = (st.tables.events ≡ t.events) × (st.tables.alerts ≡ t.alerts)

abbrev ResultKept : Tables → Result CorrelationError (State × Option Incident) → Type 0
ResultKept t (ok r) = IsKept t r.0
ResultKept t (err e) = Unit {0}

finish-ResultKept :
    (t : Tables) (st : State) (r : Result CorrelationError Incident)
    → IsKept t st
    → ResultKept t (finish st r)
finish-ResultKept t st (ok i) h = h
finish-ResultKept t st (err e) h = tt

join-ResultKept :
    (t : Tables) (rewritten : Tables → List Alert → Incident → Result CorrelationError Incident)
    (ids : List ℕ) (target : Incident × State)
    → IsKept t target.1
    → ResultKept t (join rewritten ids target)
join-ResultKept t rewritten ids (i, st) h = finish-ResultKept t _ (rewritten _ _ i) h

find_or_open-IsKept :
    (found : Option Incident) (new : Incident) (t : Tables) (st : State)
    → IsKept t st
    → IsKept t (find_or_open found new st).1
find_or_open-IsKept none new t st h = h
find_or_open-IsKept (some i) new t st h = h

with_candidates-ResultKept :
    (settings : Settings) (fresh : ℕ) (alert : Alert) (alerts : List Alert) (st : State)
    → ResultKept st.tables (with_candidates settings fresh alert alerts st)
unfolding with_candidates
with_candidates-ResultKept settings fresh alert [] st = (refl, refl)
with_candidates-ResultKept settings fresh alert (a ∷ alerts) st =
    let username = select_primary_username (a ∷ alerts) in
    let source_ip = select_primary_source_ip (a ∷ alerts) in
    let key = build_correlation_key username source_ip in
    let found =
      find_open_related_incident key username source_ip
        (alert.last_seen - settings.incident_merge_window_seconds * second) alert.last_seen
        st.tables.incidents in
    let new = new_incident fresh key username source_ip a alerts in
    let locked = take_locks (build_identity_lock_keys username source_ip) st in
    join-ResultKept st.tables (refreshed settings key username source_ip) (map id_of (a ∷ alerts))
      (find_or_open found new locked) (find_or_open-IsKept found new st.tables locked (refl, refl))

join_finding-ResultKept :
    (settings : Settings) (alert : Alert) (t : Tables) (found : Option Incident) (floor : Option ℕ)
    (fresh : ℕ) (key : Text) (st : State)
    → IsKept t st
    → ResultKept t
        (join_finding settings alert (find_or_open_finding found floor fresh key alert st))
join_finding-ResultKept settings alert t (some i) floor fresh key st h =
    join-ResultKept t (refreshed_finding settings) (alert.id ∷ []) (i, st) h
join_finding-ResultKept settings alert t none none fresh key st h = tt
join_finding-ResultKept settings alert t none (some f) fresh key st h =
    join-ResultKept t (refreshed_finding settings) (alert.id ∷ [])
      (find_or_open none (new_finding fresh key alert f) st)
      (find_or_open-IsKept none (new_finding fresh key alert f) t st h)

with_event-ResultKept :
    (settings : Settings) (fresh : ℕ) (alert : Alert) (found : Option Event) (st : State)
    → ResultKept st.tables (with_event settings fresh alert found st)
with_event-ResultKept settings fresh alert none st = tt
with_event-ResultKept settings fresh alert (some e) st =
    join_finding-ResultKept settings alert st.tables
      (find_open_related_incident (finding_key e) none none (alert.first_seen - 90 * day)
        (alert.last_seen + second) st.tables.incidents)
      (severity_floor alert.severity) fresh (finding_key e) (take_locks (finding_key e ∷ []) st)
      (refl, refl)

correlate_alert-ResultKept :
    (settings : Settings) (fresh : ℕ) (alert : Alert) (st : State)
    → ResultKept st.tables (correlate_alert settings fresh alert st)
unfolding correlate_alert correlate_cloud_finding correlate_credentials
correlate_alert-ResultKept settings fresh alert st =
    elim (Bool-cases (alert.rule_id == cloud_finding)) [
      | inl cloud ↦ rw cloud (with_event-ResultKept settings fresh alert _ st)
      | inr other ↦ rw other (elim (Bool-cases (contains allowed_rules alert.rule_id)) [
        | inl named ↦ rw named (
            with_candidates-ResultKept settings fresh alert
              (credential_compromise_candidates (related_to settings alert st)) st)
        | inr ignored ↦ rw ignored (refl, refl)
      ])
    ]

-- Correlating a list of alerts leaves events and alerts as they were.
pub correlate_from-IsKept :
    (settings : Settings) (alerts : List (Alert × ℕ)) (ids : List ℕ) (st : State)
    (r : State × List ℕ)
    → correlate_from settings alerts ids st ≡ ok r
    → IsKept st.tables r.0
unfolding correlate_from
correlate_from-IsKept settings [] ids st r e =
    subst (λ (x : State × List ℕ). IsKept st.tables x.0) (ok_inj e) (refl, refl)
correlate_from-IsKept settings ((alert, fresh) ∷ alerts) ids st r e =
    let (x, (same, later)) = >>=-eq-ok (correlate_alert settings fresh alert st) _ e in
    let first : IsKept st.tables x.0 =
      subst (ResultKept st.tables) same (correlate_alert-ResultKept settings fresh alert st) in
    let rest = correlate_from-IsKept settings alerts (collect_id x.1 ids) x.0 r later in
    (rest.0 ∙ first.0, rest.1 ∙ first.1)
