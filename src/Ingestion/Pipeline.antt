-- ===== src/Ingestion/Pipeline.antt =====
-- backend/app/services/event_service.py: what an accepted event did to the tables.
use ai_soc.Base.{
  true_ne_false, ℕ, suc, ◌≡◌, refl, sym, ap, ◌∙◌, subst, ◌≢◌, inl, inr, false, String, List, [],
  ◌∷◌, ◌++◌, any, IsIn, ◌==◌, ==_iff, String-equality, Bool-cases, Result, ok, err, >>=-eq-ok,
  ok_inj, err_ne_ok,
}
use ai_soc.Models.{Event, Alert}
use ai_soc.Detection.Rules.{DetectionResult, DetectionError}
use ai_soc.Detection.Engine.{
  DetectionRule, evaluate_event, alert_of, build_alerts, IsFound, evaluate_event_exact,
}
use ai_soc.Correlation.Service as Correlation
use ai_soc.Correlation.Service.{CorrelationError, State}
use ai_soc.Correlation.Service.Cloud.{correlate}
use ai_soc.Correlation.Service.Cloud.Kept.{IsKept, correlate_from-IsKept}
use ai_soc.Ingestion.{
  EventCreate, Draw, normalize, create_event_row, create_alerts, run_detection, number,
  correlate_some, Ingested, ingest,
}

-- An alert of the event for something that a rule found.
abbrev pub IsAlertOf : Event → Draw → Alert → DetectionResult → Type 0
IsAlertOf e d a m = (k : ℕ) × (a ≡ alert_of e d.now k m)

build_alerts_origin :
    (e : Event) (now id : ℕ) (matches : List DetectionResult) (a : Alert)
    → IsIn a (build_alerts e now id matches)
    → (m : DetectionResult) × (IsIn m matches × ((k : ℕ) × (a ≡ alert_of e now k m)))
unfolding build_alerts
build_alerts_origin e now id [] a m = absurd m
build_alerts_origin e now id (x ∷ matches) a (inl q) = (x, (inl refl, (id, sym q)))
build_alerts_origin e now id (x ∷ matches) a (inr m) =
    let (y, (k, found)) = build_alerts_origin e now (suc id) matches a m in (y, (inr k, found))

build_alerts-IsIn :
    (e : Event) (now id : ℕ) (matches : List DetectionResult) (m : DetectionResult)
    → IsIn m matches
    → (a : Alert) × (IsIn a (build_alerts e now id matches) × ((k : ℕ) × (a ≡ alert_of e now k m)))
unfolding build_alerts
build_alerts-IsIn e now id [] m h = absurd h
build_alerts-IsIn e now id (x ∷ matches) m (inl q) =
    (alert_of e now id x, (inl refl, (id, ap (alert_of e now id) q)))
build_alerts-IsIn e now id (x ∷ matches) m (inr h) =
    let (a, (k, found)) = build_alerts-IsIn e now (suc id) matches m h in (a, (inr k, found))

any-false :
    (s : String) (events : List Event)
    → any (λ f. f.event_id == s) events ≡ false
    → (f : Event) → IsIn f events
    → f.event_id ≢ s
any-false s [] h f m = absurd m
any-false s (x ∷ events) h f m = elim (Bool-cases (x.event_id == s)) [
  | inl same ↦ absurd (true_ne_false (rw same at h))
  | inr other ↦ elim m [
    | inl q ↦ λ e.
        true_ne_false (sym ((==_iff x.event_id s).1 (ap (λ (y : Event). y.event_id) q ∙ e)) ∙ other)
    | inr k ↦ any-false s events (rw other at h) f k
  ]
]

create_event_row-ok :
    (e : Event) (st stored : State)
    → create_event_row e st ≡ ok stored
    → ((f : Event) → IsIn f st.tables.events → f.event_id ≢ e.event_id)
      × ((stored.tables.events ≡ st.tables.events ++ e ∷ [])
          × (stored.tables.alerts ≡ st.tables.alerts))
unfolding create_event_row
create_event_row-ok e st stored h =
    elim (Bool-cases (any (λ f. f.event_id == e.event_id) st.tables.events)) [
      | inl there ↦ absurd (err_ne_ok (rw there at h))
      | inr new ↦
          let same = ok_inj (rw new at h) in
          (
            any-false e.event_id st.tables.events new,
            (
              ap (λ (s : State). s.tables.events) (sym same),
              ap (λ (s : State). s.tables.alerts) (sym same),
            ),
          )
    ]

correlate_some-IsKept :
    (settings : Correlation.Settings) (d : Draw) (alerts : List Alert) (st : State)
    (r : State × List ℕ)
    → correlate_some settings d alerts st ≡ ok r
    → IsKept st.tables r.0
unfolding correlate
correlate_some-IsKept settings d [] st r h =
    subst (λ (x : State × List ℕ). IsKept st.tables x.0) (ok_inj h) (refl, refl)
correlate_some-IsKept settings d (a ∷ alerts) st r h =
    by_result (correlate settings (number d.incident_id (a ∷ alerts)) st) refl
  where
    by_result :
        (x : Result CorrelationError (State × List ℕ))
        → correlate settings (number d.incident_id (a ∷ alerts)) st ≡ x
        → IsKept st.tables r.0
    by_result (err x) same = absurd (err_ne_ok (rw same at h))
    by_result (ok x) same =
        subst (λ (y : State × List ℕ). IsKept st.tables y.0) (ok_inj (rw same at h))
          (correlate_from-IsKept settings (number d.incident_id (a ∷ alerts)) [] _ x same)

-- What an accepted event did to the tables of `st`.
pub record IsAccepted (rules : List DetectionRule) (d : Draw) (p : EventCreate) (st : State)
    (x : Ingested) : Type 0 where
  pub event : x.event ≡ normalize d p
  pub new_name : (f : Event) → IsIn f st.tables.events → f.event_id ≢ x.event.event_id
  pub events : x.state.tables.events ≡ st.tables.events ++ x.event ∷ []
  pub alerts : x.state.tables.alerts ≡ st.tables.alerts ++ x.alerts
  pub alerts_found :
      (a : Alert)
      → IsIn a x.alerts
      → (m : DetectionResult) × (IsFound (st.tables.events ++ x.event ∷ []) x.event rules m
          × IsAlertOf x.event d a m)
  pub found_alerts :
      (m : DetectionResult)
      → IsFound (st.tables.events ++ x.event ∷ []) x.event rules m
      → (a : Alert) × (IsIn a x.alerts × IsAlertOf x.event d a m)

run_detection_exact :
    (rules : List DetectionRule) (d : Draw) (e : Event) (st : State) (alerts : List Alert)
    → run_detection rules d e st ≡ ok alerts
    → ((a : Alert)
        → IsIn a alerts
        → (m : DetectionResult) × (IsFound st.tables.events e rules m × IsAlertOf e d a m))
      × ((m : DetectionResult)
          → IsFound st.tables.events e rules m
          → (a : Alert) × (IsIn a alerts × IsAlertOf e d a m))
unfolding run_detection
run_detection_exact rules d e st alerts h = by_result (evaluate_event rules st.tables.events e) refl
  where
    by_result :
        (x : Result DetectionError (List DetectionResult))
        → evaluate_event rules st.tables.events e ≡ x
        → ((a : Alert)
            → IsIn a alerts
            → (m : DetectionResult) × (IsFound st.tables.events e rules m × IsAlertOf e d a m))
          × ((m : DetectionResult)
              → IsFound st.tables.events e rules m
              → (a : Alert) × (IsIn a alerts × IsAlertOf e d a m))
    by_result (err x) same = absurd (err_ne_ok (rw same at h))
    by_result (ok matches) same =
        let built : build_alerts e d.now d.alert_id matches ≡ alerts = ok_inj (rw same at h) in
        let exact = evaluate_event_exact st.tables.events e rules matches same in
        (
          λ a m.
              let (r, (k, found)) =
                build_alerts_origin e d.now d.alert_id matches a (subst (IsIn a) (sym built) m) in
              (r, ((exact r).0 k, found)),
          λ r found.
              let (a, (k, is)) =
                build_alerts-IsIn e d.now d.alert_id matches r ((exact r).1 found) in
              (a, (subst (IsIn a) built k, is)),
        )

-- An accepted event is stored under a name that no event had; nothing else is done to the events and
-- the old alerts; and the new alerts are just those of what the rules find in the stored
-- events, this one included.
pub ingest-IsAccepted :
    (rules : List DetectionRule) (settings : Correlation.Settings) (d : Draw) (p : EventCreate)
    (st : State) (x : Ingested)
    → ingest rules settings d p st ≡ ok x
    → IsAccepted rules d p st x
unfolding ingest
ingest-IsAccepted rules settings d p st x h =
    let e = normalize d p in
    let (stored, (s1, h1)) = >>=-eq-ok (create_event_row e st) _ h in
    let (alerts, (s2, h2)) = >>=-eq-ok (run_detection rules d e stored) _ h1 in
    let (r, (s3, h3)) =
      >>=-eq-ok (correlate_some settings d alerts (create_alerts alerts stored)) _ h2 in
    let (new, (events, old_alerts)) = create_event_row-ok e st stored s1 in
    let (only, enough) = run_detection_exact rules d e stored alerts s2 in
    let kept = correlate_some-IsKept settings d alerts (create_alerts alerts stored) r s3 in
    subst (IsAccepted rules d p st) (ok_inj h3) (record {
      event = refl;
      new_name = new;
      events = kept.0 ∙ events;
      alerts = kept.1 ∙ ap (λ old. old ++ alerts) old_alerts;
      alerts_found =
          subst
            (λ es.
              (a : Alert)
              → IsIn a alerts
              → (m : DetectionResult) × (IsFound es e rules m × IsAlertOf e d a m))
            events only;
      found_alerts =
          subst
            (λ es.
              (m : DetectionResult)
              → IsFound es e rules m
              → (a : Alert) × (IsIn a alerts × IsAlertOf e d a m))
            events enough;
    })
