-- ===== src/Ingestion/Detected.antt =====
-- The pipeline from a login failure to a stored alert.
use ai_soc.Base.{
  err_ne_ok, ◌≤◌, ◌≡◌, refl, sym, ap, ◌∙◌, subst, inl, inr, List, [], ◌∷◌, ◌++◌, Option, none, some,
  IsIn, Bool-cases, length, ltb, ◌==◌, String-equality, ok,
}
use ai_soc.Base.Text.{Text}
use ai_soc.Base.Slices.{append-IsIn_right}
use ai_soc.Models.{Event, Alert}
use ai_soc.Detection.Rules as Detection
use ai_soc.Detection.Rules.{
  DetectionResult, DetectionError, Verdict, present, window_start, span, brute_force,
  brute_force_from,
}
use ai_soc.Repository.Events.{recent_login_failures_by_source_ip}
use ai_soc.Detection.Threshold.{IsBruteForce, brute_force_exact}
use ai_soc.Correlation.Service as Correlation
use ai_soc.Correlation.Service.{State}
use ai_soc.Ingestion.{EventCreate, Draw, build_rule_registry, Ingested, ingest}
use ai_soc.Ingestion.Pipeline.{ingest-IsAccepted}

some_result : {m n : DetectionResult} → Path Verdict (ok (some m)) (ok (some n)) → m ≡ n
some_result q = cc

none_is_not : {m : DetectionResult} → Path Verdict (ok none) (ok (some m)) → ⊥
none_is_not q = cc

span-rule_id :
    (e : Event) (failures : List Event) (m : DetectionResult)
    → span e failures ≡ ok (some m)
    → m.rule_id ≡ "rule_001_brute_force"
span-rule_id e [] m h = absurd (err_ne_ok h)
span-rule_id e (f ∷ failures) m h = ap (λ (x : DetectionResult). x.rule_id) (sym (some_result h))

-- What the rule finds carries its identifier.
brute_force-rule_id :
    (detection : Detection.Settings) (events : List Event) (e : Event) (m : DetectionResult)
    → brute_force detection events e ≡ ok (some m)
    → m.rule_id ≡ "rule_001_brute_force"
unfolding brute_force
brute_force-rule_id detection events e m h = elim (Bool-cases (e.event_type == "login_failure")) [
  | inr other ↦ absurd (none_is_not (rw other at h))
  | inl type ↦ from_address (present e.source_ip) (rw type at h)
]
  where
    from_address :
        (o : Option Text)
        → brute_force_from detection events e o ≡ ok (some m)
        → m.rule_id ≡ "rule_001_brute_force"
    from_address none q = absurd (none_is_not q)
    from_address (some ip) q =
        let failures =
          recent_login_failures_by_source_ip ip
            (window_start e detection.brute_force_window_seconds) e.timestamp events in
        elim (Bool-cases (ltb (length failures) detection.brute_force_threshold)) [
          | inl few ↦ absurd (none_is_not (rw few at q))
          | inr enough ↦ span-rule_id e failures m (rw enough at q)
        ]

-- With a threshold of at least one, an accepted event that is a login failure and reaches the
-- threshold of brute force among the stored events, itself included, leaves a stored alert of the
-- rule of brute force that is about this event.
pub ingest-brute_force :
    (detection : Detection.Settings) (ml_anomaly : List Event → Event → Verdict)
    (settings : Correlation.Settings) (d : Draw) (p : EventCreate) (st : State) (x : Ingested)
    → 1 ≤ detection.brute_force_threshold
    → ingest (build_rule_registry detection ml_anomaly) settings d p st ≡ ok x
    → IsBruteForce detection (st.tables.events ++ x.event ∷ []) x.event
    → (a : Alert) × (IsIn a x.state.tables.alerts
        × ((a.rule_id ≡ "rule_001_brute_force") × (a.event_id ≡ x.event.id)))
unfolding build_rule_registry
ingest-brute_force detection ml_anomaly settings d p st x positive accepted reached =
    let done =
      ingest-IsAccepted (build_rule_registry detection ml_anomaly) settings d p st x accepted in
    elim (brute_force_exact detection (st.tables.events ++ x.event ∷ []) x.event positive) [
      | inl (why, (m, found)) ↦
          let (a, (m', (k, is))) = done.found_alerts m (_, (inl refl, found)) in
          (
            a,
            (
              subst (IsIn a) (sym done.alerts) (append-IsIn_right a st.tables.alerts x.alerts m'),
              (
                ap (λ (b : Alert). b.rule_id) is
                    ∙ brute_force-rule_id detection (st.tables.events ++ x.event ∷ []) x.event m
                        found,
                ap (λ (b : Alert). b.event_id) is,
              ),
            ),
          )
      | inr (quiet, r) ↦ absurd (quiet reached)
    ]
