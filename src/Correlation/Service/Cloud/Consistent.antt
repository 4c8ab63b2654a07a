-- ===== src/Correlation/Service/Cloud/Consistent.antt =====
-- What an incident is after an alert has opened or joined it.
use ai_soc.Base.{
  ok_inj, ℕ, ◌≤◌, ◌≡◌, refl, sym, subst, inl, inr, String, List, [], ◌∷◌, Option, none, some, arith,
  max, IsIn, ◌==◌, ℕ-equality, String-equality, contains, Bool-cases, Result, ok, err,
}
use ai_soc.Base.Text.{Text}
use ai_soc.Models.{Alert, Event, Incident}
use ai_soc.Repository.Incidents.{Tables, get_alerts_for_incident}
use ai_soc.Repository.Incidents.Rows.{find_open_related_incident-IsIn, create-IsIn, update-IsIn}
use ai_soc.Correlation.Risk.{Weights, score, severity_from_score, cloud_finding}
use ai_soc.Correlation.Service.{
  Settings, State, CorrelationError, find_or_open, join, finish, linked, alerts_of, latest,
  refreshed, with_candidates, timeline_for, correlate_credentials, allowed_rules,
}
use ai_soc.Correlation.Service.Cloud.{
  highest_floor, severity_floor, max_option, with_floor, refreshed_finding, find_or_open_finding,
  join_finding, with_event, correlate_cloud_finding, correlate_alert, finding_key,
}

-- The columns of an incident fit the alerts `all` and the stored events.
abbrev pub IsFitted : Tables → List Alert → Incident → Type 0
IsFitted t all i =
    (i.severity ≡ severity_from_score i.risk_score)
    × ((i.risk_score ≤ 100)
        × ((i.timeline ≡ timeline_for all t)
            × ((a : Alert) → IsIn a all → a.last_seen ≤ i.last_seen)))

-- The incident is a row of its table and fits the alerts that are linked with it.
abbrev pub IsConsistent : State → Incident → Type 0
IsConsistent st i = IsIn i st.tables.incidents × IsFitted st.tables (alerts_of i st.tables) i

pub score_bound : (w : Weights) (alerts : List Alert) → score w alerts ≤ 100
unfolding score
score_bound w [] = omega arith
score_bound w (a ∷ alerts) = omega arith

latest-covers :
    (last : ℕ) (a : Alert) (alerts : List Alert) → IsIn a alerts → a.last_seen ≤ latest last alerts
unfolding latest
latest-covers last a [] m = absurd m
latest-covers last a (b ∷ alerts) (inl e) =
    subst (λ (x : Alert). x.last_seen ≤ max b.last_seen (latest last alerts)) e (omega arith)
latest-covers last a (b ∷ alerts) (inr m) = omega (arith, latest-covers last a alerts m)

latest-first : (last : ℕ) (alerts : List Alert) → last ≤ latest last alerts
unfolding latest
latest-first last [] = omega arith
latest-first last (b ∷ alerts) = omega (arith, latest-first last alerts)

latest_lem :
    (a b : Alert) (alerts : List Alert)
    → IsIn b (a ∷ alerts)
    → b.last_seen ≤ latest a.last_seen alerts
latest_lem a b alerts (inl e) =
    subst (λ (x : Alert). x.last_seen ≤ latest a.last_seen alerts) e
      (latest-first a.last_seen alerts)
latest_lem a b alerts (inr m) = latest-covers a.last_seen b alerts m

-- What a rewriting of the columns promises.
abbrev IsRewriting : (Tables → List Alert → Incident → Result CorrelationError Incident) → Type 0
IsRewriting rewritten =
    (t : Tables) (all : List Alert) (i i' : Incident)
    → rewritten t all i ≡ ok i'
    → (i'.id ≡ i.id) × IsFitted t all i'

refreshed-IsRewriting :
    (settings : Settings) (key : Text) (username source_ip : Option Text)
    → IsRewriting (refreshed settings key username source_ip)
unfolding refreshed
refreshed-IsRewriting settings key username source_ip t [] i i' e = absurd (cc)
refreshed-IsRewriting settings key username source_ip t (a ∷ alerts) i i' e =
    subst (λ (x : Incident). (x.id ≡ i.id) × IsFitted t (a ∷ alerts) x) (ok_inj e)
      (
        refl,
        (refl, (score_bound settings.weights (a ∷ alerts), (refl, λ b m. latest_lem a b alerts m))),
      )

severity_floor_bound : (severity : String) (n : ℕ) → severity_floor severity ≡ some n → n ≤ 100
unfolding severity_floor
severity_floor_bound severity n e = ground arith

max_option_bound :
    (m k : Option ℕ) (n : ℕ)
    → ((a : ℕ) → m ≡ some a → a ≤ 100)
    → ((a : ℕ) → k ≡ some a → a ≤ 100)
    → max_option m k ≡ some n
    → n ≤ 100
max_option_bound none k n hm hk e = absurd (cc)
max_option_bound (some a) none n hm hk e = absurd (cc)
max_option_bound (some a) (some b) n hm hk e = ground (arith, hm a refl, hk b refl)

highest_floor_bound : (alerts : List Alert) (n : ℕ) → highest_floor 0 alerts ≡ some n → n ≤ 100
unfolding highest_floor
highest_floor_bound [] n e = ground arith
highest_floor_bound (a ∷ alerts) n e =
    max_option_bound (severity_floor a.severity) (highest_floor 0 alerts) n
      (severity_floor_bound a.severity) (highest_floor_bound alerts) e

refreshed_finding-IsRewriting : (settings : Settings) → IsRewriting (refreshed_finding settings)
unfolding refreshed_finding
refreshed_finding-IsRewriting settings t [] i i' e = absurd (cc)
refreshed_finding-IsRewriting settings t (a ∷ alerts) i i' e =
    with (highest_floor 0 (a ∷ alerts)) (highest_floor_bound (a ∷ alerts)) e
  where
    with :
        (floor : Option ℕ)
        → ((n : ℕ) → floor ≡ some n → n ≤ 100)
        → with_floor settings t (a ∷ alerts) (latest a.last_seen alerts) i floor ≡ ok i'
        → (i'.id ≡ i.id) × IsFitted t (a ∷ alerts) i'
    with none h e' = absurd (cc)
    with (some n) h e' =
        subst (λ (x : Incident). (x.id ≡ i.id) × IsFitted t (a ∷ alerts) x) (ok_inj e')
          (
            refl,
            (
              refl,
              (
                omega (arith, h n refl, score_bound settings.weights (a ∷ alerts)),
                (refl, λ b m. latest_lem a b alerts m),
              ),
            ),
          )

-- What `IsConsistent` says of a result.
abbrev pub IsGood : State × Option Incident → Type 0
IsGood (st, none) = Unit
IsGood (st, some i) = IsConsistent st i

finish-IsGood :
    (t : Tables) (i : Incident) (st : State) (r : Result CorrelationError Incident)
    (result : State × Option Incident)
    → IsIn i t.incidents
    → ((x : Incident) → r ≡ ok x → (x.id ≡ i.id) × IsFitted t (alerts_of i t) x)
    → finish (record st { tables = t }) r ≡ ok result
    → IsGood result
finish-IsGood t i st (err x) result stored good e = absurd (cc)
finish-IsGood t i st (ok x) result stored good e =
    let (same, fitted) = good x refl in
    subst IsGood (ok_inj e) (
      update-IsIn i x t.incidents same stored,
      subst (λ id. IsFitted t (get_alerts_for_incident id t.links t.alerts) x) (sym same) fitted,
    )

join-IsGood :
    (rewritten : Tables → List Alert → Incident → Result CorrelationError Incident)
    → IsRewriting rewritten
    → (ids : List ℕ) (i : Incident) (st : State) (result : State × Option Incident)
    → IsIn i st.tables.incidents
    → join rewritten ids (i, st) ≡ ok result
    → IsGood result
join-IsGood rewritten good ids i st result stored e =
    let t = linked i ids st.tables in
    finish-IsGood t i st (rewritten t (alerts_of i t) i) result stored (good t (alerts_of i t) i) e

-- The target of `join` is stored.
find_or_open-IsIn :
    (found : Option Incident) (new : Incident) (st : State)
    → ((i : Incident) → found ≡ some i → IsIn i st.tables.incidents)
    → IsIn (find_or_open found new st).0 (find_or_open found new st).1.tables.incidents
find_or_open-IsIn none new st h = create-IsIn new st.tables.incidents
find_or_open-IsIn (some i) new st h = h i refl

with_candidates-IsGood :
    (settings : Settings) (fresh : ℕ) (alert : Alert) (alerts : List Alert) (st : State)
    (result : State × Option Incident)
    → with_candidates settings fresh alert alerts st ≡ ok result
    → IsGood result
unfolding with_candidates
with_candidates-IsGood settings fresh alert [] st result e = subst IsGood (ok_inj e) tt
with_candidates-IsGood settings fresh alert (a ∷ alerts) st result e =
    join-IsGood (refreshed settings _ _ _) (refreshed-IsRewriting settings _ _ _) _ _ _ result
      (find_or_open-IsIn _ _ _ (find_open_related_incident-IsIn _ _ _ _ _ st.tables.incidents)) e

find_or_open_finding-IsGood :
    (settings : Settings) (found : Option Incident) (floor : Option ℕ) (fresh : ℕ) (key : Text)
    (alert : Alert) (st : State) (result : State × Option Incident)
    → ((i : Incident) → found ≡ some i → IsIn i st.tables.incidents)
    → join_finding settings alert (find_or_open_finding found floor fresh key alert st) ≡ ok result
    → IsGood result
find_or_open_finding-IsGood settings none none fresh key alert st result h e = absurd (cc)
find_or_open_finding-IsGood settings none (some floor) fresh key alert st result h e =
    join-IsGood (refreshed_finding settings) (refreshed_finding-IsRewriting settings) _ _ _ result
      (find_or_open-IsIn none _ st h) e
find_or_open_finding-IsGood settings (some i) floor fresh key alert st result h e =
    join-IsGood (refreshed_finding settings) (refreshed_finding-IsRewriting settings) _ i st result
      (h i refl) e

with_event-IsGood :
    (settings : Settings) (fresh : ℕ) (alert : Alert) (event : Option Event) (st : State)
    (result : State × Option Incident)
    → with_event settings fresh alert event st ≡ ok result
    → IsGood result
with_event-IsGood settings fresh alert none st result e = absurd (cc)
with_event-IsGood settings fresh alert (some event) st result e =
    find_or_open_finding-IsGood settings _ (severity_floor alert.severity) fresh (finding_key event)
      alert _ result (find_open_related_incident-IsIn _ _ _ _ _ st.tables.incidents) e

-- When correlating an alert gives an incident, the incident is a row of the table, its severity is
-- that of its score, its score is at most 100, its timeline is the one of the alerts that are linked
-- with it, and none of these was seen after the incident's `last_seen`.
pub correlate_alert-IsConsistent :
    (settings : Settings) (fresh : ℕ) (alert : Alert) (st st' : State) (i : Incident)
    → correlate_alert settings fresh alert st ≡ ok (st', some i)
    → IsConsistent st' i
unfolding correlate_alert correlate_cloud_finding correlate_credentials
correlate_alert-IsConsistent settings fresh alert st st' i e =
    elim (Bool-cases (alert.rule_id == cloud_finding)) [
      | inl cloud ↦ with_event-IsGood settings fresh alert _ st (st', some i) (rw cloud at e)
      | inr other ↦ elim (Bool-cases (contains allowed_rules alert.rule_id)) [
        | inl allowed ↦
            with_candidates-IsGood settings fresh alert _ st (st', some i)
              (rw (other, allowed) at e)
        | inr ignored ↦ absurd (none_is_not (ok_inj (rw (other, ignored) at e)))
      ]
    ]
  where
    none_is_not : Path (State × Option Incident) (st, none) (st', some i) → ⊥
    none_is_not p = cc
