-- ===== src/Ingestion/Batch.antt =====
-- backend/app/services/event_service.py: what an accepted batch did to the tables.
use mathlib.Core.List.{append_assoc, append-nil}
use ai_soc.Base.{
  ℕ, ◌≡◌, sym, ap, ◌∙◌, subst, Bool, String, List, [], ◌∷◌, ◌++◌, map, map-append, IsIn, ok,
  >>=-eq-ok, ok_inj,
}
use ai_soc.Base.Text.{Text}
use ai_soc.Base.Slices.{IsIn-map}
use ai_soc.Base.Table.{IsNodup, append-IsNodup}
use ai_soc.Models.{Event, Alert, Incident}
use ai_soc.Detection.Engine.{DetectionRule}
use ai_soc.Correlation.Service as Correlation
use ai_soc.Correlation.Service.{State}
use ai_soc.Investigation.Service.{LlmSettings}
use ai_soc.Investigation.Automation.{Cooldowns}
use ai_soc.Ingestion.{EventCreate, Draw, normalize, Ingested, ingest}
use ai_soc.Ingestion.Pipeline.{IsAccepted, ingest-IsAccepted}
use ai_soc.Ingestion.Endpoints.{Message, Intake, ingest_all, create_events_bulk}

abbrev name_of : Event → String
name_of e = e.event_id

-- No two stored events have one `event_id`.
abbrev pub HasUniqueNames : State → Type 0
HasUniqueNames st = IsNodup (map name_of st.tables.events)

abbrev normalized : Draw × EventCreate → Event
normalized (d, p) = normalize d p

abbrev alerts_of : List Ingested → List Alert
alerts_of [] = []
alerts_of (x ∷ xs) = x.alerts ++ alerts_of xs

-- The batch is stored as a whole: its events behind the old ones, and its alerts behind the old ones.
pub record IsStored (payloads : List (Draw × EventCreate)) (xs : List Ingested) (st st' : State)
    : Type 0 where
  pub events : st'.tables.events ≡ st.tables.events ++ map normalized payloads
  pub alerts : st'.tables.alerts ≡ st.tables.alerts ++ alerts_of xs
  pub unique : HasUniqueNames st'

IsAccepted-HasUniqueNames :
    (rules : List DetectionRule) (d : Draw) (p : EventCreate) (st : State) (x : Ingested)
    → IsAccepted rules d p st x
    → HasUniqueNames st
    → HasUniqueNames x.state
IsAccepted-HasUniqueNames rules d p st x accepted unique =
    subst (λ es. IsNodup (map name_of es)) (sym accepted.events)
      (subst IsNodup (sym (map-append name_of st.tables.events (x.event ∷ [])))
        (append-IsNodup (name_of x.event) (map name_of st.tables.events) unique new))
  where
    new : ¬ IsIn (name_of x.event) (map name_of st.tables.events)
    new m =
        let (f, (k, same)) = IsIn-map name_of (name_of x.event) st.tables.events m in
        accepted.new_name f k same

-- Behind a list come one more element and then others.
append-step :
    {A : Type 0} {new : List A} (old xs ys rest : List A)
    → new ≡ (old ++ xs)
    → rest ≡ new ++ ys
    → rest ≡ old ++ (xs ++ ys)
append-step old xs ys rest q h = h ∙ ap (λ l. l ++ ys) q ∙ append_assoc old xs ys

ingest_all-IsStored :
    (rules : List DetectionRule) (settings : Correlation.Settings)
    (payloads : List (Draw × EventCreate)) (st : State) (r : State × List Ingested)
    → HasUniqueNames st
    → ingest_all rules settings payloads st ≡ ok r
    → IsStored payloads r.1 st r.0
unfolding ingest_all
ingest_all-IsStored rules settings [] st r unique h =
    subst (λ (y : State × List Ingested). IsStored [] y.1 st y.0) (ok_inj h)
      (record { events = sym (append-nil _); alerts = sym (append-nil _); unique = unique })
ingest_all-IsStored rules settings ((d, p) ∷ payloads) st r unique h =
    let (x, (s1, h1)) = >>=-eq-ok (ingest rules settings d p st) _ h in
    let (r', (s2, h2)) = >>=-eq-ok (ingest_all rules settings payloads x.state) _ h1 in
    let first = ingest-IsAccepted rules settings d p st x s1 in
    let rest =
      ingest_all-IsStored rules settings payloads x.state r'
        (IsAccepted-HasUniqueNames rules d p st x first unique) s2 in
    subst (λ (y : State × List Ingested). IsStored ((d, p) ∷ payloads) y.1 st y.0) (ok_inj h2)
      (record {
        events =
            append-step st.tables.events (normalize d p ∷ []) (map normalized payloads) _
              (first.events ∙ ap (λ e. st.tables.events ++ e ∷ []) first.event) rest.events;
        alerts = append-step st.tables.alerts x.alerts (alerts_of r'.1) _ first.alerts rest.alerts;
        unique = rest.unique;
      })

-- If no two stored events have one `event_id`, then a batch that is accepted is stored as a whole:
-- its events in order behind the old ones, the alerts of its events behind the old ones, and
-- still no two stored events have one `event_id`.
pub create_events_bulk-IsStored :
    {R : Type 0} (rules : List DetectionRule) (settings : Correlation.Settings) (llm : LlmSettings)
    (context_hash : Incident → Text) (redis : Cooldowns R) (now fresh : ℕ) (online : ℕ → Bool)
    (payloads : List (Draw × EventCreate)) (w w' : Intake R) (xs : List Ingested)
    (messages : List Message)
    → HasUniqueNames w.correlation
    → create_events_bulk rules settings llm context_hash redis now fresh online payloads w
      ≡ ok (w', (xs, messages))
    → IsStored payloads xs w.correlation w'.correlation
unfolding create_events_bulk
create_events_bulk-IsStored {R} rules settings llm context_hash redis now fresh online payloads w w'
      xs messages unique h =
    let (r, (s1, h1)) = >>=-eq-ok (ingest_all rules settings payloads w.correlation) _ h in
    subst
      (λ (y : Intake R × (List Ingested × List Message)).
        IsStored payloads y.1.0 w.correlation y.0.correlation)
      (ok_inj h1) (ingest_all-IsStored rules settings payloads w.correlation r unique s1)
