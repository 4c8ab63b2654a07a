-- ===== src/Ingestion/Endpoints.antt =====
-- backend/app/services/event_service.py: what the two endpoints do with an event or a batch, the messages to the
-- browsers and the automatic investigations included. The messages are those published while Redis
-- answers; a failure of Redis is only logged there.
use ai_soc.Base.{
  ℕ, Bool, String, List, [], ◌∷◌, ◌++◌, map, Option, none, some, contains, ℕ-equality,
  if◌then◌else◌, Result, ok, ◌>>=◌,
}
use ai_soc.Base.Text.{Text}
use ai_soc.Base.Table.{get_row}
use ai_soc.Models.{Alert, Incident}
use ai_soc.Detection.Engine.{DetectionRule}
use ai_soc.Correlation.Service as Correlation
use ai_soc.Correlation.Service.{State}
use ai_soc.Investigation.Rows.{Investigation}
use ai_soc.Investigation.Service.{LlmSettings, Jobs}
use ai_soc.Investigation.Automation.{Cooldowns, dispatch}
use ai_soc.Ingestion.{EventCreate, Draw, IngestError, Ingested, ingest}

-- What is published: the type, with the identifier and the payload that it carries.
pub data Message : Type 0 where
  event_created : String → Message
  alert_created : ℕ → Message
  incident_created incident_updated : ℕ → String → Message

-- The tables of correlation, the investigations, and the cooldowns.
pub record Intake (R : Type 0) : Type 0 where
  pub correlation : State
  pub rows : List Investigation
  pub queue : List ℕ
  pub cooldowns : R

abbrev pub incident_id : Incident → ℕ
incident_id i = i.id

abbrev add_found : Option Incident → List Incident → List Incident
add_found none rest = rest
add_found (some i) rest = i ∷ rest

-- The rows of the incidents that correlation returned.
unfoldable pub incidents_of : List ℕ → State → List Incident
incidents_of [] st = []
incidents_of (id ∷ ids) st =
    add_found (get_row incident_id id st.tables.incidents) (incidents_of ids st)

abbrev incident_message : List ℕ → Incident → Message
incident_message created i =
    if contains created i.id
    then incident_created i.id i.severity
    else incident_updated i.id i.severity

-- `_publish_realtime` for one event, on the incidents as they are after the commit.
unfoldable pub publish_realtime : State → Ingested → List Message
publish_realtime st x =
    event_created x.event.event_id
    ∷ (map (λ (a : Alert). alert_created a.id) x.alerts
        ++ map (incident_message x.state.last_created_ids) (incidents_of x.incidents st))

abbrev add_new : ℕ → List ℕ → List ℕ
add_new id ids = if contains ids id then ids else ids ++ id ∷ []

abbrev add_all : List ℕ → List ℕ → List ℕ
add_all [] ids = ids
add_all (id ∷ more) ids = add_all more (add_new id ids)

-- The keys of `all_incidents`, each where it came first.
abbrev all_incidents : List Ingested → List ℕ → List ℕ
all_incidents [] ids = ids
all_incidents (x ∷ xs) ids = all_incidents xs (add_all x.incidents ids)

abbrev publish_all : State → List Ingested → List Message
publish_all st [] = []
publish_all st (x ∷ xs) = publish_realtime st x ++ publish_all st xs

-- The events of a batch in order, in one transaction, each with what it draws.
unfoldable pub ingest_all :
    List DetectionRule
    → Correlation.Settings
    → List (Draw × EventCreate)
    → State
    → Result IngestError (State × List Ingested)
ingest_all rules settings [] st = ok (st, [])
ingest_all rules settings ((d, p) ∷ payloads) st = ingest rules settings d p st >>= λ x.
    ingest_all rules settings payloads x.state >>= λ r. ok (r.0, x ∷ r.1)

module _ {R : Type 0} (rules : List DetectionRule) (settings : Correlation.Settings)
    (llm : LlmSettings) (context_hash : Incident → Text) (redis : Cooldowns R) where
  -- The incidents after the commit, for the dispatcher.
  abbrev dispatched : ℕ → ℕ → (ℕ → Bool) → List ℕ → State → Intake R → Intake R
  dispatched now fresh online ids st w =
      let jobs : Jobs = record {
        incidents = st.tables.incidents;
        rows = w.rows;
        queue = w.queue;
      } in
      let (jobs', cooldowns) =
        dispatch redis llm context_hash now online fresh (incidents_of ids st) jobs w.cooldowns in
      record { correlation = st; rows = jobs'.rows; queue = jobs'.queue; cooldowns = cooldowns }

  unfoldable pub create_event :
      Draw
      → ℕ
      → (ℕ → Bool)
      → EventCreate
      → Intake R
      → Result IngestError (Intake R × (Ingested × List Message))
  create_event d fresh online p w = ingest rules settings d p w.correlation >>= λ x.
      ok (dispatched d.now fresh online x.incidents x.state w, (x, publish_realtime x.state x))

  unfoldable pub create_events_bulk :
      ℕ
      → ℕ
      → (ℕ → Bool)
      → List (Draw × EventCreate)
      → Intake R
      → Result IngestError (Intake R × (List Ingested × List Message))
  create_events_bulk now fresh online payloads w =
      ingest_all rules settings payloads w.correlation >>= λ r.
      ok (dispatched now fresh online (all_incidents r.1 []) r.0 w, (r.1, publish_all r.0 r.1))
