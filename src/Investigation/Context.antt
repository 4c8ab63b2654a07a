-- ===== src/Investigation/Context.antt =====
-- backend/app/investigation/context.py: what the language model is shown of an incident, kept within a
-- number of characters. The length of the JSON text is an argument, `size`; so are the texts of the
-- rows that Models leaves out. The label of the incident classifier is left out.
pub mod Parts
pub mod Bounds
use ai_soc.Base.{
  ℕ, zero, suc, ◌+◌, Bool, true, false, not, ◌&&◌, ◌||◌, String, List, [], ◌∷◌, ◌++◌, map, filter,
  Option, none, some, leb, ltb, nat_eq, length, ◌==◌, ℕ-equality, if◌then◌else◌, Result, ok, err,
}
use ai_soc.Base.Text.{Text, codes, strip}
use ai_soc.Base.Decimal.{decimal}
use ai_soc.Base.Sort.{sort_by}
use ai_soc.Base.Slices.{take, drop, take_last}
use ai_soc.Base.Table.{get_row}
use ai_soc.Correlation.Identity.{text_le}
use ai_soc.Models.{Alert, Event, Incident, TimelineEntry}
use ai_soc.Repository.Events.{get_by_ids, get_event}
use ai_soc.Repository.Incidents.{Tables, get_alerts_for_incident}
use ai_soc.Repository.Mitre.{MitreTechnique, RuleTechniqueMapping, get_for_rules}
use ai_soc.Investigation.Schemas.{
  NetworkObservation, EvidenceQuality, corroborated_telemetry, analyst_supplied, report_only,
  IncidentContext, AlertContext, EventContext, EvidenceContext, TechniqueContext, TimelineContext,
  InvestigationContext,
}
use ai_soc.Investigation.Validation.{distinct}
use ai_soc.Investigation.Workflow.{WorkflowError, incident_not_found, context_too_large}

-- models/incident_evidence.py, the columns that are shown.
pub record EvidenceRow : Type 0 where
  pub id : ℕ
  pub incident_id : ℕ
  pub kind : String
  pub source : Text
  pub summary : Text
  pub network : Option NetworkObservation
  pub created_at : ℕ

-- `CONTROL_CHARACTERS`: tab, line feed and carriage return are kept.
unfoldable pub is_control : ℕ → Bool
is_control c = leb c 8 || (nat_eq c 11 || (nat_eq c 12 || ((leb 14 c && leb c 31) || nat_eq c 127)))

unfoldable pub clean_string : ℕ → Text → Text
clean_string limit s = take limit (strip (filter (λ c. not (is_control c)) s))

unfoldable pub clean_optional : Option Text → Option Text
clean_optional none = none
clean_optional (some s) = some (clean_string 500 s)

-- The texts of rows that Models leaves out.
pub record RowTexts : Type 0 where
  pub alert_description : Alert → Text
  pub entry_time : TimelineEntry → ℕ
  pub entry_description : TimelineEntry → Text

pub record ContextTables : Type 0 where
  pub tables : Tables
  pub evidence : List EvidenceRow
  pub mappings : List RuleTechniqueMapping
  pub techniques : List MitreTechnique

abbrev pub incident_ref : ℕ → Text
incident_ref id = codes "incident:" ++ decimal id

abbrev pub alert_ref : AlertContext → Text
alert_ref a = a.ref

abbrev pub event_ref : EventContext → Text
event_ref e = e.ref

abbrev pub technique_ref : TechniqueContext → Text
technique_ref t = codes "mitre:" ++ t.technique_id

abbrev pub evidence_ref : EvidenceContext → Text
evidence_ref e = e.ref

-- What the context has, as references.
unfoldable pub refs_of : InvestigationContext → List Text
refs_of c =
    incident_ref c.incident.id
    ∷ (map alert_ref c.alerts
        ++ (map event_ref c.events
            ++ (map technique_ref c.techniques ++ map evidence_ref c.incident_evidence)))

-- `sorted(set(refs))`
unfoldable pub sorted_refs : InvestigationContext → List Text
sorted_refs c = sort_by text_le (distinct (refs_of c))

abbrev pub with_refs : InvestigationContext → InvestigationContext
with_refs c = record c { valid_evidence_refs = sorted_refs c }

module _ (texts : RowTexts) where
  abbrev alert_context : Alert → AlertContext
  alert_context a = record {
    ref = codes "alert:" ++ decimal a.id;
    rule_id = a.rule_id;
    severity = a.severity;
    confidence = a.confidence;
    description = clean_string 1500 (texts.alert_description a);
  }

  abbrev event_context : Event → EventContext
  event_context e = record {
    ref = codes "event:" ++ codes e.event_id;
    event_type = e.event_type;
    timestamp = e.timestamp;
    username = clean_optional e.username;
    source_ip = clean_optional e.source_ip;
  }

  -- One for each alert whose event is there.
  abbrev add_event : Option Event → List EventContext → List EventContext
  add_event none rest = rest
  add_event (some e) rest = event_context e ∷ rest

  unfoldable pub event_contexts : List Event → List Alert → List EventContext
  event_contexts events [] = []
  event_contexts events (a ∷ alerts) =
      add_event (get_event a.event_id events) (event_contexts events alerts)

  abbrev evidence_context : EvidenceRow → EvidenceContext
  evidence_context e = record {
    ref = codes "evidence:" ++ decimal e.id;
    kind = e.kind;
    source = clean_string 160 e.source;
    summary = clean_string 2000 e.summary;
    network = e.network;
  }

  abbrev technique_context : MitreTechnique → TechniqueContext
  technique_context t = record {
    technique_id = t.external_id;
    name = t.name;
    tactics = t.tactics;
    description = clean_string 1000 t.description;
  }

  -- `_sanitize` on an entry of the timeline, and below on the list, of which it keeps fifty entries.
  abbrev pub timeline_context : TimelineEntry → TimelineContext
  timeline_context e = record {
    timestamp = texts.entry_time e;
    description = clean_string 1000 (texts.entry_description e);
  }

  abbrev evidence_quality : List Alert → List EvidenceRow → EvidenceQuality
  evidence_quality (a ∷ alerts) rows = corroborated_telemetry
  evidence_quality [] (e ∷ rows) = analyst_supplied
  evidence_quality [] [] = report_only

  abbrev incident_context : Incident → EvidenceQuality → IncidentContext
  incident_context i quality = record {
    id = i.id;
    risk_score = i.risk_score;
    primary_username = clean_optional i.primary_username;
    primary_source_ip = clean_optional i.primary_source_ip;
    first_seen = i.first_seen;
    last_seen = i.last_seen;
    evidence_quality = quality;
    context_truncated = false;
  }

  -- The latest fifty.
  abbrev attached : ℕ → List EvidenceRow → List EvidenceRow
  attached incident rows = take 50 (
      sort_by (λ a b. leb b.created_at a.created_at) (filter (λ e. e.incident_id == incident) rows))

  unfoldable pub collect_context : ContextTables → Incident → InvestigationContext
  collect_context db i =
      let alerts = get_alerts_for_incident i.id db.tables.links db.tables.alerts in
      let events = get_by_ids (map (λ (a : Alert). a.event_id) alerts) db.tables.events in
      let techniques =
        get_for_rules (map (λ (a : Alert). a.rule_id) alerts) db.mappings db.techniques in
      let rows = attached i.id db.evidence in
      with_refs (record {
        incident = incident_context i (evidence_quality alerts rows);
        alerts = map alert_context alerts;
        events = event_contexts events alerts;
        incident_evidence = map evidence_context rows;
        timeline = map timeline_context (take 50 i.timeline);
        techniques = map technique_context techniques;
        valid_evidence_refs = [];
      })

-- The first cut of a context that is too large.
abbrev pub shorten_alert : AlertContext → AlertContext
shorten_alert a = record a { description = take 500 a.description }

abbrev pub shorten_entry : TimelineContext → TimelineContext
shorten_entry e = record e { description = take 500 e.description }

unfoldable pub truncate : InvestigationContext → InvestigationContext
truncate c = record c {
  incident = record c.incident { context_truncated = true };
  timeline = map shorten_entry (take_last 50 c.timeline);
  alerts = map shorten_alert (take_last 50 c.alerts);
  events = take_last 50 c.events;
  incident_evidence = take 30 c.incident_evidence;
}

abbrev pub has_more : {A : Type 0} → List A → Bool
has_more [] = false
has_more (x ∷ []) = false
has_more (x ∷ y ∷ xs) = true

-- `pop()`: all but the last.
abbrev pub drop_end : {A : Type 0} → List A → List A
drop_end [] = []
drop_end (x ∷ []) = []
drop_end (x ∷ y ∷ xs) = x ∷ drop_end (y ∷ xs)

-- The next thing to leave out, if there is any.
unfoldable pub leave_out : InvestigationContext → Option InvestigationContext
leave_out c =
    if has_more c.timeline
    then some (record c { timeline = drop 1 c.timeline })
    else if has_more c.events
    then some (record c { events = drop 1 c.events })
    else if has_more c.alerts
    then some (record c { alerts = drop 1 c.alerts })
    else if has_more c.incident_evidence
    then some (record c { incident_evidence = drop_end c.incident_evidence })
    else none

-- How many things a context has.
abbrev pub weight : InvestigationContext → ℕ
weight c = length c.timeline + (length c.events + (length c.alerts + length c.incident_evidence))

module _ (size : InvestigationContext → ℕ) (max_chars : ℕ) where
  -- The `while` loop. Each round leaves one thing out, so `suc (weight c)` rounds are enough.
  unfoldable pub shrink : ℕ → InvestigationContext → Result WorkflowError InvestigationContext
  shrink zero c = err context_too_large
  shrink (suc fuel) c = elim (leb (size c) max_chars) [
    | true ↦ ok c
    | false ↦ elim (leave_out c) [ none ↦ err context_too_large | some c' ↦ shrink fuel c' ]
  ]

  abbrev finish :
      Result WorkflowError InvestigationContext → Result WorkflowError InvestigationContext
  finish (ok c) = ok (with_refs c)
  finish (err e) = err e

  unfoldable pub enforce_size : InvestigationContext → Result WorkflowError InvestigationContext
  enforce_size c =
      if leb (size c) max_chars
      then ok c
      else finish (shrink (suc (weight (truncate c))) (truncate c))

  abbrev build_for :
      RowTexts → ContextTables → Option Incident → Result WorkflowError InvestigationContext
  build_for texts db none = err incident_not_found
  build_for texts db (some i) = enforce_size (collect_context texts db i)

  unfoldable pub build : RowTexts → ContextTables → ℕ → Result WorkflowError InvestigationContext
  build texts db incident = build_for texts db (get_row (λ i. i.id) incident db.tables.incidents)
