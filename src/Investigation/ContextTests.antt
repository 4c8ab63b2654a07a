-- ===== src/Investigation/ContextTests.antt =====
-- The theorem on the context at a concrete input.
use ai_soc.Base.{zero, suc, map, List, ℕ, refl, [], ◌∷◌, none, arith}
use ai_soc.Base.Text.{codes}
use ai_soc.Models.{Event, TimelineEntry, Incident}
use ai_soc.Investigation.Context.{
  timeline_context, ContextTables, RowTexts, collect_context, weight, build,
}
use ai_soc.Investigation.Context.Bounds.{Built, build-Built}
use ai_soc.Base.Slices.{take}

-- An incident with a timeline of sixty entries, and a context whose size is the number of its things.
abbrev sample : Event
sample = record {
  id = 5;
  event_id = "evt-5";
  timestamp = 20;
  source = codes "auth";
  source_type = "app";
  event_type = "login_failure";
  category = "authentication";
  severity = none;
  username = none;
  source_ip = none;
  status = none;
  resource = none;
  bytes_received = none;
  event_metadata = [];
  created_at = 20;
}

abbrev entries : ℕ → List TimelineEntry
entries zero = []
entries (suc n) = TimelineEntry.event_entry sample ∷ entries n

abbrev long_incident : Incident
long_incident = record {
  id = 4;
  status = "open";
  severity = "high";
  risk_score = 70;
  correlation_key = codes "k";
  primary_username = none;
  primary_source_ip = none;
  first_seen = 10;
  last_seen = 20;
  timeline = entries 60;
}

abbrev db : ContextTables
db = record {
  tables = record { incidents = long_incident ∷ []; alerts = []; links = []; events = [] };
  evidence = [];
  mappings = [];
  techniques = [];
}

abbrev texts : RowTexts
texts = record {
  alert_description = λ a. [];
  entry_time = λ e. 0;
  entry_description = λ e. codes "failed login";
}

build-Built_example :
    Built weight 10
      (map (timeline_context texts) (take 50 long_incident.timeline))
      (collect_context texts db long_incident)
      (build weight 10 texts db 4)
build-Built_example =
    build-Built weight 10 (λ c refs once fewer. omega arith) texts db 4 long_incident refl
