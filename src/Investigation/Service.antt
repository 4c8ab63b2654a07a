-- ===== src/Investigation/Service.antt =====
-- backend/app/services/investigation_service.py and investigation/automation.py: an investigation is
-- requested by an analyst or, after a correlation, by the program. `rpush` may fail.
use ai_soc.Base.{
  ℕ, Bool, true, false, not, ◌&&◌, ◌||◌, List, [], ◌∷◌, ◌++◌, contains, Option, none, some, ◌==◌,
  ℕ-equality, String-equality, Text-equality, if◌then◌else◌, Result, ok, err,
}
use ai_soc.Base.Text.{Text, codes, lower}
use ai_soc.Base.Table.{get_row, put_row}
use ai_soc.Models.{Incident}
use ai_soc.Investigation.Workflow.{no_usage}
use ai_soc.Investigation.Rows.{
  queued, failed, InvestigationStatus-equality, unable_to_enqueue, Investigation, row_id,
  find_for_context, requeue, fail,
}

-- `Settings`
pub record LlmSettings : Type 0 where
  pub llm_enabled : Bool
  pub llm_provider : Text
  pub llm_model : Text
  pub llm_api_key : Text
  pub llm_prompt_version : Text
  pub automatic_investigations_enabled : Bool
  pub automatic_investigation_min_severity : Text
  pub automatic_investigation_cooldown_seconds : ℕ

pub data RequestError : Type 0 where
  investigation_disabled unsupported_provider key_required unable_to_queue : RequestError

-- The incidents, the rows and the list in Redis that the worker reads.
pub record Jobs : Type 0 where
  pub incidents : List Incident
  pub rows : List Investigation
  pub queue : List ℕ

abbrev pub incident_id : Incident → ℕ
incident_id i = i.id

abbrev supported_providers : List Text
supported_providers =
    codes "openai" ∷ codes "google" ∷ codes "google_ai_studio" ∷ codes "gemini" ∷ codes "mock" ∷ []

abbrev is_empty : Text → Bool
is_empty [] = true
is_empty (c ∷ s) = false

-- The settings that raise.
unfoldable pub settings_error : LlmSettings → Option RequestError
settings_error settings =
    let provider = lower settings.llm_provider in
    if not settings.llm_enabled || provider == codes "disabled"
    then some investigation_disabled
    else if not (contains supported_providers provider)
    then some unsupported_provider
    else if not (provider == codes "mock") && is_empty settings.llm_api_key
    then some key_required
    else none

abbrev pub new_investigation : LlmSettings → ℕ → ℕ → ℕ → Text → Investigation
new_investigation settings now fresh incident hash = record {
  id = fresh;
  incident_id = incident;
  status = queued;
  provider = settings.llm_provider;
  model = settings.llm_model;
  prompt_version = settings.llm_prompt_version;
  context_hash = hash;
  context_snapshot = none;
  result = none;
  validation_errors = [];
  usage = no_usage;
  error = none;
  error_class = none;
  attempt_count = 0;
  next_retry_at = none;
  queued_at = now;
  started_at = none;
  completed_at = none;
  created_at = now;
  updated_at = now;
}

abbrev pub Reply : Type 0
Reply = Jobs × Result RequestError (Option Investigation)

-- The rows are committed; then the identifier is queued, or the row is marked.
abbrev pub enqueue : ℕ → Bool → Investigation → Jobs → Reply
enqueue now online r st =
    if online then (record st { queue = st.queue ++ r.id ∷ [] }, ok (some r)) else (
      record st { rows = put_row row_id (fail now unable_to_enqueue [] none r) st.rows },
      err unable_to_queue,
    )

-- A failed investigation starts again, under the settings of today.
abbrev pub restarted : LlmSettings → ℕ → Investigation → Investigation
restarted settings now r =
    requeue now false (record r { provider = settings.llm_provider; model = settings.llm_model })

abbrev pub request_for : LlmSettings → ℕ → ℕ → Bool → ℕ → Text → Option Investigation → Jobs → Reply
request_for settings now fresh online incident hash none st =
    let r = new_investigation settings now fresh incident hash in
    enqueue now online r (record st { rows = st.rows ++ r ∷ [] })
request_for settings now fresh online incident hash (some r) st =
    let r' = restarted settings now r in
    if r.status == failed
    then enqueue now online r' (record st { rows = put_row row_id r' st.rows })
    else (st, ok (some r))

abbrev pub request_known :
    LlmSettings → (Incident → Text) → ℕ → ℕ → Bool → Option Incident → Jobs → Reply
request_known settings context_hash now fresh online none st = (st, ok none)
request_known settings context_hash now fresh online (some i) st =
    request_for settings now fresh online i.id (context_hash i)
      (find_for_context i.id (context_hash i) settings.llm_prompt_version st.rows) st

abbrev pub request_allowed :
    Option RequestError → LlmSettings → (Incident → Text) → ℕ → ℕ → Bool → ℕ → Jobs → Reply
request_allowed (some e) settings context_hash now fresh online incident st = (st, err e)
request_allowed none settings context_hash now fresh online incident st =
    request_known settings context_hash now fresh online (get_row incident_id incident st.incidents)
      st

-- `context_hash` is the SHA-256 of the text that `_context_hash` builds from the incident's row.
unfoldable pub request_investigation :
    LlmSettings → (Incident → Text) → ℕ → ℕ → Bool → ℕ → Jobs → Reply
request_investigation settings context_hash now fresh online incident st =
    request_allowed (settings_error settings) settings context_hash now fresh online incident st
