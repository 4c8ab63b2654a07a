-- ===== src/Investigation/Rows.antt =====
-- backend/app/models/investigation.py and repositories/investigation_repository.py: the rows of the
-- investigations. A write of a field of a row and the flush are one write of the row.
use ai_soc.Base.{
  ℕ, ◌+◌, ◌*◌, Bool, false, ◌&&◌, String, List, [], filter, find, Option, none, some, leb, ltb,
  ◌==◌, Equality, equality_of, ℕ-equality, Text-equality, if◌then◌else◌,
}
use ai_soc.Base.Text.{Text}
use ai_soc.Base.Sort.{sort_by}
use ai_soc.Base.Table.{put_row}
use ai_soc.Models.{second}
use ai_soc.Investigation.Schemas.{InvestigationContext, InvestigationResult}
use ai_soc.Investigation.Validation.{ValidationError}
use ai_soc.Investigation.Workflow.{WorkflowError, Usage}

pub data InvestigationStatus : Type 0 where
  queued running completed failed cancelled dead_letter : InvestigationStatus

unfoldable pub InvestigationStatus-discrete : Discrete InvestigationStatus
InvestigationStatus-discrete = hlevel

instance abbrev pub InvestigationStatus-equality : Equality InvestigationStatus
InvestigationStatus-equality = equality_of InvestigationStatus-discrete

-- The text of the column `error`.
pub data StoredError : Type 0 where
  workflow_error : WorkflowError → StoredError
  unable_to_enqueue cancelled_by_analyst : StoredError
  other_error : Text → StoredError

pub record Investigation : Type 0 where
  pub id : ℕ
  pub incident_id : ℕ
  pub status : InvestigationStatus
  pub provider : Text
  pub model : Text
  pub prompt_version : Text
  pub context_hash : Text
  pub context_snapshot : Option InvestigationContext
  pub result : Option InvestigationResult
  pub validation_errors : List ValidationError
  pub usage : Usage
  pub error : Option StoredError
  pub error_class : Option String
  pub attempt_count : ℕ
  pub next_retry_at : Option ℕ
  pub queued_at : ℕ
  pub started_at : Option ℕ
  pub completed_at : Option ℕ
  pub created_at : ℕ
  pub updated_at : ℕ

abbrev pub row_id : Investigation → ℕ
row_id r = r.id

-- The columns of the unique constraint.
abbrev pub context_key : Investigation → ℕ × (Text × Text)
context_key r = (r.incident_id, (r.context_hash, r.prompt_version))

abbrev pub is_for : ℕ → Text → Text → Investigation → Bool
is_for incident hash version r =
    r.incident_id == incident && (r.context_hash == hash && r.prompt_version == version)

unfoldable pub find_for_context : ℕ → Text → Text → List Investigation → Option Investigation
find_for_context incident hash version rows = find (is_for incident hash version) rows

-- The latest first.
unfoldable pub list_for_incident : ℕ → List Investigation → List Investigation
list_for_incident incident rows =
    sort_by (λ a b. leb b.created_at a.created_at) (filter (λ r. r.incident_id == incident) rows)

abbrev pub claimed : ℕ → Investigation → Investigation
claimed now r = record r {
  status = running;
  started_at = some now;
  completed_at = none;
  error = none;
  error_class = none;
  next_retry_at = none;
  attempt_count = r.attempt_count + 1;
  updated_at = now;
}

abbrev pub is_claimable : ℕ → Investigation → Bool
is_claimable id r = r.id == id && r.status == queued

abbrev claim_found :
    ℕ → List Investigation → Option Investigation → List Investigation × Option Investigation
claim_found now rows none = (rows, none)
claim_found now rows (some r) = (put_row row_id (claimed now r) rows, some (claimed now r))

-- An update of the row that has the identifier and is queued; it returns the row.
unfoldable pub claim : ℕ → ℕ → List Investigation → List Investigation × Option Investigation
claim now id rows = claim_found now rows (find (is_claimable id) rows)

unfoldable pub requeue : ℕ → Bool → Investigation → Investigation
requeue now reset_attempts r = record r {
  status = queued;
  queued_at = now;
  started_at = none;
  completed_at = none;
  error = none;
  error_class = none;
  next_retry_at = none;
  validation_errors = [];
  attempt_count = if reset_attempts then 0 else r.attempt_count;
  updated_at = now;
}

unfoldable pub schedule_retry : ℕ → ℕ → StoredError → String → Investigation → Investigation
schedule_retry now delay_seconds error error_class r = record r {
  status = queued;
  queued_at = now + delay_seconds * second;
  next_retry_at = some (now + delay_seconds * second);
  error = some error;
  error_class = some error_class;
  started_at = none;
  completed_at = none;
  updated_at = now;
}

unfoldable pub checkpoint_context : ℕ → InvestigationContext → Investigation → Investigation
checkpoint_context now context r = record r { context_snapshot = some context; updated_at = now }

unfoldable pub complete :
    ℕ → InvestigationContext → InvestigationResult → Usage → Investigation → Investigation
complete now context result usage r = record r {
  status = completed;
  context_snapshot = some context;
  result = some result;
  usage = usage;
  validation_errors = [];
  error = none;
  error_class = none;
  next_retry_at = none;
  completed_at = some now;
  updated_at = now;
}

-- `fail`, with the default status.
unfoldable pub fail :
    ℕ → StoredError → List ValidationError → Option String → Investigation → Investigation
fail now error validation_errors error_class r = record r {
  status = failed;
  error = some error;
  error_class = error_class;
  next_retry_at = none;
  validation_errors = validation_errors;
  completed_at = some now;
  updated_at = now;
}

unfoldable pub cancel : ℕ → Investigation → Investigation
cancel now r = record r {
  status = cancelled;
  error = some cancelled_by_analyst;
  error_class = some "cancelled";
  next_retry_at = none;
  completed_at = some now;
  updated_at = now;
}

abbrev started_before : ℕ → Option ℕ → Bool
started_before t none = false
started_before t (some s) = ltb s t

unfoldable pub find_stuck : ℕ → List Investigation → List Investigation
find_stuck t rows = filter (λ r. r.status == running && started_before t r.started_at) rows
