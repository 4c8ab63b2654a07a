-- ===== src/Response/Approval.antt =====
-- backend/app/services/response_actions.py: an analyst proposes an action, another one decides it,
-- and a worker executes what was approved. A reference to evidence is what its text names.
pub mod Worker
pub mod Rows
pub mod FourEyes
pub mod Once
pub mod Effects
mod Tests
use ai_soc.Base.{
  ℕ, ◌+◌, ◌-◌, ◌*◌, Bool, true, false, not, ◌&&◌, ◌||◌, String, List, [], ◌∷◌, ◌++◌, map, Option,
  none, some, find, filter, any, length, leb, nat_eq, Equality, equality_of, ◌==◌, ℕ-equality,
  String-equality, Text-equality, if◌then◌else◌, Result, ok, err,
}
use ai_soc.Base.Text.{Text}
use ai_soc.Base.Uuid.{parse_uuid}
use ai_soc.Models.{Alert, Event, Incident, User}
use ai_soc.Repository.Events.{get_by_ids}
use ai_soc.Repository.Incidents.{Tables, get_alerts_for_incident}
use ai_soc.Auth.Service
use ai_soc.Auth.Service.{get_user}

pub data ActionType : Type 0 where
  revoke_app_sessions disable_aws_access_key block_s3_public_access : ActionType

unfoldable pub ActionType-discrete : Discrete ActionType
ActionType-discrete = hlevel

instance abbrev pub ActionType-equality : Equality ActionType
ActionType-equality = equality_of ActionType-discrete

pub data ActionStatus : Type 0 where
  proposed approved running succeeded failed rejected : ActionStatus

unfoldable pub ActionStatus-discrete : Discrete ActionStatus
ActionStatus-discrete = hlevel

instance abbrev pub ActionStatus-equality : Equality ActionStatus
ActionStatus-equality = equality_of ActionStatus-discrete

pub data EvidenceRef : Type 0 where
  incident_ref alert_ref evidence_ref : ℕ → EvidenceRef
  event_ref : String → EvidenceRef
  other_ref : String → EvidenceRef

abbrev pub ref_eq : EvidenceRef → EvidenceRef → Bool
ref_eq (incident_ref i) (incident_ref j) = i == j
ref_eq (alert_ref i) (alert_ref j) = i == j
ref_eq (evidence_ref i) (evidence_ref j) = i == j
ref_eq (event_ref s) (event_ref t) = s == t
ref_eq (other_ref s) (other_ref t) = s == t
ref_eq _ _ = false

-- `ResponseActionCreate`, without its two texts.
pub record ResponseActionCreate : Type 0 where
  pub action_type : ActionType
  pub target : Text
  pub account_id : Option Text
  pub evidence_refs : List EvidenceRef
  pub idempotency_key : Text

-- The row, without `result` and the times.
pub record ResponseAction : Type 0 where
  pub id : ℕ
  pub incident_id : ℕ
  pub action_type : ActionType
  pub target : Text
  pub account_id : Option Text
  pub status : ActionStatus
  pub evidence_refs : List EvidenceRef
  pub idempotency_key : Text
  pub proposed_by : ℕ
  pub approved_by : Option ℕ

pub data ResponseActionError : Type 0 where
  incident_not_found key_in_use foreign_evidence user_not_found action_not_found :
      ResponseActionError
  already_decided own_action aws_disabled not_allowlisted other_account malformed_target :
      ResponseActionError
  unsupported_target key_not_attached bucket_refused not_verified : ResponseActionError

pub record IncidentEvidence : Type 0 where
  pub id : ℕ
  pub incident_id : ℕ

-- The tables of the service; `accounts` are those of authentication.
pub record Store : Type 0 where
  pub tables : Tables
  pub evidence : List IncidentEvidence
  pub actions : List ResponseAction
  pub accounts : Service.State

unfoldable pub get_incident : ℕ → List Incident → Option Incident
get_incident id incidents = find (λ i. i.id == id) incidents

unfoldable pub get_action : ℕ → List ResponseAction → Option ResponseAction
get_action id actions = find (λ a. a.id == id) actions

unfoldable pub put_action : ResponseAction → List ResponseAction → List ResponseAction
put_action a actions = map (λ b. if b.id == a.id then a else b) actions

abbrev pub same_request : ℕ → Text → ResponseAction → Bool
same_request incident key a = a.incident_id == incident && a.idempotency_key == key

unfoldable pub existing_action : ℕ → Text → List ResponseAction → Option ResponseAction
existing_action incident key actions = find (same_request incident key) actions

-- What an action of the incident may cite.
unfoldable pub valid_refs : ℕ → Store → List EvidenceRef
valid_refs incident st =
    let alerts = get_alerts_for_incident incident st.tables.links st.tables.alerts in
    let events = get_by_ids (map (λ (a : Alert). a.event_id) alerts) st.tables.events in
    let evidence = filter (λ (e : IncidentEvidence). e.incident_id == incident) st.evidence in
    incident_ref incident ∷ map (λ (a : Alert). alert_ref a.id) alerts
    ++ map (λ (e : Event). event_ref e.event_id) events
    ++ map (λ (e : IncidentEvidence). evidence_ref e.id) evidence

-- `set(payload.evidence_refs) - valid`
unfoldable pub foreign_refs : List EvidenceRef → List EvidenceRef → List EvidenceRef
foreign_refs refs valid = filter (λ r. not (any (λ v. ref_eq v r) valid)) refs

abbrev user_result : Option User → Option ResponseActionError
user_result none = some user_not_found
user_result (some u) = none

abbrev user_error : Option ℕ → List User → Option ResponseActionError
user_error none users = some malformed_target
user_error (some id) users = user_result (get_user id users)

-- The check of the target that only an action on sessions has.
abbrev pub target_error : ActionType → Text → List User → Option ResponseActionError
target_error action_type target users =
    if action_type == revoke_app_sessions then user_error (parse_uuid target) users else none

abbrev pub new_action : ℕ → ℕ → ResponseActionCreate → ℕ → ResponseAction
new_action fresh incident payload actor = record {
  id = fresh;
  incident_id = incident;
  action_type = payload.action_type;
  target = payload.target;
  account_id = payload.account_id;
  status = proposed;
  evidence_refs = payload.evidence_refs;
  idempotency_key = payload.idempotency_key;
  proposed_by = actor;
  approved_by = none;
}

abbrev add_action :
    ℕ
    → ℕ
    → ResponseActionCreate
    → ℕ
    → Store
    → Option ResponseActionError
    → Store × Result ResponseActionError ResponseAction
add_action fresh incident payload actor st (some e) = (st, err e)
add_action fresh incident payload actor st none =
    let a = new_action fresh incident payload actor in
    (record st { actions = st.actions ++ a ∷ [] }, ok a)

abbrev check_refs :
    ℕ
    → ℕ
    → ResponseActionCreate
    → ℕ
    → Store
    → List EvidenceRef
    → Store × Result ResponseActionError ResponseAction
check_refs fresh incident payload actor st (r ∷ rs) = (st, err foreign_evidence)
check_refs fresh incident payload actor st [] =
    add_action fresh incident payload actor st
      (target_error payload.action_type payload.target st.accounts.users)

-- A known key gives the action that has it, if the request is the same.
abbrev propose_new :
    ℕ
    → ℕ
    → ResponseActionCreate
    → ℕ
    → Store
    → Option ResponseAction
    → Store × Result ResponseActionError ResponseAction
propose_new fresh incident payload actor st (some a) =
    if not (a.action_type == payload.action_type) || not (a.target == payload.target)
    then (st, err key_in_use)
    else (st, ok a)
propose_new fresh incident payload actor st none =
    check_refs fresh incident payload actor st
      (foreign_refs payload.evidence_refs (valid_refs incident st))

abbrev propose_for :
    ℕ
    → ℕ
    → Option Incident
    → ResponseActionCreate
    → ℕ
    → Store
    → Store × Result ResponseActionError ResponseAction
propose_for fresh incident none payload actor st = (st, err incident_not_found)
propose_for fresh incident (some i) payload actor st =
    propose_new fresh incident payload actor st
      (existing_action incident payload.idempotency_key st.actions)

unfoldable pub propose :
    ℕ → ℕ → ResponseActionCreate → ℕ → Store → Store × Result ResponseActionError ResponseAction
propose fresh incident payload actor st =
    propose_for fresh incident (get_incident incident st.tables.incidents) payload actor st

-- What `decide` writes.
abbrev pub decided : ℕ → Bool → ResponseAction → ResponseAction
decided actor approve a = record a {
  status = if approve then approved else rejected;
  approved_by = some actor;
}

abbrev decide_found :
    ℕ
    → Bool
    → Bool
    → Store
    → Option ResponseAction
    → Store × Result ResponseActionError ResponseAction
decide_found actor approve aws_response_enabled st none = (st, err action_not_found)
decide_found actor approve aws_response_enabled st (some a) =
    let a' = decided actor approve a in
    if not (a.status == proposed)
    then (st, err already_decided)
    else if a.proposed_by == actor
    then (st, err own_action)
    else if approve && not (a.action_type == revoke_app_sessions) && not aws_response_enabled
    then (st, err aws_disabled)
    else (record st { actions = put_action a' st.actions }, ok a')

unfoldable pub decide :
    ℕ → ℕ → Bool → Bool → Store → Store × Result ResponseActionError ResponseAction
decide id actor approve aws_response_enabled st =
    decide_found actor approve aws_response_enabled st (get_action id st.actions)
