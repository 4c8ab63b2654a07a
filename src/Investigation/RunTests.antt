-- ===== src/Investigation/RunTests.antt =====
-- The theorems on the worker and the requests at concrete inputs.
use ai_soc.Base.{
  ℕ, ◌≡◌, refl, subst, ◌≢◌, ◌⊎◌, inl, inr, true, false, [], ◌∷◌, none, some, IsIn, ok, arith,
  text_eq,
}
use ai_soc.Base.Text.{Text, codes, lower}
use ai_soc.Base.Sort.{sort_by}
use ai_soc.Correlation.Identity.{text_le}
use ai_soc.Models.{Incident}
use ai_soc.Investigation.Network.{assess_network_evidence, relevant_items, risky_items, gaps_of}
use ai_soc.Investigation.Validation.{
  severity_from_score, validate_refs, validate_cited, validate_investigation_result,
}
use ai_soc.Investigation.Workflow.{
  analyse, provider_update, cap, merge_evidence, mitre_context_node, cap_narrative,
  merge_recommendations, validation_node,
}
use ai_soc.Investigation.Workflow.Actions.{World, policy_gate_node, execute_actions_node}
use ai_soc.Investigation.Workflow.Outcome.{analyse-IsSound}
use ai_soc.Investigation.Rows.{
  Investigation, queued, running, completed, InvestigationStatus-discrete, claim,
  checkpoint_context, complete, find_for_context,
}
use ai_soc.Investigation.Service.{
  LlmSettings, Jobs, settings_error, request_investigation, new_investigation,
}
use ai_soc.Investigation.Automation.{Cooldowns, should_trigger, dispatch}
use ai_soc.Investigation.Automation.Triggered.{MayTrigger, dispatch-triggered}
use ai_soc.Investigation.Worker.{Run, process_investigation, work_one, run_worker}
use ai_soc.Investigation.Worker.Inert.{process_investigation-inert}
use ai_soc.Investigation.Consistent.{IsRowOk, IsConsistent}
use ai_soc.Investigation.Consistent.Runs.{request, work, Reach, here, next, Reach-IsConsistent}
use ai_soc.Investigation.Consistent.Drained.{run_worker_settles, Reach-keeps_completed}
use ai_soc.Investigation.WorkflowTests.{analyse_run, context, provider, analysis}

abbrev incident : Incident
incident = record {
  id = 4;
  status = "open";
  severity = "high";
  risk_score = 70;
  correlation_key = codes "k";
  primary_username = none;
  primary_source_ip = none;
  first_seen = 10;
  last_seen = 20;
  timeline = [];
}

abbrev settings : LlmSettings
settings = record {
  llm_enabled = true;
  llm_provider = codes "mock";
  llm_model = codes "m";
  llm_api_key = [];
  llm_prompt_version = codes "v1";
  automatic_investigations_enabled = true;
  automatic_investigation_min_severity = codes "high";
  automatic_investigation_cooldown_seconds = 60;
}

abbrev start : Jobs
start = record { incidents = incident ∷ []; rows = []; queue = [] }

start-IsConsistent : IsConsistent start
start-IsConsistent = record { ids = tt; keys = tt; each = λ r m. absurd m }

abbrev hash : Incident → Text
hash i = codes "h"

abbrev requested : Jobs
requested = record {
  incidents = incident ∷ [];
  rows = new_investigation settings 30 1 4 (codes "h") ∷ [];
  queue = 1 ∷ [];
}

requested-IsConsistent : IsConsistent requested
requested-IsConsistent = record {
  ids = (λ m. m, tt);
  keys = (λ m. m, tt);
  each = λ r m. elim m [
    | inl e ↦ subst (IsRowOk (1 ∷ [])) e (record {
      waiting = λ q. inl refl;
      idle = queued_running;
      grounded = λ q. absurd (queued_completed q);
    })
    | inr n ↦ absurd n
  ];
}
  where
    queued_running : queued ≢ running
    queued_running q = cc

    queued_completed : queued ≡ completed → ⊥
    queued_completed q = cc

abbrev run : Run ℕ ℕ
run = record {
  now = 40;
  build = λ i. ok context;
  provider = provider;
  cancel_flag = none;
  parse = λ d. none;
  redis = none;
  is_blocked = λ r ip. false;
  next_action_id = 7;
}

abbrev world : World ℕ
world = (record { users = []; sessions = []; api_keys = []; audit = [] }, 0)

abbrev history :
    Reach ℕ ℕ start (work_one run (request_investigation settings hash 30 1 true 4 start).0 world).0
history = next (next here (request settings hash 30 1 true 4 start (λ m. m))) (work run world _)

Reach-IsConsistent_example :
    IsConsistent (work_one run (request_investigation settings hash 30 1 true 4 start).0 world).0
Reach-IsConsistent_example = Reach-IsConsistent start-IsConsistent history

-- The row after the round.
abbrev settled_row : Investigation
settled_row =
    record (complete 40 context analysis.result analysis.usage
      (new_investigation settings 30 1 4 (codes "h"))) { started_at = some 40; attempt_count = 1 }

settled_row-IsIn : IsIn settled_row (run_worker (run ∷ []) requested world).0.rows
unfolding run_worker work_one process_investigation claim checkpoint_context complete
    policy_gate_node execute_actions_node InvestigationStatus-discrete analyse provider_update cap
    merge_evidence mitre_context_node cap_narrative merge_recommendations validation_node
    assess_network_evidence relevant_items risky_items gaps_of validate_investigation_result
    validate_cited validate_refs severity_from_score sort_by text_eq text_le
settled_row-IsIn = inl refl

run_worker_settles_example : (settled_row.status ≢ queued) × (settled_row.status ≢ running)
run_worker_settles_example =
    run_worker_settles (run ∷ []) requested world requested-IsConsistent (omega arith) settled_row
      settled_row-IsIn

process_investigation-inert_example : (process_investigation run 1 world requested.rows).0.1 ≡ world
process_investigation-inert_example = process_investigation-inert run 1 world requested.rows

-- A completed row.
abbrev finished : Investigation
finished =
    complete 40 context analysis.result analysis.usage
      (new_investigation settings 30 1 4 (codes "h"))

abbrev ended : Jobs
ended = record { incidents = incident ∷ []; rows = finished ∷ []; queue = [] }

ended-IsConsistent : IsConsistent ended
unfolding complete
ended-IsConsistent = record {
  ids = (λ m. m, tt);
  keys = (λ m. m, tt);
  each = λ r m. elim m [
    | inl e ↦ subst (IsRowOk []) e (record {
      waiting = λ q. absurd (completed_queued q);
      idle = completed_running;
      grounded = λ q. (
        context,
        (
          analysis.result,
          (refl, (refl, (analyse-IsSound provider context none analysis analyse_run).0)),
        ),
      );
    })
    | inr n ↦ absurd n
  ];
}
  where
    completed_running : completed ≢ running
    completed_running q = cc

    completed_queued : completed ≡ queued → ⊥
    completed_queued q = cc

finished_status : finished.status ≡ completed
unfolding complete
finished_status = refl

Reach-keeps_completed_example :
    IsIn finished
      (work_one run (request_investigation settings hash 50 2 true 4 ended).0 world).0.rows
unfolding complete
Reach-keeps_completed_example =
    Reach-keeps_completed finished finished_status ended-IsConsistent
      (next
        (next here
          (request settings hash 50 2 true 4 ended (λ m. elim m [ inl e ↦ one_two e | inr n ↦ n ])))
        (work run world _))
      (inl refl)
  where
    one_two : Path ℕ 1 2 → ⊥
    one_two e = omega arith

-- Every key is free.
abbrev free : Cooldowns ℕ
free = record { claim = λ r i s. (r, true); release = λ r i. r }

created-IsIn :
    IsIn
      (new_investigation settings 30 1 4 (codes "h"))
      (dispatch free settings hash 30 (λ i. true) 1 (incident ∷ []) start 0).0.rows
unfolding dispatch should_trigger request_investigation settings_error find_for_context lower
    text_eq
created-IsIn = inl refl

dispatch-triggered_example :
    IsIn (new_investigation settings 30 1 4 (codes "h")) start.rows
    ⊎ ((i : Incident) × (IsIn i (incident ∷ []) × (MayTrigger settings i × (◌≡◌ {A = ℕ} 4 i.id))))
dispatch-triggered_example =
    dispatch-triggered free settings hash 30 (λ i. true) 1 (incident ∷ []) start 0
      (new_investigation settings 30 1 4 (codes "h")) created-IsIn
