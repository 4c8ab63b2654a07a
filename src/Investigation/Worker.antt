-- ===== src/Investigation/Worker.antt =====
-- backend/app/workers/investigation.py: one investigation is claimed, run and stored, and the loop that
-- takes them off the queue. The context builder, the provider, the dictionaries of a plan and
-- Redis are arguments.
pub mod Settles
pub mod Inert
use ai_soc.Base.{
  ℕ, zero, suc, Bool, true, false, List, [], ◌∷◌, ◌++◌, Option, none, some, Result, ok, err, length,
}
use ai_soc.Base.Text.{Text, codes}
use ai_soc.Base.Decimal.{decimal}
use ai_soc.Base.Table.{get_row, put_row}
use ai_soc.Response.Actions.{ProposedAction}
use ai_soc.Response.Executor.{Denylist}
use ai_soc.Auth.Service as Accounts
use ai_soc.Investigation.Schemas.{InvestigationContext}
use ai_soc.Investigation.Validation.{ValidationError}
use ai_soc.Investigation.Workflow.{
  LlmProvider, WorkflowError, result_invalid, investigation_gone, Analysis, analyse,
}
use ai_soc.Investigation.Workflow.Actions.{
  World, policy_gate_node, execute_actions_node, verify_actions_node,
}
use ai_soc.Investigation.Rows.{
  Investigation, row_id, workflow_error, claim, checkpoint_context, complete, fail,
}
use ai_soc.Investigation.Service.{Jobs}

-- What one run gets from outside. `build` is the context builder on an incident; `queue` is what the
-- cancel flag says, for a workflow that has a queue.
pub record Run (D R : Type 0) : Type 0 where
  pub now : ℕ
  pub build : ℕ → Result WorkflowError InvestigationContext
  pub provider : LlmProvider D
  pub cancel_flag : Option Bool
  pub parse : D → Option ProposedAction
  pub redis : Option (Denylist R)
  pub is_blocked : R → Text → Bool
  pub next_action_id : ℕ

abbrev validation_errors_of : WorkflowError → List ValidationError
validation_errors_of (result_invalid es) = es
validation_errors_of _ = []

module _ {D R : Type 0} (run : Run D R) where
  -- The handler: the transaction is rolled back, and the row is read again and marked.
  abbrev mark_failed :
      WorkflowError → Option Investigation → List Investigation → List Investigation
  mark_failed e none rows = rows
  mark_failed e (some r) rows =
      put_row row_id (fail run.now (workflow_error e) (validation_errors_of e) none r) rows

  abbrev pub failed_with :
      WorkflowError → ℕ → World R → List Investigation → (List Investigation × World R) × Bool
  failed_with e id w rows = ((mark_failed e (get_row row_id id rows) rows, w), false)

  -- `persistence_node` and the commit. Without the row the writes to the accounts `w0` are undone;
  -- what the actions wrote to Redis stays.
  abbrev pub persist :
      InvestigationContext
      → Analysis D
      → ℕ
      → World R
      → World R
      → Option Investigation
      → List Investigation
      → (List Investigation × World R) × Bool
  persist context a id w0 w none rows = failed_with investigation_gone id (w0.0, w.1) rows
  persist context a id w0 w (some r) rows =
      ((put_row row_id (complete run.now context a.result a.usage r) rows, w), true)

  -- The nodes from `policy_gate` to `persistence`.
  abbrev pub act :
      InvestigationContext
      → Analysis D
      → ℕ
      → World R
      → List Investigation
      → (List Investigation × World R) × Bool
  act context a id w rows =
      let decisions = policy_gate_node run.parse run.now context a.recommendation_set in
      let (w', executed) =
        execute_actions_node run.redis run.now (codes "investigation:" ++ decimal id) decisions
          run.next_action_id w in
      persist context a id w w' (get_row row_id id rows) rows

  abbrev pub analysed :
      InvestigationContext
      → Result WorkflowError (Analysis D)
      → ℕ
      → World R
      → List Investigation
      → (List Investigation × World R) × Bool
  analysed context (err e) id w rows = failed_with e id w rows
  analysed context (ok a) id w rows = act context a id w rows

  -- `load_incident_node`, with its commit, and the nodes after it.
  abbrev pub loaded :
      Result WorkflowError InvestigationContext
      → ℕ
      → World R
      → Option Investigation
      → List Investigation
      → (List Investigation × World R) × Bool
  loaded (err e) id w found rows = failed_with e id w rows
  loaded (ok context) id w none rows = failed_with investigation_gone id w rows
  loaded (ok context) id w (some r) rows =
      analysed context (analyse run.provider context run.cancel_flag) id w
        (put_row row_id (checkpoint_context run.now context r) rows)

  abbrev pub process_claimed :
      Option Investigation
      → ℕ
      → World R
      → List Investigation
      → (List Investigation × World R) × Bool
  process_claimed none id w rows = ((rows, w), false)
  process_claimed (some r) id w rows =
      loaded (run.build r.incident_id) id w (get_row row_id id rows) rows

  unfoldable pub process_investigation :
      ℕ → World R → List Investigation → (List Investigation × World R) × Bool
  process_investigation id w rows =
      let (rows', found) = claim run.now id rows in process_claimed found id w rows'

  -- One round of `run_worker` with an investigation in the queue; an empty queue leaves all as it is.
  abbrev pub work_on : List ℕ → Jobs → World R → Jobs × World R
  work_on [] st w = (st, w)
  work_on (id ∷ queue) st w =
      let ((rows, w'), finished) = process_investigation id w st.rows in
      (record st { rows = rows; queue = queue }, w')

  unfoldable pub work_one : Jobs → World R → Jobs × World R
  work_one st w = work_on st.queue st w

-- Rounds with what each of them gets from outside.
unfoldable pub run_worker : {D R : Type 0} → List (Run D R) → Jobs → World R → Jobs × World R
run_worker [] st w = (st, w)
run_worker (run ∷ runs) st w = let (st', w') = work_one run st w in run_worker runs st' w'
