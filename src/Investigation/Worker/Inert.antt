-- ===== src/Investigation/Worker/Inert.antt =====
-- backend/app/investigation/workflow.py: what becomes of the plan of actions.
use ai_soc.Base.{ℕ, ◌≡◌, refl, List, [], Option, none, some, Result, ok, err}
use ai_soc.Base.Table.{get_row, put_row}
use ai_soc.Response.Actions.{ProposedAction}
use ai_soc.Investigation.Schemas.{InvestigationContext, RecommendationSet}
use ai_soc.Investigation.Workflow.{WorkflowError, Analysis, analyse}
use ai_soc.Investigation.Workflow.Actions.{World, policy_gate_node, execute_actions_node}
use ai_soc.Investigation.Workflow.Outcome.{analyse-IsSound}
use ai_soc.Investigation.Rows.{Investigation, row_id, checkpoint_context, claim}
use ai_soc.Investigation.Worker.{
  Run, persist, act, analysed, loaded, process_claimed, process_investigation,
}

no_decisions :
    {D : Type 0} (parse : D → Option ProposedAction) (now : ℕ) (context : InvestigationContext)
    (set : RecommendationSet D)
    → set.action_plan ≡ []
    → policy_gate_node parse now context set ≡ []
unfolding policy_gate_node
no_decisions parse now context set e = rw e refl

module _ {D R : Type 0} (run : Run D R) (id : ℕ) (w : World R) where
  persist-inert :
      (context : InvestigationContext) (a : Analysis D) (found : Option Investigation)
      (rows : List Investigation)
      → (persist run context a id w w found rows).0.1 ≡ w
  persist-inert context a none rows = refl
  persist-inert context a (some r) rows = refl

  act-inert :
      (context : InvestigationContext) (a : Analysis D) (rows : List Investigation)
      → a.recommendation_set.action_plan ≡ []
      → (act run context a id w rows).0.1 ≡ w
  unfolding execute_actions_node
  act-inert context a rows e =
      rw (no_decisions run.parse run.now context a.recommendation_set e)
        (persist-inert context a (get_row row_id id rows) rows)

  analysed-inert :
      (context : InvestigationContext) (x : Result WorkflowError (Analysis D))
      (rows : List Investigation)
      → ((a : Analysis D) → x ≡ ok a → a.recommendation_set.action_plan ≡ [])
      → (analysed run context x id w rows).0.1 ≡ w
  analysed-inert context (err e) rows no_plan = refl
  analysed-inert context (ok a) rows no_plan = act-inert context a rows (no_plan a refl)

  loaded-inert :
      (built : Result WorkflowError InvestigationContext) (found : Option Investigation)
      (rows : List Investigation)
      → (loaded run built id w found rows).0.1 ≡ w
  loaded-inert (err e) found rows = refl
  loaded-inert (ok context) none rows = refl
  loaded-inert (ok context) (some r) rows =
      analysed-inert context (analyse run.provider context run.cancel_flag)
        (put_row row_id (checkpoint_context run.now context r) rows)
        (λ a e. (analyse-IsSound run.provider context run.cancel_flag a e).1)

  claimed-inert :
      (found : Option Investigation) (rows : List Investigation)
      → (process_claimed run found id w rows).0.1 ≡ w
  claimed-inert none rows = refl
  claimed-inert (some r) rows = loaded-inert (run.build r.incident_id) (get_row row_id id rows) rows

  -- Whatever plan of actions the provider returns, processing an investigation changes no account and
  -- writes nothing to the denylist: the plan is dropped before the gate.
  pub process_investigation-inert :
      (rows : List Investigation) → (process_investigation run id w rows).0.1 ≡ w
  unfolding process_investigation
  process_investigation-inert rows =
      claimed-inert (claim run.now id rows).1 (claim run.now id rows).0
