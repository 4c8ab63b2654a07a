-- ===== src/Investigation/Workflow/Actions.antt =====
-- backend/app/investigation/workflow.py: the nodes `policy_gate`, `execute_actions` and
-- `verify_actions`. Reading a dictionary of the plan is pydantic's, an interface; the denylist in
-- Redis is that of the executor.
use ai_soc.Base.{
  ℕ, suc, Bool, true, false, not, ◌&&◌, List, [], ◌∷◌, ◌++◌, map, Option, none, some, Result, ok,
  err, if◌then◌else◌,
}
use ai_soc.Base.Text.{Text}
use ai_soc.Models.{User}
use ai_soc.Auth.Service
use ai_soc.Auth.Login.{get_by_email}
use ai_soc.Response.Actions.{ActionType, block_ip, revoke_sessions, disable_user, ProposedAction}
use ai_soc.Response.Breaker.{CircuitBreaker, new_breaker}
use ai_soc.Response.Policy.{PolicyContext, PolicyDecision, new_context, evaluate}
use ai_soc.Response.Executor.{Denylist, ExecutionResult, ExecutionError, execute}
use ai_soc.Investigation.Schemas.{EventContext, InvestigationContext, RecommendationSet}

-- An entry of `policy_decisions`: of an action, or of a dictionary that is none.
pub data Decision (D : Type 0) : Type 0 where
  decided : PolicyDecision → Decision D
  malformed : D → Decision D

-- An entry of `executed_actions`; the Boolean is `verified`.
pub data ExecutedAction : Type 0 where
  done : ProposedAction → ExecutionResult → Option Bool → ExecutedAction
  not_done : ProposedAction → ExecutionError → ExecutedAction
  pending_approval : PolicyDecision → ExecutedAction

abbrev truthy : Option Text → List Text
truthy none = []
truthy (some []) = []
truthy (some (c ∷ s)) = (c ∷ s) ∷ []

-- `incident_entities`
unfoldable pub incident_entities : InvestigationContext → List Text
incident_entities context =
    truthy context.incident.primary_username
    ++ (truthy context.incident.primary_source_ip ++ of_events context.events)
  where
    of_events : List EventContext → List Text
    of_events [] = []
    of_events (e ∷ es) = truthy e.username ++ (truthy e.source_ip ++ of_events es)

module _ {D : Type 0} (parse : D → Option ProposedAction) where
  -- `policy_gate_node`: one engine, with a breaker of its own, for the plan.
  abbrev gate_one :
      ℕ → PolicyContext → D → Option ProposedAction → CircuitBreaker → CircuitBreaker × Decision D
  gate_one now context d none b = (b, malformed d)
  gate_one now context d (some a) b =
      let (b', decision) = evaluate now b a context in (b', decided decision)

  abbrev gate_all : ℕ → PolicyContext → List D → CircuitBreaker → List (Decision D)
  gate_all now context [] b = []
  gate_all now context (d ∷ plan) b =
      let (b', decision) = gate_one now context d (parse d) b in
      decision ∷ gate_all now context plan b'

  unfoldable pub policy_gate_node :
      ℕ → InvestigationContext → RecommendationSet D → List (Decision D)
  policy_gate_node now context set =
      gate_all now
        (new_context context.incident.id (incident_entities context) context.valid_evidence_refs)
        set.action_plan new_breaker

-- The accounts, and what Redis holds.
abbrev pub World : Type 0 → Type 0
World R = Service.State × R

abbrev executed_entry : ProposedAction → Result ExecutionError ExecutionResult → ExecutedAction
executed_entry a (ok x) = done a x none
executed_entry a (err e) = not_done a e

module _ {R : Type 0} (redis : Option (Denylist R)) where
  -- An action that waits for nobody is executed, under the next identifier of the supply.
  abbrev pub execute_one :
      {D : Type 0} → ℕ → Text → Decision D → ℕ → World R → World R × List ExecutedAction
  execute_one now label (malformed d) id w = (w, [])
  execute_one now label (decided p) id w =
      let (w', outcome) = execute redis p.action label id now w.0 w.1 in
      if p.allowed && not p.requires_human_approval
      then (w', executed_entry p.action outcome ∷ [])
      else if p.allowed && p.requires_human_approval
      then (w, pending_approval p ∷ [])
      else (w, [])

  unfoldable pub execute_actions_node :
      {D : Type 0} → ℕ → Text → List (Decision D) → ℕ → World R → World R × List ExecutedAction
  execute_actions_node now label [] id w = (w, [])
  execute_actions_node now label (d ∷ ds) id w =
      let (w1, entries) = execute_one now label d id w in
      let (w2, rest) = execute_actions_node now label ds (suc id) w1 in (w2, entries ++ rest)

abbrev inactive : Option User → Bool
inactive none = false
inactive (some u) = not u.is_active

module _ {R : Type 0} (is_blocked : R → Text → Bool) where
  -- `verify_actions_node`; `is_blocked` reads the key of an address.
  abbrev took_effect : World R → ActionType → Text → Bool
  took_effect w block_ip target = is_blocked w.1 target
  took_effect w disable_user target = inactive (get_by_email target w.0.users)
  took_effect w revoke_sessions target = true
  took_effect w _ target = false

  abbrev verify_one : World R → ExecutedAction → ExecutedAction
  verify_one w (done a x v) = done a x (some (took_effect w a.action_type a.target))
  verify_one w (not_done a e) = not_done a e
  verify_one w (pending_approval p) = pending_approval p

  unfoldable pub verify_actions_node : World R → List ExecutedAction → List ExecutedAction
  verify_actions_node w entries = map (verify_one w) entries
