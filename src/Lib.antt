-- ===== src/Lib.antt =====
-- Verification of the AI-SOC backend (backend/app).
--
-- The program receives security events, detects attacks by rules, correlates alerts into incidents,
-- and gates, approves and executes the response to them, behind its own authentication. Each part is
-- a module here.
--
-- - Base: shared tests, lists, texts (lists of code points), sorting, decimal digits, identifiers,
--   IPv4 addresses.
-- - Models: backend/app/models, the rows of the tables.
-- - Repository: backend/app/repositories. Events, Alerts and Incidents are the queries as functions
--   on the list of rows; Auth.Sessions has those on sessions.
-- - Detection: backend/app/detection. Rules (rules/*.py), Engine (registry.py, engine.py), on the
--   queries of Repository.Events.
-- - Correlation: backend/app/correlation. Identity (identity.py), Risk (risk_scoring.py), Timeline
--   (timeline.py), Service and its child Cloud (service.py): the alerts of Detection open incidents
--   or join them.
-- - Response: backend/app/response. Actions (actions.py), Breaker (circuit_breaker.py, in memory;
--   Breaker.Redis with Redis), Policy (policy.py), AuditChain (audit_chain.py), Executor
--   (executor.py). Approval is backend/app/services/response_actions.py with its worker.
-- - Auth: Sessions (repositories/auth_repository.py), Service and Login (services/auth_service.py),
--   Limiter (security/rate_limit.py), Users (services/user_service.py,
--   services/bootstrap_service.py), ApiKeys (services/api_key_service.py), Access
--   (security/dependencies.py, permissions.py). Approval and Executor act on its tables.
-- - Realtime: backend/app/realtime/manager.py, the connections and their queues.
-- - Ingestion: backend/app/services/event_normalizer.py and event_service.py. An event is stored and
--   goes through Detection and Correlation; Endpoints adds the messages and the automatic
--   investigations of Investigation, for one event and for a batch.
-- - Investigation: backend/app/investigation. Schemas (schemas/investigation.py), Network
--   (network_assessment.py), Context (context.py), Workflow and its child Actions (workflow.py),
--   Validation (validation.py); Rows (repositories/investigation_repository.py), Service
--   (services/investigation_service.py), Automation (automation.py), Worker
--   (workers/investigation.py). Incidents of Correlation are investigated; the plan of actions
--   goes through Response.Policy and Response.Executor. Consistent puts requests and worker together.
--
-- An operation takes the state, the time, and the random values that it draws, and returns the state
-- and a result; what it raises is the error of a result. Where the code rolls a transaction back the
-- error comes without a state, where it commits before it raises, with one. Each operation is
-- one step: what another one does in the middle of it is not modelled. Orders of operations are the
-- relations Reach.
--
-- Times are numbers of microseconds and the clock is an argument of each operation. Identifiers are
-- numbers. Fractions such as confidences are fixed-point numbers and means of them are exact. Texts
-- are ASCII where they are put in lower case. Log lines, free-form details and the wording of
-- messages are not modelled: a message is a constructor with its values. Loops are structural
-- recursion, but for the loop that cuts a context to its limit: its fuel is one more than the number
-- of things in the context, and each round leaves one out.
--
-- Code of other packages is a parameter: the hash functions, json.dumps, Redis and boto3, with named
-- laws where a theorem needs them. The language model is any function of what it is shown. Not
-- modelled: the clients of the providers, the delayed queue and dead letters, machine learning, the
-- Redis side of realtime messages, the adapters of cloud findings, and the HTTP routes.
pub mod Base
pub mod Models
pub mod Repository
pub mod Response
pub mod Auth
pub mod Correlation
pub mod Detection
pub mod Realtime
pub mod Ingestion
pub mod Investigation
