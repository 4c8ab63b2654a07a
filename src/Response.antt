-- ===== src/Response.antt =====
-- backend/app/response: proposed actions, the circuit breaker, the policy gate, the audit chain, the
-- executor;
-- and backend/app/services/response_actions.py, the actions that people approve.
pub mod Actions
pub mod Breaker
pub mod Policy
pub mod AuditChain
pub mod Approval
pub mod Executor
mod Tests
