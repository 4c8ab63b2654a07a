-- ===== src/Investigation.antt =====
-- backend/app/investigation: investigations of incidents by a language model.
pub mod Schemas
pub mod Network
pub mod Validation
pub mod Workflow
pub mod Context
pub mod Rows
pub mod Service
pub mod Automation
pub mod Worker
pub mod Consistent
mod Tests
mod WorkflowTests
mod ContextTests
mod RunTests
