-- ===== src/Detection.antt =====
-- backend/app/detection: rules that look at a stored event and at the events before it.
pub mod Rules
pub mod Engine
pub mod Threshold
mod Tests
