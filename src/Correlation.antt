-- ===== src/Correlation.antt =====
-- backend/app/correlation: alerts become incidents.
pub mod Identity
pub mod Risk
pub mod Timeline
pub mod Service
mod Tests
