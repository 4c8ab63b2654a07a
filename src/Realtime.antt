-- ===== src/Realtime.antt =====
-- backend/app/realtime: messages to the connected browsers.
pub mod Manager
mod Tests
