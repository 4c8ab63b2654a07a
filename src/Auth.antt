-- ===== src/Auth.antt =====
-- backend/app/services/auth_service.py and what it stands on: the sessions of the users, their
-- rotation, the limits on logins, the changes of users, and the checks of each request.
pub mod Sessions
pub mod Service
pub mod Access
pub mod Limiter
pub mod Login
pub mod Users
pub mod ApiKeys
mod Tests
mod LoginTests
