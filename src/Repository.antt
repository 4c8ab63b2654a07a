-- ===== src/Repository.antt =====
-- backend/app/repositories: the queries on events, alerts and incidents, on the lists of rows.
pub mod Events
pub mod Alerts
pub mod Incidents
pub mod Mitre
