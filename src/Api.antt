-- ===== src/Api.antt =====
-- The routes of api/v1 that change the tables, and the comparison of two SBOMs.
pub mod Acceptances
pub mod Upload
pub mod Diff
pub mod Deletion
pub mod Projects
pub mod Alerts
