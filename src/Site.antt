-- ===== src/Site.antt =====
-- app/api/pages: what the pages of the web interface show.
pub mod Dashboard
pub mod Chart
pub mod Labels
pub mod Projects
pub mod Vulnerabilities
