-- ===== src/Models.antt =====
-- app/models: the rows of the database. A UUID is a number, an instant counts microseconds, and
-- a date counts days. Relationships and column types of the database are not modelled.
mod Vulnerabilities
mod Sboms
mod Alerts
mod Accounts
pub use Vulnerabilities.*
pub use Sboms.*
pub use Alerts.*
pub use Accounts.*
