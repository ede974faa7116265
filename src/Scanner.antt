-- ===== src/Scanner.antt =====
-- services/vulnerability_scanner.py. Its parts: the fields of a report of grype, the writes of a
-- scan, and the two updates that close findings.
mod Match
mod Store
mod Process
mod Close
pub mod Complete
pub mod Unique
pub mod Closing
unfoldable pub use Match.*
unfoldable pub use Store.*
unfoldable pub use Process.*
unfoldable pub use Close.*
