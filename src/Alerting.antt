-- ===== src/Alerting.antt =====
-- services/alerting.py: what is open, what to send, and what was sent.
mod Rank
mod Decision
mod Record
mod Query
pub mod Card
mod Deliver
mod Check
pub mod Rows
pub mod Lookup
pub mod Threshold
pub mod Delivered
pub mod Closed
pub mod OnceRound
pub mod Once
pub mod Failing
pub mod Limits
pub mod Rounds
pub mod Returns
pub mod Budget
pub mod Settled
pub mod Episode
pub mod Recorded
pub mod Advance
pub mod Ended
pub mod Treated
pub mod Refines
unfoldable pub use Rank.*
unfoldable pub use Decision.*
unfoldable pub use Record.*
unfoldable pub use Query.*
unfoldable pub use Card.*
unfoldable pub use Deliver.*
unfoldable pub use Check.*
