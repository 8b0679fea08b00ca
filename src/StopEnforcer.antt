-- ===== src/StopEnforcer.antt =====
-- src/runner_paddock/runner_paddock/stop_enforcer.py: the persistent STOP, its requests and its timer.
mod State
mod Restore
mod Requests
mod Tick
pub mod Invariant
pub mod Start
pub mod Release
pub mod Retry
mod Tests
unfoldable pub use State.*
unfoldable pub use Restore.*
unfoldable pub use Requests.*
unfoldable pub use Tick.*
