-- ===== src/CommandSupervisor.antt =====
-- src/runner_paddock/runner_paddock/command_supervisor.py: the supervisor that owns the lease, the RUN
-- gate and the freshness of raw commands, over the reducer of StateMachine.
mod State
mod Clock
mod Control
mod Inputs
pub mod Calls
pub mod Sound
pub mod Steps
pub mod Gate
pub mod Deadman
pub mod Order
mod Tests
unfoldable pub use State.*
unfoldable pub use Clock.*
unfoldable pub use Control.*
unfoldable pub use Inputs.*
