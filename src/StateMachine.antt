-- ===== src/StateMachine.antt =====
-- src/runner_paddock/runner_paddock/state_machine.py: the Paddock mode and command-authority reducer.
mod State
mod Events
pub mod Invariant
pub mod Frame
pub mod Effects
pub mod Ownership
pub mod Rearm
mod Tests
unfoldable pub use State.*
unfoldable pub use Events.*
