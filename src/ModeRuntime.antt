-- ===== src/ModeRuntime.antt =====
-- src/runner_paddock/runner_paddock/mode_runtime.py: the systemd-backed runtime that stops one
-- application mode fully before it starts another.
pub mod Text
pub mod State
pub mod Run
pub mod Triple
pub mod Loop
pub mod Order
pub mod Clean
pub mod Steps
pub mod Stops
pub mod Settle
pub mod Answer
pub mod Transition
pub mod Reconciled
pub mod Refreshed
pub mod Known
pub mod History
pub mod Structure
mod Tests
pub mod View
pub mod Wait
pub mod Change
pub mod Reconcile
