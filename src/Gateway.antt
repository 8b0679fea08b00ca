-- ===== src/Gateway.antt =====
-- src/runner_paddock/runner_paddock/gateway.py: the gateway that turns the browsers' actions into
-- intents, under the one control lease, and what becomes of them.
pub mod Values
pub mod State
pub mod Lease
pub mod Requests
pub mod Handle
pub mod Protocol
pub mod Obeys
pub mod Observers
pub mod Link
pub mod Submit
pub mod Pose
mod Tests
