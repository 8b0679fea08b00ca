-- ===== src/Gateway/Pose.antt =====
-- The initial pose transaction of src/runner_paddock/runner_paddock/ros_state_node.py: STOP, stationary, pose,
-- confirmation, and both costmaps cleared.
pub mod State
pub mod Steps
pub mod Clear
pub mod Turn
pub mod Protocol
mod Evidence
mod Follow
pub mod Course
mod Way
pub mod Applied
pub mod Expiry
mod Tests
