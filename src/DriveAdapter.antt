-- ===== src/DriveAdapter.antt =====
-- src/runner_drive_adapter/runner_drive_adapter/drive_adapter.py: the conversion of velocity commands to
-- throttle and steering, its configuration and the live changes of it.
pub mod Config
pub mod State
pub mod Live
pub mod Control
pub mod Calls
pub mod Output
pub mod Bounds
pub mod Integral
pub mod Limits
mod Tests
