-- ===== src/MapSession.antt =====
-- src/runner_paddock/runner_paddock/map_session.py: the mapping session, its evidence and its saves.
pub mod State
pub mod Evidence
pub mod Saves
mod Tests
