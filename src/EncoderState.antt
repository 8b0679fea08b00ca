-- ===== src/EncoderState.antt =====
-- src/runner_encoder/runner_encoder/encoder_state.py: edges of the wheel encoder, the direction that is
-- latched when pulses resume, and the rate over the last few edges.
pub mod State
pub mod Epoch
pub mod Tracking
pub mod Latch
mod Tests
