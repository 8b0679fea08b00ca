-- ===== src/DriveAdapter/Calls.antt =====
-- A call of any method of `DriveAdapter`, as the node that owns it makes them one by one.
use ros_pre_runner.Prelude.{String, Option, List, [], ◌∷◌}
use ros_pre_runner.Prelude.Int.{ℤ}
use ros_pre_runner.Prelude.Float.{Float}
use ros_pre_runner.DriveAdapter.Config.{Policy}
use ros_pre_runner.DriveAdapter.State.{
  DriveAdapter, update_command, update_manual_command, invalidate_command, update_motion,
  update_active_mode, update_encoder, update_adapter_output, update_mux_output, shutdown,
}
use ros_pre_runner.DriveAdapter.Live.{Parameter, Value, set_live_parameters}
use ros_pre_runner.DriveAdapter.Control.{step}

pub data Call (F : Type 0) : Type 0 where
  command manual_command : F → F → Call F
  invalidate : Call F
  motion : F → Call F
  mode : String → Call F
  encoder : F → ℤ → Option F → Call F
  adapter_output mux_output : F → F → Call F
  live : List (Parameter × Value F) → Call F
  cycle : Call F
  stopped : Call F

module _ {F : Type 0} ⦃fl : Float F⦄ where
  unfoldable pub call : Policy F → DriveAdapter F → Call F → F → DriveAdapter F
  call p a (command speed yaw) now = update_command a speed yaw now
  call p a (manual_command speed steering) now = update_manual_command a speed steering now
  call p a invalidate now = invalidate_command a
  call p a (motion speed) now = update_motion a speed now
  call p a (mode text) now = update_active_mode a text now
  call p a (encoder rate direction sample) now = update_encoder a rate direction now sample
  call p a (adapter_output linear angular) now = update_adapter_output a linear angular now
  call p a (mux_output linear angular) now = update_mux_output a linear angular now
  call p a (live updates) now = (set_live_parameters p a updates).0
  call p a cycle now = (step a now).0
  call p a stopped now = shutdown a

  -- The adapter after calls, each with the clock that it was given.
  unfoldable pub run : Policy F → DriveAdapter F → List (Call F × F) → DriveAdapter F
  run p a [] = a
  run p a ((k, now) ∷ rest) = run p (call p a k now) rest
