-- ===== src/CommandSupervisor/Calls.antt =====
-- A call of any method of `CommandSupervisor`, as the node that owns it makes them one by one.
use ros_pre_runner.Prelude.{ℕ, String, Bool, Option, none, some, List, [], ◌∷◌}
use ros_pre_runner.Prelude.Float.{Float}
use ros_pre_runner.StateMachine.{Mode}
use ros_pre_runner.CommandSupervisor.State.{VelocityCommand, Supervisor}
use ros_pre_runner.CommandSupervisor.Control.{ControlInput, handle_control_event}
use ros_pre_runner.CommandSupervisor.Inputs.{
  set_manual_max_speed_mps, tick, set_runtime_mode, request_mode_change, set_dualsense_active,
  receive_raw_autonomy, receive_raw_manual, restart_link,
}

pub data Call (F : Type 0) : Type 0 where
  control : ControlInput F → Call F
  ticked : Call F
  runtime : Mode → String → Bool → Call F
  mode_request : Mode → ℕ → String → Call F
  pad : Bool → Call F
  raw_autonomy : VelocityCommand F → Call F
  raw_manual : VelocityCommand F → ℕ → Call F
  restarted : Call F
  speed_limit : F → Call F

module _ {F : Type 0} ⦃fl : Float F⦄ where
  -- A speed limit that is refused leaves the supervisor as it is.
  unfoldable pub or_kept : Supervisor F → Option (Supervisor F) → Supervisor F
  or_kept c none = c
  or_kept c (some c') = c'

  -- The supervisor after a call
  unfoldable pub call : Supervisor F → Call F → F → Supervisor F
  unfolding or_kept
  call c (control i) now = (handle_control_event c i now).0
  call c ticked now = (tick c now).0
  call c (runtime mode map stable) now = (set_runtime_mode c mode map stable now).0
  call c (mode_request mode request l) now = (request_mode_change c mode request l now).0
  call c (pad active) now = (set_dualsense_active c active now).0
  call c (raw_autonomy command) now = (receive_raw_autonomy c command now).0
  call c (raw_manual command sequence) now = (receive_raw_manual c command sequence now).0
  call c restarted now = (restart_link c now).0
  call c (speed_limit value) now = or_kept c (set_manual_max_speed_mps c value)

  -- The supervisor after calls, each with the clock that it was given.
  unfoldable pub run : Supervisor F → List (Call F × F) → Supervisor F
  run c [] = c
  run c ((k, now) ∷ rest) = run (call c k now) rest
