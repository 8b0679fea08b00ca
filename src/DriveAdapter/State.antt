-- ===== src/DriveAdapter/State.antt =====
-- The attributes of `DriveAdapter` and the methods that store what the node receives, in
-- src/runner_drive_adapter/runner_drive_adapter/drive_adapter.py. Times and speeds are floats; `now` is
-- an argument, as in the source.
use ros_pre_runner.Prelude.{String, str_eq, Bool, true, false, not, ◌&&◌, ◌||◌, Option, none, some}
use ros_pre_runner.Prelude.Int.{ℤ, pos}
use ros_pre_runner.Prelude.Float.{Float, zero_f}
use ros_pre_runner.DriveAdapter.Config.{AdapterConfig}

pub record DriveAdapter (F : Type 0) : Type 0 where
  pub config : AdapterConfig F
  pub command : Option (F × F)
  pub command_time : Option F
  pub command_uses_direct_steering : Bool
  pub motion_speed : F
  pub motion_time : Option F
  pub encoder_edge_rate : F
  pub encoder_time : Option F
  pub encoder_sample_time : Option F
  pub previous_encoder_sample_time : Option F
  pub pending_direction : ℤ
  pub wheelspin_since : Option F
  pub active_mode : Option String
  pub active_mode_time : Option F
  pub adapter_output : Option (F × F)
  pub adapter_output_time : Option F
  pub mux_output : Option (F × F)
  pub mux_output_time : Option F
  pub integrator : F

module _ {F : Type 0} ⦃fl : Float F⦄ where
  unfoldable pub init : AdapterConfig F → DriveAdapter F
  init config = record {
    config = config;
    command = none;
    command_time = none;
    command_uses_direct_steering = false;
    motion_speed = zero_f;
    motion_time = none;
    encoder_edge_rate = zero_f;
    encoder_time = none;
    encoder_sample_time = none;
    previous_encoder_sample_time = none;
    pending_direction = pos 0;
    wheelspin_since = none;
    active_mode = none;
    active_mode_time = none;
    adapter_output = none;
    adapter_output_time = none;
    mux_output = none;
    mux_output_time = none;
    integrator = zero_f;
  }

module _ {F : Type 0} where
  unfoldable pub update_command : DriveAdapter F → F → F → F → DriveAdapter F
  update_command a linear_speed yaw_rate now = record a {
    command = some (linear_speed, yaw_rate);
    command_time = some now;
    command_uses_direct_steering = false;
  }

  unfoldable pub update_manual_command : DriveAdapter F → F → F → F → DriveAdapter F
  update_manual_command a signed_speed_mps steering_normalized now = record a {
    command = some (signed_speed_mps, steering_normalized);
    command_time = some now;
    command_uses_direct_steering = true;
  }

  unfoldable pub invalidate_command : DriveAdapter F → DriveAdapter F
  invalidate_command a = record a { command = none; command_time = none }

  unfoldable pub update_motion : DriveAdapter F → F → F → DriveAdapter F
  update_motion a forward_speed now = record a {
    motion_speed = forward_speed;
    motion_time = some now;
  }

  unfoldable pub update_active_mode : DriveAdapter F → String → F → DriveAdapter F
  update_active_mode a mode now = record a { active_mode = some mode; active_mode_time = some now }

  unfoldable pub update_encoder : DriveAdapter F → F → ℤ → F → Option F → DriveAdapter F
  update_encoder a edge_rate pending_direction now sample_time = record a {
    encoder_edge_rate = edge_rate;
    encoder_time = some now;
    encoder_sample_time = sample_time;
    pending_direction = pending_direction;
  }

  unfoldable pub update_adapter_output : DriveAdapter F → F → F → F → DriveAdapter F
  update_adapter_output a linear angular now = record a {
    adapter_output = some (linear, angular);
    adapter_output_time = some now;
  }

  unfoldable pub update_mux_output : DriveAdapter F → F → F → F → DriveAdapter F
  update_mux_output a linear angular now = record a {
    mux_output = some (linear, angular);
    mux_output_time = some now;
  }

  abbrev pub reset_transient_state : DriveAdapter F → DriveAdapter F
  reset_transient_state a = record a { wheelspin_since = none }

  unfoldable pub shutdown : DriveAdapter F → DriveAdapter F
  shutdown a = record (reset_transient_state a) { command = none; command_time = none }

-- `self._active_mode == 'teleop_suppress'`
abbrev is_suppress : Option String → Bool
is_suppress none = false
is_suppress (some mode) = str_eq mode "teleop_suppress"

module _ {F : Type 0} ⦃fl : Float F⦄ where
  -- `time is not None and now - time <= timeout`
  abbrev pub is_within : Option F → F → F → Bool
  is_within none timeout now = false
  is_within (some at) timeout now = fl.le (fl.sub now at) timeout

  -- `time is None or ... or now - time > timeout`
  abbrev pub is_older : Option F → F → F → Bool
  is_older none timeout now = true
  is_older (some at) timeout now = fl.lt timeout (fl.sub now at)

  unfoldable pub active_mode_is_fresh : DriveAdapter F → F → Bool
  active_mode_is_fresh a now = is_within a.active_mode_time a.config.active_mode_timeout_sec now

  unfoldable pub is_confirmed_preempted : DriveAdapter F → F → Bool
  unfolding active_mode_is_fresh
  is_confirmed_preempted a now = active_mode_is_fresh a now && not (is_suppress a.active_mode)

  unfoldable pub motion_is_stale : DriveAdapter F → F → Bool
  motion_is_stale a now =
      is_older a.motion_time a.config.motion_signal_timeout_sec now
      || not (fl.is_finite a.motion_speed)

  unfoldable pub encoder_is_stale : DriveAdapter F → F → Bool
  encoder_is_stale a now =
      is_older a.encoder_time a.config.encoder_state_timeout_sec now
      || not (fl.is_finite a.encoder_edge_rate)
