-- ===== src/DriveAdapter/Control.antt =====
-- `DriveAdapter.step` of src/runner_drive_adapter/runner_drive_adapter/drive_adapter.py, with the
-- methods that only it calls: one timer cycle of bounded feedforward and PI control.
use ros_pre_runner.Prelude.{
  String, ◌==◌, Bool, true, false, not, ◌&&◌, ◌||◌, Option, none, some, is_some, if◌then◌else◌,
}
use ros_pre_runner.Prelude.Int.{ℤ, pos, negsuc}
use ros_pre_runner.Prelude.Float.{Float, fmax, fmin, zero_f}
use ros_pre_runner.DriveAdapter.Config.{AdapterConfig, linear_feedforward, maximum_curvature}
use ros_pre_runner.DriveAdapter.State.{
  DriveAdapter, reset_transient_state, is_within, is_older, active_mode_is_fresh,
  is_confirmed_preempted, motion_is_stale, encoder_is_stale,
}

pub data IntegratorFreezeReason : Type 0 where
  not_frozen gain_disabled zero_command feedback_stale wheelspin : IntegratorFreezeReason
  direction_unavailable direction_mismatch arbitration_unavailable : IntegratorFreezeReason
  output_not_selected invalid_dt anti_windup no_command invalid_command : IntegratorFreezeReason

abbrev pub is_not_frozen : IntegratorFreezeReason → Bool
is_not_frozen not_frozen = true
is_not_frozen _ = false

-- The texts of `AdapterDecision.mode` and `saturation_state`.
pub data DriveMode : Type 0 where
  silence brake forward reverse : DriveMode

pub data Saturation : Type 0 where
  unsaturated upper lower : Saturation

pub record AdapterDecision (F : Type 0) : Type 0 where
  pub publish_command : Bool
  pub mode : DriveMode
  pub reason : String
  pub commanded_speed : F
  pub effective_speed : F
  pub measured_speed : F
  pub speed_error : F
  pub feedforward_throttle : F
  pub feedforward_floor_violation : Bool
  pub proportional_term : F
  pub integrator_state : F
  pub pi_term : F
  pub integrator_enabled : Bool
  pub saturation_state : Saturation
  pub wheelspin_guard : Bool
  pub final_throttle : F
  pub normalized_steering : F
  pub steering_saturated : Bool
  pub integral_gain : F
  pub stall_integral_gain_active : Bool
  pub active_mode_received : Bool
  pub active_mode_fresh : Bool
  pub active_mode : String
  pub preempted : Bool
  pub integral_decay_active : Bool
  pub integrator_freeze_reason : IntegratorFreezeReason

abbrev or_empty : Option String → String
or_empty none = ""
or_empty (some text) = text

-- The sign of a command that is not zero, as an integer.
abbrev pub direction_of : Bool → ℤ
direction_of true = pos 1
direction_of false = negsuc 0

abbrev is_direction : ℤ → Bool
is_direction (pos n) = n == 1
is_direction (negsuc n) = n == 0

abbrev pub same_direction : ℤ → ℤ → Bool
same_direction (pos m) (pos n) = m == n
same_direction (negsuc m) (negsuc n) = m == n
same_direction _ _ = false

module _ {F : Type 0} ⦃fl : Float F⦄ where
  abbrev pub one_f : F
  one_f = fl.lit 1 1

  -- A decision with the defaults of its fields, the fields of the preemption and those of the
  -- controller, as `_silence` and `_brake` make it.
  abbrev pub at_rest :
      DriveAdapter F
      → F
      → Bool
      → DriveMode
      → String
      → F
      → IntegratorFreezeReason
      → AdapterDecision F
  at_rest a now publish mode reason speed freeze = record {
    publish_command = publish;
    mode = mode;
    reason = reason;
    commanded_speed = speed;
    effective_speed = zero_f;
    measured_speed = zero_f;
    speed_error = zero_f;
    feedforward_throttle = zero_f;
    feedforward_floor_violation = false;
    proportional_term = zero_f;
    integrator_state = a.integrator;
    pi_term = a.integrator;
    integrator_enabled = false;
    saturation_state = unsaturated;
    wheelspin_guard = false;
    final_throttle = zero_f;
    normalized_steering = zero_f;
    steering_saturated = false;
    integral_gain = a.config.integral_gain;
    stall_integral_gain_active = false;
    active_mode_received = is_some a.active_mode_time;
    active_mode_fresh = active_mode_is_fresh a now;
    active_mode = or_empty a.active_mode;
    preempted = is_confirmed_preempted a now;
    integral_decay_active = false;
    integrator_freeze_reason = freeze;
  }

  -- The steering for a demand, and whether it was saturated.
  abbrev pub direct_steering : F → F × Bool
  direct_steering demand = (fmax (fl.neg one_f) (fmin one_f demand), fl.lt one_f (fl.abs demand))

  unfoldable pub steering_of : DriveAdapter F → F → F → F × Bool
  unfolding maximum_curvature
  steering_of a speed demand =
      if a.command_uses_direct_steering
      then direct_steering demand
      else (let curvature = fl.div demand speed in
          let delta = fl.atan (fl.mul a.config.wheelbase curvature) in
          (
            fmax (fl.neg one_f) (fmin one_f (fl.div delta a.config.max_steering_angle)),
            fl.lt (maximum_curvature a.config) (fl.abs curvature),
          ))

  abbrev pub command_sign : F → F
  command_sign speed = if fl.lt zero_f speed then one_f else fl.neg one_f

  unfoldable pub effective_speed_of : DriveAdapter F → F → F
  effective_speed_of a speed =
      fl.mul (command_sign speed)
        (fmin a.config.maximum_commanded_speed (fmax (fl.abs speed) a.config.minimum_moving_speed))

  unfoldable pub feedforward_of : DriveAdapter F → F → F
  unfolding effective_speed_of linear_feedforward
  feedforward_of a speed =
      linear_feedforward (effective_speed_of a speed) a.config.feedforward_effort_per_speed
        a.config.feedforward_effort_intercept

  unfoldable pub measured_speed_of : DriveAdapter F → F
  measured_speed_of a =
      if fl.is_finite a.encoder_edge_rate
      then fl.mul (fl.abs a.encoder_edge_rate) a.config.encoder_metres_per_edge
      else zero_f

  unfoldable pub speed_error_of : DriveAdapter F → F → F
  unfolding effective_speed_of measured_speed_of
  speed_error_of a speed =
      fl.sub (fl.abs (effective_speed_of a speed)) (fl.abs (measured_speed_of a))

  unfoldable pub proportional_of : DriveAdapter F → F → F → F
  unfolding speed_error_of encoder_is_stale
  proportional_of a speed now =
      if encoder_is_stale a now
      then zero_f
      else fl.mul a.config.proportional_gain (speed_error_of a speed)

  unfoldable pub is_spinning : DriveAdapter F → F → F → Bool
  unfolding encoder_is_stale motion_is_stale
  is_spinning a now encoder_speed =
      let ekf_speed = fl.abs a.motion_speed in
      (not (encoder_is_stale a now) && not (motion_is_stale a now))
      && (fl.lt (fl.mul a.config.wheelspin_speed_ratio ekf_speed) encoder_speed
          && fl.lt a.config.wheelspin_min_speed_excess (fl.sub encoder_speed ekf_speed))

  -- The start of the wheelspin, and whether it qualified.
  abbrev qualify : Option F → F → F → Option F × Bool
  qualify none now seconds = (some now, false)
  qualify (some since) now seconds =
      (some since, fl.le seconds (fl.add (fl.sub now since) (fl.lit 1 1000000000000)))

  unfoldable pub wheelspin_guard : DriveAdapter F → F → F → Option F × Bool
  unfolding is_spinning
  wheelspin_guard a now encoder_speed =
      if is_spinning a now encoder_speed
      then qualify a.wheelspin_since now a.config.wheelspin_qualification_sec
      else (none, false)

  -- `sample_time - previous`, where it is a valid step of the integration.
  unfoldable pub integration_dt : Option F → Option F → Option F
  integration_dt none previous = none
  integration_dt (some sample) none = none
  integration_dt (some sample) (some previous) =
      let dt = fl.sub sample previous in
      if not (fl.is_finite dt) || (fl.le dt zero_f || fl.lt (fl.lit 5 10) dt) then none else some dt

  -- `3.0 / publication_rate`
  abbrev pub integration_timeout : DriveAdapter F → F
  integration_timeout a = fl.div (fl.lit 3 1) a.config.publication_rate

  unfoldable pub arbitration_is_available : DriveAdapter F → F → Bool
  arbitration_is_available a now =
      (is_some a.adapter_output && is_some a.mux_output)
      && (is_within a.adapter_output_time (integration_timeout a) now
          && is_within a.mux_output_time (integration_timeout a) now)

  -- `zip` of the two outputs; it is asked only where both are there.
  abbrev is_selected : Option (F × F) → Option (F × F) → Bool
  is_selected (some (linear, angular)) (some (linear', angular')) =
      fl.is_close linear linear' (fl.lit 1 1000000000)
      && fl.is_close angular angular' (fl.lit 1 1000000000)
  is_selected _ _ = false

  unfoldable pub adapter_output_is_selected : DriveAdapter F → Bool
  adapter_output_is_selected a = is_selected a.adapter_output a.mux_output

  unfoldable pub freeze_reason_of : DriveAdapter F → F → F → Bool → IntegratorFreezeReason
  unfolding arbitration_is_available adapter_output_is_selected
  freeze_reason_of a now speed spinning =
      if fl.eq speed zero_f
      then zero_command
      else if is_older a.encoder_time (integration_timeout a) now
          || not (fl.is_finite a.encoder_edge_rate)
      then feedback_stale
      else if spinning
      then wheelspin
      else if not (is_direction a.pending_direction)
      then direction_unavailable
      else if not (same_direction a.pending_direction (direction_of (fl.lt zero_f speed)))
      then direction_mismatch
      else if not (arbitration_is_available a now)
      then arbitration_unavailable
      else if not (adapter_output_is_selected a)
      then output_not_selected
      else not_frozen

  unfoldable pub saturation : AdapterConfig F → F → Saturation
  saturation c output =
      if fl.lt c.output_max output
      then upper
      else if fl.lt output c.output_min
      then lower
      else unsaturated

  -- Whether an error drives a saturated output farther out.
  abbrev pub drives_farther : Saturation → F → Bool
  drives_farther upper error = fl.lt zero_f error
  drives_farther lower error = fl.lt error zero_f
  drives_farther unsaturated error = false

  -- The integrator's candidate for a step of `dt`.
  unfoldable pub candidate : DriveAdapter F → F → F → F
  candidate a error dt = fmax (fl.neg a.config.integrator_bound) (
      fmin a.config.integrator_bound
        (fl.add a.integrator (fl.mul (fl.mul a.config.integral_gain error) dt)))

  -- The integrator after the cycle, and why it was frozen, if it was.
  unfoldable pub integrate :
      DriveAdapter F → F → F → Option F → IntegratorFreezeReason → F × IntegratorFreezeReason
  unfolding candidate saturation
  integrate a base error dt not_frozen = elim dt [
    | none ↦ (a.integrator, invalid_dt)
    | some step ↦
        if drives_farther (saturation a.config (fl.add base (candidate a error step))) error
        then (a.integrator, anti_windup)
        else (candidate a error step, not_frozen)
  ]
  integrate a base error dt reason = (a.integrator, reason)

  abbrev pub gain_reason : AdapterConfig F → IntegratorFreezeReason → IntegratorFreezeReason
  gain_reason c reason =
      if is_not_frozen reason && fl.eq c.integral_gain zero_f then gain_disabled else reason

  -- The magnitude of the output.
  unfoldable pub limited : AdapterConfig F → F → F
  limited c raw = fmax c.output_min (fmin c.output_max raw)

  unfoldable pub drive_reason : DriveAdapter F → F → F → String
  drive_reason a speed now =
      if fl.lt a.config.maximum_commanded_speed (fl.abs speed)
      then "maximum_speed_clamped"
      else if fl.lt (fl.abs speed) a.config.minimum_moving_speed
      then "floor_promoted"
      else if encoder_is_stale a now
      then "encoder_stale_feedforward"
      else "closed_loop"

  -- The part of `step` for a command that moves the vehicle.
  unfoldable pub drive : DriveAdapter F → F → F → F → DriveAdapter F × AdapterDecision F
  unfolding steering_of feedforward_of measured_speed_of speed_error_of proportional_of
      wheelspin_guard integration_dt freeze_reason_of integrate saturation limited drive_reason
  drive a speed demand now =
      let (steering, steering_saturated) = steering_of a speed demand in
      let feedforward = feedforward_of a speed in
      let error = speed_error_of a speed in
      let (since, spinning) = wheelspin_guard a now (measured_speed_of a) in
      let proportional = proportional_of a speed now in
      let dt = integration_dt a.encoder_sample_time a.previous_encoder_sample_time in
      let base = fl.add feedforward proportional in
      let (integral, frozen) = integrate a base error dt (freeze_reason_of a now speed spinning) in
      let raw = fl.add base integral in
      (
        record a {
          wheelspin_since = since;
          previous_encoder_sample_time = a.encoder_sample_time;
          integrator = integral;
        },
        record (at_rest a now true (if fl.lt zero_f speed then forward else reverse)
            (drive_reason a speed now) speed (gain_reason a.config frozen)) {
              effective_speed = effective_speed_of a speed;
              measured_speed = measured_speed_of a;
              speed_error = error;
              feedforward_throttle = feedforward;
              feedforward_floor_violation = fl.lt feedforward (fl.lit 4 100);
              proportional_term = proportional;
              integrator_state = integral;
              pi_term = fl.add proportional integral;
              integrator_enabled =
                  not (fl.eq a.config.integral_gain zero_f)
                  && is_not_frozen (gain_reason a.config frozen);
              saturation_state = saturation a.config raw;
              wheelspin_guard = spinning;
              final_throttle = fl.mul (command_sign speed) (limited a.config raw);
              normalized_steering = steering;
              steering_saturated = steering_saturated;
            },
      )

  -- `step` for a command that is there and fresh.
  unfoldable pub fresh_step : DriveAdapter F → F → F → F → DriveAdapter F × AdapterDecision F
  unfolding drive
  fresh_step a speed demand now =
      if not (fl.is_finite speed) || not (fl.is_finite demand)
      then (
        reset_transient_state a,
        at_rest a now true brake "nonfinite_input" speed invalid_command,
      )
      else if fl.eq speed zero_f
      then (
        reset_transient_state a,
        (if a.command_uses_direct_steering
            then record (at_rest a now true brake "explicit_stop" speed zero_command) {
              normalized_steering = (direct_steering demand).0;
              steering_saturated = (direct_steering demand).1;
            }
            else at_rest a now true brake "explicit_stop" speed zero_command),
      )
      else drive a speed demand now

  abbrev silent : DriveAdapter F → F → String → F → DriveAdapter F × AdapterDecision F
  silent a now reason speed =
      (reset_transient_state a, at_rest a now false silence reason speed no_command)

  unfoldable pub command_step :
      DriveAdapter F → Option (F × F) → Option F → F → DriveAdapter F × AdapterDecision F
  unfolding fresh_step
  command_step a none at now = silent a now "no_command" zero_f
  command_step a (some command) none now = silent a now "no_command" zero_f
  command_step a (some (speed, demand)) (some at) now =
      if fl.lt a.config.cmd_vel_nav_timeout (fl.sub now at)
      then silent a now "stale_command" speed
      else fresh_step a speed demand now

  unfoldable pub step : DriveAdapter F → F → DriveAdapter F × AdapterDecision F
  unfolding command_step
  step a now = command_step a a.command a.command_time now
