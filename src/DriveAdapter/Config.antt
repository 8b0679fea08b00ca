-- ===== src/DriveAdapter/Config.antt =====
-- `AdapterConfig` with the checks of its `__post_init__`, of
-- src/runner_drive_adapter/runner_drive_adapter/drive_adapter.py. The two limits of
-- AutonomyTuningPolicy, a message that ROS generates, and math.pi are parameters.
use ros_pre_runner.Prelude.{
  Bool, not, ◌&&◌, ◌||◌, Option, none, some, List, [], ◌∷◌, if◌then◌else◌, any,
}
use ros_pre_runner.Prelude.Float.{Float, zero_f}

pub record AdapterConfig (F : Type 0) : Type 0 where
  pub wheelbase : F
  pub max_steering_angle : F
  pub feedforward_effort_per_speed : F
  pub feedforward_effort_intercept : F
  pub minimum_moving_speed : F
  pub maximum_commanded_speed : F
  pub proportional_gain : F
  pub integral_gain : F
  pub integrator_bound : F
  pub output_min : F
  pub output_max : F
  pub encoder_metres_per_edge : F
  pub wheelspin_speed_ratio : F
  pub wheelspin_min_speed_excess : F
  pub wheelspin_qualification_sec : F
  pub motion_signal_timeout_sec : F
  pub encoder_state_timeout_sec : F
  pub cmd_vel_nav_timeout : F
  pub active_mode_timeout_sec : F
  pub publication_rate : F

pub record Policy (F : Type 0) : Type 0 where
  pub maximum_commanded_speed_limit : F
  pub maximum_output_authority : F
  pub pi : F

-- The ValueErrors of `__post_init__`, in their order.
pub data BadConfig : Type 0 where
  not_finite not_positive steering_angle negative_integral_gain speed_range : BadConfig
  speed_limit output_min_not_zero output_authority negative_feedforward : BadConfig
  feedforward_over_output spin_ratio spin_excess negative_minimum_feedforward : BadConfig

-- One check and the rest of them.
unfoldable pub unless : Bool → BadConfig → Option BadConfig → Option BadConfig
unless bad e rest = if bad then some e else rest

module _ {F : Type 0} ⦃fl : Float F⦄ where
  unfoldable pub linear_feedforward : F → F → F → F
  linear_feedforward speed effort_per_speed effort_intercept =
      fl.add (fl.mul effort_per_speed (fl.abs speed)) effort_intercept

  abbrev pub values : AdapterConfig F → List F
  values c =
      c.wheelbase ∷ c.max_steering_angle ∷ c.feedforward_effort_per_speed
      ∷ c.feedforward_effort_intercept ∷ c.minimum_moving_speed ∷ c.maximum_commanded_speed
      ∷ c.proportional_gain ∷ c.integral_gain ∷ c.integrator_bound ∷ c.output_min ∷ c.output_max
      ∷ c.encoder_metres_per_edge ∷ c.wheelspin_speed_ratio ∷ c.wheelspin_min_speed_excess
      ∷ c.wheelspin_qualification_sec ∷ c.motion_signal_timeout_sec ∷ c.encoder_state_timeout_sec
      ∷ c.cmd_vel_nav_timeout ∷ c.active_mode_timeout_sec ∷ c.publication_rate ∷ []

  abbrev positive : AdapterConfig F → List F
  positive c =
      c.wheelbase ∷ c.max_steering_angle ∷ c.feedforward_effort_per_speed ∷ c.minimum_moving_speed
      ∷ c.maximum_commanded_speed ∷ c.proportional_gain ∷ c.integrator_bound
      ∷ c.encoder_metres_per_edge ∷ c.wheelspin_speed_ratio ∷ c.wheelspin_qualification_sec
      ∷ c.motion_signal_timeout_sec ∷ c.encoder_state_timeout_sec ∷ c.cmd_vel_nav_timeout
      ∷ c.active_mode_timeout_sec ∷ c.publication_rate ∷ []

  -- The linear feedforward of a configuration at a speed.
  abbrev pub feedforward_at : AdapterConfig F → F → F
  feedforward_at c speed =
      linear_feedforward speed c.feedforward_effort_per_speed c.feedforward_effort_intercept

  -- The first ValueError, or none: the last checks, from the feedforward on.
  unfoldable pub check_drive : AdapterConfig F → Option BadConfig
  unfolding linear_feedforward
  check_drive c =
      unless (fl.lt (feedforward_at c c.maximum_commanded_speed) zero_f) negative_feedforward (
        unless (fl.lt c.output_max (feedforward_at c c.maximum_commanded_speed))
          feedforward_over_output
          (unless (fl.le c.wheelspin_speed_ratio (fl.lit 1 1)) spin_ratio (
            unless (fl.lt c.wheelspin_min_speed_excess zero_f) spin_excess (
              unless (fl.lt (feedforward_at c c.minimum_moving_speed) zero_f)
                negative_minimum_feedforward none))))

  unfoldable pub post_init : Policy F → AdapterConfig F → Option BadConfig
  unfolding check_drive
  post_init p c = unless (any (λ v. not (fl.is_finite v)) (values c)) not_finite (
      unless (any (λ v. fl.le v zero_f) (positive c)) not_positive (
        unless
          (not (
            fl.lt zero_f c.max_steering_angle
            && fl.lt c.max_steering_angle (fl.div p.pi (fl.lit 2 1))))
          steering_angle
          (unless (fl.lt c.integral_gain zero_f) negative_integral_gain (
            unless (fl.lt c.maximum_commanded_speed c.minimum_moving_speed) speed_range (
              unless (fl.lt p.maximum_commanded_speed_limit c.maximum_commanded_speed) speed_limit (
                unless (not (fl.eq c.output_min zero_f)) output_min_not_zero (
                  unless
                    (fl.lt p.maximum_output_authority c.output_max || fl.le c.output_max zero_f)
                    output_authority (check_drive c))))))))

  unfoldable pub maximum_curvature : AdapterConfig F → F
  maximum_curvature c = fl.div (fl.tan c.max_steering_angle) c.wheelbase
