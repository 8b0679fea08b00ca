-- ===== src/DriveAdapter/Tests.antt =====
-- The drive adapter's default configuration in thousandths: witnesses and runs.
use ros_pre_runner.Prelude.{arith, ◌≡◌, refl, ◌≢◌, false, none, some, List, [], ◌∷◌}
use ros_pre_runner.Prelude.Int.{pos}
use ros_pre_runner.Prelude.Millis.{Millis, ms, millis_float}
use ros_pre_runner.DriveAdapter.Config.{
  AdapterConfig, Policy, post_init, feedforward_over_output, check_drive, unless,
}
use ros_pre_runner.DriveAdapter.State.{DriveAdapter, init}
use ros_pre_runner.DriveAdapter.Live.{
  set_live_parameters, bad_config, double, output_max, maximum_commanded_speed, integral_gain,
  merge,
}
use ros_pre_runner.DriveAdapter.Control.{step}
use ros_pre_runner.DriveAdapter.Calls.{
  Call, run, command, encoder, live, adapter_output, mux_output, cycle,
}
use ros_pre_runner.DriveAdapter.Limits.{IsLimited, IsSameVehicle, run-IsLimited}
use ros_pre_runner.DriveAdapter.Output.{IsMotion}
use ros_pre_runner.DriveAdapter.Bounds.{IsBoundedStep, run-IsBoundedStep}
use ros_pre_runner.DriveAdapter.Integral.{IsUnwoundStep, IsIntegrating, step-integrates}

abbrev policy : Policy Millis
policy = record {
  maximum_commanded_speed_limit = ms 2000;
  maximum_output_authority = ms 300;
  pi = ms 3141;
}

abbrev default_config : AdapterConfig Millis
default_config = record {
  wheelbase = ms 178;
  max_steering_angle = ms 361;
  feedforward_effort_per_speed = ms 118;
  feedforward_effort_intercept = ms 17;
  minimum_moving_speed = ms 250;
  maximum_commanded_speed = ms 600;
  proportional_gain = ms 50;
  integral_gain = ms 0;
  integrator_bound = ms 5;
  output_min = ms 0;
  output_max = ms 140;
  encoder_metres_per_edge = ms 10;
  wheelspin_speed_ratio = ms 1500;
  wheelspin_min_speed_excess = ms 100;
  wheelspin_qualification_sec = ms 200;
  motion_signal_timeout_sec = ms 250;
  encoder_state_timeout_sec = ms 250;
  cmd_vel_nav_timeout = ms 250;
  active_mode_timeout_sec = ms 200;
  publication_rate = ms 20000;
}

default_passes : post_init policy default_config ≡ none
unfolding post_init check_drive unless
default_passes = refl

abbrev adapter : DriveAdapter Millis
adapter = init default_config

-- A command, an edge rate of 30 and a turn of the wheels that is forward.
abbrev commanded : List (Call Millis × Millis)
commanded =
    (command (ms 500) (ms 100), ms 1000)
    ∷ (encoder (ms 30000) (pos 1) (some (ms 1000)), ms 1000)
    ∷ (live ((integral_gain, double (ms 20)) ∷ []), ms 1000)
    ∷ (adapter_output (ms 70) (ms 100), ms 1000)
    ∷ (mux_output (ms 70) (ms 100), ms 1000)
    ∷ (cycle, ms 1010)
    ∷ (encoder (ms 30000) (pos 1) (some (ms 1100)), ms 1100)
    ∷ (live ((maximum_commanded_speed, double (ms 4000)) ∷ []), ms 1100)
    ∷ []

run-IsLimited_example :
    IsLimited policy (run policy adapter commanded).config
    × IsSameVehicle (run policy adapter commanded).config default_config
unfolding init
run-IsLimited_example = run-IsLimited policy adapter commanded default_passes

-- An output that cannot reach the feedforward of the highest speed
weak_refused :
    (set_live_parameters policy adapter ((output_max, double (ms 50)) ∷ [])).1
    ≡ some (bad_config feedforward_over_output)
unfolding set_live_parameters post_init check_drive merge unless init
weak_refused = refl

run-IsBoundedStep_example :
    IsBoundedStep
      (run policy (init default_config) commanded)
      (step (run policy (init default_config) commanded) (ms 1110))
run-IsBoundedStep_example = run-IsBoundedStep policy default_config commanded (ms 1110)

-- After both, with a quarter of a second between the edges, the integrator moves.
abbrev integrating : DriveAdapter Millis
integrating = record adapter {
  config = record default_config { integral_gain = ms 200; integrator_bound = ms 50 };
  command = some (ms 500, ms 100);
  command_time = some (ms 1000);
  encoder_edge_rate = ms 30000;
  encoder_time = some (ms 1100);
  encoder_sample_time = some (ms 1100);
  previous_encoder_sample_time = some (ms 1000);
  pending_direction = pos 1;
  adapter_output = some (ms 70, ms 100);
  adapter_output_time = some (ms 1050);
  mux_output = some (ms 70, ms 100);
  mux_output_time = some (ms 1050);
}

integrated : (step integrating (ms 1110)).0.integrator ≡ ms 4
unfolding step init
integrated = refl

starts_empty : integrating.integrator ≡ ms 0
unfolding init
starts_empty = refl

four-ne-zero : (x y : Millis) → x ≡ ms 4 → y ≡ ms 0 → x ≢ y
four-ne-zero x y p q h = ground arith

integrated-moved : (step integrating (ms 1110)).0.integrator ≢ integrating.integrator
integrated-moved = four-ne-zero _ _ integrated starts_empty

step-integrates_example :
    (c : Millis × Millis) × (integrating.command ≡ some c)
    × IsMotion c
    × IsIntegrating integrating (ms 1110) c.0
    × IsUnwoundStep integrating.config (step integrating (ms 1110))
step-integrates_example = step-integrates integrating (ms 1110) integrated-moved

stale_silent : (step integrating (ms 1300)).1.publish_command ≡ false
unfolding step init
stale_silent = refl
