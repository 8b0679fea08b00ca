-- ===== src/CommandSupervisor/Tests.antt =====
-- A session with the supervisor, with times in milliseconds: witnesses and runs.
use ros_pre_runner.Prelude.{
  ℕ, ◌+◌, ◌%◌, ◌<◌, ◌≡◌, ◌↔◌, refl, ◌&&◌, true, false, none, some, List, [], ◌∷◌, arith,
}
use ros_pre_runner.Prelude.Millis.{Millis, ms, millis_float}
use ros_pre_runner.StateMachine.{
  transition, initial, autonomy, lease_active, authority, paddock_autonomy,
}
use ros_pre_runner.CommandSupervisor.State.{
  ControlEvent, VelocityCommand, Supervisor, command_valid,
}
use ros_pre_runner.CommandSupervisor.Clock.{
  lease_is_live, manual_is_fresh, lease_is_fresh, raw_is_fresh,
}
use ros_pre_runner.CommandSupervisor.Control.{
  is_newer_sequence, uint64_modulus, uint64_half_range, handle_control_event,
}
use ros_pre_runner.CommandSupervisor.Inputs.{
  set_runtime_mode, receive_raw_manual, Settings, ok, init, receive_raw_autonomy, tick,
}
use ros_pre_runner.CommandSupervisor.Calls.{Call, control, runtime, run, call}
use ros_pre_runner.CommandSupervisor.Sound.{IsSound}
use ros_pre_runner.CommandSupervisor.Steps.{run-IsSound}
use ros_pre_runner.CommandSupervisor.Gate.{
  IsDriving, IsSteering, Current, HasSample, receive_raw_autonomy_exact, receive_raw_manual_exact,
}
use ros_pre_runner.CommandSupervisor.Deadman.{tick-deadman}
use ros_pre_runner.CommandSupervisor.Order.{is_newer_exact}

abbrev settings : Settings Millis
settings = record {
  lease_timeout_sec = ms 150;
  raw_autonomy_timeout_sec = ms 150;
  control_liveness_sec = some (ms 3000);
  manual_timeout_sec = ms 250;
  manual_max_speed_mps = ms 400;
  minimum_moving_speed_mps = ms 250;
  active_autonomy_map = "studio";
}

abbrev fresh : Supervisor Millis
fresh = record {
  lease_timeout_sec = ms 150;
  control_liveness_sec = ms 3000;
  raw_autonomy_timeout_sec = ms 150;
  manual_timeout_sec = ms 250;
  manual_max_speed_mps = ms 400;
  minimum_moving_speed_mps = ms 250;
  state = initial "studio";
  last_lease_receive_at = none;
  last_raw_autonomy_at = none;
  last_manual_input_at = none;
  last_raw_manual_at = none;
  manual_demand = none;
  last_control_sequence = none;
  lapsed_lease = none;
}

fresh_built : init settings ≡ ok fresh
unfolding init
fresh_built = refl

abbrev press : ControlEvent → ℕ → Call Millis
press e n = control (record {
  event = e;
  client_id = "browser";
  lease_id = "L1";
  sequence = n;
  goal_x = ms 1000;
  goal_y = ms 2000;
  goal_yaw = ms 0;
  manual_speed_mps = ms 300;
  manual_steering = ms 0;
})

abbrev arm : List (Call Millis × Millis)
arm =
    (runtime autonomy "studio" true, ms 0)
    ∷ (press ControlEvent.lease_acquired 1, ms 10)
    ∷ (press ControlEvent.goal_selected 2, ms 20)
    ∷ (press ControlEvent.run_pressed 3, ms 30)
    ∷ []

abbrev driving : Supervisor Millis
driving = run fresh arm

driving_autonomy : authority driving.state ≡ paddock_autonomy
unfolding run call init authority handle_control_event transition set_runtime_mode is_newer_sequence
driving_autonomy = refl

abbrev cruise : VelocityCommand Millis
cruise = record {
  linear_x = ms 500;
  linear_y = ms 0;
  linear_z = ms 0;
  angular_x = ms 0;
  angular_y = ms 0;
  angular_z = ms 100;
}

-- 100 ms after the last event the sample passes, and 200 ms after it does not.
forwarded : (receive_raw_autonomy driving cruise (ms 130)).1.autonomy_command ≡ some cruise
unfolding run call handle_control_event transition set_runtime_mode receive_raw_autonomy
    is_newer_sequence
forwarded = refl

withheld : (receive_raw_autonomy driving cruise (ms 230)).1.autonomy_command ≡ none
unfolding run call handle_control_event transition set_runtime_mode receive_raw_autonomy
    is_newer_sequence
withheld = refl

run-IsSound_example : IsSound driving
run-IsSound_example = run-IsSound settings fresh arm fresh_built

driving-IsSound : IsSound driving
driving-IsSound = run-IsSound settings fresh arm fresh_built

receive_raw_autonomy_exact_example :
    let (c', r) = receive_raw_autonomy driving cruise (ms 130) in
    (r.autonomy_command ≡ some cruise) ↔ (
      (cruise ≡ cruise)
      × (command_valid cruise ≡ true)
      × IsDriving c'.state
      × (lease_is_fresh c' (ms 130) ≡ true)
      × (raw_is_fresh c' (ms 130) ≡ true))
receive_raw_autonomy_exact_example = receive_raw_autonomy_exact driving cruise cruise (ms 130)

receive_raw_manual_exact_example :
    let (c', r) = receive_raw_manual driving cruise 4 (ms 130) in
    (r.manual_command ≡ some cruise) ↔ (
      (cruise ≡ cruise)
      × (command_valid cruise ≡ true)
      × Current c'.manual_demand 4
      × IsSteering c'.state
      × (manual_is_fresh c' (ms 130) ≡ true)
      × HasSample c' (ms 130))
receive_raw_manual_exact_example = receive_raw_manual_exact driving cruise cruise 4 (ms 130)

tick-deadman_example :
    let s = (tick driving (ms 5000)).0.state in
    (lease_active s ≡ lease_is_live driving (ms 5000))
    × (s.is_manual_active ≡ (
        driving.state.is_manual_active
        && (lease_is_live driving (ms 5000) && manual_is_fresh driving (ms 5000))))
tick-deadman_example = tick-deadman driving (ms 5000) driving-IsSound

is_newer_exact_example :
    ((is_newer_sequence 3 18446744073709551615 ≡ true) ↔ (
      (d : ℕ) × (0 < d)
      × (d < uint64_half_range)
      × (◌≡◌ {A = ℕ} 3 ((18446744073709551615 + d) % uint64_modulus))))
    × ((is_newer_sequence 3 18446744073709551615 && is_newer_sequence 18446744073709551615 3)
        ≡ false)
is_newer_exact_example = is_newer_exact 3 18446744073709551615 (omega arith) (omega arith)
