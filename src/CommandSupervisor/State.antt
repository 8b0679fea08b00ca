-- ===== src/CommandSupervisor/State.antt =====
-- The data of src/runner_paddock/runner_paddock/command_supervisor.py: its enumeration, its frozen
-- dataclasses, the attributes of `CommandSupervisor`, and the equality that Python derives for
-- `PaddockState`. Times and speeds are floats.
use ros_pre_runner.Prelude.{ℕ, String, Bool, true, false, ◌&&◌, Option, none, some, str_eq, ◌==◌}
use ros_pre_runner.Prelude.Float.{Float}
use ros_pre_runner.StateMachine.{PaddockState, GoalIntent, mode_eq}

pub data ControlEvent : Type 0 where
  run_pressed run_released stop manual_active manual_inactive goal_selected : ControlEvent
  lease_acquired lease_released lease_lost heartbeat clear_stop : ControlEvent

pub record VelocityCommand (F : Type 0) : Type 0 where
  pub linear_x : F
  pub linear_y : F
  pub linear_z : F
  pub angular_x : F
  pub angular_y : F
  pub angular_z : F

pub record ManualDemand (F : Type 0) : Type 0 where
  pub sequence : ℕ
  pub signed_speed_mps : F
  pub steering_normalized : F

pub record SupervisorSnapshot (F : Type 0) : Type 0 where
  pub state : PaddockState F
  pub brake_intent : Bool
  pub lease_fresh : Bool
  pub lease_age_sec : Option F
  pub raw_autonomy_fresh : Bool
  pub raw_autonomy_age_sec : Option F
  pub manual_input_fresh : Bool
  pub manual_input_age_sec : Option F
  pub manual_applied_speed_mps : F
  pub manual_applied_steering : F
  pub last_control_sequence : Option ℕ
  pub reason : String

pub record SupervisorResult (F : Type 0) : Type 0 where
  pub snapshot : SupervisorSnapshot F
  pub autonomy_command : Option (VelocityCommand F)
  pub manual_demand : Option (ManualDemand F)
  pub manual_command : Option (VelocityCommand F)
  pub accepted : Bool

-- `SupervisorResult(snapshot)` and `SupervisorResult(snapshot, accepted=False)`
abbrev pub answer : {F : Type 0} → Bool → SupervisorSnapshot F → SupervisorResult F
answer accepted shot = record {
  snapshot = shot;
  autonomy_command = none;
  manual_demand = none;
  manual_command = none;
  accepted = accepted;
}

pub record Supervisor (F : Type 0) : Type 0 where
  pub lease_timeout_sec : F
  pub control_liveness_sec : F
  pub raw_autonomy_timeout_sec : F
  pub manual_timeout_sec : F
  pub manual_max_speed_mps : F
  pub minimum_moving_speed_mps : F
  pub state : PaddockState F
  pub last_lease_receive_at : Option F
  pub last_raw_autonomy_at : Option F
  pub last_manual_input_at : Option F
  pub last_raw_manual_at : Option F
  pub manual_demand : Option (ManualDemand F)  -- _manual_demand
  pub last_control_sequence : Option ℕ
  pub lapsed_lease : Option (String × String)  -- _lapsed_lease

abbrev pub bool_eq : Bool → Bool → Bool
bool_eq true true = true
bool_eq false false = true
bool_eq _ _ = false

module _ {F : Type 0} ⦃fl : Float F⦄ where
  unfoldable pub command_valid : VelocityCommand F → Bool
  command_valid c =
      fl.is_finite c.linear_x
      && (fl.is_finite c.linear_y
          && (fl.is_finite c.linear_z
              && (fl.is_finite c.angular_x
                  && (fl.is_finite c.angular_y && fl.is_finite c.angular_z))))

  goal_eq : Option (GoalIntent F) → Option (GoalIntent F) → Bool
  goal_eq none none = true
  goal_eq (some a) (some b) =
      str_eq a.map_name b.map_name && (fl.same a.x b.x && (fl.same a.y b.y && fl.same a.yaw b.yaw))
  goal_eq _ _ = false

  -- `==` of the dataclass: the fields, in order.
  unfoldable pub state_eq : PaddockState F → PaddockState F → Bool
  unfolding goal_eq
  state_eq a b =
      mode_eq a.mode b.mode
      && (a.accepted_mode_request_id == b.accepted_mode_request_id
          && (str_eq a.active_autonomy_map b.active_autonomy_map
              && (str_eq a.lease_client_id b.lease_client_id
                  && (str_eq a.lease_id b.lease_id
                      && (a.lease_generation == b.lease_generation
                          && (bool_eq a.is_dualsense_active b.is_dualsense_active
                              && (bool_eq a.run_held b.run_held
                                  && (bool_eq a.run_blocked_until_release
                                        b.run_blocked_until_release
                                      && (bool_eq a.is_manual_active b.is_manual_active
                                          && (goal_eq a.goal b.goal
                                              && bool_eq a.navigation_active
                                                  b.navigation_active))))))))))
