-- ===== src/CommandSupervisor/Clock.antt =====
-- Ages, freshness, expiry and snapshots of src/runner_paddock/runner_paddock/command_supervisor.py.
-- A method that writes attributes returns the new supervisor; `now` is an argument, as in the source.
use ros_pre_runner.Prelude.{
  String, Bool, true, false, not, ◌&&◌, ◌||◌, Option, none, some, is_some, if◌then◌else◌,
}
use ros_pre_runner.Prelude.Float.{Float, fmax, zero_f}
use ros_pre_runner.StateMachine.{
  idle, autonomy, mode_eq, paddock_manual, authority_eq, authority, autonomy_permitted,
  lease_active, lose_lease, manual_inactive, no_inputs, transition,
}
use ros_pre_runner.CommandSupervisor.State.{Supervisor, SupervisorSnapshot, ManualDemand}

module _ {F : Type 0} ⦃fl : Float F⦄ where
  -- `max(0.0, now - at)`, or None: _lease_age, _raw_age and _manual_age
  unfoldable pub age : Option F → F → Option F
  age none now = none
  age (some at) now = some (fmax zero_f (fl.sub now at))

  -- `age is not None and age <= bound`
  unfoldable pub within : F → Option F → Bool
  within bound none = false
  within bound (some a) = fl.le a bound

  unfoldable pub lease_is_fresh : Supervisor F → F → Bool
  unfolding age within lease_active
  lease_is_fresh c now =
      lease_active c.state && within c.lease_timeout_sec (age c.last_lease_receive_at now)

  unfoldable pub lease_is_live : Supervisor F → F → Bool
  unfolding age within lease_active
  lease_is_live c now =
      lease_active c.state && within c.control_liveness_sec (age c.last_lease_receive_at now)

  unfoldable pub raw_is_fresh : Supervisor F → F → Bool
  unfolding age within
  raw_is_fresh c now = within c.raw_autonomy_timeout_sec (age c.last_raw_autonomy_at now)

  unfoldable pub manual_is_fresh : Supervisor F → F → Bool
  unfolding age within
  manual_is_fresh c now = within c.manual_timeout_sec (age c.last_manual_input_at now)

  -- The difference is not clipped here.
  since : Option F → F → Option F
  since none now = none
  since (some at) now = some (fl.sub now at)

  unfoldable pub raw_manual_is_fresh : Supervisor F → F → Bool
  unfolding since within
  raw_manual_is_fresh c now = within c.raw_autonomy_timeout_sec (since c.last_raw_manual_at now)

  unfoldable pub clear_manual_if_inactive : Supervisor F → Supervisor F
  clear_manual_if_inactive c =
      if not c.state.is_manual_active
      then record c { manual_demand = none; last_manual_input_at = none }
      else c

  unfoldable pub expire_manual : Supervisor F → F → Supervisor F × Bool
  unfolding manual_is_fresh
  expire_manual c now =
      if c.state.is_manual_active && not (manual_is_fresh c now)
      then (
        record c {
          state =
              (transition c.state manual_inactive
                (record no_inputs { lease_id = c.state.lease_id })).state;
          manual_demand = none;
          last_manual_input_at = none;
        },
        true,
      )
      else (c, false)

  unfoldable pub expire_lease : Supervisor F → F → Supervisor F × Bool
  unfolding lease_is_live clear_manual_if_inactive
  expire_lease c now =
      if lease_active c.state && not (lease_is_live c now)
      then (
        clear_manual_if_inactive (record c {
          state =
              (transition c.state lose_lease
                (record no_inputs { lease_id = c.state.lease_id })).state;
          last_control_sequence = none;
          lapsed_lease = some (c.state.lease_client_id, c.state.lease_id);
        }),
        true,
      )
      else (c, false)

  unfoldable pub autonomy_open : Supervisor F → F → Bool
  unfolding lease_is_fresh autonomy_permitted
  autonomy_open c now = autonomy_permitted c.state && lease_is_fresh c now

  unfoldable pub manual_open : Supervisor F → F → Bool
  unfolding manual_is_fresh raw_manual_is_fresh authority
  manual_open c now =
      authority_eq (authority c.state) paddock_manual
      && (manual_is_fresh c now && raw_manual_is_fresh c now)

  applied_speed : Option (ManualDemand F) → F
  applied_speed none = zero_f
  applied_speed (some d) = d.signed_speed_mps

  applied_steering : Option (ManualDemand F) → F
  applied_steering none = zero_f
  applied_steering (some d) = d.steering_normalized

  unfoldable pub snapshot : Supervisor F → F → String → SupervisorSnapshot F
  unfolding autonomy_open manual_open lease_is_live raw_is_fresh applied_speed applied_steering
  snapshot c now reason = record {
    state = c.state;
    brake_intent = not ((autonomy_open c now && raw_is_fresh c now) || manual_open c now);
    lease_fresh = lease_is_live c now;
    lease_age_sec = age c.last_lease_receive_at now;
    raw_autonomy_fresh = raw_is_fresh c now;
    raw_autonomy_age_sec = age c.last_raw_autonomy_at now;
    manual_input_fresh = manual_is_fresh c now;
    manual_input_age_sec = age c.last_manual_input_at now;
    manual_applied_speed_mps = applied_speed c.manual_demand;
    manual_applied_steering = applied_steering c.manual_demand;
    last_control_sequence = c.last_control_sequence;
    reason = reason;
  }

  -- `_reason`
  unfoldable pub reason_text : Supervisor F → F → String
  unfolding lease_is_live manual_is_fresh raw_manual_is_fresh lease_is_fresh raw_is_fresh
  reason_text c now =
      if mode_eq c.state.mode idle
      then "IDLE_BRAKE"
      else if c.state.is_dualsense_active
      then "DUALSENSE_TAKEOVER"
      else if not (lease_is_live c now)
      then "NO_FRESH_LEASE"
      else if c.state.is_manual_active
      then (if not (manual_is_fresh c now)
          then "MANUAL_INPUT_STALE"
          else if not (raw_manual_is_fresh c now)
          then "RAW_MANUAL_STALE"
          else "MANUAL_ACTIVE")
      else if c.state.run_blocked_until_release
      then "RUN_REARM_REQUIRED"
      else if not (mode_eq c.state.mode autonomy)
      then "MODE_BRAKE"
      else if not c.state.run_held
      then "RUN_RELEASED"
      else if not (is_some c.state.goal)
      then "NO_GOAL_INTENT"
      else if not (lease_is_fresh c now)
      then "CONTROL_STALE"
      else if not (raw_is_fresh c now)
      then "RAW_AUTONOMY_STALE"
      else "AUTONOMY_RUN"
