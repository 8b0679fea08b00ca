-- ===== src/CommandSupervisor/Inputs.antt =====
-- The constructor and the other methods of `CommandSupervisor`, in
-- src/runner_paddock/runner_paddock/command_supervisor.py.
use ros_pre_runner.Prelude.{
  ℕ, String, Bool, true, false, not, ◌&&◌, ◌||◌, Option, none, some, str_eq, ◌==◌, if◌then◌else◌,
}
use ros_pre_runner.Prelude.Float.{Float, zero_f}
use ros_pre_runner.StateMachine.{
  PaddockState, Mode, idle, mode_eq, request_mode, dualsense_active, dualsense_inactive, restart,
  paddock_manual, paddock_autonomy, authority_eq, authority, initial, no_inputs, transition,
}
use ros_pre_runner.CommandSupervisor.State.{
  VelocityCommand, ManualDemand, SupervisorResult, answer, Supervisor, command_valid, state_eq,
}
use ros_pre_runner.CommandSupervisor.Clock.{
  lease_is_fresh, expire_lease, expire_manual, snapshot, reason_text, clear_manual_if_inactive,
}

-- The ValueErrors of the constructor.
pub data BadSetting : Type 0 where
  lease_timeout raw_autonomy_timeout control_liveness manual_timeout speed_ceiling : BadSetting

pub data Built (F : Type 0) : Type 0 where
  ok : Supervisor F → Built F
  err : BadSetting → Built F

pub record Settings (F : Type 0) : Type 0 where
  pub lease_timeout_sec : F
  pub raw_autonomy_timeout_sec : F
  pub control_liveness_sec : Option F
  pub manual_timeout_sec : F
  pub manual_max_speed_mps : F
  pub minimum_moving_speed_mps : F
  pub active_autonomy_map : String

tick_reason : Bool → Bool → String → String
tick_reason lease manual otherwise =
    if lease then "LEASE_EXPIRED" else if manual then "MANUAL_INPUT_STALE" else otherwise

runtime_reason : Bool → String
runtime_reason stable = if stable then "RUNTIME_MODE" else "RUNTIME_NOT_STABLE"

mode_reason : Bool → String
mode_reason accepted = if accepted then "MODE_ACCEPTED" else "MODE_REJECTED"

abbrev pub Answered : Type 0 → Type 0
Answered F = Supervisor F × SupervisorResult F

-- `set_runtime_mode`, behind the expiry of the lease: the mode that counts, whether anything
-- changed, and the new state.
abbrev pub effective_mode : Mode → Bool → Mode
effective_mode mode stable = if stable then mode else idle

module _ {F : Type 0} where
  abbrev pub runtime_changed : PaddockState F → Mode → String → Bool → Bool
  runtime_changed s mode map stable =
      not (mode_eq (effective_mode mode stable) s.mode)
      || (not (str_eq map s.active_autonomy_map) || not stable)

  unfoldable pub runtime_state : PaddockState F → Mode → String → Bool → PaddockState F
  runtime_state s mode map stable =
      let changed = runtime_changed s mode map stable in
      record s {
        mode = effective_mode mode stable;
        active_autonomy_map = map;
        run_held = if changed then false else s.run_held;
        run_blocked_until_release = if changed then false else s.run_blocked_until_release;
        is_manual_active = if changed then false else s.is_manual_active;
        goal = if changed then none else s.goal;
        navigation_active = if changed then false else s.navigation_active;
      }

module _ {F : Type 0} ⦃fl : Float F⦄ where
  -- MAX_MANUAL_MAX_SPEED_MPS
  abbrev pub max_manual_max_speed_mps : F
  max_manual_max_speed_mps = fl.lit 40 100

  unfoldable pub manual_speed_ceiling_valid : F → F → Bool
  manual_speed_ceiling_valid value floor =
      fl.is_finite value
      && (fl.eq value zero_f || (fl.le floor value && fl.le value max_manual_max_speed_mps))

  -- `not math.isfinite(value) or value <= 0.0`
  not_positive : F → Bool
  not_positive value = not (fl.is_finite value) || fl.le value zero_f

  -- `control_liveness_sec`, or `lease_timeout_sec` where it is None
  liveness_of : Settings F → F
  liveness_of g = elim g.control_liveness_sec [ none ↦ g.lease_timeout_sec | some t ↦ t ]

  unfoldable pub init : Settings F → Built F
  unfolding not_positive liveness_of manual_speed_ceiling_valid
  init g =
      if not_positive g.lease_timeout_sec
      then err lease_timeout
      else if not_positive g.raw_autonomy_timeout_sec
      then err raw_autonomy_timeout
      else if not (fl.is_finite (liveness_of g)) || fl.lt (liveness_of g) g.lease_timeout_sec
      then err control_liveness
      else if not_positive g.manual_timeout_sec
      then err manual_timeout
      else if not (manual_speed_ceiling_valid g.manual_max_speed_mps g.minimum_moving_speed_mps)
      then err speed_ceiling
      else ok (record {
        lease_timeout_sec = g.lease_timeout_sec;
        control_liveness_sec = liveness_of g;
        raw_autonomy_timeout_sec = g.raw_autonomy_timeout_sec;
        manual_timeout_sec = g.manual_timeout_sec;
        manual_max_speed_mps = g.manual_max_speed_mps;
        minimum_moving_speed_mps = g.minimum_moving_speed_mps;
        state = initial g.active_autonomy_map;
        last_lease_receive_at = none;
        last_raw_autonomy_at = none;
        last_manual_input_at = none;
        last_raw_manual_at = none;
        manual_demand = none;
        last_control_sequence = none;
        lapsed_lease = none;
      })

  -- `none` where the ceiling is refused with a ValueError
  unfoldable pub set_manual_max_speed_mps : Supervisor F → F → Option (Supervisor F)
  unfolding manual_speed_ceiling_valid
  set_manual_max_speed_mps c value =
      if not (manual_speed_ceiling_valid value c.minimum_moving_speed_mps)
      then none
      else some (record c { manual_max_speed_mps = value })

  unfoldable pub tick : Supervisor F → F → Answered F
  unfolding expire_lease expire_manual tick_reason snapshot
  tick c now =
      let (c', expired) = expire_lease c now in
      let (c'', manual_expired) = expire_manual c' now in
      (
        c'',
        answer true (snapshot c'' now (tick_reason expired manual_expired (reason_text c'' now))),
      )

  unfoldable pub set_runtime_mode : Supervisor F → Mode → String → Bool → F → Answered F
  unfolding expire_lease runtime_state clear_manual_if_inactive runtime_reason
  set_runtime_mode c mode map stable now =
      let e = (expire_lease c now).0 in
      let c' =
        clear_manual_if_inactive (record e { state = runtime_state e.state mode map stable }) in
      (c', answer true (snapshot c' now (runtime_reason stable)))

  unfoldable pub request_mode_change : Supervisor F → Mode → ℕ → String → F → Answered F
  unfolding expire_lease state_eq mode_reason
  request_mode_change c mode request l now =
      let c' = (expire_lease c now).0 in
      let s =
        (transition c'.state request_mode
          (record no_inputs { lease_id = l; mode = some mode; request_id = request })).state in
      let accepted = not (state_eq s c'.state) in
      let c'' = record c' { state = s } in
      (c'', answer accepted (snapshot c'' now (mode_reason accepted)))

  unfoldable pub set_dualsense_active : Supervisor F → Bool → F → Answered F
  unfolding expire_lease clear_manual_if_inactive
  set_dualsense_active c active now =
      let c' = (expire_lease c now).0 in
      let e = if active then dualsense_active else dualsense_inactive in
      let c'' =
        clear_manual_if_inactive (record c' { state = (transition c'.state e no_inputs).state }) in
      (c'', answer true (snapshot c'' now (reason_text c'' now)))

  -- Behind the expiry of the lease; the sample is valid and its time noted.
  unfoldable pub forward_autonomy : Supervisor F → VelocityCommand F → F → SupervisorResult F
  unfolding lease_is_fresh snapshot
  forward_autonomy c command now =
      let shot = snapshot c now (reason_text c now) in
      if authority_eq (authority shot.state) paddock_autonomy
        && (lease_is_fresh c now && (shot.raw_autonomy_fresh && not shot.brake_intent))
      then record (answer true shot) { autonomy_command = some command }
      else answer true shot

  unfoldable pub receive_raw_autonomy : Supervisor F → VelocityCommand F → F → Answered F
  unfolding expire_lease command_valid forward_autonomy
  receive_raw_autonomy c command now =
      let c' = (expire_lease c now).0 in
      if not (command_valid command)
      then (let c'' = record c' { last_raw_autonomy_at = none } in
          (c'', answer false (snapshot c'' now "INVALID_RAW_AUTONOMY")))
      else (let c'' = record c' { last_raw_autonomy_at = some now } in
          (c'', forward_autonomy c'' command now))

  unfoldable pub forward_manual : Supervisor F → VelocityCommand F → F → SupervisorResult F
  unfolding snapshot
  forward_manual c command now =
      let shot = snapshot c now (reason_text c now) in
      if authority_eq (authority shot.state) paddock_manual
        && (shot.manual_input_fresh && not shot.brake_intent)
      then record (answer true shot) { manual_command = some command }
      else answer true shot

  -- `demand is None or sequence != demand.sequence`
  unfoldable pub not_current : Option (ManualDemand F) → ℕ → Bool
  not_current none sequence = true
  not_current (some d) sequence = not (sequence == d.sequence)

  -- `receive_raw_manual`, behind both expiries
  unfoldable pub take_manual : Supervisor F → VelocityCommand F → ℕ → F → Answered F
  unfolding command_valid not_current forward_manual
  take_manual c command sequence now =
      if not (command_valid command) || not_current c.manual_demand sequence
      then (c, answer false (snapshot c now "INVALID_RAW_MANUAL"))
      else (let c' = record c { last_raw_manual_at = some now } in
          (c', forward_manual c' command now))

  unfoldable pub receive_raw_manual : Supervisor F → VelocityCommand F → ℕ → F → Answered F
  unfolding expire_lease expire_manual take_manual
  receive_raw_manual c command sequence now =
      take_manual (expire_manual (expire_lease c now).0 now).0 command sequence now

  unfoldable pub restart_link : Supervisor F → F → Answered F
  restart_link c now =
      let c' = record c {
        state = (transition c.state restart no_inputs).state;
        last_lease_receive_at = none;
        last_raw_autonomy_at = none;
        last_manual_input_at = none;
        last_raw_manual_at = none;
        manual_demand = none;
        last_control_sequence = none;
        lapsed_lease = none;
      } in
      (c', answer true (snapshot c' now "RESTART_BRAKE"))
