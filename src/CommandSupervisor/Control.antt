-- ===== src/CommandSupervisor/Control.antt =====
-- `handle_control_event` of src/runner_paddock/runner_paddock/command_supervisor.py, and the order of
-- its 64-bit sequence numbers.
use ros_pre_runner.Prelude.{
  ℕ, ◌+◌, ◌-◌, ◌%◌, String, Bool, true, false, not, ◌&&◌, Option, none, some, str_eq, ltb,
  if◌then◌else◌,
}
use ros_pre_runner.Prelude.Float.{Float, fmax, fmin, zero_f}
use ros_pre_runner.StateMachine.{
  PaddockState, GoalIntent, Event, acquire_lease, release_lease, lose_lease, select_goal, run_press,
  run_release, stop, paddock_manual, authority_eq, authority, lease_active, no_inputs, transition,
}
use ros_pre_runner.StateMachine
use ros_pre_runner.CommandSupervisor.State.{
  ControlEvent, run_pressed, run_released, manual_active, manual_inactive, goal_selected,
  lease_acquired, lease_released, lease_lost, heartbeat, clear_stop, ManualDemand, SupervisorResult,
  answer, Supervisor, state_eq,
}
use ros_pre_runner.CommandSupervisor.Clock.{
  expire_lease, snapshot, reason_text, clear_manual_if_inactive,
}

abbrev pub uint64_modulus : ℕ
uint64_modulus = 18446744073709551616

abbrev pub uint64_half_range : ℕ
uint64_half_range = 9223372036854775808

-- Python's `%` of a possibly negative difference.
unfoldable pub is_newer_sequence : ℕ → ℕ → Bool
is_newer_sequence candidate previous =
    let delta = (candidate + (uint64_modulus - previous % uint64_modulus)) % uint64_modulus in
    ltb 0 delta && ltb delta uint64_half_range

-- The keyword arguments of `handle_control_event`.
pub record ControlInput (F : Type 0) : Type 0 where
  pub event : ControlEvent
  pub client_id : String
  pub lease_id : String
  pub sequence : ℕ
  pub goal_x : F
  pub goal_y : F
  pub goal_yaw : F
  pub manual_speed_mps : F
  pub manual_steering : F

-- `event_map.get(event)`
unfoldable pub event_map : ControlEvent → Option Event
event_map run_pressed = some run_press
event_map run_released = some run_release
event_map ControlEvent.stop = some stop
event_map manual_active = some StateMachine.manual_active
event_map manual_inactive = some StateMachine.manual_inactive
event_map lease_released = some release_lease
event_map lease_lost = some lose_lease
event_map _ = none

unfoldable pub supported : ControlEvent → Bool
supported lease_acquired = false
supported _ = true

abbrev is_heartbeat : ControlEvent → Bool
is_heartbeat heartbeat = true
is_heartbeat _ = false

abbrev pub is_lease_acquired : ControlEvent → Bool
is_lease_acquired lease_acquired = true
is_lease_acquired _ = false

-- `_lapsed_lease == (client_id, lease_id)`
abbrev is_lapsed : Option (String × String) → String → String → Bool
is_lapsed none client l = false
is_lapsed (some (a, b)) client l = str_eq a client && str_eq b l

-- `last_control_sequence is not None and not _is_newer_sequence(...)`
unfoldable pub is_stale : Option ℕ → ℕ → Bool
is_stale none n = false
is_stale (some previous) n = not (is_newer_sequence n previous)

abbrev pub Method : Type 0 → Type 0
Method F = Supervisor F → ControlInput F → F → Supervisor F × SupervisorResult F

module _ {F : Type 0} ⦃fl : Float F⦄ where
  unfoldable pub refuse : String → Method F
  refuse reason c i now = (c, answer false (snapshot c now reason))

  -- The last lines: `_clear_manual_if_inactive`, and the snapshot with its reason.
  unfoldable pub finish : Method F
  finish c i now =
      let c' = clear_manual_if_inactive c in
      (c', answer true (snapshot c' now (reason_text c' now)))

  -- `transition(self.state, event, lease_id=lease_id).state`
  unfoldable pub step : Supervisor F → Event → String → Supervisor F
  step c e l = record c { state = (transition c.state e (record no_inputs { lease_id = l })).state }

  -- An accepted ACQUIRE_LEASE takes over the link.
  unfoldable pub granted : PaddockState F → String → Method F
  granted s reason c i now =
      let c' = record c {
        state = s;
        last_lease_receive_at = some now;
        last_control_sequence = some i.sequence;
        lapsed_lease = none;
      } in
      (c', answer true (snapshot c' now reason))

  unfoldable pub acquired_state : Supervisor F → ControlInput F → PaddockState F
  acquired_state c i =
      (transition c.state acquire_lease
        (record no_inputs { client_id = i.client_id; lease_id = i.lease_id })).state

  unfoldable pub clip_speed : Supervisor F → F → F
  clip_speed c v = fmax (fl.neg c.manual_max_speed_mps) (fmin c.manual_max_speed_mps v)

  unfoldable pub manual_speed : Supervisor F → F → F
  unfolding clip_speed
  manual_speed c v =
      let speed = clip_speed c v in
      if fl.lt zero_f (fl.abs speed) && fl.lt (fl.abs speed) c.minimum_moving_speed_mps
      then fl.copysign c.minimum_moving_speed_mps speed
      else speed

  unfoldable pub demand_of : Supervisor F → ControlInput F → ManualDemand F
  unfolding manual_speed
  demand_of c i = record {
    sequence = i.sequence;
    signed_speed_mps = manual_speed c i.manual_speed_mps;
    steering_normalized = fmax (fl.neg (fl.lit 1 1)) (fmin (fl.lit 1 1) i.manual_steering);
  }

  -- The branch of MANUAL_ACTIVE, behind its transition.
  unfoldable pub after_manual_active : Method F
  unfolding refuse step demand_of
  after_manual_active c i now =
      if not (fl.is_finite i.manual_speed_mps && fl.is_finite i.manual_steering)
      then refuse "INVALID_MANUAL_DEMAND" (step c StateMachine.manual_inactive i.lease_id) i now
      else if not (authority_eq (authority c.state) paddock_manual)
      then refuse "MANUAL_NOT_ELIGIBLE" c i now
      else (let demand = demand_of c i in
          let c' = record c { manual_demand = some demand; last_manual_input_at = some now } in
          (
            c',
            record (answer true (snapshot c' now "MANUAL_ACTIVE")) { manual_demand = some demand },
          ))

  unfoldable pub on_goal_selected : Method F
  unfolding refuse finish
  on_goal_selected c i now =
      if not (fl.is_finite i.goal_x && (fl.is_finite i.goal_y && fl.is_finite i.goal_yaw))
      then refuse "GOAL_POSE_NOT_FINITE" c i now
      else (let goal : GoalIntent F = record {
        map_name = c.state.active_autonomy_map;
        x = i.goal_x;
        y = i.goal_y;
        yaw = i.goal_yaw;
      } in
          finish
            (record c {
              state =
                  (transition c.state select_goal
                    (record no_inputs { lease_id = i.lease_id; goal = some goal })).state;
            })
            i now)

  -- The events behind the ownership and order guards; `c` has its receive time and sequence.
  unfoldable pub accept_event : ControlEvent → Method F
  unfolding on_goal_selected after_manual_active finish step event_map
  accept_event heartbeat c i now = (c, answer true (snapshot c now (reason_text c now)))
  accept_event clear_stop c i now =
      let c' = step c stop i.lease_id in (c', answer true (snapshot c' now "CLEAR_STOP_REQUESTED"))
  accept_event goal_selected c i now = on_goal_selected c i now
  accept_event manual_active c i now =
      after_manual_active (step c StateMachine.manual_active i.lease_id) i now
  accept_event manual_inactive c i now =
      finish
        (record (step c StateMachine.manual_inactive i.lease_id) {
          manual_demand = none;
          last_manual_input_at = none;
        })
        i now
  accept_event lease_released c i now =
      finish
        (record (step c release_lease i.lease_id) {
          last_lease_receive_at = none;
          last_control_sequence = none;
        })
        i now
  accept_event e c i now = elim (event_map e) [
    | none ↦ finish c i now
    | some e' ↦ finish (step c e' i.lease_id) i now
  ]

  -- `client_id`, `lease_id` are those of the lease held.
  unfoldable pub is_owner : Supervisor F → ControlInput F → Bool
  unfolding lease_active
  is_owner c i =
      lease_active c.state
      && (str_eq i.client_id c.state.lease_client_id && str_eq i.lease_id c.state.lease_id)

  unfoldable pub owned_event : Method F
  unfolding refuse accept_event is_owner is_stale supported
  owned_event c i now =
      if not (is_owner c i)
      then refuse "NON_OWNER_EVENT_REJECTED" c i now
      else if is_stale c.last_control_sequence i.sequence
      then refuse "STALE_EVENT_REJECTED" c i now
      else if not (supported i.event)
      then refuse "EVENT_REJECTED" c i now
      else accept_event i.event
          (record c { last_lease_receive_at = some now; last_control_sequence = some i.sequence }) i
          now

  unfoldable pub lease_event : Method F
  unfolding acquired_state refuse granted state_eq owned_event
  lease_event c i now =
      if is_lease_acquired i.event
      then (if lease_active c.state
          then refuse "LEASE_REJECTED" c i now
          else if state_eq (acquired_state c i) c.state
          then refuse "LEASE_REJECTED" c i now
          else granted (acquired_state c i) "LEASE_ACQUIRED" c i now)
      else owned_event c i now

  unfoldable pub reinstates : Supervisor F → ControlInput F → Bool
  reinstates c i =
      is_heartbeat i.event
      && (not (lease_active c.state) && is_lapsed c.lapsed_lease i.client_id i.lease_id)

  unfoldable pub link_event : Method F
  unfolding reinstates acquired_state granted state_eq lease_event
  link_event c i now =
      if reinstates c i
      then (if not (state_eq (acquired_state c i) c.state)
          then granted (acquired_state c i) "LEASE_REINSTATED" c i now
          else lease_event c i now)
      else lease_event c i now

  unfoldable pub handle_control_event : Method F
  unfolding expire_lease link_event
  handle_control_event c i now = link_event (expire_lease c now).0 i now
