-- ===== src/StateMachine/State.antt =====
-- The data of src/runner_paddock/runner_paddock/state_machine.py: modes, authorities, events and
-- effects, the frozen dataclasses, and the properties of `PaddockState`. Coordinates of a goal are
-- floats that the reducer only stores.
use ros_pre_runner.Prelude.{
  ℕ, String, Bool, true, false, not, ◌&&◌, ◌||◌, Option, none, str_eq, is_some, if◌then◌else◌,
}

pub data Mode : Type 0 where
  idle mapping autonomy : Mode

pub data Authority : Type 0 where
  no_authority dualsense paddock_manual paddock_autonomy : Authority

pub data Event : Type 0 where
  acquire_lease release_lease lose_lease request_mode select_goal run_press run_release stop : Event
  manual_active manual_inactive dualsense_active dualsense_inactive set_active_map restart : Event

pub data Effect : Type 0 where
  brake cancel_navigation dispatch_goal lease_granted lease_rejected : Effect

pub record GoalIntent (F : Type 0) : Type 0 where
  pub map_name : String
  pub x : F
  pub y : F
  pub yaw : F

pub record PaddockState (F : Type 0) : Type 0 where
  pub mode : Mode
  pub accepted_mode_request_id : ℕ
  pub active_autonomy_map : String
  pub lease_client_id : String
  pub lease_id : String
  pub lease_generation : ℕ
  pub is_dualsense_active : Bool  -- dualsense_active
  pub run_held : Bool
  pub run_blocked_until_release : Bool
  pub is_manual_active : Bool  -- manual_active
  pub goal : Option (GoalIntent F)
  pub navigation_active : Bool

-- `PaddockState(active_autonomy_map=...)`: every other field has its default.
abbrev pub initial : {F : Type 0} → String → PaddockState F
initial m = record {
  mode = idle;
  accepted_mode_request_id = 0;
  active_autonomy_map = m;
  lease_client_id = "";
  lease_id = "";
  lease_generation = 0;
  is_dualsense_active = false;
  run_held = false;
  run_blocked_until_release = false;
  is_manual_active = false;
  goal = none;
  navigation_active = false;
}

-- `==` on the enumerations
abbrev pub mode_eq : Mode → Mode → Bool
mode_eq idle idle = true
mode_eq mapping mapping = true
mode_eq autonomy autonomy = true
mode_eq _ _ = false

abbrev pub authority_eq : Authority → Authority → Bool
authority_eq no_authority no_authority = true
authority_eq dualsense dualsense = true
authority_eq paddock_manual paddock_manual = true
authority_eq paddock_autonomy paddock_autonomy = true
authority_eq _ _ = false

-- `state.authority in (PADDOCK_MANUAL, PADDOCK_AUTONOMY)`
abbrev pub is_paddock : Authority → Bool
is_paddock paddock_manual = true
is_paddock paddock_autonomy = true
is_paddock _ = false

-- `bool(text)`
abbrev pub nonempty : String → Bool
nonempty t = not (str_eq t "")

module _ {F : Type 0} where
  unfoldable pub lease_active : PaddockState F → Bool
  lease_active s = nonempty s.lease_id

  unfoldable pub autonomy_permitted : PaddockState F → Bool
  unfolding lease_active
  autonomy_permitted s =
      mode_eq s.mode autonomy
      && (lease_active s
          && (s.run_held
              && (not s.run_blocked_until_release
                  && (not s.is_dualsense_active && is_some s.goal))))

  autonomy_or_none : PaddockState F → Authority
  unfolding autonomy_permitted
  autonomy_or_none s = if autonomy_permitted s then paddock_autonomy else no_authority

  unfoldable pub authority : PaddockState F → Authority
  unfolding autonomy_or_none
  authority s =
      if mode_eq s.mode idle
      then no_authority
      else if s.is_dualsense_active
      then dualsense
      else if (mode_eq s.mode mapping || mode_eq s.mode autonomy) && lease_active s
      then (if s.is_manual_active then paddock_manual else autonomy_or_none s)
      else autonomy_or_none s
