-- ===== src/Gateway/State.antt =====
-- The intents, the result and the attributes of src/runner_paddock/runner_paddock/gateway.py, and the
-- helpers that all its actions share.
use ros_pre_runner.Prelude.{
  ℕ, ◌+◌, String, str_eq, Bool, true, false, not, Option, none, some, is_some, List, [], ◌∷◌,
  if◌then◌else◌,
}
use ros_pre_runner.Prelude.Int.{ℤ}
use ros_pre_runner.Prelude.Float.{Float, zero_f}
use ros_pre_runner.CommandSupervisor.{ControlEvent, lease_released}
use ros_pre_runner.Gateway.Values.{Fields}

pub record ControlEventIntent (F : Type 0) : Type 0 where
  pub event : ControlEvent
  pub sequence : ℕ
  pub client_id : String
  pub lease_id : String
  pub goal_frame : String
  pub goal_x : F
  pub goal_y : F
  pub goal_yaw : F
  pub manual_speed_mps : F
  pub manual_steering : F

pub data ModeOperation : Type 0 where
  select_runtime new_map : ModeOperation

pub data MapOperation : Type 0 where
  new_map save_map select_map delete_map : MapOperation

pub data RecordingOperation : Type 0 where
  start_recording stop_recording delete_recording : RecordingOperation

pub data RequestedMode : Type 0 where
  mode_idle mode_mapping mode_autonomy : RequestedMode

-- One constructor for each class of intents, with its fields in order.
pub data Intent (F : Type 0) : Type 0 where
  control_event : ControlEventIntent F → Intent F
  mode_request : RequestedMode → ModeOperation → String → Intent F
  map_request : MapOperation → String → String → String → Intent F
  save_semantics : String → String → Intent F
  config_request : String → ℤ → String → F → Intent F
  clear_costmaps : Intent F
  obstacle_processing : String → Bool → Intent F
  autonomy_tuning : Fields F → Bool → Intent F
  save_speed_profile : String → Fields F → Intent F
  delete_speed_profile : String → Intent F
  initial_pose : F → F → F → String → Intent F
  recording_request : RecordingOperation → String → String → String → Intent F

pub data Role : Type 0 where
  observer controller : Role

pub record GatewayResult (F : Type 0) : Type 0 where
  pub accepted : Bool
  pub reason : String
  pub intents : List (Intent F)
  pub role : Role

pub record OperatorGateway : Type 0 where
  pub sequence : ℕ
  pub owner_conn : Option String
  pub client_id : String
  pub lease_id : String
  pub run_pressed : Bool
  pub is_manual_active : Bool  -- _manual_active

abbrev pub new_gateway : OperatorGateway
new_gateway = record {
  sequence = 0;
  owner_conn = none;
  client_id = "";
  lease_id = "";
  run_pressed = false;
  is_manual_active = false;
}

-- The two texts that the uuid factory gives next.
abbrev pub Ids : Type 0
Ids = String × String

-- `conn_id == self._owner_conn`
unfoldable pub is_owner_conn : OperatorGateway → String → Bool
is_owner_conn g conn = elim g.owner_conn [ none ↦ false | some owner ↦ str_eq conn owner ]

unfoldable pub role_for : OperatorGateway → String → Role
unfolding is_owner_conn
role_for g conn = if is_owner_conn g conn then controller else observer

abbrev pub lease_held : OperatorGateway → Bool
lease_held g = is_some g.owner_conn

pub record PublicState : Type 0 where
  pub lease_held : Bool
  pub client_id : String
  pub lease_id : String
  pub sequence : ℕ
  pub run_pressed : Bool

abbrev pub public_state : OperatorGateway → PublicState
public_state g = record {
  lease_held = is_some g.owner_conn;
  client_id = g.client_id;
  lease_id = g.lease_id;
  sequence = g.sequence;
  run_pressed = g.run_pressed;
}

-- The lease and what was done under it are forgotten.
abbrev pub dropped : OperatorGateway → OperatorGateway
dropped g = record g {
  owner_conn = none;
  client_id = "";
  lease_id = "";
  run_pressed = false;
  is_manual_active = false;
}

abbrev pub owned_by : OperatorGateway → String → Ids → OperatorGateway
owned_by g conn ids = record g {
  owner_conn = some conn;
  client_id = ids.0;
  lease_id = ids.1;
  run_pressed = false;
  is_manual_active = false;
}

-- `self._sequence += 1`
abbrev pub counted : OperatorGateway → OperatorGateway
counted g = record g { sequence = g.sequence + 1 }

-- A result with the gateway behind it; no result where an exception escapes.
abbrev pub Answered : Type 0 → Type 0
Answered F = Option (GatewayResult F) × OperatorGateway

module _ {F : Type 0} where
  abbrev pub result : Bool → String → List (Intent F) → Role → GatewayResult F
  result accepted reason intents role = record {
    accepted = accepted;
    reason = reason;
    intents = intents;
    role = role;
  }

  unfoldable pub reject : OperatorGateway → String → String → Answered F
  unfolding role_for
  reject g conn reason = (some (result false reason [] (role_for g conn)), g)

  -- An accepted action of the owner.
  abbrev pub accept : OperatorGateway → String → List (Intent F) → Answered F
  accept g reason intents = (some (result true reason intents controller), g)

  -- `_require_owner` in front of the rest of an action
  unfoldable pub owned : OperatorGateway → String → Answered F → Answered F
  unfolding is_owner_conn reject
  owned g conn rest =
      if is_owner_conn g conn then rest else reject g conn "this session does not hold the lease"

  module _ ⦃fl : Float F⦄ where
    -- The intent with the last number.
    abbrev pub intent_of : ControlEvent → OperatorGateway → ControlEventIntent F
    intent_of event g = record {
      event = event;
      sequence = g.sequence;
      client_id = g.client_id;
      lease_id = g.lease_id;
      goal_frame = "map";
      goal_x = zero_f;
      goal_y = zero_f;
      goal_yaw = zero_f;
      manual_speed_mps = zero_f;
      manual_steering = zero_f;
    }

    -- `(self._control(event),)`, from the gateway that was counted
    abbrev pub control : ControlEvent → OperatorGateway → List (Intent F)
    control event g = control_event (intent_of event g) ∷ []

    unfoldable pub on_disconnect : OperatorGateway → String → Answered F
    unfolding is_owner_conn
    on_disconnect g conn =
        if not (is_owner_conn g conn)
        then (some (result true "observer disconnected" [] observer), g)
        else (
          some (
              result true "lease released on disconnect" (control lease_released (counted g))
                observer),
          dropped (counted g),
        )
