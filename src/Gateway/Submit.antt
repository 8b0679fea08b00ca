-- ===== src/Gateway/Submit.antt =====
-- `submit` of src/runner_paddock/runner_paddock/ros_state_node.py: what becomes of the intents of an action that the
-- gateway of src/runner_paddock/runner_paddock/gateway.py has handled.
mod Tails
pub mod Published
pub mod Held
use ros_pre_runner.Prelude.{
  String, str_eq, Bool, true, false, not, ◌&&◌, ◌||◌, Option, none, some, List, [], ◌∷◌,
  if◌then◌else◌,
}
use ros_pre_runner.Prelude.Float.{Float}
use ros_pre_runner.Gateway.Values.{Json, object, Fields, Builtins, get, as_text, str_or}
use ros_pre_runner.Gateway.State.{
  OperatorGateway, Ids, Intent, control_event, mode_request, map_request, config_request,
  recording_request, Role, GatewayResult, result,
}
use ros_pre_runner.Gateway.Handle.{handle}

pub record Outcome : Type 0 where
  pub accepted : Bool
  pub reason : String
  pub role : Role

-- What is answered, or none where an exception escapes; the intents that are published; the gateway.
abbrev pub Submitted : Type 0 → Type 0
Submitted F = Option Outcome × List (Intent F) × OperatorGateway

module _ {F : Type 0} where
  -- `action.get('action') == name`
  abbrev pub is_named : String → Json F → Bool
  is_named name (object action) = elim (as_text (get action "action")) [
    | none ↦ false
    | some t ↦ str_eq t name
  ]
  is_named name v = false

  abbrev pub is_object : Json F → Bool
  is_object (object action) = true
  is_object v = false

  -- The intents that `_publish_intent` has a message for; the node itself carries out the others.
  abbrev pub is_message : Intent F → Bool
  is_message (control_event e) = true
  is_message (mode_request m o l) = true
  is_message (map_request o l n s) = true
  is_message (config_request l r n x) = true
  is_message (recording_request o l n p) = true
  is_message _ = false

  -- The loop over the intents, with the result of the node's own work as an argument.
  unfoldable pub dispatch :
      (Intent F → GatewayResult F → GatewayResult F)
      → GatewayResult F
      → List (Intent F)
      → GatewayResult F × List (Intent F)
  dispatch work r [] = (r, [])
  dispatch work r (i ∷ rest) =
      let next = dispatch work r rest in
      if is_message i then (next.0, i ∷ next.1) else (work i r, [])

  abbrev pub held_back : String → GatewayResult F → GatewayResult F
  held_back reason r = result false reason [] r.role

  -- The log of a rejection reads the name of the action, which only an object has.
  abbrev pub outcome_of : Json F → GatewayResult F → Option Outcome
  outcome_of v r =
      if not r.accepted && not (is_object v)
      then none
      else some (record { accepted = r.accepted; reason = r.reason; role = r.role })

  module _ (b : Builtins F) where
    abbrev pub autonomy_without_map : String → Json F → Bool
    autonomy_without_map map v = is_named "select_mode" v && (names_autonomy v && str_eq map "")
      where
        names_autonomy : Json F → Bool
        names_autonomy (object action) =
            str_eq (b.lower (b.strip (str_or b "" (get action "mode")))) "autonomy"
        names_autonomy v = false

    -- The two preconditions that the node adds
    unfoldable pub checked : Bool → String → Json F → GatewayResult F → GatewayResult F
    checked is_pose_active map v r =
        if r.accepted && (is_named "clear_stop" v && is_pose_active)
        then held_back "CLEAR STOP blocked during initial pose transaction" r
        else if r.accepted && autonomy_without_map map v
        then held_back "select a completed map before AUTONOMY" r
        else r

    -- Behind `handle`
    unfoldable pub submitted :
        (Intent F → GatewayResult F → GatewayResult F)
        → Bool
        → String
        → Json F
        → Option (GatewayResult F)
        → OperatorGateway
        → Submitted F
    unfolding dispatch checked
    submitted work is_pose_active map v none g = (none, [], g)
    submitted work is_pose_active map v (some r) g =
        let r' = checked is_pose_active map v r in
        let end = dispatch work r' r'.intents in (outcome_of v end.0, end.1, g)

  module _ ⦃fl : Float F⦄ (b : Builtins F) where
    unfoldable pub submit :
        (Intent F → GatewayResult F → GatewayResult F)
        → Bool
        → String
        → OperatorGateway
        → String
        → Json F
        → Ids
        → Submitted F
    unfolding submitted handle
    submit work is_pose_active map g conn v ids =
        let a = handle b g conn v ids in submitted b work is_pose_active map v a.0 a.1
