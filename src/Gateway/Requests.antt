-- ===== src/Gateway/Requests.antt =====
-- The actions of src/runner_paddock/runner_paddock/gateway.py that are no control events, goals, and the
-- initial pose.
use ros_pre_runner.Prelude.{
  String, str_eq, Bool, true, false, not, ◌&&◌, ◌||◌, Option, none, some, [], ◌∷◌, if◌then◌else◌,
}
use ros_pre_runner.Prelude.Int.{ℤ, pos, negsuc}
use ros_pre_runner.Prelude.Float.{Float, zero_f}
use ros_pre_runner.CommandSupervisor.{stop, goal_selected}
use ros_pre_runner.ModeRuntime.Text.{◌<>◌}
use ros_pre_runner.Gateway.Values.{
  Fields, Builtins, Converted, converted, ◌>>=◌, get, as_boolean, as_text, as_object, str_or,
  float_of, float_or, int_of,
}
use ros_pre_runner.Gateway.State.{
  OperatorGateway, Answered, Intent, mode_request, map_request, save_semantics, config_request,
  clear_costmaps, obstacle_processing, autonomy_tuning, save_speed_profile, delete_speed_profile,
  initial_pose, recording_request, RequestedMode, mode_idle, mode_mapping, mode_autonomy,
  select_runtime, MapOperation, save_map, select_map, delete_map, start_recording, stop_recording,
  delete_recording, reject, accept, owned, counted, intent_of, control_event,
}
use ros_pre_runner.Gateway.Lease.{at_rest, when_converted}

abbrev is_negative : ℤ → Bool
is_negative (pos n) = false
is_negative (negsuc n) = true

-- `_MODE_NAMES.get(name)`
unfoldable pub mode_named : String → Option RequestedMode
mode_named name =
    if str_eq name "idle"
    then some mode_idle
    else if str_eq name "mapping"
    then some mode_mapping
    else if str_eq name "autonomy"
    then some mode_autonomy
    else none

abbrev on_or_off : Bool → String
on_or_off true = "ON"
on_or_off false = "OFF"

module _ {F : Type 0} ⦃fl : Float F⦄ where
  -- Accepted with one intent.
  abbrev ask : OperatorGateway → String → Intent F → Answered F
  ask g reason intent = accept g reason (intent ∷ [])

  unfoldable pub do_clear_obstacles : OperatorGateway → String → Answered F
  unfolding owned
  do_clear_obstacles g conn = owned g conn (ask g "Nav2 costmap clear requested" clear_costmaps)

  unfoldable pub do_stop_recording : OperatorGateway → String → Answered F
  unfolding owned
  do_stop_recording g conn =
      owned g conn
        (ask g "recording stop requested" (recording_request stop_recording g.lease_id "" ""))

  unfoldable pub do_new_map : OperatorGateway → String → Answered F
  unfolding owned
  do_new_map g conn =
      owned g conn (ask g "NEW MAP requested" (map_request MapOperation.new_map g.lease_id "" ""))

  abbrev with_object :
      OperatorGateway → String → String → Option (Fields F) → (Fields F → Answered F) → Answered F
  with_object g conn reason none f = reject g conn reason
  with_object g conn reason (some values) f = f values

  -- `values`, which must be an object
  abbrev tuning : OperatorGateway → String → String → Bool → Fields F → Answered F
  tuning g conn reason save action =
      with_object g conn "autonomy tuning values must be an object"
        (as_object (get action "values")) (λ values. ask g reason (autonomy_tuning values save))

  unfoldable pub do_set_autonomy_tuning : OperatorGateway → String → Fields F → Answered F
  unfolding owned get reject
  do_set_autonomy_tuning g conn action =
      owned g conn (tuning g conn "autonomy tuning requested" false action)

  unfoldable pub do_save_autonomy_tuning : OperatorGateway → String → Fields F → Answered F
  unfolding owned get reject
  do_save_autonomy_tuning g conn action =
      owned g conn (tuning g conn "autonomy tuning override save requested" true action)

  module _ (b : Builtins F) where
    -- `str(action.get('name', '')).strip()`
    abbrev name_of : Fields F → String
    name_of action = b.strip (str_or b "" (get action "name"))

    -- An action that needs a name.
    abbrev with_name :
        OperatorGateway → String → Fields F → String → (String → Answered F) → Answered F
    with_name g conn action reason f =
        if str_eq (name_of action) "" then reject g conn reason else f (name_of action)

    unfoldable pub obstacle_enabled : OperatorGateway → String → String → Option Bool → Answered F
    unfolding reject
    obstacle_enabled g conn costmap none =
        reject g conn "obstacle processing enabled must be boolean"
    obstacle_enabled g conn costmap (some enabled) =
        ask g (costmap <> " obstacle processing " <> on_or_off enabled <> " requested")
          (obstacle_processing costmap enabled)

    unfoldable pub do_set_obstacle_processing : OperatorGateway → String → Fields F → Answered F
    unfolding owned get reject obstacle_enabled
    do_set_obstacle_processing g conn action =
        let costmap = b.lower (b.strip (str_or b "" (get action "costmap"))) in
        owned g conn (
          if not (str_eq costmap "global" || str_eq costmap "local")
          then reject g conn "obstacle processing costmap must be global or local"
          else obstacle_enabled g conn costmap (as_boolean (get action "enabled")))

    unfoldable pub do_save_speed_profile : OperatorGateway → String → Fields F → Answered F
    unfolding owned get reject
    do_save_speed_profile g conn action = owned g conn (
        with_name g conn action "save requires a profile name" (λ name.
          with_object g conn "speed profile values must be an object"
            (as_object (get action "values"))
            (λ values.
              ask g ("SAVE SPEED PROFILE " <> name <> " requested")
                (save_speed_profile name values))))

    unfoldable pub do_delete_speed_profile : OperatorGateway → String → Fields F → Answered F
    unfolding owned get reject
    do_delete_speed_profile g conn action = owned g conn (
        with_name g conn action "delete requires a profile name" (λ name.
          ask g ("DELETE SPEED PROFILE " <> name <> " requested") (delete_speed_profile name)))

    abbrev setting_of : Fields F → Converted (F × ℤ)
    setting_of action = do
      value ← float_of b (get action "value")
      revision ← int_of b (get action "expected_revision")
      converted (value, revision)

    unfoldable pub do_set_config : OperatorGateway → String → Fields F → Answered F
    unfolding owned get reject
    do_set_config g conn action =
        let name = str_or b "" (get action "field") in
        let reason : String = "configuration value/revision invalid" in
        owned g conn (
          if not (str_eq name "manual_max_speed_mps")
          then reject g conn "unsupported configuration field"
          else when_converted g conn reason (setting_of action) (λ p.
            if not (fl.is_finite p.0) || is_negative p.1
            then reject g conn reason
            else ask g (name <> " configuration requested")
                (config_request g.lease_id p.1 name p.0)))

    unfoldable pub do_start_recording : OperatorGateway → String → Fields F → Answered F
    unfolding owned get
    do_start_recording g conn action = owned g conn (
        ask g "recording start requested" (
          recording_request start_recording g.lease_id (name_of action)
            (b.strip (str_or b "runner_debug" (get action "profile")))))

    unfoldable pub do_delete_recording : OperatorGateway → String → Fields F → Answered F
    unfolding owned get reject
    do_delete_recording g conn action = owned g conn (
        with_name g conn action "delete requires a recording name" (λ name.
          ask g ("recording delete " <> name <> " requested")
            (recording_request delete_recording g.lease_id name "")))

    unfoldable pub select_named :
        OperatorGateway → String → String → Option RequestedMode → Answered F
    unfolding reject
    select_named g conn shown none = reject g conn "mode must be idle, mapping or autonomy"
    select_named g conn shown (some mode) =
        ask g ("runtime " <> shown <> " requested") (mode_request mode select_runtime g.lease_id)

    unfoldable pub do_select_mode : OperatorGateway → String → Fields F → Answered F
    unfolding owned get select_named mode_named
    do_select_mode g conn action =
        let mode = get action "mode" in
        owned g conn
          (select_named g conn (str_or b "None" mode) (mode_named (b.lower (str_or b "" mode))))

    -- SAVE MAP, SELECT MAP and DELETE MAP
    abbrev named_map :
        OperatorGateway → String → Fields F → String → String → MapOperation → Answered F
    named_map g conn action verb title operation = owned g conn (
        with_name g conn action (verb <> " requires a map basename") (λ name.
          ask g (title <> " MAP " <> name <> " requested")
            (map_request operation g.lease_id name "")))

    unfoldable pub do_save_map : OperatorGateway → String → Fields F → Answered F
    unfolding owned get reject
    do_save_map g conn action = named_map g conn action "save" "SAVE" save_map

    unfoldable pub do_select_map : OperatorGateway → String → Fields F → Answered F
    unfolding owned get reject
    do_select_map g conn action = named_map g conn action "select" "SELECT" select_map

    unfoldable pub do_delete_map : OperatorGateway → String → Fields F → Answered F
    unfolding owned get reject
    do_delete_map g conn action = named_map g conn action "delete" "DELETE" delete_map

    unfoldable pub with_class_data :
        OperatorGateway → String → Option String → (String → Answered F) → Answered F
    unfolding reject
    with_class_data g conn none f = reject g conn "save requires base64 class data"
    with_class_data g conn (some t) f =
        if str_eq t "" then reject g conn "save requires base64 class data" else f t

    unfoldable pub do_save_semantics : OperatorGateway → String → Fields F → Answered F
    unfolding owned get reject with_class_data
    do_save_semantics g conn action = owned g conn (
        with_name g conn action "save requires a map basename" (λ name.
          with_class_data g conn (as_text (get action "class_data")) (λ class_data.
            ask g ("SAVE SEMANTICS " <> name <> " requested") (save_semantics name class_data))))

    abbrev pub pose_of : Fields F → Converted (F × F × F)
    pose_of action = do
      x ← float_of b (get action "x")
      y ← float_of b (get action "y")
      yaw ← float_or b zero_f (get action "yaw")
      converted (x, y, yaw)

    -- `str(action.get('frame', 'map')) or 'map'`
    abbrev pub frame_of : Fields F → String
    frame_of action =
        let frame = str_or b "map" (get action "frame") in if str_eq frame "" then "map" else frame

    -- A finite pose in the frame of the map, or a rejection.
    unfoldable pub with_pose :
        OperatorGateway
        → String
        → Fields F
        → String
        → String
        → (F × F × F → Answered F)
        → Answered F
    unfolding get reject
    with_pose g conn action needs framed f = when_converted g conn needs (pose_of action) (λ p.
        if not (fl.is_finite p.0 && (fl.is_finite p.1 && fl.is_finite p.2))
        then reject g conn needs
        else if not (str_eq (frame_of action) "map")
        then reject g conn framed
        else f p)

    abbrev pose_text : F × F × F → String
    pose_text p = "(" <> b.fixed2 p.0 <> ", " <> b.fixed2 p.1 <> ", " <> b.fixed2 p.2 <> ")"

    unfoldable pub do_select_goal : OperatorGateway → String → Fields F → Answered F
    unfolding owned with_pose
    do_select_goal g conn action = owned g conn (
        with_pose g conn action "goal needs finite x, y and yaw" "goal frame must be map" (λ p.
          accept (counted g) ("goal " <> pose_text p <> " selected") (
            control_event (record (intent_of goal_selected (counted g)) {
              goal_x = p.0;
              goal_y = p.1;
              goal_yaw = p.2;
            })
            ∷ [])))

    unfoldable pub do_set_initial_pose : OperatorGateway → String → Fields F → Answered F
    unfolding owned with_pose
    do_set_initial_pose g conn action = owned g conn (
        with_pose g conn action "initial pose needs finite x, y and yaw"
          "initial pose frame must be map"
          (λ p.
            let g' = counted (at_rest g) in
            accept g' ("initial pose " <> pose_text p <> " requested")
              (control_event (intent_of stop g') ∷ initial_pose p.0 p.1 p.2 "map" ∷ [])))
