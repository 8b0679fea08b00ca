-- ===== src/Gateway/Handle.antt =====
-- `handle` of src/runner_paddock/runner_paddock/gateway.py: the action that a message names.
use ros_pre_runner.Prelude.{String, str_eq, Option, none, some, List, [], ◌∷◌, if◌then◌else◌}
use ros_pre_runner.Prelude.Float.{Float}
use ros_pre_runner.Gateway.Values.{Json, Fields, object, Builtins, get, as_text}
use ros_pre_runner.Gateway.State.{OperatorGateway, Ids, Answered, reject}
use ros_pre_runner.Gateway.Lease.{
  do_acquire, do_takeover, do_release, do_heartbeat, do_run, do_stop, do_clear_stop, do_manual,
}
use ros_pre_runner.Gateway.Requests.{
  do_clear_obstacles, do_set_obstacle_processing, do_set_autonomy_tuning, do_save_autonomy_tuning,
  do_save_speed_profile, do_delete_speed_profile, do_set_config, do_start_recording,
  do_stop_recording, do_delete_recording, do_select_mode, do_new_map, do_save_map, do_select_map,
  do_delete_map, do_save_semantics, do_select_goal, do_set_initial_pose,
}

-- The methods `_do_...`.
pub data Action : Type 0 where
  acquire takeover release heartbeat run stop clear_stop manual : Action
  clear_obstacles set_obstacle_processing set_autonomy_tuning save_autonomy_tuning : Action
  save_speed_profile delete_speed_profile set_config : Action
  start_recording stop_recording delete_recording : Action
  select_mode new_map save_map select_map delete_map save_semantics : Action
  select_goal set_initial_pose : Action

abbrev pub action_names : List (String × Action)
action_names =
    ("acquire", acquire)
    ∷ ("takeover", takeover)
    ∷ ("release", release)
    ∷ ("heartbeat", heartbeat)
    ∷ ("run", run)
    ∷ ("stop", stop)
    ∷ ("clear_stop", clear_stop)
    ∷ ("manual", manual)
    ∷ ("clear_obstacles", clear_obstacles)
    ∷ ("set_obstacle_processing", set_obstacle_processing)
    ∷ ("set_autonomy_tuning", set_autonomy_tuning)
    ∷ ("save_autonomy_tuning", save_autonomy_tuning)
    ∷ ("save_speed_profile", save_speed_profile)
    ∷ ("delete_speed_profile", delete_speed_profile)
    ∷ ("set_config", set_config)
    ∷ ("start_recording", start_recording)
    ∷ ("stop_recording", stop_recording)
    ∷ ("delete_recording", delete_recording)
    ∷ ("select_mode", select_mode)
    ∷ ("new_map", new_map)
    ∷ ("save_map", save_map)
    ∷ ("select_map", select_map)
    ∷ ("delete_map", delete_map)
    ∷ ("save_semantics", save_semantics)
    ∷ ("select_goal", select_goal)
    ∷ ("set_initial_pose", set_initial_pose)
    ∷ []

unfoldable pub lookup : String → List (String × Action) → Option Action
lookup name [] = none
lookup name ((n, a) ∷ rest) = if str_eq n name then some a else lookup name rest

-- `getattr(self, f'_do_{name}', None)`
unfoldable pub action_named : Option String → Option Action
unfolding lookup
action_named none = none
action_named (some name) = lookup name action_names

module _ {F : Type 0} ⦃fl : Float F⦄ (b : Builtins F) where
  unfoldable pub perform_action : OperatorGateway → String → Action → Fields F → Ids → Answered F
  unfolding do_acquire do_takeover do_release do_heartbeat do_run do_stop do_clear_stop do_manual
      do_clear_obstacles do_set_obstacle_processing do_set_autonomy_tuning do_save_autonomy_tuning
      do_save_speed_profile do_delete_speed_profile do_set_config do_start_recording
      do_stop_recording do_delete_recording do_select_mode do_new_map do_save_map do_select_map
      do_delete_map do_save_semantics do_select_goal do_set_initial_pose
  perform_action g conn acquire action ids = do_acquire g conn ids
  perform_action g conn takeover action ids = do_takeover g conn ids
  perform_action g conn release action ids = do_release g conn
  perform_action g conn heartbeat action ids = do_heartbeat g conn
  perform_action g conn run action ids = do_run g conn action
  perform_action g conn stop action ids = do_stop g conn
  perform_action g conn clear_stop action ids = do_clear_stop g conn
  perform_action g conn manual action ids = do_manual b g conn action
  perform_action g conn clear_obstacles action ids = do_clear_obstacles g conn
  perform_action g conn set_obstacle_processing action ids =
      do_set_obstacle_processing b g conn action
  perform_action g conn set_autonomy_tuning action ids = do_set_autonomy_tuning g conn action
  perform_action g conn save_autonomy_tuning action ids = do_save_autonomy_tuning g conn action
  perform_action g conn save_speed_profile action ids = do_save_speed_profile b g conn action
  perform_action g conn delete_speed_profile action ids = do_delete_speed_profile b g conn action
  perform_action g conn set_config action ids = do_set_config b g conn action
  perform_action g conn start_recording action ids = do_start_recording b g conn action
  perform_action g conn stop_recording action ids = do_stop_recording g conn
  perform_action g conn delete_recording action ids = do_delete_recording b g conn action
  perform_action g conn select_mode action ids = do_select_mode b g conn action
  perform_action g conn new_map action ids = do_new_map g conn
  perform_action g conn save_map action ids = do_save_map b g conn action
  perform_action g conn select_map action ids = do_select_map b g conn action
  perform_action g conn delete_map action ids = do_delete_map b g conn action
  perform_action g conn save_semantics action ids = do_save_semantics b g conn action
  perform_action g conn select_goal action ids = do_select_goal b g conn action
  perform_action g conn set_initial_pose action ids = do_set_initial_pose b g conn action

  -- The reason leaves off the name that the source repeats in it.
  abbrev pub perform_named : OperatorGateway → String → Option Action → Fields F → Ids → Answered F
  perform_named g conn none action ids = reject g conn "unknown action"
  perform_named g conn (some a) action ids = perform_action g conn a action ids

  unfoldable pub handle : OperatorGateway → String → Json F → Ids → Answered F
  unfolding reject action_named perform_action get
  handle g conn (object action) ids =
      perform_named g conn (action_named (as_text (get action "action"))) action ids
  handle g conn v ids = reject g conn "action must be an object"
