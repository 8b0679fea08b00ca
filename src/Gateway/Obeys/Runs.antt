-- ===== src/Gateway/Obeys/Runs.antt =====
-- `handle` and `on_disconnect` of src/runner_paddock/runner_paddock/gateway.py, over any list of calls.
use ros_pre_runner.Prelude.{String, Option, none, some, List, [], ◌∷◌, ◌++◌}
use ros_pre_runner.Prelude.Float.{Float}
use ros_pre_runner.Gateway.Values.{
  Json, null, boolean, integer, number, text, array, object, Fields, Builtins, get, as_text,
}
use ros_pre_runner.Gateway.State.{owned, reject, OperatorGateway, Ids, ControlEventIntent}
use ros_pre_runner.Gateway.Handle.{
  Action, acquire, takeover, release, heartbeat, run, stop, clear_stop, manual, clear_obstacles,
  set_obstacle_processing, set_autonomy_tuning, save_autonomy_tuning, save_speed_profile,
  delete_speed_profile, set_config, start_recording, stop_recording, delete_recording, select_mode,
  new_map, save_map, select_map, delete_map, save_semantics, select_goal, set_initial_pose,
  perform_action, perform_named, action_named, handle,
}
use ros_pre_runner.Gateway.Protocol.{
  intents_of, events_by, View, view, EventPath, done, sends, Call, message, disconnect, caller,
  answer, answers,
}
use ros_pre_runner.Gateway.Obeys.{Obeys, reject-Obeys}
use ros_pre_runner.Gateway.Obeys.Lease.{
  do_acquire-Obeys, do_takeover-Obeys, do_release-Obeys, do_heartbeat-Obeys, do_run-Obeys,
  do_stop-Obeys, do_clear_stop-Obeys, do_manual-Obeys, on_disconnect-Obeys,
}
use native.Mathlib.Omega.{arith}
use ros_pre_runner.Gateway.Requests.{
  obstacle_enabled, select_named, with_class_data, do_clear_obstacles, do_stop_recording,
  do_new_map, do_set_autonomy_tuning, do_save_autonomy_tuning, do_set_obstacle_processing,
  do_save_speed_profile, do_delete_speed_profile, do_set_config, do_start_recording,
  do_delete_recording, do_select_mode, do_save_map, do_select_map, do_delete_map, do_save_semantics,
}
use ros_pre_runner.Gateway.Obeys.Requests.{
  quiet-Obeys, do_select_goal-Obeys, do_set_initial_pose-Obeys,
}

module _ {F : Type 0} ⦃fl : Float F⦄ where
  -- Paths are joined at the lease between them.
  append-EventPath :
      (v w u : View) (es ds : List (String × ControlEventIntent F))
      → EventPath v es w
      → EventPath w ds u
      → EventPath v (es ++ ds) u
  append-EventPath v w u es ds (done _) q = q
  append-EventPath v w u es ds (sends conn _ x _ e rest s p) q =
      sends conn v x u e (rest ++ ds) s (append-EventPath x w u rest ds p q)

  module _ (b : Builtins F) where
    perform_action-Obeys :
        (g : OperatorGateway) (conn : String) (a : Action) (action : Fields F) (ids : Ids)
        → Obeys conn g (perform_action b g conn a action ids)
    unfolding perform_action owned reject obstacle_enabled select_named with_class_data intents_of
        events_by do_clear_obstacles do_stop_recording do_new_map do_set_autonomy_tuning
        do_save_autonomy_tuning do_set_obstacle_processing do_save_speed_profile
        do_delete_speed_profile do_set_config do_start_recording do_delete_recording do_select_mode
        do_save_map do_select_map do_delete_map do_save_semantics
    perform_action-Obeys g conn acquire action ids = do_acquire-Obeys g conn ids
    perform_action-Obeys g conn takeover action ids = do_takeover-Obeys g conn ids
    perform_action-Obeys g conn release action ids = do_release-Obeys g conn
    perform_action-Obeys g conn heartbeat action ids = do_heartbeat-Obeys g conn
    perform_action-Obeys g conn run action ids = do_run-Obeys g conn action
    perform_action-Obeys g conn stop action ids = do_stop-Obeys g conn
    perform_action-Obeys g conn clear_stop action ids = do_clear_stop-Obeys g conn
    perform_action-Obeys g conn manual action ids = do_manual-Obeys g conn b action
    perform_action-Obeys g conn clear_obstacles action ids =
        quiet-Obeys g conn (perform_action b g conn clear_obstacles action ids) (ground arith)
          (ground arith)
    perform_action-Obeys g conn set_obstacle_processing action ids =
        quiet-Obeys g conn (perform_action b g conn set_obstacle_processing action ids)
          (ground arith) (ground arith)
    perform_action-Obeys g conn set_autonomy_tuning action ids =
        quiet-Obeys g conn (perform_action b g conn set_autonomy_tuning action ids) (ground arith)
          (ground arith)
    perform_action-Obeys g conn save_autonomy_tuning action ids =
        quiet-Obeys g conn (perform_action b g conn save_autonomy_tuning action ids) (ground arith)
          (ground arith)
    perform_action-Obeys g conn save_speed_profile action ids =
        quiet-Obeys g conn (perform_action b g conn save_speed_profile action ids) (ground arith)
          (ground arith)
    perform_action-Obeys g conn delete_speed_profile action ids =
        quiet-Obeys g conn (perform_action b g conn delete_speed_profile action ids) (ground arith)
          (ground arith)
    perform_action-Obeys g conn set_config action ids =
        quiet-Obeys g conn (perform_action b g conn set_config action ids) (ground arith)
          (ground arith)
    perform_action-Obeys g conn start_recording action ids =
        quiet-Obeys g conn (perform_action b g conn start_recording action ids) (ground arith)
          (ground arith)
    perform_action-Obeys g conn stop_recording action ids =
        quiet-Obeys g conn (perform_action b g conn stop_recording action ids) (ground arith)
          (ground arith)
    perform_action-Obeys g conn delete_recording action ids =
        quiet-Obeys g conn (perform_action b g conn delete_recording action ids) (ground arith)
          (ground arith)
    perform_action-Obeys g conn select_mode action ids =
        quiet-Obeys g conn (perform_action b g conn select_mode action ids) (ground arith)
          (ground arith)
    perform_action-Obeys g conn new_map action ids =
        quiet-Obeys g conn (perform_action b g conn new_map action ids) (ground arith)
          (ground arith)
    perform_action-Obeys g conn save_map action ids =
        quiet-Obeys g conn (perform_action b g conn save_map action ids) (ground arith)
          (ground arith)
    perform_action-Obeys g conn select_map action ids =
        quiet-Obeys g conn (perform_action b g conn select_map action ids) (ground arith)
          (ground arith)
    perform_action-Obeys g conn delete_map action ids =
        quiet-Obeys g conn (perform_action b g conn delete_map action ids) (ground arith)
          (ground arith)
    perform_action-Obeys g conn save_semantics action ids =
        quiet-Obeys g conn (perform_action b g conn save_semantics action ids) (ground arith)
          (ground arith)
    perform_action-Obeys g conn select_goal action ids = do_select_goal-Obeys g conn b action
    perform_action-Obeys g conn set_initial_pose action ids =
        do_set_initial_pose-Obeys g conn b action

    perform_named-Obeys :
        (g : OperatorGateway) (conn : String) (a : Option Action) (action : Fields F) (ids : Ids)
        → Obeys conn g (perform_named b g conn a action ids)
    perform_named-Obeys g conn none action ids = reject-Obeys conn g "unknown action"
    perform_named-Obeys g conn (some a) action ids = perform_action-Obeys g conn a action ids

    handle-Obeys :
        (g : OperatorGateway) (conn : String) (v : Json F) (ids : Ids)
        → Obeys conn g (handle b g conn v ids)
    unfolding handle
    handle-Obeys g conn (object action) ids =
        perform_named-Obeys g conn (action_named (as_text (get action "action"))) action ids
    handle-Obeys g conn null ids = reject-Obeys conn g "action must be an object"
    handle-Obeys g conn (boolean x) ids = reject-Obeys conn g "action must be an object"
    handle-Obeys g conn (integer z) ids = reject-Obeys conn g "action must be an object"
    handle-Obeys g conn (number x) ids = reject-Obeys conn g "action must be an object"
    handle-Obeys g conn (text t) ids = reject-Obeys conn g "action must be an object"
    handle-Obeys g conn (array vs) ids = reject-Obeys conn g "action must be an object"

    answer-Obeys : (g : OperatorGateway) (c : Call F) → Obeys (caller c) g (answer b g c)
    unfolding answer
    answer-Obeys g (message conn action ids) = handle-Obeys g conn action ids
    answer-Obeys g (disconnect conn) = on_disconnect-Obeys g conn

    -- Whatever the connections send and in whatever order, from any state of the gateway, and where
    -- exceptions escape too, the control events of all the answers are a path of the protocol: it starts
    -- at the lease of the first state and ends at that of the last.
    pub answers-EventPath :
        (g : OperatorGateway) (calls : List (Call F))
        → EventPath (view g) (answers b g calls).0 (view (answers b g calls).1)
    unfolding answers
    answers-EventPath g [] = done (view g)
    answers-EventPath g (c ∷ cs) =
        let next = (answer b g c).1 in
        append-EventPath (view g) (view next) _ _ _ (answer-Obeys g c) (answers-EventPath next cs)
