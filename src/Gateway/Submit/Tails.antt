-- ===== src/Gateway/Submit/Tails.antt =====
-- The intents of src/runner_paddock/runner_paddock/gateway.py have their control events in front.
use ros_pre_runner.Prelude.{
  String, str_eq, eq_iff, Bool, true, false, ◌&&◌, Option, none, some, List, [], ◌∷◌, ◌≡◌, refl,
  arith,
}
use ros_pre_runner.Prelude.Float.{Float}
use ros_pre_runner.CommandSupervisor.{ControlEvent}
use ros_pre_runner.CommandSupervisor
use ros_pre_runner.Gateway.Values.{
  Json, null, boolean, integer, number, text, array, object, Fields, Builtins, get, as_text,
}
use ros_pre_runner.Gateway.State.{
  OperatorGateway, Ids, Intent, ControlEventIntent, owned, reject, on_disconnect,
}
use ros_pre_runner.Gateway.Lease.{
  do_acquire, do_takeover, do_release, do_heartbeat, do_run, do_stop, do_clear_stop, do_manual,
}
use ros_pre_runner.Gateway.Requests.{
  do_clear_obstacles, do_set_obstacle_processing, do_set_autonomy_tuning, do_save_autonomy_tuning,
  do_save_speed_profile, do_delete_speed_profile, do_set_config, do_start_recording,
  do_stop_recording, do_delete_recording, do_select_mode, do_new_map, do_save_map, do_select_map,
  do_delete_map, do_save_semantics, do_select_goal, do_set_initial_pose, obstacle_enabled,
  with_pose, select_named, with_class_data,
}
use ros_pre_runner.Gateway.Handle.{
  Action, acquire, takeover, release, heartbeat, run, stop, clear_stop, manual, clear_obstacles,
  set_obstacle_processing, set_autonomy_tuning, save_autonomy_tuning, save_speed_profile,
  delete_speed_profile, set_config, start_recording, stop_recording, delete_recording, select_mode,
  new_map, save_map, select_map, delete_map, save_semantics, select_goal, set_initial_pose,
  perform_action, perform_named, action_named, handle,
}
use ros_pre_runner.Gateway.Protocol.{intents_of, events_by}
use ros_pre_runner.Gateway.Submit.{is_message, is_named}

abbrev pub is_clear_stop : ControlEvent → Bool
is_clear_stop CommandSupervisor.clear_stop = true
is_clear_stop e = false

module _ {F : Type 0} where
  -- Behind an intent that is no message there is none.
  unfoldable pub tail_free : List (Intent F) → Bool
  tail_free [] = true
  tail_free (i ∷ []) = true
  tail_free (i ∷ j ∷ rest) = is_message i && tail_free (j ∷ rest)

  unfoldable pub clear_stops : List (String × ControlEventIntent F) → Bool
  clear_stops [] = true
  clear_stops ((conn, e) ∷ rest) = is_clear_stop e.event && clear_stops rest

module _ {F : Type 0} ⦃fl : Float F⦄ (b : Builtins F) (g : OperatorGateway) (conn : String)
    (ids : Ids) where
  tail_free-perform_action :
      (a : Action) (action : Fields F)
      → tail_free (intents_of (perform_action b g conn a action ids).0) ≡ true
  unfolding perform_action do_acquire do_takeover do_release do_heartbeat do_run do_stop
      do_clear_stop do_manual do_clear_obstacles do_set_obstacle_processing do_set_autonomy_tuning
      do_save_autonomy_tuning do_save_speed_profile do_delete_speed_profile do_set_config
      do_start_recording do_stop_recording do_delete_recording do_select_mode do_new_map do_save_map
      do_select_map do_delete_map do_save_semantics do_select_goal do_set_initial_pose on_disconnect
      owned reject with_pose obstacle_enabled select_named with_class_data intents_of tail_free
  tail_free-perform_action acquire action = ground arith
  tail_free-perform_action takeover action = ground arith
  tail_free-perform_action release action = ground arith
  tail_free-perform_action heartbeat action = ground arith
  tail_free-perform_action run action = ground arith
  tail_free-perform_action stop action = ground arith
  tail_free-perform_action clear_stop action = ground arith
  tail_free-perform_action manual action = ground arith
  tail_free-perform_action clear_obstacles action = ground arith
  tail_free-perform_action set_obstacle_processing action = ground arith
  tail_free-perform_action set_autonomy_tuning action = ground arith
  tail_free-perform_action save_autonomy_tuning action = ground arith
  tail_free-perform_action save_speed_profile action = ground arith
  tail_free-perform_action delete_speed_profile action = ground arith
  tail_free-perform_action set_config action = ground arith
  tail_free-perform_action start_recording action = ground arith
  tail_free-perform_action stop_recording action = ground arith
  tail_free-perform_action delete_recording action = ground arith
  tail_free-perform_action select_mode action = ground arith
  tail_free-perform_action new_map action = ground arith
  tail_free-perform_action save_map action = ground arith
  tail_free-perform_action select_map action = ground arith
  tail_free-perform_action delete_map action = ground arith
  tail_free-perform_action save_semantics action = ground arith
  tail_free-perform_action select_goal action = ground arith
  tail_free-perform_action set_initial_pose action = ground arith

  tail_free-perform_named :
      (a : Option Action) (action : Fields F)
      → tail_free (intents_of (perform_named b g conn a action ids).0) ≡ true
  unfolding reject intents_of tail_free
  tail_free-perform_named none action = refl
  tail_free-perform_named (some a) action = tail_free-perform_action a action

  pub tail_free-handle : (v : Json F) → tail_free (intents_of (handle b g conn v ids).0) ≡ true
  unfolding handle reject intents_of tail_free
  tail_free-handle (object action) =
      tail_free-perform_named (action_named (as_text (get action "action"))) action
  tail_free-handle null = refl
  tail_free-handle (boolean x) = refl
  tail_free-handle (integer z) = refl
  tail_free-handle (number x) = refl
  tail_free-handle (text t) = refl
  tail_free-handle (array vs) = refl

  -- The action that the message names
  pub handle-named :
      (name : String) (a : Action) (action : Fields F)
      → action_named (some name) ≡ some a
      → is_named name (object action) ≡ true
      → handle b g conn (object action) ids ≡ perform_action b g conn a action ids
  unfolding handle
  handle-named name a action h n = by_text (as_text (get action "action")) n
    where
      by_text :
          (o : Option String)
          → elim o [ none ↦ false | some t ↦ str_eq t name ] ≡ true
          → perform_named b g conn (action_named o) action ids
            ≡ perform_action b g conn a action ids
      by_text none p = absurd (cc)
      by_text (some t) p = rw ((eq_iff t name).0 p, h) refl

  clear_stops-do_clear_stop :
      clear_stops (events_by conn (intents_of (do_clear_stop {F = F} g conn).0)) ≡ true
  unfolding do_clear_stop owned reject intents_of events_by clear_stops
  clear_stops-do_clear_stop = ground arith

  pub clear_stops-handle :
      (v : Json F)
      → is_named "clear_stop" v ≡ true
      → clear_stops (events_by conn (intents_of (handle b g conn v ids).0)) ≡ true
  unfolding action_named perform_action
  clear_stops-handle (object action) n =
      rw (handle-named "clear_stop" clear_stop action refl n) clear_stops-do_clear_stop
  clear_stops-handle null n = absurd (cc)
  clear_stops-handle (boolean x) n = absurd (cc)
  clear_stops-handle (integer z) n = absurd (cc)
  clear_stops-handle (number x) n = absurd (cc)
  clear_stops-handle (text t) n = absurd (cc)
  clear_stops-handle (array vs) n = absurd (cc)

  no_events-do_select_mode :
      (action : Fields F) → events_by conn (intents_of (do_select_mode b g conn action).0) ≡ []
  unfolding do_select_mode select_named owned reject intents_of events_by
  no_events-do_select_mode action = ground arith

  pub no_events-handle :
      (v : Json F)
      → is_named "select_mode" v ≡ true
      → events_by conn (intents_of (handle b g conn v ids).0) ≡ []
  unfolding action_named perform_action
  no_events-handle (object action) n =
      rw (handle-named "select_mode" select_mode action refl n) (no_events-do_select_mode action)
  no_events-handle null n = absurd (cc)
  no_events-handle (boolean x) n = absurd (cc)
  no_events-handle (integer z) n = absurd (cc)
  no_events-handle (number x) n = absurd (cc)
  no_events-handle (text t) n = absurd (cc)
  no_events-handle (array vs) n = absurd (cc)
