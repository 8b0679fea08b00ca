-- ===== src/Gateway/Submit/Held.antt =====
-- No CLEAR STOP leaves `submit` of src/runner_paddock/runner_paddock/ros_state_node.py during an initial pose
-- transaction of that node.
use mathlib.Core.Path.{subst}
use ros_pre_runner.Prelude.{
  not, ◌||◌, is_some, if_both, sym, inl, inr, ◌∙◌, ap, Bool-cases, String, str_eq, eq_iff, Bool,
  true, false, ◌&&◌, Option, none, some, List, [], ◌∷◌, ◌≡◌, refl, arith,
}
use ros_pre_runner.Prelude.Float.{Float}
use ros_pre_runner.Gateway.Values.{
  Json, null, boolean, integer, number, text, array, object, Fields, Builtins, get, as_text,
}
use ros_pre_runner.Gateway.State.{
  OperatorGateway, Ids, Answered, GatewayResult, Intent, ControlEventIntent, owned, reject,
  on_disconnect,
}
use ros_pre_runner.Gateway.Lease.{
  do_acquire, do_takeover, do_release, do_heartbeat, do_run, do_stop, do_clear_stop, do_manual,
}
use ros_pre_runner.Gateway.Requests.{
  do_clear_obstacles, do_set_obstacle_processing, do_set_autonomy_tuning, do_save_autonomy_tuning,
  do_save_speed_profile, do_delete_speed_profile, do_set_config, do_start_recording,
  do_stop_recording, do_delete_recording, do_select_mode, do_new_map, do_save_map, do_select_map,
  do_delete_map, do_save_semantics, do_select_goal, do_set_initial_pose, obstacle_enabled,
  with_pose, select_named, with_class_data,
}
use ros_pre_runner.Gateway.Handle.{
  lookup, action_names, Action, acquire, takeover, release, heartbeat, run, stop, clear_stop,
  manual, clear_obstacles, set_obstacle_processing, set_autonomy_tuning, save_autonomy_tuning,
  save_speed_profile, delete_speed_profile, set_config, start_recording, stop_recording,
  delete_recording, select_mode, new_map, save_map, select_map, delete_map, save_semantics,
  select_goal, set_initial_pose, perform_action, perform_named, action_named, handle,
}
use ros_pre_runner.Gateway.Protocol.{intents_of, events_by}
use ros_pre_runner.Gateway.Submit.{is_named}
use ros_pre_runner.Gateway.Pose.State.{PoseNode}
use ros_pre_runner.Gateway.Submit.{dispatch, checked, submitted, submit}
use ros_pre_runner.Gateway.Submit.Tails.{is_clear_stop, handle-named}
use ros_pre_runner.Gateway.Submit.Published.{submit-IsPublished}

module _ {F : Type 0} where
  unfoldable pub clear_free : List (String × ControlEventIntent F) → Bool
  clear_free [] = true
  clear_free ((conn, e) ∷ rest) = not (is_clear_stop e.event) && clear_free rest

abbrev is_clear : Action → Bool
is_clear clear_stop = true
is_clear a = false

-- The action CLEAR STOP has no other name.
abbrev names_clear : List (String × Action) → Bool
names_clear [] = true
names_clear ((n, a) ∷ rest) = (not (is_clear a) || str_eq n "clear_stop") && names_clear rest

lookup-is_clear :
    (table : List (String × Action)) (name : String)
    → names_clear table ≡ true
    → str_eq name "clear_stop" ≡ false
    → elim (lookup name table) [ none ↦ false | some a ↦ is_clear a ] ≡ false
unfolding lookup
lookup-is_clear [] name t h = refl
lookup-is_clear ((n, a) ∷ rest) name t h =
    if_both (λ (o : Option Action). elim o [ none ↦ false | some a ↦ is_clear a ] ≡ false)
      (str_eq n name)
      (λ e. let d : str_eq n "clear_stop" ≡ false = rw ((eq_iff n name).0 e) h in ground arith)
      (λ _. lookup-is_clear rest name (ground arith) h)

module _ {F : Type 0} ⦃fl : Float F⦄ (b : Builtins F) (g : OperatorGateway) (conn : String)
    (ids : Ids) where
  clear_free-perform_action :
      (a : Action) (action : Fields F)
      → is_clear a ≡ false
      → clear_free (events_by conn (intents_of (perform_action b g conn a action ids).0)) ≡ true
  unfolding perform_action do_acquire do_takeover do_release do_heartbeat do_run do_stop
      do_clear_stop do_manual do_clear_obstacles do_set_obstacle_processing do_set_autonomy_tuning
      do_save_autonomy_tuning do_save_speed_profile do_delete_speed_profile do_set_config
      do_start_recording do_stop_recording do_delete_recording do_select_mode do_new_map do_save_map
      do_select_map do_delete_map do_save_semantics do_select_goal do_set_initial_pose on_disconnect
      owned reject with_pose obstacle_enabled select_named with_class_data intents_of events_by
      clear_free
  clear_free-perform_action acquire action h = ground arith
  clear_free-perform_action takeover action h = ground arith
  clear_free-perform_action release action h = ground arith
  clear_free-perform_action heartbeat action h = ground arith
  clear_free-perform_action run action h = ground arith
  clear_free-perform_action stop action h = ground arith
  clear_free-perform_action clear_stop action h = absurd (cc)
  clear_free-perform_action manual action h = ground arith
  clear_free-perform_action clear_obstacles action h = ground arith
  clear_free-perform_action set_obstacle_processing action h = ground arith
  clear_free-perform_action set_autonomy_tuning action h = ground arith
  clear_free-perform_action save_autonomy_tuning action h = ground arith
  clear_free-perform_action save_speed_profile action h = ground arith
  clear_free-perform_action delete_speed_profile action h = ground arith
  clear_free-perform_action set_config action h = ground arith
  clear_free-perform_action start_recording action h = ground arith
  clear_free-perform_action stop_recording action h = ground arith
  clear_free-perform_action delete_recording action h = ground arith
  clear_free-perform_action select_mode action h = ground arith
  clear_free-perform_action new_map action h = ground arith
  clear_free-perform_action save_map action h = ground arith
  clear_free-perform_action select_map action h = ground arith
  clear_free-perform_action delete_map action h = ground arith
  clear_free-perform_action save_semantics action h = ground arith
  clear_free-perform_action select_goal action h = ground arith
  clear_free-perform_action set_initial_pose action h = ground arith

  clear_free-perform_named :
      (a : Option Action) (action : Fields F)
      → elim a [ none ↦ false | some a' ↦ is_clear a' ] ≡ false
      → clear_free (events_by conn (intents_of (perform_named b g conn a action ids).0)) ≡ true
  unfolding reject intents_of events_by clear_free
  clear_free-perform_named none action h = refl
  clear_free-perform_named (some a) action h = clear_free-perform_action a action h

  -- The events of an action that is not named CLEAR STOP
  clear_free-handle :
      (v : Json F)
      → is_named "clear_stop" v ≡ false
      → clear_free (events_by conn (intents_of (handle b g conn v ids).0)) ≡ true
  unfolding handle action_named reject intents_of events_by clear_free
  clear_free-handle (object action) n = by_text (as_text (get action "action")) n
    where
      by_text :
          (o : Option String)
          → elim o [ none ↦ false | some t ↦ str_eq t "clear_stop" ] ≡ false
          → clear_free
              (events_by conn (intents_of (perform_named b g conn (action_named o) action ids).0))
            ≡ true
      by_text none p = clear_free-perform_named none action refl
      by_text (some t) p =
          clear_free-perform_named (lookup t action_names) action
            (lookup-is_clear action_names t refl p)
  clear_free-handle null n = refl
  clear_free-handle (boolean x) n = refl
  clear_free-handle (integer z) n = refl
  clear_free-handle (number x) n = refl
  clear_free-handle (text t) n = refl
  clear_free-handle (array vs) n = refl

  module _ (work : Intent F → GatewayResult F → GatewayResult F) (map : String) where
    -- CLEAR STOP is held back if the gateway accepts it, and gives nothing if not.
    submitted-do_clear_stop :
        (v : Json F)
        → is_named "clear_stop" v ≡ true
        → clear_free (
            events_by conn
              (submitted b work true map v
                (do_clear_stop {F = F} g conn).0
                (do_clear_stop {F = F} g conn).1).1)
          ≡ true
    unfolding do_clear_stop owned reject submitted checked dispatch events_by clear_free
    submitted-do_clear_stop v n = ground arith

    submit-clear_stop :
        (v : Json F)
        → is_named "clear_stop" v ≡ true
        → clear_free (events_by conn (submit b work true map g conn v ids).1) ≡ true
    unfolding submit action_named perform_action
    submit-clear_stop (object action) n =
        subst
          (λ (a : Answered F).
            clear_free (events_by conn (submitted b work true map (object action) a.0 a.1).1)
            ≡ true)
          (sym (handle-named b g conn ids "clear_stop" clear_stop action refl n))
          (submitted-do_clear_stop (object action) n)
    submit-clear_stop null n = absurd (cc)
    submit-clear_stop (boolean x) n = absurd (cc)
    submit-clear_stop (integer z) n = absurd (cc)
    submit-clear_stop (number x) n = absurd (cc)
    submit-clear_stop (text t) n = absurd (cc)
    submit-clear_stop (array vs) n = absurd (cc)

    submit-other :
        (v : Json F)
        → is_named "clear_stop" v ≡ false
        → clear_free (events_by conn (submit b work true map g conn v ids).1) ≡ true
    unfolding clear_free
    submit-other v n = elim (submit-IsPublished b work true map g conn v ids).1 [
      | inl e ↦ ap clear_free e ∙ clear_free-handle v n
      | inr (e, _, _) ↦ ap clear_free e
    ]

module _ {F : Type 0} ⦃fl : Float F⦄ where
  -- While an initial pose transaction is pending, `submit`, which reads that before it looks at the gateway's
  -- intents, publishes no CLEAR STOP, whatever message whoever sends, and whatever result the node's own work has.
  pub submit-clear_free :
      (b : Builtins F) (work : Intent F → GatewayResult F → GatewayResult F) (map : String)
      (g : OperatorGateway) (conn : String) (v : Json F) (ids : Ids) (n : PoseNode F)
      → is_some n.pending ≡ true
      → clear_free (events_by conn (submit b work (is_some n.pending) map g conn v ids).1) ≡ true
  submit-clear_free b work map g conn v ids n h =
      subst (λ (p : Bool). clear_free (events_by conn (submit b work p map g conn v ids).1) ≡ true)
        (sym h)
        (elim (Bool-cases (is_named "clear_stop" v)) [
          | inl e ↦ submit-clear_stop b g conn ids work map v e
          | inr e ↦ submit-other b g conn ids work map v e
        ])
