-- ===== src/Gateway/Observers.antt =====
-- What src/runner_paddock/runner_paddock/gateway.py does for connections that do not hold the lease.
use ros_pre_runner.Prelude.{
  String, true, false, Option, none, some, is_some, [], ◌≡◌, sym, ◌⊎◌, inl, inr, Bool-cases,
  if_both, not, refl, if◌then◌else◌,
}
use mathlib.Core.Path.{subst}
use native.Mathlib.Omega.{arith}
use ros_pre_runner.Prelude.Float.{Float}
use ros_pre_runner.Gateway.Values.{
  Json, null, boolean, integer, number, text, array, object, Fields, Builtins, get, as_text,
}
use ros_pre_runner.Gateway.State.{OperatorGateway, Ids, Answered, is_owner_conn, reject, owned}
use ros_pre_runner.Gateway.Lease.{
  do_acquire, do_release, do_heartbeat, do_run, do_stop, do_clear_stop, do_manual,
}
use ros_pre_runner.Gateway.Requests.{
  do_clear_obstacles, do_set_obstacle_processing, do_set_autonomy_tuning, do_save_autonomy_tuning,
  do_save_speed_profile, do_delete_speed_profile, do_set_config, do_start_recording,
  do_stop_recording, do_delete_recording, do_select_mode, do_new_map, do_save_map, do_select_map,
  do_delete_map, do_save_semantics, do_select_goal, do_set_initial_pose,
}
use ros_pre_runner.Gateway.Handle.{
  Action, acquire, takeover, release, heartbeat, run, stop, clear_stop, manual, clear_obstacles,
  set_obstacle_processing, set_autonomy_tuning, save_autonomy_tuning, save_speed_profile,
  delete_speed_profile, set_config, start_recording, stop_recording, delete_recording, select_mode,
  new_map, save_map, select_map, delete_map, save_semantics, select_goal, set_initial_pose,
  perform_action, perform_named, action_named, handle,
}
use ros_pre_runner.Gateway.Protocol.{intents_of}

-- The actions that may change the lease of another: a takeover, and to acquire what nobody holds.
abbrev pub MayTake : OperatorGateway → Option Action → Type 0
MayTake g a = (a ≡ some takeover) ⊎ ((a ≡ some acquire) × (is_some g.owner_conn ≡ false))

module _ {F : Type 0} where
  -- The action that a message names.
  abbrev pub action_of : Json F → Option Action
  action_of (object action) = action_named (as_text (get action "action"))
  action_of v = none

  -- The gateway is as it was, and there is no intent.
  abbrev pub IsQuiet : OperatorGateway → Answered F → Type 0
  IsQuiet g a = (a.1 ≡ g) × (intents_of a.0 ≡ [])

module _ {F : Type 0} ⦃fl : Float F⦄ (b : Builtins F) (g : OperatorGateway) (conn : String) where
  reject-IsQuiet : (reason : String) → IsQuiet {F = F} g (reject g conn reason)
  unfolding reject intents_of
  reject-IsQuiet reason = (refl, refl)

  owned-IsQuiet : (rest : Answered F) → is_owner_conn g conn ≡ false → IsQuiet g (owned g conn rest)
  unfolding owned
  owned-IsQuiet rest e =
      subst
        (λ t.
          IsQuiet {F = F} g
            (if t then rest else reject g conn "this session does not hold the lease"))
        (sym e) (reject-IsQuiet "this session does not hold the lease")

  -- To acquire what another holds is refused.
  held_acquire-IsQuiet :
      (ids : Ids)
      → is_owner_conn g conn ≡ false
      → is_some g.owner_conn ≡ true
      → IsQuiet {F = F} g (do_acquire g conn ids)
  unfolding do_acquire intents_of
  held_acquire-IsQuiet ids e s =
      if_both (λ (a : Answered F). IsQuiet g a) (is_owner_conn g conn) (λ p. absurd (cc))
        (λ _.
          if_both (λ (a : Answered F). IsQuiet g a) (is_some g.owner_conn) (λ _. (refl, refl))
            (λ p. absurd (cc)))

  release-IsQuiet : is_owner_conn g conn ≡ false → IsQuiet {F = F} g (do_release g conn)
  unfolding do_release
  release-IsQuiet e =
      if_both (λ (a : Answered F). IsQuiet g a) (not (is_owner_conn g conn))
        (λ _. reject-IsQuiet "not the lease owner") (λ p. absurd (ground arith))

  perform_action-IsQuiet :
      (a : Action) (action : Fields F) (ids : Ids)
      → is_owner_conn g conn ≡ false
      → ¬ MayTake g (some a)
      → IsQuiet g (perform_action b g conn a action ids)
  unfolding perform_action do_heartbeat do_run do_stop do_clear_stop do_manual do_clear_obstacles
      do_set_obstacle_processing do_set_autonomy_tuning do_save_autonomy_tuning
      do_save_speed_profile do_delete_speed_profile do_set_config do_start_recording
      do_stop_recording do_delete_recording do_select_mode do_new_map do_save_map do_select_map
      do_delete_map do_save_semantics do_select_goal do_set_initial_pose
  perform_action-IsQuiet acquire action ids e k =
      held_acquire-IsQuiet ids e (elim (Bool-cases (is_some g.owner_conn)) [
        | inl s ↦ s
        | inr s ↦ absurd (k (inr (refl, s)))
      ])
  perform_action-IsQuiet takeover action ids e k = absurd (k (inl refl))
  perform_action-IsQuiet release action ids e k = release-IsQuiet e
  perform_action-IsQuiet heartbeat action ids e k = owned-IsQuiet _ e
  perform_action-IsQuiet run action ids e k = owned-IsQuiet _ e
  perform_action-IsQuiet stop action ids e k = owned-IsQuiet _ e
  perform_action-IsQuiet clear_stop action ids e k = owned-IsQuiet _ e
  perform_action-IsQuiet manual action ids e k = owned-IsQuiet _ e
  perform_action-IsQuiet clear_obstacles action ids e k = owned-IsQuiet _ e
  perform_action-IsQuiet set_obstacle_processing action ids e k = owned-IsQuiet _ e
  perform_action-IsQuiet set_autonomy_tuning action ids e k = owned-IsQuiet _ e
  perform_action-IsQuiet save_autonomy_tuning action ids e k = owned-IsQuiet _ e
  perform_action-IsQuiet save_speed_profile action ids e k = owned-IsQuiet _ e
  perform_action-IsQuiet delete_speed_profile action ids e k = owned-IsQuiet _ e
  perform_action-IsQuiet set_config action ids e k = owned-IsQuiet _ e
  perform_action-IsQuiet start_recording action ids e k = owned-IsQuiet _ e
  perform_action-IsQuiet stop_recording action ids e k = owned-IsQuiet _ e
  perform_action-IsQuiet delete_recording action ids e k = owned-IsQuiet _ e
  perform_action-IsQuiet select_mode action ids e k = owned-IsQuiet _ e
  perform_action-IsQuiet new_map action ids e k = owned-IsQuiet _ e
  perform_action-IsQuiet save_map action ids e k = owned-IsQuiet _ e
  perform_action-IsQuiet select_map action ids e k = owned-IsQuiet _ e
  perform_action-IsQuiet delete_map action ids e k = owned-IsQuiet _ e
  perform_action-IsQuiet save_semantics action ids e k = owned-IsQuiet _ e
  perform_action-IsQuiet select_goal action ids e k = owned-IsQuiet _ e
  perform_action-IsQuiet set_initial_pose action ids e k = owned-IsQuiet _ e

  perform_named-IsQuiet :
      (a : Option Action) (action : Fields F) (ids : Ids)
      → is_owner_conn g conn ≡ false
      → ¬ MayTake g a
      → IsQuiet g (perform_named b g conn a action ids)
  perform_named-IsQuiet none action ids e k = reject-IsQuiet "unknown action"
  perform_named-IsQuiet (some a) action ids e k = perform_action-IsQuiet a action ids e k

  -- A message of a connection that does not hold the lease changes nothing and asks for nothing, whatever
  -- it carries, unless it takes over or acquires a lease that nobody holds.
  pub handle-IsQuiet :
      (v : Json F) (ids : Ids)
      → is_owner_conn g conn ≡ false
      → ¬ MayTake g (action_of v)
      → IsQuiet g (handle b g conn v ids)
  unfolding handle
  handle-IsQuiet (object action) ids e k =
      perform_named-IsQuiet (action_named (as_text (get action "action"))) action ids e k
  handle-IsQuiet null ids e k = reject-IsQuiet "action must be an object"
  handle-IsQuiet (boolean x) ids e k = reject-IsQuiet "action must be an object"
  handle-IsQuiet (integer z) ids e k = reject-IsQuiet "action must be an object"
  handle-IsQuiet (number x) ids e k = reject-IsQuiet "action must be an object"
  handle-IsQuiet (text t) ids e k = reject-IsQuiet "action must be an object"
  handle-IsQuiet (array vs) ids e k = reject-IsQuiet "action must be an object"
