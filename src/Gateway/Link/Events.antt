-- ===== src/Gateway/Link/Events.antt =====
-- What `handle_control_event` of src/runner_paddock/runner_paddock/command_supervisor.py does with an event of
-- the gateway, as far as the link between them goes.
use ros_pre_runner.Prelude.{ap, Bool, true, false, not, ◌&&◌, ◌≡◌, refl, ◌∙◌, if_both}
use ros_pre_runner.Prelude.Float.{Float}
use ros_pre_runner.StateMachine.{
  PaddockState, Event, acquire_lease, Inputs, Transition, transition, lease_active, nonempty,
  no_inputs, authority, authority_eq, paddock_manual, select_goal, owns_lease,
}
use ros_pre_runner.StateMachine
use ros_pre_runner.StateMachine.Frame.{drop_lease-owned, lose_lease-owned}
use ros_pre_runner.CommandSupervisor.{
  Supervisor, ControlEvent, ControlInput, run_pressed, run_released, manual_active, manual_inactive,
  goal_selected, lease_acquired, lease_released, lease_lost, heartbeat, clear_stop, step, finish,
  refuse, on_goal_selected, after_manual_active, accept_event, Answered,
}
use ros_pre_runner.Gateway.Link.{Link, link}
use ros_pre_runner.Gateway.Link.Calls.{link-clear_manual, link-step, link-restate}

-- The events that end a lease or begin one
abbrev pub is_lease_event : ControlEvent → Bool
is_lease_event lease_acquired = true
is_lease_event lease_released = true
is_lease_event lease_lost = true
is_lease_event _ = false

abbrev pub ends_lease : ControlEvent → Bool
ends_lease lease_released = true
ends_lease lease_lost = true
ends_lease _ = false

module _ {F : Type 0} ⦃fl : Float F⦄ where
  link-finish : (c : Supervisor F) (i : ControlInput F) (now : F) → link (finish c i now).0 ≡ link c
  unfolding finish
  link-finish c i now = link-clear_manual c

  link-on_goal_selected :
      (c : Supervisor F) (i : ControlInput F) (now : F) → link (on_goal_selected c i now).0 ≡ link c
  unfolding on_goal_selected refuse
  link-on_goal_selected c i now =
      if_both (λ (t : Answered F). link t.0 ≡ link c)
        (not (fl.is_finite i.goal_x && (fl.is_finite i.goal_y && fl.is_finite i.goal_yaw)))
        (λ p. refl) (λ p. link-finish _ i now ∙ link-restate c select_goal _ refl)

  link-after_manual_active :
      (c : Supervisor F) (i : ControlInput F) (now : F)
      → link (after_manual_active c i now).0 ≡ link c
  unfolding after_manual_active refuse
  link-after_manual_active c i now =
      if_both (λ (t : Answered F). link t.0 ≡ link c)
        (not (fl.is_finite i.manual_speed_mps && fl.is_finite i.manual_steering))
        (λ p. link-step c StateMachine.manual_inactive i.lease_id refl)
        (λ p.
          if_both (λ (t : Answered F). link t.0 ≡ link c)
            (not (authority_eq (authority c.state) paddock_manual)) (λ q. refl) (λ q. refl))

  -- Behind the guards, no event but those of the lease changes the link.
  pub link-accept_event :
      (e : ControlEvent) (c : Supervisor F) (i : ControlInput F) (now : F)
      → is_lease_event e ≡ false
      → link (accept_event e c i now).0 ≡ link c
  unfolding accept_event
  link-accept_event heartbeat c i now k = refl
  link-accept_event clear_stop c i now k = link-step c _ i.lease_id refl
  link-accept_event goal_selected c i now k = link-on_goal_selected c i now
  link-accept_event manual_active c i now k =
      link-after_manual_active (step c StateMachine.manual_active i.lease_id) i now
      ∙ link-step c StateMachine.manual_active i.lease_id refl
  link-accept_event manual_inactive c i now k =
      link-finish _ i now ∙ link-step c StateMachine.manual_inactive i.lease_id refl
  link-accept_event run_pressed c i now k =
      link-finish _ i now ∙ link-step c StateMachine.run_press i.lease_id refl
  link-accept_event run_released c i now k =
      link-finish _ i now ∙ link-step c StateMachine.run_release i.lease_id refl
  link-accept_event ControlEvent.stop c i now k =
      link-finish _ i now ∙ link-step c StateMachine.stop i.lease_id refl
  link-accept_event lease_acquired c i now k = absurd (cc)
  link-accept_event lease_released c i now k = absurd (cc)
  link-accept_event lease_lost c i now k = absurd (cc)

  -- The end of the lease that is held
  pub free-accept_event :
      (e : ControlEvent) (c : Supervisor F) (i : ControlInput F) (now : F)
      → ends_lease e ≡ true
      → owns_lease c.state i.lease_id ≡ true
      → nonempty (link (accept_event e c i now).0).lease ≡ false
  unfolding accept_event step lease_active
  free-accept_event lease_released c i now k own =
      ap (λ (t : Link). nonempty t.lease) (link-finish _ i now)
      ∙ (drop_lease-owned c.state (record no_inputs { lease_id = i.lease_id }) own).0
  free-accept_event lease_lost c i now k own =
      ap (λ (t : Link). nonempty t.lease) (link-finish _ i now)
      ∙ (lose_lease-owned c.state (record no_inputs { lease_id = i.lease_id }) own).0
  free-accept_event _ c i now k own = absurd (cc)
