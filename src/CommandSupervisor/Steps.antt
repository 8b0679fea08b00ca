-- ===== src/CommandSupervisor/Steps.antt =====
-- Every call keeps a `CommandSupervisor` sound, and so do any calls in a row.
use ros_pre_runner.Prelude.{
  ap, ℕ, String, ◌≡◌, refl, ◌∙◌, ◌&&◌, ◌||◌, Bool, true, false, not, Option, none, some, List, [],
  ◌∷◌, arith, is_some, if_both,
}
use ros_pre_runner.Prelude.Float.{Float}
use ros_pre_runner.StateMachine.{
  Mode, PaddockState, Event, Inputs, transition, lease_active, owns_lease, lose_lease,
  release_lease, no_inputs, initial, autonomy_permitted, paddock_manual, authority_eq, authority,
}
use ros_pre_runner.StateMachine
use ros_pre_runner.StateMachine.Invariant.{
  Fits-renamed, IsConsistent, IsConsistent-initial, transition-IsConsistent,
}
use ros_pre_runner.StateMachine.Frame.{
  restart-free, lease_active-transition, manual-transition, drop_lease-owned, lose_lease-owned,
  manual_inactive-owned, owns_lease-transition, manual-authority,
}
use ros_pre_runner.CommandSupervisor.State.{
  command_valid, state_eq, Supervisor, ControlEvent, VelocityCommand, ManualDemand,
}
use ros_pre_runner.CommandSupervisor.Clock.{expire_lease, expire_manual}
use ros_pre_runner.CommandSupervisor.Control.{
  refuse, ControlInput, step, finish, after_manual_active, on_goal_selected, accept_event,
  owned_event, lease_event, link_event, handle_control_event, granted, acquired_state, is_owner,
  is_stale, is_lease_acquired, supported, reinstates,
}
use ros_pre_runner.CommandSupervisor.Inputs.{
  set_manual_max_speed_mps, manual_speed_ceiling_valid, not_current, Settings, init, ok, Answered,
  tick, set_runtime_mode, runtime_state, request_mode_change, set_dualsense_active,
  receive_raw_autonomy, receive_raw_manual, restart_link,
}
use ros_pre_runner.CommandSupervisor.Calls.{
  Call, control, ticked, runtime, mode_request, pad, raw_autonomy, raw_manual, restarted,
  speed_limit, or_kept, call, run,
}
use ros_pre_runner.CommandSupervisor.Sound.{
  IsSound, step-IsSound, free-IsSound, clear_manual-IsSound, expire_lease-IsSound,
  expire_manual-IsSound,
}

module _ {F : Type 0} where
  -- A new state under the same lease, with what its manual control needs.
  relinked-IsSound :
      (c : Supervisor F) (s : PaddockState F) (d : Option (ManualDemand F)) (t : Option F)
      → IsConsistent s
      → lease_active s ≡ lease_active c.state
      → (s.is_manual_active ≡ true → is_some d ≡ true)
      → (s.is_manual_active ≡ true → is_some t ≡ true)
      → IsSound c
      → IsSound (record c { state = s; manual_demand = d; last_manual_input_at = t })
  relinked-IsSound c s d t k same m n h = record {
    consistent = k;
    receive_known = λ p. h.receive_known (cc);
    sequence_known = λ p. h.sequence_known (cc);
    lapsed_free = λ p. same ∙ h.lapsed_free p;
    demand_known = m;
    input_known = n;
  }

  -- The receive time and the sequence number of an event are noted.
  noted-IsSound :
      (c : Supervisor F) (now : F) (n : ℕ)
      → IsSound c
      → IsSound (record c { last_lease_receive_at = some now; last_control_sequence = some n })
  noted-IsSound c now n h = record {
    consistent = h.consistent;
    receive_known = λ p. refl;
    sequence_known = λ p. refl;
    lapsed_free = h.lapsed_free;
    demand_known = h.demand_known;
    input_known = h.input_known;
  }

module _ {F : Type 0} ⦃fl : Float F⦄ where
  finish-IsSound :
      (c : Supervisor F) (i : ControlInput F) (now : F) → IsSound c → IsSound (finish c i now).0
  unfolding finish
  finish-IsSound c i now h = clear_manual-IsSound c h

  on_goal_selected-IsSound :
      (c : Supervisor F) (i : ControlInput F) (now : F)
      → IsSound c
      → IsSound (on_goal_selected c i now).0
  unfolding on_goal_selected refuse finish
  on_goal_selected-IsSound c i now h =
      if_both (λ (t : Answered F). IsSound t.0)
        (not (fl.is_finite i.goal_x && (fl.is_finite i.goal_y && fl.is_finite i.goal_yaw))) (λ p. h)
        (λ p. clear_manual-IsSound _ (step-IsSound c StateMachine.select_goal _ refl refl h))

  -- MANUAL_ACTIVE, with the transition in front of its branch.
  manual_demand-IsSound :
      (c : Supervisor F) (i : ControlInput F) (now : F)
      → owns_lease c.state i.lease_id ≡ true
      → IsSound c
      → IsSound (after_manual_active (step c StateMachine.manual_active i.lease_id) i now).0
  unfolding after_manual_active refuse step
  manual_demand-IsSound c i now own h =
      let j : Inputs F = record no_inputs { lease_id = i.lease_id } in
      let s = (transition c.state StateMachine.manual_active j).state in
      let k = transition-IsConsistent c.state StateMachine.manual_active j h.consistent in
      let same = lease_active-transition c.state StateMachine.manual_active j refl in
      let own' = owns_lease-transition c.state StateMachine.manual_active j i.lease_id refl own in
      if_both (λ (t : Answered F). IsSound t.0)
        (not (fl.is_finite i.manual_speed_mps && fl.is_finite i.manual_steering))
        (λ p.
          let off = manual_inactive-owned s j own' in
          relinked-IsSound c _ _ _ (transition-IsConsistent s StateMachine.manual_inactive j k)
            (lease_active-transition s StateMachine.manual_inactive j refl ∙ same) (λ q. cc)
            (λ q. cc) h)
        (λ p.
          if_both (λ (t : Answered F). IsSound t.0)
            (not (authority_eq (authority s) paddock_manual))
            (λ q.
              relinked-IsSound c _ _ _ k same
                (λ m. cc (ap (λ a. not (authority_eq a paddock_manual)) (manual-authority s k m)))
                (λ m. cc (ap (λ a. not (authority_eq a paddock_manual)) (manual-authority s k m)))
                h)
            (λ q. relinked-IsSound c _ _ _ k same (λ m. refl) (λ m. refl) h))

  accept_event-IsSound :
      (e : ControlEvent) (c : Supervisor F) (i : ControlInput F) (now : F)
      → owns_lease c.state i.lease_id ≡ true
      → IsSound c
      → IsSound (accept_event e c i now).0
  unfolding accept_event
  accept_event-IsSound ControlEvent.heartbeat c i now own h = h
  accept_event-IsSound ControlEvent.clear_stop c i now own h = step-IsSound c _ _ refl refl h
  accept_event-IsSound ControlEvent.goal_selected c i now own h = on_goal_selected-IsSound c i now h
  accept_event-IsSound ControlEvent.manual_active c i now own h =
      manual_demand-IsSound c i now own h
  accept_event-IsSound ControlEvent.manual_inactive c i now own h =
      let j : Inputs F = record no_inputs { lease_id = i.lease_id } in
      let off = manual_inactive-owned c.state j own in
      clear_manual-IsSound _ (
        relinked-IsSound c _ _ _
          (transition-IsConsistent c.state StateMachine.manual_inactive j h.consistent)
          (lease_active-transition c.state StateMachine.manual_inactive j refl) (λ q. cc) (λ q. cc)
          h)
  accept_event-IsSound ControlEvent.lease_released c i now own h = clear_manual-IsSound _ (
      free-IsSound _ (transition-IsConsistent c.state release_lease _ h.consistent)
        (drop_lease-owned c.state _ own).0 (drop_lease-owned c.state _ own).1)
  accept_event-IsSound ControlEvent.lease_lost c i now own h = clear_manual-IsSound _ (
      free-IsSound _ (transition-IsConsistent c.state lose_lease _ h.consistent)
        (lose_lease-owned c.state _ own).0 (lose_lease-owned c.state _ own).1)
  accept_event-IsSound ControlEvent.lease_acquired c i now own h = clear_manual-IsSound c h
  accept_event-IsSound ControlEvent.run_pressed c i now own h =
      clear_manual-IsSound _ (step-IsSound c _ _ refl refl h)
  accept_event-IsSound ControlEvent.run_released c i now own h =
      clear_manual-IsSound _ (step-IsSound c _ _ refl refl h)
  accept_event-IsSound ControlEvent.stop c i now own h =
      clear_manual-IsSound _ (step-IsSound c _ _ refl refl h)

  is_owner-owns :
      (c : Supervisor F) (i : ControlInput F)
      → is_owner c i ≡ true
      → owns_lease c.state i.lease_id ≡ true
  unfolding is_owner owns_lease
  is_owner-owns c i p = ground arith

  owned_event-IsSound :
      (c : Supervisor F) (i : ControlInput F) (now : F)
      → IsSound c
      → IsSound (owned_event c i now).0
  unfolding owned_event refuse
  owned_event-IsSound c i now h =
      if_both (λ (t : Answered F). IsSound t.0) (not (is_owner c i)) (λ p. h)
        λ p.
          if_both (λ (t : Answered F). IsSound t.0) (is_stale c.last_control_sequence i.sequence)
            (λ q. h)
            λ q.
              if_both (λ (t : Answered F). IsSound t.0) (not (supported i.event)) (λ r. h)
                λ r.
                  accept_event-IsSound i.event _ i now (is_owner-owns c i (ground arith))
                    (noted-IsSound c now i.sequence h)

  granted-IsSound :
      (c : Supervisor F) (i : ControlInput F) (reason : String) (now : F)
      → IsSound c
      → IsSound (granted (acquired_state c i) reason c i now).0
  unfolding granted acquired_state
  granted-IsSound c i reason now h =
      let j : Inputs F = record no_inputs { client_id = i.client_id; lease_id = i.lease_id } in
      record {
        consistent = transition-IsConsistent c.state StateMachine.acquire_lease j h.consistent;
        receive_known = λ p. refl;
        sequence_known = λ p. refl;
        lapsed_free = λ p. cc;
        demand_known =
            λ p. h.demand_known (manual-transition c.state StateMachine.acquire_lease j refl p);
        input_known =
            λ p. h.input_known (manual-transition c.state StateMachine.acquire_lease j refl p);
      }

  lease_event-IsSound :
      (c : Supervisor F) (i : ControlInput F) (now : F)
      → IsSound c
      → IsSound (lease_event c i now).0
  unfolding lease_event refuse
  lease_event-IsSound c i now h =
      if_both (λ (t : Answered F). IsSound t.0) (is_lease_acquired i.event)
        (λ p.
          if_both (λ (t : Answered F). IsSound t.0) (lease_active c.state) (λ q. h)
            λ q.
              if_both (λ (t : Answered F). IsSound t.0) (state_eq (acquired_state c i) c.state)
                (λ r. h) λ r. granted-IsSound c i "LEASE_ACQUIRED" now h)
        (λ p. owned_event-IsSound c i now h)

  pub link_event-IsSound :
      (c : Supervisor F) (i : ControlInput F) (now : F) → IsSound c → IsSound (link_event c i now).0
  unfolding link_event
  link_event-IsSound c i now h =
      if_both (λ (t : Answered F). IsSound t.0) (reinstates c i)
        (λ p.
          if_both (λ (t : Answered F). IsSound t.0) (not (state_eq (acquired_state c i) c.state))
            (λ q. granted-IsSound c i "LEASE_REINSTATED" now h)
            (λ q. lease_event-IsSound c i now h))
        (λ p. lease_event-IsSound c i now h)

  runtime_state-IsConsistent :
      (s : PaddockState F) (mode : Mode) (map : String) (stable : Bool)
      → IsConsistent s
      → IsConsistent (runtime_state s mode map stable)
  unfolding runtime_state lease_active autonomy_permitted
  runtime_state-IsConsistent s mode map stable h =
      ground (arith, Fits-renamed s.mode (lease_active s) map s.active_autonomy_map s.goal)

  manual-runtime_state :
      (s : PaddockState F) (mode : Mode) (map : String) (stable : Bool)
      → (runtime_state s mode map stable).is_manual_active ≡ true
      → s.is_manual_active ≡ true
  unfolding runtime_state
  manual-runtime_state s mode map stable h = ground arith

  lease-runtime_state :
      (s : PaddockState F) (mode : Mode) (map : String) (stable : Bool)
      → lease_active (runtime_state s mode map stable) ≡ lease_active s
  unfolding runtime_state lease_active
  lease-runtime_state s mode map stable = refl

  raw_autonomy-IsSound :
      (c : Supervisor F) (t : Option F)
      → IsSound c
      → IsSound (record c { last_raw_autonomy_at = t })
  raw_autonomy-IsSound c t h = record {
    consistent = h.consistent;
    receive_known = h.receive_known;
    sequence_known = h.sequence_known;
    lapsed_free = h.lapsed_free;
    demand_known = h.demand_known;
    input_known = h.input_known;
  }

  raw_manual-IsSound :
      (c : Supervisor F) (t : Option F) → IsSound c → IsSound (record c { last_raw_manual_at = t })
  raw_manual-IsSound c t h = record {
    consistent = h.consistent;
    receive_known = h.receive_known;
    sequence_known = h.sequence_known;
    lapsed_free = h.lapsed_free;
    demand_known = h.demand_known;
    input_known = h.input_known;
  }

  receive_raw_autonomy-IsSound :
      (c : Supervisor F) (command : VelocityCommand F) (now : F)
      → IsSound c
      → IsSound (receive_raw_autonomy c command now).0
  unfolding receive_raw_autonomy
  receive_raw_autonomy-IsSound c command now h =
      let k = expire_lease-IsSound c now h in
      if_both (λ (t : Answered F). IsSound t.0) (not (command_valid command))
        (λ p. raw_autonomy-IsSound _ none k) (λ p. raw_autonomy-IsSound _ (some now) k)

  receive_raw_manual-IsSound :
      (c : Supervisor F) (command : VelocityCommand F) (sequence : ℕ) (now : F)
      → IsSound c
      → IsSound (receive_raw_manual c command sequence now).0
  unfolding receive_raw_manual
  receive_raw_manual-IsSound c command sequence now h =
      let c' = (expire_manual (expire_lease c now).0 now).0 in
      let k = expire_manual-IsSound _ now (expire_lease-IsSound c now h) in
      if_both (λ (t : Answered F). IsSound t.0)
        (not (command_valid command) || not_current c'.manual_demand sequence) (λ p. k)
        (λ p. raw_manual-IsSound _ (some now) k)

  pub init-state :
      (g : Settings F) (c : Supervisor F) → init g ≡ ok c → c.state ≡ initial g.active_autonomy_map
  unfolding init
  init-state g c e = ground arith

  speed_limit-IsSound :
      (c : Supervisor F) (value : F)
      → IsSound c
      → IsSound (or_kept c (set_manual_max_speed_mps c value))
  unfolding or_kept set_manual_max_speed_mps
  speed_limit-IsSound c value h =
      if_both (λ (s : Option (Supervisor F)). IsSound (or_kept c s))
        (not (manual_speed_ceiling_valid value c.minimum_moving_speed_mps)) (λ p. h)
        (λ p. record {
          consistent = h.consistent;
          receive_known = h.receive_known;
          sequence_known = h.sequence_known;
          lapsed_free = h.lapsed_free;
          demand_known = h.demand_known;
          input_known = h.input_known;
        })

  -- Every call keeps the supervisor sound.
  pub call-IsSound : (c : Supervisor F) (k : Call F) (now : F) → IsSound c → IsSound (call c k now)
  unfolding call handle_control_event
  call-IsSound c (control i) now h = link_event-IsSound _ i now (expire_lease-IsSound c now h)
  call-IsSound c ticked now h =
      unfold tick in expire_manual-IsSound _ now (expire_lease-IsSound c now h)
  call-IsSound c (runtime mode map stable) now h =
      let k = expire_lease-IsSound c now h in
      let s = (expire_lease c now).0.state in
      unfold set_runtime_mode in
      clear_manual-IsSound _ (
        relinked-IsSound _ _ _ _ (runtime_state-IsConsistent s mode map stable k.consistent)
          (lease-runtime_state s mode map stable)
          (λ p. k.demand_known (manual-runtime_state s mode map stable p))
          (λ p. k.input_known (manual-runtime_state s mode map stable p)) k)
  call-IsSound c (mode_request mode request l) now h =
      unfold request_mode_change in step-IsSound _ _ _ refl refl (expire_lease-IsSound c now h)
  call-IsSound c (pad true) now h =
      unfold set_dualsense_active in
      clear_manual-IsSound _ (step-IsSound _ _ _ refl refl (expire_lease-IsSound c now h))
  call-IsSound c (pad false) now h =
      unfold set_dualsense_active in
      clear_manual-IsSound _ (step-IsSound _ _ _ refl refl (expire_lease-IsSound c now h))
  call-IsSound c (raw_autonomy command) now h = receive_raw_autonomy-IsSound c command now h
  call-IsSound c (raw_manual command sequence) now h =
      receive_raw_manual-IsSound c command sequence now h
  call-IsSound c restarted now h =
      unfold restart_link in
      free-IsSound _ (transition-IsConsistent c.state StateMachine.restart no_inputs h.consistent)
        (restart-free c.state).0 (restart-free c.state).1
  call-IsSound c (speed_limit value) now h = speed_limit-IsSound c value h

  run_from-IsSound :
      (c : Supervisor F) (calls : List (Call F × F)) → IsSound c → IsSound (run c calls)
  unfolding run
  run_from-IsSound c [] h = h
  run_from-IsSound c ((k, now) ∷ rest) h =
      run_from-IsSound (call c k now) rest (call-IsSound c k now h)

  pub init-IsSound : (g : Settings F) (c : Supervisor F) → init g ≡ ok c → IsSound c
  unfolding init lease_active
  init-IsSound g c e =
      free-IsSound c (rw (init-state g c e) (IsConsistent-initial g.active_autonomy_map))
        (rw (init-state g c e) refl) (rw (init-state g c e) refl)

  -- Whatever settings the constructor accepted, and after any calls with any clock: the state is
  -- consistent, a held lease has a receive time and a sequence number, a lapsed lease waits only
  -- while none is held, and manual control has a demand and an input time.
  pub run-IsSound :
      (g : Settings F) (c : Supervisor F) (calls : List (Call F × F))
      → init g ≡ ok c
      → IsSound (run c calls)
  run-IsSound g c calls e = run_from-IsSound c calls (init-IsSound g c e)
