-- ===== src/Gateway/Link/Calls.antt =====
-- What the calls of src/runner_paddock/runner_paddock/command_supervisor.py other than control events leave of
-- the link to the gateway.
use ros_pre_runner.Prelude.{
  ◌⊎◌, inl, inr, ℕ, String, Bool, true, false, not, ◌&&◌, ◌||◌, some, ◌≡◌, refl, sym, ◌∙◌, inl, inr,
  if_both, arith,
}
use mathlib.Core.Path.{subst}
use ros_pre_runner.Prelude.Float.{Float}
use ros_pre_runner.StateMachine.{
  Mode, PaddockState, Event, acquire_lease, Inputs, transition, lease_active, nonempty, no_inputs,
  request_mode, dualsense_active, dualsense_inactive, manual_inactive,
}
use ros_pre_runner.StateMachine.Frame.{moves_lease, lease_id-transition, lose_lease-own}
use ros_pre_runner.CommandSupervisor.{
  set_manual_max_speed_mps, manual_speed_ceiling_valid, Supervisor, step, clear_manual_if_inactive,
  expire_manual, expire_lease, manual_is_fresh, lease_is_live, tick, set_runtime_mode,
  request_mode_change, set_dualsense_active, receive_raw_autonomy, receive_raw_manual,
  command_valid, not_current, runtime_state, VelocityCommand, Answered,
}
use ros_pre_runner.CommandSupervisor.Calls.{
  Call, control, ticked, runtime, mode_request, pad, raw_autonomy, raw_manual, restarted,
  speed_limit, or_kept, call,
}
use ros_pre_runner.Gateway.Protocol.{View, free, held}
use ros_pre_runner.Gateway.Link.{Option, Link, link, IsLinked}

module _ {F : Type 0} where
  client_id-transition :
      (s : PaddockState F) (e : Event) (i : Inputs F)
      → moves_lease e ≡ false
      → (transition s e i).state.lease_client_id ≡ s.lease_client_id
  unfolding transition
  client_id-transition s acquire_lease i m = cc
  client_id-transition s _ i m = ground arith

module _ {F : Type 0} ⦃fl : Float F⦄ where
  -- Another state with the same lease is the same link.
  pub link-restate :
      (c : Supervisor F) (e : Event) (i : Inputs F)
      → moves_lease e ≡ false
      → link (record c { state = (transition c.state e i).state }) ≡ link c
  link-restate c e i m =
      rw (client_id-transition c.state e i m, lease_id-transition c.state e i m) refl

  pub link-clear_manual : (c : Supervisor F) → link (clear_manual_if_inactive c) ≡ link c
  unfolding clear_manual_if_inactive
  link-clear_manual c =
      if_both (λ (t : Supervisor F). link t ≡ link c) (not c.state.is_manual_active) (λ p. refl)
        (λ p. refl)

  pub link-step :
      (c : Supervisor F) (e : Event) (l : String)
      → moves_lease e ≡ false
      → link (step c e l) ≡ link c
  unfolding step
  link-step c e l m = link-restate c e (record no_inputs { lease_id = l }) m

  link-expire_manual : (c : Supervisor F) (now : F) → link (expire_manual c now).0 ≡ link c
  unfolding expire_manual
  link-expire_manual c now =
      if_both (λ (t : Supervisor F × Bool). link t.0 ≡ link c)
        (c.state.is_manual_active && not (manual_is_fresh c now))
        (λ p. link-restate c manual_inactive _ refl) (λ p. refl)

  expired-IsLinked :
      (v : View) (c : Supervisor F) (k : Link)
      → lease_active c.state ≡ true
      → nonempty k.lease ≡ false
      → k.lapsed ≡ some (c.state.lease_client_id, c.state.lease_id)
      → IsLinked v (link c)
      → IsLinked v k
  unfolding IsLinked lease_active
  expired-IsLinked (free n) c k a e l h = e
  expired-IsLinked (held owner n client lease run manual) c k a e l (s, inl f) =
      (s, inr (e, l ∙ rw (f.0, f.1) refl))
  expired-IsLinked (held owner n client lease run manual) c k a e l (s, inr f) =
      absurd (cc (a, f.0))

  -- What expires becomes the lapsed lease of the link.
  pub expire_lease-IsLinked :
      (v : View) (c : Supervisor F) (now : F)
      → IsLinked v (link c)
      → IsLinked v (link (expire_lease c now).0)
  unfolding expire_lease
  expire_lease-IsLinked v c now h =
      if_both (λ (t : Supervisor F × Bool). IsLinked v (link t.0))
        (lease_active c.state && not (lease_is_live c now))
        (λ p.
          subst (IsLinked v) (sym (link-clear_manual _)) (
            expired-IsLinked v c _ (ground arith) (lose_lease-own c.state (ground arith)).0 refl h))
        (λ p. h)

  -- Neither a control event nor a restart
  abbrev pub is_between : Call F → Bool
  is_between (control i) = false
  is_between restarted = false
  is_between _ = true

  link-receive_raw_autonomy :
      (c : Supervisor F) (command : VelocityCommand F) (now : F)
      → link (receive_raw_autonomy c command now).0 ≡ link (expire_lease c now).0
  unfolding receive_raw_autonomy
  link-receive_raw_autonomy c command now =
      if_both (λ (t : Answered F). link t.0 ≡ link (expire_lease c now).0)
        (not (command_valid command)) (λ p. refl) (λ p. refl)

  link-receive_raw_manual :
      (c : Supervisor F) (command : VelocityCommand F) (n : ℕ) (now : F)
      → link (receive_raw_manual c command n now).0 ≡ link (expire_lease c now).0
  unfolding receive_raw_manual
  link-receive_raw_manual c command n now =
      let e = (expire_lease c now).0 in
      let m = (expire_manual e now).0 in
      if_both (λ (t : Answered F). link t.0 ≡ link e)
        (not (command_valid command) || not_current m.manual_demand n)
        (λ p. link-expire_manual e now) (λ p. link-expire_manual e now)

  link-tick : (c : Supervisor F) (now : F) → link (tick c now).0 ≡ link (expire_lease c now).0
  unfolding tick
  link-tick c now = link-expire_manual (expire_lease c now).0 now

  link-set_runtime_mode :
      (c : Supervisor F) (mode : Mode) (map : String) (stable : Bool) (now : F)
      → link (set_runtime_mode c mode map stable now).0 ≡ link (expire_lease c now).0
  unfolding set_runtime_mode runtime_state
  link-set_runtime_mode c mode map stable now =
      let e = (expire_lease c now).0 in
      link-clear_manual (record e { state = runtime_state e.state mode map stable })

  link-request_mode_change :
      (c : Supervisor F) (mode : Mode) (request : ℕ) (l : String) (now : F)
      → link (request_mode_change c mode request l now).0 ≡ link (expire_lease c now).0
  unfolding request_mode_change
  link-request_mode_change c mode request l now =
      link-restate (expire_lease c now).0 request_mode _ refl

  link-pad :
      (c : Supervisor F) (active : Bool) (now : F)
      → link (set_dualsense_active c active now).0 ≡ link (expire_lease c now).0
  unfolding set_dualsense_active
  link-pad c true now =
      let e = (expire_lease c now).0 in
      link-clear_manual (record e { state = (transition e.state dualsense_active no_inputs).state })
      ∙ link-restate e dualsense_active no_inputs refl
  link-pad c false now =
      let e = (expire_lease c now).0 in
      link-clear_manual
        (record e { state = (transition e.state dualsense_inactive no_inputs).state })
      ∙ link-restate e dualsense_inactive no_inputs refl

  link-speed_limit :
      (c : Supervisor F) (value : F) → link (or_kept c (set_manual_max_speed_mps c value)) ≡ link c
  unfolding or_kept set_manual_max_speed_mps
  link-speed_limit c value =
      if_both (λ (s : Option (Supervisor F)). link (or_kept c s) ≡ link c)
        (not (manual_speed_ceiling_valid value c.minimum_moving_speed_mps)) (λ p. refl) (λ p. refl)

  link-call :
      (c : Supervisor F) (k : Call F) (now : F)
      → is_between k ≡ true
      → (link (call c k now) ≡ link (expire_lease c now).0) ⊎ (link (call c k now) ≡ link c)
  unfolding call
  link-call c (control i) now o = absurd (cc)
  link-call c ticked now o = inl (link-tick c now)
  link-call c (runtime mode map stable) now o = inl (link-set_runtime_mode c mode map stable now)
  link-call c (mode_request mode request l) now o =
      inl (link-request_mode_change c mode request l now)
  link-call c (pad active) now o = inl (link-pad c active now)
  link-call c (raw_autonomy command) now o = inl (link-receive_raw_autonomy c command now)
  link-call c (raw_manual command n) now o = inl (link-receive_raw_manual c command n now)
  link-call c restarted now o = absurd (cc)
  link-call c (speed_limit value) now o = inr (link-speed_limit c value)

  pub call-IsLinked :
      (v : View) (c : Supervisor F) (k : Call F) (now : F)
      → is_between k ≡ true
      → IsLinked v (link c)
      → IsLinked v (link (call c k now))
  call-IsLinked v c k now o h = elim (link-call c k now o) [
    | inl e ↦ subst (IsLinked v) (sym e) (expire_lease-IsLinked v c now h)
    | inr e ↦ subst (IsLinked v) (sym e) h
  ]
