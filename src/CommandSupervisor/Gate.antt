-- ===== src/CommandSupervisor/Gate.antt =====
-- Which velocity samples a `CommandSupervisor` forwards to the vehicle.
use ros_pre_runner.Prelude.{
  ◌&&◌, none, ◌||◌, not, String, refl, Option, ℕ, Bool-cases, inl, inr, ◌≡◌, ◌≢◌, ◌↔◌, true, false,
  some, arith, is_some,
}
use ros_pre_runner.Prelude.Float.{Float}
use ros_pre_runner.StateMachine.{
  idle, autonomy, PaddockState, lease_active, authority, autonomy_permitted, paddock_autonomy,
  paddock_manual,
}
use ros_pre_runner.CommandSupervisor.State.{
  ManualDemand, command_valid, Supervisor, VelocityCommand,
}
use ros_pre_runner.CommandSupervisor.Clock.{
  expire_manual, reason_text, raw_manual_is_fresh, autonomy_open, manual_open, expire_lease,
  manual_is_fresh, lease_is_fresh, raw_is_fresh, snapshot,
}
use ros_pre_runner.CommandSupervisor.Inputs.{
  not_current, take_manual, receive_raw_manual, forward_manual, receive_raw_autonomy,
  forward_autonomy,
}

module _ {F : Type 0} where
  -- What the operator must have done, and still be doing, for autonomous motion.
  pub record IsDriving (s : PaddockState F) : Type 0 where
    pub mode : s.mode ≡ autonomy
    pub leased : lease_active s ≡ true
    pub held : s.run_held ≡ true
    pub armed : s.run_blocked_until_release ≡ false
    pub pad_idle : s.is_dualsense_active ≡ false
    pub manual_idle : s.is_manual_active ≡ false
    pub goal_chosen : is_some s.goal ≡ true

  authority-IsDriving : (s : PaddockState F) → authority s ≡ paddock_autonomy → IsDriving s
  unfolding authority lease_active
  authority-IsDriving s h = ground arith

  IsDriving-authority :
      (s : PaddockState F)
      → IsDriving s
      → (authority s ≡ paddock_autonomy) × (autonomy_permitted s ≡ true)
  unfolding authority lease_active autonomy_permitted
  IsDriving-authority s h = ground arith

  pub record IsSteering (s : PaddockState F) : Type 0 where
    pub moving : s.mode ≢ idle
    pub leased : lease_active s ≡ true
    pub pad_idle : s.is_dualsense_active ≡ false
    pub manual_held : s.is_manual_active ≡ true

  authority-IsSteering : (s : PaddockState F) → authority s ≡ paddock_manual → IsSteering s
  unfolding authority lease_active
  authority-IsSteering s h = ground arith

  IsSteering-authority : (s : PaddockState F) → IsSteering s → authority s ≡ paddock_manual
  unfolding authority lease_active
  IsSteering-authority s h = ground arith

module _ {F : Type 0} ⦃fl : Float F⦄ where
  forward_autonomy_exact :
      (c : Supervisor F) (command x : VelocityCommand F) (now : F)
      → ((forward_autonomy c command now).autonomy_command ≡ some x) ↔ (
          (command ≡ x)
          × (authority c.state ≡ paddock_autonomy)
          × (autonomy_permitted c.state ≡ true)
          × (lease_is_fresh c now ≡ true)
          × (raw_is_fresh c now ≡ true))
  unfolding forward_autonomy snapshot
  forward_autonomy_exact c command x now = (λ h. ground arith, λ h. ground arith)

  -- A raw sample of the stream that may move the vehicle is fresh: the manual one, or the autonomous one
  -- while RUN permits it under a fresh lease.
  abbrev pub HasSample : Supervisor F → F → Type 0
  HasSample c now =
      (raw_manual_is_fresh c now
        || (autonomy_permitted c.state && (lease_is_fresh c now && raw_is_fresh c now)))
      ≡ true

  brake-snapshot :
      (c : Supervisor F) (now : F) (reason : String)
      → authority c.state ≡ paddock_manual
      → manual_is_fresh c now ≡ true
      → ((snapshot c now reason).brake_intent ≡ false) ↔ HasSample c now
  unfolding snapshot autonomy_open manual_open
  brake-snapshot c now reason h m = (λ b. ground arith, λ b. ground arith)

  forward_manual_exact :
      (c : Supervisor F) (command x : VelocityCommand F) (now : F)
      → ((forward_manual c command now).manual_command ≡ some x) ↔ (
          (command ≡ x)
          × (authority c.state ≡ paddock_manual)
          × (manual_is_fresh c now ≡ true)
          × HasSample c now)
  unfolding forward_manual
  forward_manual_exact c command x now =
      let reason = reason_text c now in
      (
        (λ h.
            let (e, a, m, b) : (command ≡ x)
                × (authority c.state ≡ paddock_manual)
                × (manual_is_fresh c now ≡ true)
                × ((snapshot c now reason).brake_intent ≡ false) =
              ground arith in
            (e, a, m, (brake-snapshot c now reason a m).0 b)),
        (λ (e, a, m, s). let b = (brake-snapshot c now reason a m).1 s in ground arith),
      )

  -- A valid autonomy sample is forwarded, itself and unchanged, exactly while after the expiry of a
  -- dead lease the mode is AUTONOMY, a lease is held whose last event is within the motion deadman,
  -- RUN is held and armed, a goal is chosen, no pad and no manual control is active, and the sample is
  -- fresh; a sample with a component that is not finite never is.
  pub receive_raw_autonomy_exact :
      (c : Supervisor F) (command x : VelocityCommand F) (now : F)
      → let (c', r) = receive_raw_autonomy c command now in
        (r.autonomy_command ≡ some x) ↔ (
          (command ≡ x)
          × (command_valid command ≡ true)
          × IsDriving c'.state
          × (lease_is_fresh c' now ≡ true)
          × (raw_is_fresh c' now ≡ true))
  unfolding receive_raw_autonomy
  receive_raw_autonomy_exact c command x now =
      let c' = (expire_lease c now).0 in
      let c'' = record c' { last_raw_autonomy_at = some now } in
      let gate = forward_autonomy_exact c'' command x now in
      elim (Bool-cases (command_valid command)) [
        | inl valid ↦ rw valid (
          (λ h. let g = gate.0 h in (g.0, refl, authority-IsDriving c'.state g.1, g.3, g.4)),
          (λ h. let a = IsDriving-authority c'.state h.2 in gate.1 (h.0, a.0, a.1, h.3, h.4)),
        )
        | inr bad ↦ rw bad ((λ h. cc), (λ h. cc))
      ]

  -- The sample answers the demand that is current.
  abbrev pub Current : Option (ManualDemand F) → ℕ → Type 0
  Current none n = ⊥
  Current (some d) n = n ≡ d.sequence

  Current-iff : (d : Option (ManualDemand F)) (n : ℕ) → (not_current d n ≡ false) ↔ Current d n
  unfolding not_current
  Current-iff none n = ((λ h. cc), (λ h. absurd h))
  Current-iff (some d) n = ((λ h. ground arith), (λ h. ground arith))

  -- Behind the expiries.
  receive_exact :
      (c : Supervisor F) (command x : VelocityCommand F) (sequence : ℕ) (now : F)
      → let (c', r) = take_manual c command sequence now in
        (r.manual_command ≡ some x) ↔ (
          (command ≡ x)
          × (command_valid command ≡ true)
          × Current c'.manual_demand sequence
          × IsSteering c'.state
          × (manual_is_fresh c' now ≡ true)
          × HasSample c' now)
  unfolding take_manual
  receive_exact c command x sequence now =
      let c'' = record c { last_raw_manual_at = some now } in
      let gate = forward_manual_exact c'' command x now in
      elim (Bool-cases (not (command_valid command) || not_current c.manual_demand sequence)) [
        | inl bad ↦ rw bad (
          (λ h. cc),
          (λ h. let now_current = (Current-iff c.manual_demand sequence).1 h.2 in ground arith),
        )
        | inr good ↦ rw good (
          (λ h.
              let g = gate.0 h in
              (
                g.0,
                ground arith,
                (Current-iff c.manual_demand sequence).0 (ground arith),
                authority-IsSteering c.state g.1,
                g.2,
                g.3,
              )),
          (λ h. gate.1 (h.0, IsSteering-authority c.state h.3, h.4, h.5)),
        )
      ]

  -- A converted manual sample is forwarded, itself and unchanged, exactly while after the expiries of
  -- the lease and of the manual input it is valid and carries the sequence number of the current
  -- demand, a lease is held outside IDLE, manual control is active and no pad is, the demand's input is
  -- fresh, and so is, with the time of this sample noted, the last converted sample, or else the last
  -- autonomous one while RUN permits it under a fresh lease.
  pub receive_raw_manual_exact :
      (c : Supervisor F) (command x : VelocityCommand F) (sequence : ℕ) (now : F)
      → let (c', r) = receive_raw_manual c command sequence now in
        (r.manual_command ≡ some x) ↔ (
          (command ≡ x)
          × (command_valid command ≡ true)
          × Current c'.manual_demand sequence
          × IsSteering c'.state
          × (manual_is_fresh c' now ≡ true)
          × HasSample c' now)
  unfolding receive_raw_manual
  receive_raw_manual_exact c command x sequence now =
      let c' = (expire_manual (expire_lease c now).0 now).0 in
      receive_exact c' command x sequence now
