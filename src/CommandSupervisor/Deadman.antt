-- ===== src/CommandSupervisor/Deadman.antt =====
-- The deadmen of `tick`: how long a lease and a manual input outlive their last event.
use ros_pre_runner.Prelude.{
  ap, ◌≡◌, refl, sym, ◌∙◌, ◌&&◌, Bool, true, false, not, arith, if_both, Bool-cases, inl, inr,
}
use ros_pre_runner.Prelude.Float.{Float}
use ros_pre_runner.StateMachine.{PaddockState, lease_active, manual_inactive}
use ros_pre_runner.StateMachine.Frame.{lose_lease-own, manual_inactive-own, lease_active-transition}
use ros_pre_runner.CommandSupervisor.State.{Supervisor}
use ros_pre_runner.CommandSupervisor.Clock.{
  expire_lease, expire_manual, clear_manual_if_inactive, lease_is_live, manual_is_fresh,
}
use ros_pre_runner.CommandSupervisor.Inputs.{tick}
use ros_pre_runner.CommandSupervisor.Sound.{IsSound, expire_lease-IsSound}

module _ {F : Type 0} ⦃fl : Float F⦄ where
  pub state-clear_manual : (c : Supervisor F) → (clear_manual_if_inactive c).state ≡ c.state
  unfolding clear_manual_if_inactive
  state-clear_manual c =
      if_both (λ (t : Supervisor F). t.state ≡ c.state) (not c.state.is_manual_active) (λ p. refl)
        (λ p. refl)

  lease-expire_lease :
      (c : Supervisor F) (now : F) → lease_active (expire_lease c now).0.state ≡ lease_is_live c now
  unfolding expire_lease
  lease-expire_lease c now =
      if_both (λ (t : Supervisor F × Bool). lease_active t.0.state ≡ lease_is_live c now)
        (lease_active c.state && not (lease_is_live c now))
        (λ p.
          ap lease_active (state-clear_manual _)
          ∙ (lose_lease-own c.state (ground arith)).0
          ∙ sym (let dead : lease_is_live c now ≡ false = ground arith in dead))
        (λ p. ground arith)

  lease-expire_manual :
      (c : Supervisor F) (now : F)
      → lease_active (expire_manual c now).0.state ≡ lease_active c.state
  unfolding expire_manual
  lease-expire_manual c now =
      if_both (λ (t : Supervisor F × Bool). lease_active t.0.state ≡ lease_active c.state)
        (c.state.is_manual_active && not (manual_is_fresh c now))
        (λ p. lease_active-transition c.state manual_inactive _ refl) (λ p. refl)

  manual-expire_manual :
      (c : Supervisor F) (now : F)
      → IsSound c
      → (expire_manual c now).0.state.is_manual_active
        ≡ (c.state.is_manual_active && manual_is_fresh c now)
  unfolding expire_manual
  manual-expire_manual c now h =
      if_both
        (λ (t : Supervisor F × Bool).
          t.0.state.is_manual_active ≡ (c.state.is_manual_active && manual_is_fresh c now))
        (c.state.is_manual_active && not (manual_is_fresh c now))
        (λ p.
          manual_inactive-own c.state (h.consistent.manual_leased (ground arith))
          ∙ sym (
              let out : (c.state.is_manual_active && manual_is_fresh c now) ≡ false =
                ground arith in
              out))
        (λ p. ground arith)

  expire_lease-dead :
      (c : Supervisor F) (now : F)
      → IsSound c
      → lease_is_live c now ≡ false
      → (expire_lease c now).0.state.is_manual_active ≡ false
  unfolding expire_lease
  expire_lease-dead c now h d =
      if_both (λ (t : Supervisor F × Bool). t.0.state.is_manual_active ≡ false)
        (lease_active c.state && not (lease_is_live c now))
        (λ p.
          ap (λ (s : PaddockState F). s.is_manual_active) (state-clear_manual _)
          ∙ (lose_lease-own c.state (ground arith)).1)
        (λ p. ground arith)

  expire_lease-live :
      (c : Supervisor F) (now : F) → lease_is_live c now ≡ true → (expire_lease c now).0 ≡ c
  unfolding expire_lease
  expire_lease-live c now l = ground arith

  -- After a tick a lease is held exactly if its last event was within the liveness bound, and manual
  -- control is active exactly if it was, under such a lease, and its last demand is fresh: nothing
  -- outlives its deadman, and nothing is dropped before.
  pub tick-deadman :
      (c : Supervisor F) (now : F)
      → IsSound c
      → let s = (tick c now).0.state in
        (lease_active s ≡ lease_is_live c now)
        × (s.is_manual_active
            ≡ (c.state.is_manual_active && (lease_is_live c now && manual_is_fresh c now)))
  unfolding tick
  tick-deadman c now h =
      let e = (expire_lease c now).0 in
      let m = manual-expire_manual e now (expire_lease-IsSound c now h) in
      (
        lease-expire_manual e now ∙ lease-expire_lease c now,
        elim (Bool-cases (lease_is_live c now)) [
          | inl live ↦
              m
              ∙ ap (λ (x : Supervisor F). x.state.is_manual_active && manual_is_fresh x now)
                  (expire_lease-live c now live)
              ∙ rw live refl
          | inr dead ↦ let off = expire_lease-dead c now h dead in m ∙ ground arith
        ],
      )
