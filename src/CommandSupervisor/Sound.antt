-- ===== src/CommandSupervisor/Sound.antt =====
-- What holds of a `CommandSupervisor` between two calls.
use ros_pre_runner.Prelude.{
  if_both, ◌∙◌, ◌&&◌, ◌∙◌, ◌≡◌, refl, Bool, true, false, not, none, arith, is_some, if◌then◌else◌,
}
use ros_pre_runner.Prelude.Float.{Float}
use ros_pre_runner.StateMachine.{
  PaddockState, Event, Inputs, transition, lease_active, lose_lease, manual_inactive, no_inputs,
}
use ros_pre_runner.StateMachine.Invariant.{IsConsistent, transition-IsConsistent}
use ros_pre_runner.StateMachine.Frame.{
  moves_lease, starts_manual, lease_active-transition, manual-transition, lose_lease-own,
  manual_inactive-own,
}
use ros_pre_runner.CommandSupervisor.State.{Supervisor}
use ros_pre_runner.CommandSupervisor.Clock.{
  expire_lease, expire_manual, clear_manual_if_inactive, lease_is_live, manual_is_fresh,
}

module _ {F : Type 0} where
  pub record IsSound (c : Supervisor F) : Type 0 where
    pub consistent : IsConsistent c.state
    -- A lease has a time of its last event and a sequence number to follow.
    pub receive_known : lease_active c.state ≡ true → is_some c.last_lease_receive_at ≡ true
    pub sequence_known : lease_active c.state ≡ true → is_some c.last_control_sequence ≡ true
    -- A lapsed lease waits only while no lease is held.
    pub lapsed_free : is_some c.lapsed_lease ≡ true → lease_active c.state ≡ false
    -- Manual control has a demand and a time.
    pub demand_known : c.state.is_manual_active ≡ true → is_some c.manual_demand ≡ true
    pub input_known : c.state.is_manual_active ≡ true → is_some c.last_manual_input_at ≡ true

  -- An event that moves no lease and starts no manual control.
  pub step-IsSound :
      (c : Supervisor F) (e : Event) (i : Inputs F)
      → moves_lease e ≡ false
      → starts_manual e ≡ false
      → IsSound c
      → IsSound (record c { state = (transition c.state e i).state })
  step-IsSound c e i m n h =
      let same = lease_active-transition c.state e i m in
      record {
        consistent = transition-IsConsistent c.state e i h.consistent;
        receive_known = λ p. h.receive_known (cc);
        sequence_known = λ p. h.sequence_known (cc);
        lapsed_free = λ p. same ∙ h.lapsed_free p;
        demand_known = λ p. h.demand_known (manual-transition c.state e i n p);
        input_known = λ p. h.input_known (manual-transition c.state e i n p);
      }

  clear_manual_on :
      (b : Bool) (c : Supervisor F)
      → c.state.is_manual_active ≡ b
      → IsSound c
      → IsSound
          (if not b then record c { manual_demand = none; last_manual_input_at = none } else c)
  clear_manual_on true c e h = h
  clear_manual_on false c e h = record {
    consistent = h.consistent;
    receive_known = h.receive_known;
    sequence_known = h.sequence_known;
    lapsed_free = h.lapsed_free;
    demand_known = λ p. cc;
    input_known = λ p. cc;
  }

  -- A state with no lease, and so no manual control, asks for nothing.
  pub free-IsSound :
      (c : Supervisor F)
      → IsConsistent c.state
      → lease_active c.state ≡ false
      → c.state.is_manual_active ≡ false
      → IsSound c
  free-IsSound c h f m = record {
    consistent = h;
    receive_known = λ p. cc;
    sequence_known = λ p. cc;
    lapsed_free = λ p. f;
    demand_known = λ p. cc;
    input_known = λ p. cc;
  }

module _ {F : Type 0} ⦃fl : Float F⦄ where
  pub clear_manual-IsSound : (c : Supervisor F) → IsSound c → IsSound (clear_manual_if_inactive c)
  unfolding clear_manual_if_inactive
  clear_manual-IsSound c h = clear_manual_on c.state.is_manual_active c refl h

  abbrev lost : Supervisor F → PaddockState F
  lost c = (transition c.state lose_lease (record no_inputs { lease_id = c.state.lease_id })).state

  pub expire_lease-IsSound :
      (c : Supervisor F) (now : F) → IsSound c → IsSound (expire_lease c now).0
  unfolding expire_lease
  expire_lease-IsSound c now h =
      if_both (λ (t : Supervisor F × Bool). IsSound t.0)
        (lease_active c.state && not (lease_is_live c now))
        (λ p.
          let own = lose_lease-own c.state (ground arith) in
          clear_manual-IsSound _ (
            free-IsSound _ (transition-IsConsistent c.state lose_lease _ h.consistent) own.0 own.1))
        (λ p. h)

  stopped-IsSound :
      (c : Supervisor F)
      → c.state.is_manual_active ≡ true
      → IsSound c
      → IsSound (record c {
        state =
            (transition c.state manual_inactive
              (record no_inputs { lease_id = c.state.lease_id })).state;
        manual_demand = none;
        last_manual_input_at = none;
      })
  stopped-IsSound c a h =
      let i : Inputs F = record no_inputs { lease_id = c.state.lease_id } in
      let off = manual_inactive-own c.state (h.consistent.manual_leased a) in
      let k = step-IsSound c manual_inactive i refl refl h in
      record {
        consistent = k.consistent;
        receive_known = k.receive_known;
        sequence_known = k.sequence_known;
        lapsed_free = k.lapsed_free;
        demand_known = λ p. cc;
        input_known = λ p. cc;
      }

  pub expire_manual-IsSound :
      (c : Supervisor F) (now : F) → IsSound c → IsSound (expire_manual c now).0
  unfolding expire_manual
  expire_manual-IsSound c now h =
      if_both (λ (t : Supervisor F × Bool). IsSound t.0)
        (c.state.is_manual_active && not (manual_is_fresh c now))
        (λ p. stopped-IsSound c (ground arith) h) (λ p. h)
