-- ===== src/StateMachine/Frame.antt =====
-- What the events of state_machine.py leave alone: the lease, and manual control.
use ros_pre_runner.StateMachine.Invariant.{IsConsistent}
use ros_pre_runner.StateMachine.State.{authority, paddock_manual}
use ros_pre_runner.Prelude.{String, ◌≡◌, refl, Bool, true, false, arith, eq_refl}
use ros_pre_runner.StateMachine.State.{
  Event, acquire_lease, release_lease, lose_lease, manual_active, manual_inactive, restart,
  PaddockState, lease_active,
}
use ros_pre_runner.StateMachine.Events.{Inputs, no_inputs, transition, owns_lease, on_drop_lease}

abbrev pub moves_lease : Event → Bool
moves_lease acquire_lease = true
moves_lease release_lease = true
moves_lease lose_lease = true
moves_lease restart = true
moves_lease _ = false

abbrev pub starts_manual : Event → Bool
starts_manual manual_active = true
starts_manual _ = false

module _ {F : Type 0} where
  pub lease_id-transition :
      (s : PaddockState F) (e : Event) (i : Inputs F)
      → moves_lease e ≡ false
      → (transition s e i).state.lease_id ≡ s.lease_id
  unfolding transition
  lease_id-transition s acquire_lease i m = cc
  lease_id-transition s _ i m = ground arith

  pub lease_active-transition :
      (s : PaddockState F) (e : Event) (i : Inputs F)
      → moves_lease e ≡ false
      → lease_active (transition s e i).state ≡ lease_active s
  unfolding lease_active
  lease_active-transition s e i m = rw (lease_id-transition s e i m)

  pub manual-transition :
      (s : PaddockState F) (e : Event) (i : Inputs F)
      → starts_manual e ≡ false
      → (transition s e i).state.is_manual_active ≡ true
      → s.is_manual_active ≡ true
  unfolding transition
  manual-transition s acquire_lease i m h = ground arith
  manual-transition s _ i m h = ground arith

  own-owns : (s : PaddockState F) → lease_active s ≡ true → owns_lease s s.lease_id ≡ true
  unfolding owns_lease
  own-owns s a = rw (a, eq_refl s.lease_id)

  on_drop_lease-owned :
      (s : PaddockState F) (l : String)
      → owns_lease s l ≡ true
      → (lease_active (on_drop_lease s l).state ≡ false)
        × ((on_drop_lease s l).state.is_manual_active ≡ false)
  unfolding on_drop_lease lease_active
  on_drop_lease-owned s l own = rw own (refl, refl)

  -- The loss of the lease that is held leaves no lease and no manual control.
  pub lose_lease-own :
      (s : PaddockState F)
      → lease_active s ≡ true
      → (lease_active (transition s lose_lease (record no_inputs { lease_id = s.lease_id })).state
          ≡ false)
        × ((transition s lose_lease
              (record no_inputs { lease_id = s.lease_id })).state.is_manual_active
            ≡ false)
  unfolding transition
  lose_lease-own s a = on_drop_lease-owned s s.lease_id (own-owns s a)

  pub drop_lease-owned :
      (s : PaddockState F) (i : Inputs F)
      → owns_lease s i.lease_id ≡ true
      → (lease_active (transition s release_lease i).state ≡ false)
        × ((transition s release_lease i).state.is_manual_active ≡ false)
  unfolding transition
  drop_lease-owned s i own = on_drop_lease-owned s i.lease_id own

  pub lose_lease-owned :
      (s : PaddockState F) (i : Inputs F)
      → owns_lease s i.lease_id ≡ true
      → (lease_active (transition s lose_lease i).state ≡ false)
        × ((transition s lose_lease i).state.is_manual_active ≡ false)
  unfolding transition
  lose_lease-owned s i own = on_drop_lease-owned s i.lease_id own

  pub restart-free :
      (s : PaddockState F)
      → (lease_active (transition s restart no_inputs).state ≡ false)
        × ((transition s restart no_inputs).state.is_manual_active ≡ false)
  unfolding transition lease_active
  restart-free s = (refl, refl)

  pub manual_inactive-owned :
      (s : PaddockState F) (i : Inputs F)
      → owns_lease s i.lease_id ≡ true
      → (transition s manual_inactive i).state.is_manual_active ≡ false
  unfolding transition
  manual_inactive-owned s i own = ground arith

  pub manual_inactive-own :
      (s : PaddockState F)
      → lease_active s ≡ true
      → (transition s manual_inactive
          (record no_inputs { lease_id = s.lease_id })).state.is_manual_active
        ≡ false
  manual_inactive-own s a = manual_inactive-owned s _ (own-owns s a)

  pub owns_lease-transition :
      (s : PaddockState F) (e : Event) (i : Inputs F) (l : String)
      → moves_lease e ≡ false
      → owns_lease s l ≡ true
      → owns_lease (transition s e i).state l ≡ true
  unfolding owns_lease lease_active
  owns_lease-transition s e i l m own = rw (lease_id-transition s e i m) own

  -- A consistent state under manual control gives Paddock's manual control the authority.
  pub manual-authority :
      (s : PaddockState F)
      → IsConsistent s
      → s.is_manual_active ≡ true
      → authority s ≡ paddock_manual
  unfolding authority lease_active
  manual-authority s h m = ground arith
