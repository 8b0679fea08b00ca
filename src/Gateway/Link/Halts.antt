-- ===== src/Gateway/Link/Halts.antt =====
-- STOP and the end of the owner's connection in src/runner_paddock/runner_paddock/gateway.py, as they reach
-- src/runner_paddock/runner_paddock/command_supervisor.py.
use ros_pre_runner.Prelude.{
  ap, ◌+◌, String, eq_refl, true, false, some, List, [], ◌∷◌, ◌≡◌, refl, sym, ◌∙◌, ◌⊎◌, inl, inr,
  arith,
}
use mathlib.Core.Path.{subst}
use ros_pre_runner.Prelude.Float.{Float}
use ros_pre_runner.StateMachine.{
  PaddockState, Inputs, nonempty, lease_active, autonomy_permitted, owns_lease, transition,
  no_inputs,
}
use ros_pre_runner.StateMachine
use ros_pre_runner.StateMachine.Invariant.{IsConsistent}
use ros_pre_runner.CommandSupervisor.{
  Supervisor, ControlInput, stop, lease_released, link_event, handle_control_event, expire_lease,
  reinstates, accept_event, finish, step, Settings, init, ok, Answered,
}
use ros_pre_runner.CommandSupervisor.Calls.{control, call}
use ros_pre_runner.CommandSupervisor.Deadman.{state-clear_manual}
use ros_pre_runner.CommandSupervisor.Sound.{IsSound, expire_lease-IsSound}
use ros_pre_runner.CommandSupervisor.Steps.{call-IsSound, init-IsSound, link_event-IsSound}
use ros_pre_runner.Gateway.Values.{Builtins}
use ros_pre_runner.Gateway.State.{
  ControlEventIntent, OperatorGateway, new_gateway, is_owner_conn, owned, counted, intent_of,
  on_disconnect,
}
use ros_pre_runner.Gateway.Lease.{do_stop}
use ros_pre_runner.Gateway.Protocol.{view, Call, answers, events_by, intents_of}
use ros_pre_runner.Gateway.Obeys.Runs.{answers-EventPath}
use ros_pre_runner.Gateway.Link.{Link, link, input_of, Follows, HasLapsed, is_sendable}
use ros_pre_runner.Gateway.Link.Calls.{expire_lease-IsLinked}
use ros_pre_runner.Gateway.Link.Follows.{accepted, follows-IsActive, free-refused}
use ros_pre_runner.Gateway.Link.Course.{Delivers, quiet, arrives, is_lost, meanwhile, ended}
use ros_pre_runner.Gateway.Link.Regains.{Delivers-IsLinked, init-IsLinked, linked-owner}

module _ {F : Type 0} where
  -- No RUN is held, manual control is off, and no navigation is active.
  abbrev pub IsHalted : PaddockState F → Type 0
  IsHalted s = (s.run_held ≡ false) × (s.is_manual_active ≡ false) × (s.navigation_active ≡ false)

  -- Nothing goes on without a lease.
  inactive-IsHalted : (s : PaddockState F) → IsConsistent s → lease_active s ≡ false → IsHalted s
  unfolding autonomy_permitted
  inactive-IsHalted s h a =
      let n = h.navigating in let r = h.held_leased in let m = h.manual_leased in ground arith

  stop-IsHalted :
      (s : PaddockState F) (i : Inputs F)
      → owns_lease s i.lease_id ≡ true
      → IsHalted (transition s StateMachine.stop i).state
  unfolding transition
  stop-IsHalted s i own = rw own (refl, refl, refl)

module _ {F : Type 0} ⦃fl : Float F⦄ where
  Delivers-IsSound :
      (es : List (String × ControlEventIntent F)) (c d : Supervisor F)
      → Delivers c es d
      → IsSound c
      → IsSound d
  unfolding call
  Delivers-IsSound es c d (quiet _) h = h
  Delivers-IsSound es c d (arrives conn e now _ _ rest s q) h =
      Delivers-IsSound rest _ d q (call-IsSound c (control (input_of e)) now h)
  Delivers-IsSound es c d (is_lost conn e _ _ rest s o q) h = Delivers-IsSound rest c d q h
  Delivers-IsSound es c d (meanwhile k now _ _ _ o q) h =
      Delivers-IsSound es _ d q (call-IsSound c k now h)

  module _ (g : OperatorGateway) (c : Supervisor F) (now : F)
      (s : is_sendable (g.sequence + 1) g.client_id g.lease_id ≡ true) (h : IsSound c)
      (f : Follows g.sequence g.client_id g.lease_id (link c)
        ⊎ HasLapsed g.client_id g.lease_id (link c)) where
    -- A STOP of the lease that the supervisor follows
    followed-stop :
        Follows g.sequence g.client_id g.lease_id (link c)
        → IsHalted (link_event c (input_of (intent_of stop (counted g))) now).0.state
    unfolding accept_event finish step owns_lease
    followed-stop k =
        let i : ControlInput F = input_of (intent_of stop (counted g)) in
        let noted = record c {
          last_lease_receive_at = some now;
          last_control_sequence = some i.sequence;
        } in
        subst (λ (t : Answered F). IsHalted t.0.state)
          (sym (accepted g.sequence c i now s (omega arith) k refl))
          (subst IsHalted (sym (state-clear_manual (step noted StateMachine.stop i.lease_id))) (
            stop-IsHalted c.state (record no_inputs { lease_id = i.lease_id })
              (rw (follows-IsActive g.sequence c i now s (omega arith) k, k.1, eq_refl g.lease_id)
                refl)))

    -- A STOP of the lease that lapsed there
    lapsed-stop :
        HasLapsed g.client_id g.lease_id (link c)
        → IsHalted (link_event c (input_of (intent_of stop (counted g))) now).0.state
    unfolding reinstates lease_active
    lapsed-stop k =
        let i : ControlInput F = input_of (intent_of stop (counted g)) in
        inactive-IsHalted _ (link_event-IsSound c i now h).consistent
          (ap (λ (t : Link). nonempty t.lease) (free-refused c i now k.0 refl refl) ∙ k.0)

    stop_arrives : IsHalted (link_event c (input_of (intent_of stop (counted g))) now).0.state
    stop_arrives = elim f [ inl k ↦ followed-stop k | inr k ↦ lapsed-stop k ]

    release_arrives :
        let a = link_event c (input_of (intent_of lease_released (counted g))) now in
        (lease_active a.0.state ≡ false) × IsHalted a.0.state
    unfolding lease_active
    release_arrives =
        let e : ControlEventIntent F = intent_of lease_released (counted g) in
        let off = ended g.sequence c e now s (omega arith) refl f in
        (off, inactive-IsHalted _ (link_event-IsSound c (input_of e) now h).consistent off)

  stop-event :
      (g : OperatorGateway) (conn : String)
      → is_owner_conn g conn ≡ true
      → events_by conn (intents_of (do_stop {F = F} g conn).0)
        ≡ (conn, intent_of stop (counted g)) ∷ []
  unfolding do_stop owned intents_of events_by
  stop-event g conn o = rw o refl

  release-event :
      (g : OperatorGateway) (conn : String)
      → is_owner_conn g conn ≡ true
      → events_by conn (intents_of (on_disconnect {F = F} g conn).0)
        ≡ (conn, intent_of lease_released (counted g)) ∷ []
  unfolding on_disconnect intents_of events_by
  release-event g conn o = rw o refl

  -- Whatever the browsers send to a new gateway, let its control events reach a new supervisor in their
  -- order, each at any time, with any other calls but restarts in between, and all but those of the lease
  -- possibly lost, while the uuid factory gives texts that are not empty and the numbers are below 2^63.
  -- Then the owner's STOP is one control event, and so is the end of the owner's connection; when the
  -- one or the other arrives, at any time, the supervisor holds no RUN, manual control is off and no navigation is active,
  -- and after the end of the connection it holds no lease.
  pub owner-halts :
      (b : Builtins F) (settings : Settings F) (calls : List (Call F)) (c d : Supervisor F)
      (conn : String) (now : F)
      → init settings ≡ ok c
      → Delivers c (answers b new_gateway calls).0 d
      → is_owner_conn (answers b new_gateway calls).1 conn ≡ true
      → is_sendable
          ((answers b new_gateway calls).1.sequence + 1)
          (answers b new_gateway calls).1.client_id
          (answers b new_gateway calls).1.lease_id
        ≡ true
      → let g = (answers b new_gateway calls).1 in
        let halt : ControlEventIntent F = intent_of stop (counted g) in
        let bye : ControlEventIntent F = intent_of lease_released (counted g) in
        (events_by conn (intents_of (do_stop g conn).0) ≡ (conn, halt) ∷ [])
        × IsHalted (handle_control_event d (input_of halt) now).0.state
        × (events_by conn (intents_of (on_disconnect g conn).0) ≡ (conn, bye) ∷ [])
        × (lease_active (handle_control_event d (input_of bye) now).0.state ≡ false)
        × IsHalted (handle_control_event d (input_of bye) now).0.state
  unfolding handle_control_event
  owner-halts b settings calls c d conn now i p o s =
      let g = (answers b new_gateway calls).1 in
      let linked =
        Delivers-IsLinked (view new_gateway) (view g) _ c d (answers-EventPath b new_gateway calls)
          p (init-IsLinked settings c i) in
      let f = linked-owner g conn _ o (expire_lease-IsLinked (view g) d now linked) in
      let h = expire_lease-IsSound d now (Delivers-IsSound _ c d p (init-IsSound settings c i)) in
      let r = release_arrives g (expire_lease d now).0 now s h f in
      (
        stop-event g conn o,
        stop_arrives g (expire_lease d now).0 now s h f,
        release-event g conn o,
        r.0,
        r.1,
      )
