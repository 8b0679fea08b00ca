-- ===== src/Gateway/Link/Regains.antt =====
-- The owner of the lease of src/runner_paddock/runner_paddock/gateway.py gets it back from
-- src/runner_paddock/runner_paddock/command_supervisor.py by a heartbeat.
use ros_pre_runner.Prelude.{
  ap, ℕ, ◌+◌, String, str_eq, true, false, Option, none, some, List, [], ◌∷◌, ◌≡◌, refl, ◌⊎◌, inl,
  inr, arith,
}
use ros_pre_runner.Prelude.Float.{Float}
use ros_pre_runner.StateMachine.{PaddockState, nonempty}
use ros_pre_runner.CommandSupervisor.{
  Supervisor, heartbeat, link_event, handle_control_event, expire_lease, Settings, init, ok,
}
use ros_pre_runner.Gateway.Values.{Builtins}
use ros_pre_runner.Gateway.State.{
  ControlEventIntent, OperatorGateway, new_gateway, is_owner_conn, owned, counted, intent_of,
}
use ros_pre_runner.Gateway.Protocol.{
  View, view_with, view, Sends, acquires, releases, revokes, beats, clears, presses, lets_go, stops,
  steers, rests, aims, EventPath, done, sends, Call, answers, events_by, intents_of,
}
use ros_pre_runner.Gateway.Lease.{do_heartbeat}
use ros_pre_runner.CommandSupervisor.Steps.{init-state}
use ros_pre_runner.Gateway.Obeys.Runs.{answers-EventPath}
use ros_pre_runner.Gateway.Link.{Link, link, input_of, Follows, HasLapsed, is_sendable, IsLinked}
use ros_pre_runner.Gateway.Link.Calls.{call-IsLinked, expire_lease-IsLinked}
use ros_pre_runner.Gateway.Link.Events.{is_lease_event}
use ros_pre_runner.Gateway.Link.Course.{
  Delivers, quiet, arrives, is_lost, meanwhile, beat-Follows, link_event-IsLinked,
}

-- A number that is still to come is so for the next view too.
later :
    (n : ℕ) (client lease : String) (k : Link)
    → Follows n client lease k ⊎ HasLapsed client lease k
    → Follows (n + 1) client lease k ⊎ HasLapsed client lease k
later n client lease k (inl f) = inl (f.0, f.1, f.2, f.3, omega arith)
later n client lease k (inr f) = inr f

pub linked-owner :
    (g : OperatorGateway) (conn : String) (k : Link)
    → is_owner_conn g conn ≡ true
    → IsLinked (view g) k
    → Follows g.sequence g.client_id g.lease_id k ⊎ HasLapsed g.client_id g.lease_id k
unfolding is_owner_conn IsLinked view_with
linked-owner g conn k o h = by_owner g.owner_conn o h
  where
    by_owner :
        (o : Option String)
        → elim o [ none ↦ false | some owner ↦ str_eq conn owner ] ≡ true
        → IsLinked (view_with o g) k
        → Follows g.sequence g.client_id g.lease_id k ⊎ HasLapsed g.client_id g.lease_id k
    by_owner none p q = absurd (cc)
    by_owner (some owner) p q = q.1

module _ {F : Type 0} ⦃fl : Float F⦄ where
  -- An event under the lease is lost.
  lost-IsLinked :
      (conn : String) (v w : View) (e : ControlEventIntent F) (k : Link)
      → Sends conn v e w
      → is_sendable e.sequence e.client_id e.lease_id ≡ true
      → is_lease_event e.event ≡ false
      → IsLinked v k
      → IsLinked w k
  unfolding IsLinked
  lost-IsLinked conn v w e k (acquires n client lease) s o h = absurd (cc)
  lost-IsLinked conn v w e k (releases owner n client lease run manual q) s o h = absurd (cc)
  lost-IsLinked conn v w e k (revokes owner n client lease run manual q) s o h = absurd (cc)
  lost-IsLinked conn v w e k (beats owner n client lease run manual q) s o h =
      (s, later n client lease k h.1)
  lost-IsLinked conn v w e k (clears owner n client lease run manual q) s o h =
      (s, later n client lease k h.1)
  lost-IsLinked conn v w e k (presses owner n client lease run manual q r) s o h =
      (s, later n client lease k h.1)
  lost-IsLinked conn v w e k (lets_go owner n client lease run manual q r) s o h =
      (s, later n client lease k h.1)
  lost-IsLinked conn v w e k (stops owner n client lease run manual q) s o h =
      (s, later n client lease k h.1)
  lost-IsLinked conn v w e k (steers owner n client lease run manual x y q r t) s o h =
      (s, later n client lease k h.1)
  lost-IsLinked conn v w e k (rests owner n client lease run manual q r) s o h =
      (s, later n client lease k h.1)
  lost-IsLinked conn v w e k (aims owner n client lease run manual x y z q r t u) s o h =
      (s, later n client lease k h.1)

  pub handle-IsLinked :
      (conn : String) (v w : View) (e : ControlEventIntent F) (c : Supervisor F) (now : F)
      → Sends conn v e w
      → is_sendable e.sequence e.client_id e.lease_id ≡ true
      → IsLinked v (link c)
      → IsLinked w (link (handle_control_event c (input_of e) now).0)
  unfolding handle_control_event
  handle-IsLinked conn v w e c now t s h =
      link_event-IsLinked conn v w e (expire_lease c now).0 now t s
        (expire_lease-IsLinked v c now h)

  -- Whatever path of the protocol is delivered to a supervisor that is linked to its start, the
  -- supervisor behind is linked to its end.
  pub Delivers-IsLinked :
      (v w : View) (es : List (String × ControlEventIntent F)) (c d : Supervisor F)
      → EventPath v es w
      → Delivers c es d
      → IsLinked v (link c)
      → IsLinked w (link d)
  Delivers-IsLinked v w es c d (done _) (quiet _) h = h
  Delivers-IsLinked v w es c d p (meanwhile k now _ _ _ o q) h =
      Delivers-IsLinked v w es _ d p q (call-IsLinked v c k now o h)
  Delivers-IsLinked v w es c d (sends conn _ u _ e rest t p) (arrives _ _ now _ _ _ s q) h =
      Delivers-IsLinked u w rest _ d p q (handle-IsLinked conn v u e c now t s h)
  Delivers-IsLinked v w es c d (sends conn _ u _ e rest t p) (is_lost _ _ _ _ _ s o q) h =
      Delivers-IsLinked u w rest c d p q (lost-IsLinked conn v u e (link c) t s o h)

  pub init-IsLinked :
      (settings : Settings F) (c : Supervisor F)
      → init settings ≡ ok c
      → IsLinked (view new_gateway) (link c)
  unfolding IsLinked view_with
  init-IsLinked settings c e =
      ap (λ (s : PaddockState F). nonempty s.lease_id) (init-state settings c e)

  beat-regains :
      (g : OperatorGateway) (c : Supervisor F) (now : F)
      → is_sendable (g.sequence + 1) g.client_id g.lease_id ≡ true
      → Follows g.sequence g.client_id g.lease_id (link c)
        ⊎ HasLapsed g.client_id g.lease_id (link c)
      → let a = link_event c (input_of (intent_of heartbeat (counted g))) now in
        (a.1.accepted ≡ true)
        × (a.0.state.lease_client_id ≡ g.client_id)
        × (a.0.state.lease_id ≡ g.lease_id)
  beat-regains g c now s f =
      let r =
        beat-Follows g.sequence c (intent_of heartbeat (counted g)) now s (omega arith) refl f in
      (r.1, r.0.0, r.0.1)

  heartbeat-event :
      (g : OperatorGateway) (conn : String)
      → is_owner_conn g conn ≡ true
      → events_by conn (intents_of (do_heartbeat {F = F} g conn).0)
        ≡ (conn, intent_of heartbeat (counted g)) ∷ []
  unfolding do_heartbeat owned intents_of events_by
  heartbeat-event g conn o = rw o refl

  -- Whatever the browsers send to a new gateway, let its control events reach a new supervisor in their
  -- order, each at any time, with any other calls but restarts in between, and all but those of the lease
  -- possibly lost, while the uuid factory gives texts that are not empty and the numbers are below 2^63. Then the
  -- next heartbeat of the gateway's owner is one control event, and the supervisor accepts it at any time
  -- and holds the gateway's lease, also if that lease had expired there.
  pub heartbeat-regains :
      (b : Builtins F) (settings : Settings F) (calls : List (Call F)) (c d : Supervisor F)
      (conn : String) (now : F)
      → init settings ≡ ok c
      → Delivers c (answers b new_gateway calls).0 d
      → is_owner_conn (answers b new_gateway calls).1 conn ≡ true
      → is_sendable
          ((answers b new_gateway calls).1.sequence + 1)
          (answers b new_gateway calls).1.client_id
          (answers b new_gateway calls).1.lease_id
        ≡ true
      → let g = (answers b new_gateway calls).1 in
        let e : ControlEventIntent F = intent_of heartbeat (counted g) in
        let a = handle_control_event d (input_of e) now in
        (events_by conn (intents_of (do_heartbeat g conn).0) ≡ (conn, e) ∷ [])
        × (a.1.accepted ≡ true)
        × (a.0.state.lease_client_id ≡ g.client_id)
        × (a.0.state.lease_id ≡ g.lease_id)
  unfolding handle_control_event
  heartbeat-regains b settings calls c d conn now i p o s =
      let g = (answers b new_gateway calls).1 in
      let h =
        Delivers-IsLinked (view new_gateway) (view g) _ c d (answers-EventPath b new_gateway calls)
          p (init-IsLinked settings c i) in
      let r =
        beat-regains g (expire_lease d now).0 now s
          (linked-owner g conn _ o (expire_lease-IsLinked (view g) d now h)) in
      (heartbeat-event g conn o, r.0, r.1, r.2)
