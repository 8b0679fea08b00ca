-- ===== src/Gateway/Link/Course.antt =====
-- The control events of src/runner_paddock/runner_paddock/gateway.py on their way to
-- src/runner_paddock/runner_paddock/command_supervisor.py, among its other calls and with losses.
use ros_pre_runner.Prelude.{
  ap, ℕ, ◌<◌, String, true, false, List, [], ◌∷◌, ◌≡◌, refl, sym, ◌∙◌, ◌⊎◌, inl, inr, arith,
}
use mathlib.Core.Path.{subst}
use ros_pre_runner.Prelude.Float.{Float}
use ros_pre_runner.StateMachine.{nonempty}
use ros_pre_runner.CommandSupervisor.{
  Supervisor, heartbeat, reinstates, link_event, handle_control_event,
}
use ros_pre_runner.CommandSupervisor.Calls.{Call, call}
use ros_pre_runner.Gateway.State.{ControlEventIntent}
use ros_pre_runner.Gateway.Protocol.{
  View, Sends, acquires, releases, revokes, beats, clears, presses, lets_go, stops, steers, rests,
  aims,
}
use ros_pre_runner.Gateway.Link.{Link, link, input_of, Follows, HasLapsed, is_sendable, IsLinked}
use ros_pre_runner.Gateway.Link.Calls.{is_between}
use ros_pre_runner.Gateway.Link.Events.{is_lease_event, ends_lease}
use ros_pre_runner.Gateway.Link.Follows.{
  follows-Follows, follows-free, follows-accepted, free-refused, acquires-Follows,
  lapsed-reinstates, reinstates-Follows, reinstates-accepted,
}

module _ {F : Type 0} ⦃fl : Float F⦄ where
  -- From one supervisor to another: the events arrive in their order, each at a time of its own, and all of
  -- them but those of the lease may be lost; there may be other calls in between.
  pub data Delivers
      : Supervisor F → List (String × ControlEventIntent F) → Supervisor F → Type 0 where
    quiet : (c : Supervisor F) → Delivers c [] c
    arrives :
        (conn : String) (e : ControlEventIntent F) (now : F) (c d : Supervisor F)
        (es : List (String × ControlEventIntent F))
        → is_sendable e.sequence e.client_id e.lease_id ≡ true
        → Delivers (handle_control_event c (input_of e) now).0 es d
        → Delivers c ((conn, e) ∷ es) d
    is_lost :
        (conn : String) (e : ControlEventIntent F) (c d : Supervisor F)
        (es : List (String × ControlEventIntent F))
        → is_sendable e.sequence e.client_id e.lease_id ≡ true
        → is_lease_event e.event ≡ false
        → Delivers c es d
        → Delivers c ((conn, e) ∷ es) d
    meanwhile :
        (k : Call F) (now : F) (c d : Supervisor F) (es : List (String × ControlEventIntent F))
        → is_between k ≡ true
        → Delivers (call c k now) es d
        → Delivers c es d

  -- An event under the lease that is not about it arrives.
  under_lease :
      (n : ℕ) (c : Supervisor F) (e : ControlEventIntent F) (now : F)
      → is_sendable e.sequence e.client_id e.lease_id ≡ true
      → n < e.sequence
      → is_lease_event e.event ≡ false
      → reinstates c (input_of e) ≡ false
      → Follows n e.client_id e.lease_id (link c) ⊎ HasLapsed e.client_id e.lease_id (link c)
      → Follows e.sequence e.client_id e.lease_id (link (link_event c (input_of e) now).0)
        ⊎ HasLapsed e.client_id e.lease_id (link (link_event c (input_of e) now).0)
  under_lease n c e now s l k r (inl f) = inl (follows-Follows n c (input_of e) now s l f k)
  under_lease n c e now s l k r (inr f) = inr (
      subst (HasLapsed e.client_id e.lease_id)
        (sym (free-refused c (input_of e) now f.0 (ground arith) r)) f)

  -- The end of a lease arrives.
  pub ended :
      (n : ℕ) (c : Supervisor F) (e : ControlEventIntent F) (now : F)
      → is_sendable e.sequence e.client_id e.lease_id ≡ true
      → n < e.sequence
      → ends_lease e.event ≡ true
      → Follows n e.client_id e.lease_id (link c) ⊎ HasLapsed e.client_id e.lease_id (link c)
      → nonempty (link (link_event c (input_of e) now).0).lease ≡ false
  unfolding reinstates
  ended n c e now s l k (inl f) = follows-free n c (input_of e) now s l f k
  ended n c e now s l k (inr f) =
      ap (λ (t : Link). nonempty t.lease)
        (free-refused c (input_of e) now f.0 (ground arith) (ground arith))
      ∙ f.0

  pub beat-Follows :
      (n : ℕ) (c : Supervisor F) (e : ControlEventIntent F) (now : F)
      → is_sendable e.sequence e.client_id e.lease_id ≡ true
      → n < e.sequence
      → e.event ≡ heartbeat
      → Follows n e.client_id e.lease_id (link c) ⊎ HasLapsed e.client_id e.lease_id (link c)
      → Follows e.sequence e.client_id e.lease_id (link (link_event c (input_of e) now).0)
        × ((link_event c (input_of e) now).1.accepted ≡ true)
  beat-Follows n c e now s l h (inl f) = (
    follows-Follows n c (input_of e) now s l f (rw h refl),
    follows-accepted n c (input_of e) now s l f h,
  )
  beat-Follows n c e now s l h (inr f) =
      let r = lapsed-reinstates c (input_of e) now f.0 h f.1 in
      (
        reinstates-Follows c (input_of e) now f.0 s r,
        reinstates-accepted c (input_of e) now f.0 s r,
      )

  pub link_event-IsLinked :
      (conn : String) (v w : View) (e : ControlEventIntent F) (c : Supervisor F) (now : F)
      → Sends conn v e w
      → is_sendable e.sequence e.client_id e.lease_id ≡ true
      → IsLinked v (link c)
      → IsLinked w (link (link_event c (input_of e) now).0)
  unfolding IsLinked reinstates
  link_event-IsLinked conn v w e c now (acquires n client lease) s h =
      (s, inl (acquires-Follows c (input_of e) now h s refl refl))
  link_event-IsLinked conn v w e c now (releases owner n client lease run manual q) s h =
      ended n c e now s (omega arith) refl h.1
  link_event-IsLinked conn v w e c now (revokes owner n client lease run manual q) s h =
      ended n c e now s (omega arith) refl h.1
  link_event-IsLinked conn v w e c now (beats owner n client lease run manual q) s h =
      (s, inl (beat-Follows n c e now s (omega arith) refl h.1).0)
  link_event-IsLinked conn v w e c now (clears owner n client lease run manual q) s h =
      (s, under_lease n c e now s (omega arith) refl refl h.1)
  link_event-IsLinked conn v w e c now (presses owner n client lease run manual q r) s h =
      (s, under_lease n c e now s (omega arith) refl refl h.1)
  link_event-IsLinked conn v w e c now (lets_go owner n client lease run manual q r) s h =
      (s, under_lease n c e now s (omega arith) refl refl h.1)
  link_event-IsLinked conn v w e c now (stops owner n client lease run manual q) s h =
      (s, under_lease n c e now s (omega arith) refl refl h.1)
  link_event-IsLinked conn v w e c now (steers owner n client lease run manual x y q r t) s h =
      (s, under_lease n c e now s (omega arith) refl refl h.1)
  link_event-IsLinked conn v w e c now (rests owner n client lease run manual q r) s h =
      (s, under_lease n c e now s (omega arith) refl refl h.1)
  link_event-IsLinked conn v w e c now (aims owner n client lease run manual x y z q r t u) s h =
      (s, under_lease n c e now s (omega arith) refl refl h.1)
