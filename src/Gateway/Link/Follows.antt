-- ===== src/Gateway/Link/Follows.antt =====
-- `handle_control_event` of src/runner_paddock/runner_paddock/command_supervisor.py for events of the gateway:
-- where the supervisor follows their lease, and where it holds none.
use ros_pre_runner.Prelude.{
  ap, ℕ, ◌<◌, ◌+◌, String, eq_refl, true, false, not, ◌||◌, some, ◌≡◌, refl, sym, ◌∙◌, if_both,
  arith,
}
use mathlib.Core.Path.{subst}
use ros_pre_runner.Prelude.Float.{Float}
use ros_pre_runner.StateMachine.{
  PaddockState, Transition, transition, lease_active, nonempty, owns_lease,
}
use ros_pre_runner.CommandSupervisor.{
  Supervisor, ControlEvent, ControlInput, heartbeat, refuse, accept_event, is_owner, is_stale,
  is_newer_sequence, supported, is_lease_acquired, owned_event, lease_event, reinstates, link_event,
  granted, acquired_state, state_eq, Answered,
}
use ros_pre_runner.Gateway.Link.{link, Follows, is_sendable}
use ros_pre_runner.Gateway.Link.Events.{
  is_lease_event, ends_lease, link-accept_event, free-accept_event,
}

other-supported : (e : ControlEvent) → is_lease_acquired e ≡ false → supported e ≡ true
unfolding supported
other-supported e k = ground arith

module _ {F : Type 0} ⦃fl : Float F⦄ where
  active-reinstates :
      (c : Supervisor F) (i : ControlInput F) → lease_active c.state ≡ true → reinstates c i ≡ false
  unfolding reinstates
  active-reinstates c i a = ground arith

  -- The supervisor follows the input's lease, and the input is the next.
  module _ (n : ℕ) (c : Supervisor F) (i : ControlInput F) (now : F)
      (s : is_sendable i.sequence i.client_id i.lease_id ≡ true) (l : n < i.sequence)
      (f : Follows n i.client_id i.lease_id (link c)) where
    pub follows-IsActive : lease_active c.state ≡ true
    unfolding lease_active
    follows-IsActive = rw f.1 (ground arith)

    follows-is_owner : is_owner c i ≡ true
    unfolding is_owner
    follows-is_owner = rw (follows-IsActive, f.0, f.1, eq_refl i.client_id, eq_refl i.lease_id) refl

    follows-fresh : is_stale c.last_control_sequence i.sequence ≡ false
    unfolding is_stale is_newer_sequence
    follows-fresh = rw f.3 (ground arith)

    pub accepted :
        is_lease_acquired i.event ≡ false
        → link_event c i now
          ≡ accept_event i.event
              (record c {
                last_lease_receive_at = some now;
                last_control_sequence = some i.sequence;
              })
              i
              now
    unfolding link_event lease_event owned_event
    accepted k =
        let next =
          accept_event i.event
            (record c { last_lease_receive_at = some now; last_control_sequence = some i.sequence })
            i now in
        let P : Answered F → Type 0 = λ t. t ≡ next in
        if_both P (reinstates c i) (λ p. absurd (cc (active-reinstates c i follows-IsActive)))
          (λ _.
            if_both P (is_lease_acquired i.event) (λ p. absurd (cc))
              (λ _.
                if_both P (not (is_owner c i)) (λ p. absurd (cc (ap not follows-is_owner)))
                  (λ _.
                    if_both P (is_stale c.last_control_sequence i.sequence)
                      (λ p. absurd (cc (follows-fresh)))
                      (λ _.
                        if_both P (not (supported i.event))
                          (λ p. absurd (cc (ap not (other-supported i.event k)))) (λ _. refl)))))

    pub follows-accepted : i.event ≡ heartbeat → (link_event c i now).1.accepted ≡ true
    unfolding accept_event
    follows-accepted h = ap (λ (t : Answered F). t.1.accepted) (accepted (rw h refl)) ∙ rw h refl

    -- Events that are not of the lease are followed.
    pub follows-Follows :
        is_lease_event i.event ≡ false
        → Follows i.sequence i.client_id i.lease_id (link (link_event c i now).0)
    follows-Follows k =
        subst (λ (t : Answered F). Follows i.sequence i.client_id i.lease_id (link t.0))
          (sym (accepted (ground arith)))
          (subst (Follows i.sequence i.client_id i.lease_id)
            (sym (
              link-accept_event i.event
                (record c {
                  last_lease_receive_at = some now;
                  last_control_sequence = some i.sequence;
                })
                i now k))
            (f.0, f.1, i.sequence, refl, omega arith))

    -- An event that ends the lease leaves none.
    pub follows-free :
        ends_lease i.event ≡ true → nonempty (link (link_event c i now).0).lease ≡ false
    unfolding owns_lease
    follows-free k =
        ap (λ (t : Answered F). nonempty (link t.0).lease) (accepted (ground arith))
        ∙ free-accept_event i.event
            (record c { last_lease_receive_at = some now; last_control_sequence = some i.sequence })
            i now k (rw (follows-IsActive, f.1, eq_refl i.lease_id) refl)

  -- Where no lease is held
  module _ (c : Supervisor F) (i : ControlInput F) (now : F)
      (e : nonempty c.state.lease_id ≡ false) where
    free-IsInactive : lease_active c.state ≡ false
    unfolding lease_active
    free-IsInactive = e

    free-is_owner : is_owner c i ≡ false
    unfolding is_owner
    free-is_owner = rw free-IsInactive refl

    -- Events but those that begin a lease are refused.
    pub free-refused :
        is_lease_acquired i.event ≡ false
        → reinstates c i ≡ false
        → link (link_event c i now).0 ≡ link c
    unfolding link_event lease_event owned_event refuse
    free-refused k r =
        let P : Answered F → Type 0 = λ t. link t.0 ≡ link c in
        if_both P (reinstates c i) (λ p. absurd (cc))
          (λ _.
            if_both P (is_lease_acquired i.event) (λ p. absurd (cc))
              (λ _.
                if_both P (not (is_owner c i)) (λ p. refl)
                  (λ p. absurd (cc (ap not free-is_owner)))))

    module _ (s : is_sendable i.sequence i.client_id i.lease_id ≡ true) where
      -- The lease that the input begins
      acquired-state : acquired_state c i ≡ record c.state {
        lease_client_id = i.client_id;
        lease_id = i.lease_id;
        lease_generation = c.state.lease_generation + 1;
        accepted_mode_request_id = 0;
      }
      unfolding acquired_state transition
      acquired-state =
          let next : PaddockState F = record c.state {
            lease_client_id = i.client_id;
            lease_id = i.lease_id;
            lease_generation = c.state.lease_generation + 1;
            accepted_mode_request_id = 0;
          } in
          if_both (λ (t : Transition F). t.state ≡ next)
            (lease_active c.state || (not (nonempty i.client_id) || not (nonempty i.lease_id)))
            (λ p. absurd (refused p)) (λ p. refl)
        where
          refused :
              (lease_active c.state || (not (nonempty i.client_id) || not (nonempty i.lease_id)))
                ≡ true
              → ⊥
          refused p = let off = free-IsInactive in ground arith

      acquired-IsNew : state_eq (acquired_state c i) c.state ≡ false
      unfolding state_eq
      acquired-IsNew = rw acquired-state (ground arith)

      granted-Follows :
          (reason : String)
          → Follows i.sequence i.client_id i.lease_id
              (link (granted (acquired_state c i) reason c i now).0)
      unfolding granted
      granted-Follows reason = rw acquired-state (refl, refl, i.sequence, refl, omega arith)

      -- LEASE_ACQUIRED is granted.
      pub acquires-Follows :
          is_lease_acquired i.event ≡ true
          → reinstates c i ≡ false
          → Follows i.sequence i.client_id i.lease_id (link (link_event c i now).0)
      unfolding link_event lease_event
      acquires-Follows k r =
          let P : Answered F → Type 0 = λ t. Follows i.sequence i.client_id i.lease_id (link t.0) in
          if_both P (reinstates c i) (λ p. absurd (cc))
            (λ _.
              if_both P (is_lease_acquired i.event)
                (λ _.
                  if_both P (lease_active c.state) (λ p. absurd (cc (free-IsInactive)))
                    (λ _.
                      if_both P (state_eq (acquired_state c i) c.state)
                        (λ p. absurd (cc (acquired-IsNew)))
                        (λ _. granted-Follows "LEASE_ACQUIRED")))
                (λ p. absurd (cc)))

      -- A heartbeat of the lapsed lease reinstates it.
      pub reinstated :
          reinstates c i ≡ true
          → link_event c i now ≡ granted (acquired_state c i) "LEASE_REINSTATED" c i now
      unfolding link_event
      reinstated r =
          let P : Answered F → Type 0 =
            λ t. t ≡ granted (acquired_state c i) "LEASE_REINSTATED" c i now in
          if_both P (reinstates c i)
            (λ _.
              if_both P (not (state_eq (acquired_state c i) c.state)) (λ _. refl)
                (λ p. absurd (cc (ap not acquired-IsNew))))
            (λ p. absurd (cc))

      pub reinstates-Follows :
          reinstates c i ≡ true
          → Follows i.sequence i.client_id i.lease_id (link (link_event c i now).0)
      reinstates-Follows r =
          subst (λ (t : Answered F). Follows i.sequence i.client_id i.lease_id (link t.0))
            (sym (reinstated r)) (granted-Follows "LEASE_REINSTATED")

      pub reinstates-accepted : reinstates c i ≡ true → (link_event c i now).1.accepted ≡ true
      unfolding granted
      reinstates-accepted r = ap (λ (t : Answered F). t.1.accepted) (reinstated r)

    -- The lapsed lease, by a heartbeat
    pub lapsed-reinstates :
        i.event ≡ heartbeat
        → c.lapsed_lease ≡ some (i.client_id, i.lease_id)
        → reinstates c i ≡ true
    unfolding reinstates
    lapsed-reinstates h l = rw (h, free-IsInactive, l, eq_refl i.client_id, eq_refl i.lease_id) refl
