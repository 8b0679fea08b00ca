-- ===== src/Gateway/Obeys/Lease.antt =====
-- The actions of src/runner_paddock/runner_paddock/gateway.py on the lease, RUN, STOP and manual control keep to
-- the protocol of the control events.
use ros_pre_runner.Prelude.{
  ◌+◌, String, str_eq, Bool, true, false, not, ◌&&◌, Option, none, some, is_some, [], ◌∷◌, ◌≡◌,
  refl, sym, ◌++◌, if_both, if◌then◌else◌,
}
use mathlib.Core.Path.{subst}
use native.Mathlib.Omega.{arith}
use ros_pre_runner.Prelude.Float.{Float}
use ros_pre_runner.CommandSupervisor.{
  ControlEvent, heartbeat, stop, clear_stop, lease_lost, lease_acquired, lease_released,
  run_pressed, run_released, manual_inactive,
}
use ros_pre_runner.Gateway.Values.{Fields, Builtins, truthy, get}
use ros_pre_runner.Gateway.State.{
  OperatorGateway, Ids, Answered, is_owner_conn, reject, accept, counted, dropped, owned_by,
  intent_of, on_disconnect, control, result, observer,
}
use ros_pre_runner.Gateway.Lease.{
  at_rest, do_acquire, do_takeover, do_release, do_heartbeat, do_run, do_stop, do_clear_stop,
  do_manual, send, demand, manual_sample, sample_of,
}
use ros_pre_runner.Gateway.Protocol.{
  view_with, view, free, held, intents_of, events_by, Sends, beats, clears, stops, presses, lets_go,
  steers, rests, acquires, releases, revokes, EventPath, done, sends,
}
use ros_pre_runner.Gateway.Obeys.{
  Obeys, reject-Obeys, owned-Obeys, owner-Obeys, when_converted-Obeys,
}

module _ {F : Type 0} ⦃fl : Float F⦄ (g : OperatorGateway) (conn : String) where
  -- An accepted action without intents.
  idle-Obeys : (reason : String) → Obeys conn g (accept {F = F} g reason [])
  unfolding intents_of events_by
  idle-Obeys reason = done (view g)

  send-Obeys :
      (reason : String) (event : ControlEvent) (run manual : Bool)
      → is_owner_conn g conn ≡ true
      → ((owner : String)
          → str_eq conn owner ≡ true
          → Sends {F = F} conn
              (held owner g.sequence g.client_id g.lease_id g.run_pressed g.is_manual_active)
              (intent_of event (counted g))
              (held owner (g.sequence + 1) g.client_id g.lease_id run manual))
      → Obeys conn g
          (send {F = F} (record g { run_pressed = run; is_manual_active = manual }) reason event)
  unfolding intents_of events_by view_with
  send-Obeys reason event run manual h k =
      owner-Obeys conn g (intent_of event (counted g))
        (λ o. view_with o (counted (record g { run_pressed = run; is_manual_active = manual }))) h k

  pub do_heartbeat-Obeys : Obeys conn g (do_heartbeat {F = F} g conn)
  unfolding do_heartbeat
  do_heartbeat-Obeys = owned-Obeys conn g (send g "heartbeat" heartbeat) (λ h.
      send-Obeys "heartbeat" heartbeat g.run_pressed g.is_manual_active h (λ owner q.
        beats owner g.sequence g.client_id g.lease_id g.run_pressed g.is_manual_active q))

  pub do_clear_stop-Obeys : Obeys conn g (do_clear_stop {F = F} g conn)
  unfolding do_clear_stop
  do_clear_stop-Obeys = owned-Obeys conn g (send g "CLEAR STOP requested" clear_stop) (λ h.
      send-Obeys "CLEAR STOP requested" clear_stop g.run_pressed g.is_manual_active h (λ owner q.
        clears owner g.sequence g.client_id g.lease_id g.run_pressed g.is_manual_active q))

  pub do_stop-Obeys : Obeys conn g (do_stop {F = F} g conn)
  unfolding do_stop
  do_stop-Obeys = owned-Obeys conn g (send (at_rest g) "STOP requested" stop) (λ h.
      send-Obeys "STOP requested" stop false false h (λ owner q.
        stops owner g.sequence g.client_id g.lease_id g.run_pressed g.is_manual_active q))

  -- RUN, held or not, as it was pressed or not before.
  pressed-Obeys :
      (was : Bool)
      → g.run_pressed ≡ was
      → (held_now : Bool) → is_owner_conn g conn ≡ true
      → Obeys conn g (
          if held_now && not was
          then send {F = F} (record g { run_pressed = true }) "RUN pressed" run_pressed
          else if held_now && was
          then send g "RUN held" heartbeat
          else if not held_now && was
          then send (record g { run_pressed = false }) "RUN released" run_released
          else accept g "RUN idle" [])
  pressed-Obeys true e true h =
      send-Obeys "RUN held" heartbeat g.run_pressed g.is_manual_active h (λ owner q.
        beats owner g.sequence g.client_id g.lease_id g.run_pressed g.is_manual_active q)
  pressed-Obeys true e false h =
      send-Obeys "RUN released" run_released false g.is_manual_active h (λ owner q.
        lets_go owner g.sequence g.client_id g.lease_id g.run_pressed g.is_manual_active q e)
  pressed-Obeys false e true h =
      send-Obeys "RUN pressed" run_pressed true g.is_manual_active h (λ owner q.
        presses owner g.sequence g.client_id g.lease_id g.run_pressed g.is_manual_active q e)
  pressed-Obeys false e false h = idle-Obeys "RUN idle"

  pub do_run-Obeys : (action : Fields F) → Obeys conn g (do_run g conn action)
  unfolding do_run
  do_run-Obeys action =
      owned-Obeys conn g _ (pressed-Obeys g.run_pressed refl (truthy (get action "held")))

  -- A finite sample of the joystick.
  demand-Obeys :
      (speed steering : F)
      → is_owner_conn g conn ≡ true
      → fl.is_finite speed ≡ true
      → fl.is_finite steering ≡ true
      → Obeys conn g (demand g speed steering)
  unfolding intents_of events_by view_with
  demand-Obeys speed steering h s t =
      owner-Obeys conn g _
        (λ o. view_with o (counted (record g { is_manual_active = true; run_pressed = false }))) h
        (λ owner q.
          steers owner g.sequence g.client_id g.lease_id g.run_pressed g.is_manual_active speed
            steering q s t)

  manual_sample-Obeys :
      (b : Builtins F) (action : Fields F)
      → is_owner_conn g conn ≡ true
      → Obeys conn g (manual_sample b g conn action)
  manual_sample-Obeys b action h =
      let reason : String = "manual needs finite speed and steering" in
      when_converted-Obeys conn g reason (sample_of b action)
        (λ p.
          if not (fl.is_finite p.0 && fl.is_finite p.1)
          then reject g conn reason
          else demand g p.0 p.1)
        (λ p.
          if_both (λ (a : Answered F). Obeys conn g a) (not (fl.is_finite p.0 && fl.is_finite p.1))
            (λ _. reject-Obeys conn g reason)
            (λ e. demand-Obeys p.0 p.1 h (ground arith) (ground arith)))

  pub do_manual-Obeys :
      (b : Builtins F) (action : Fields F) → Obeys conn g (do_manual b g conn action)
  unfolding do_manual
  do_manual-Obeys b action = owned-Obeys conn g _ (λ h.
      if_both (λ (a : Answered F). Obeys conn g a) (truthy (get action "active"))
        (λ _. manual_sample-Obeys b action h)
        (λ _.
          if_both (λ (a : Answered F). Obeys conn g a) (not g.is_manual_active)
            (λ _. idle-Obeys "manual idle")
            (λ e. send-Obeys "manual released" manual_inactive g.run_pressed false h (λ owner q.
              rests owner g.sequence g.client_id g.lease_id g.run_pressed g.is_manual_active q
                (ground arith)))))

  -- The end of the lease, by its owner.
  pub on_disconnect-Obeys : Obeys conn g (on_disconnect {F = F} g conn)
  unfolding on_disconnect intents_of events_by view_with
  on_disconnect-Obeys =
      if_both (λ (a : Answered F). Obeys conn g a) (not (is_owner_conn g conn)) (λ _. done (view g))
        (λ e.
          owner-Obeys conn g (intent_of lease_released (counted g)) (λ o. free (g.sequence + 1))
            (ground arith)
            (λ owner q.
              releases owner g.sequence g.client_id g.lease_id g.run_pressed g.is_manual_active q))

  pub do_release-Obeys : Obeys conn g (do_release {F = F} g conn)
  unfolding do_release
  do_release-Obeys =
      if_both (λ (a : Answered F). Obeys conn g a) (not (is_owner_conn g conn))
        (λ _. reject-Obeys conn g "not the lease owner") (λ _. on_disconnect-Obeys)

  module _ (ids : Ids) where
    -- A lease that nobody holds is given.
    given-Obeys :
        g.owner_conn ≡ none
        → Obeys conn g (
            accept {F = F}
              (counted (owned_by g conn ids))
              "control lease acquired"
              (control lease_acquired (counted (owned_by g conn ids))))
    unfolding intents_of events_by view_with
    given-Obeys e =
        subst
          (λ o.
            EventPath {F = F} (view_with o g)
              ((conn, intent_of lease_acquired (counted (owned_by g conn ids))) ∷ [])
              (view (counted (owned_by g conn ids))))
          (sym e) (sends conn (free g.sequence) _ _ _ [] (acquires g.sequence ids.0 ids.1) (done _))

    pub do_acquire-Obeys : Obeys conn g (do_acquire {F = F} g conn ids)
    unfolding do_acquire intents_of events_by
    do_acquire-Obeys =
        if_both (λ (a : Answered F). Obeys conn g a) (is_owner_conn g conn)
          (λ _. idle-Obeys "already holding the lease")
          (λ _.
            if_both (λ (a : Answered F). Obeys conn g a) (is_some g.owner_conn) (λ _. refused)
              (λ e. given-Obeys (none_of g.owner_conn e)))
      where
        none_of : (o : Option String) → is_some o ≡ false → o ≡ none
        none_of none q = refl
        none_of (some owner) q = absurd (cc)

        refused :
            Obeys conn g
              (some (result {F = F} false "another session holds the control lease" [] observer), g)
        refused = done (view g)

    -- The lease of another is lost, and given anew.
    taken-Obeys :
        is_owner_conn g conn ≡ false
        → is_some g.owner_conn ≡ true
        → Obeys conn g (
            let lost = counted g in
            let g' = counted (owned_by (dropped lost) conn ids) in
            accept {F = F} g' "control lease taken over"
              (control lease_lost lost ++ control lease_acquired g'))
    unfolding intents_of events_by view_with is_owner_conn
    taken-Obeys h = by_owner g.owner_conn h
      where
        by_owner :
            (o : Option String)
            → elim o [ none ↦ false | some owner ↦ str_eq conn owner ] ≡ false
            → is_some o ≡ true
            → EventPath
                (view_with o g)
                ((conn, intent_of {F = F} lease_lost (counted g))
                  ∷ (
                    conn,
                    intent_of lease_acquired (counted (owned_by (dropped (counted g)) conn ids)),
                  )
                  ∷ [])
                (held conn (g.sequence + 1 + 1) ids.0 ids.1 false false)
        by_owner none p q = absurd (cc)
        by_owner (some owner) p q =
            sends conn _ (free (g.sequence + 1)) _ _ _
              (revokes owner g.sequence g.client_id g.lease_id g.run_pressed g.is_manual_active p)
              (sends conn _ _ _ _ [] (acquires (g.sequence + 1) ids.0 ids.1) (done _))

    pub do_takeover-Obeys : Obeys conn g (do_takeover {F = F} g conn ids)
    unfolding do_takeover
    do_takeover-Obeys =
        if_both (λ (a : Answered F). Obeys conn g a) (is_owner_conn g conn)
          (λ _. idle-Obeys "already holding the lease")
          (λ e.
            if_both (λ (a : Answered F). Obeys conn g a) (not (is_some g.owner_conn))
              (λ _. do_acquire-Obeys) (λ s. taken-Obeys e (ground arith)))
