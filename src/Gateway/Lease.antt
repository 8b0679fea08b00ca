-- ===== src/Gateway/Lease.antt =====
-- The actions of src/runner_paddock/runner_paddock/gateway.py on the lease, RUN, STOP and manual control.
use ros_pre_runner.Prelude.{
  String, true, false, not, ◌&&◌, none, some, is_some, [], ◌∷◌, ◌++◌, if◌then◌else◌,
}
use ros_pre_runner.Prelude.Float.{Float}
use ros_pre_runner.CommandSupervisor.{
  ControlEvent, run_pressed, run_released, stop, manual_active, manual_inactive, lease_acquired,
  lease_lost, heartbeat, clear_stop,
}
use ros_pre_runner.Gateway.Values.{
  Fields, Builtins, Converted, converted, invalid, overflow, ◌>>=◌, get, float_of, truthy,
}
use ros_pre_runner.Gateway.State.{
  OperatorGateway, Ids, Answered, result, observer, is_owner_conn, reject, accept, owned, counted,
  intent_of, control, control_event, on_disconnect, dropped, owned_by,
}

-- RUN and manual control end.
abbrev pub at_rest : OperatorGateway → OperatorGateway
at_rest g = record g { run_pressed = false; is_manual_active = false }

module _ {F : Type 0} ⦃fl : Float F⦄ where
  abbrev pub already_holding : OperatorGateway → Answered F
  already_holding g = accept g "already holding the lease" []

  unfoldable pub do_acquire : OperatorGateway → String → Ids → Answered F
  unfolding is_owner_conn
  do_acquire g conn ids =
      if is_owner_conn g conn
      then already_holding g
      else if is_some g.owner_conn
      then (some (result false "another session holds the control lease" [] observer), g)
      else (let g' = counted (owned_by g conn ids) in
          accept g' "control lease acquired" (control lease_acquired g'))

  unfoldable pub do_takeover : OperatorGateway → String → Ids → Answered F
  unfolding is_owner_conn do_acquire
  do_takeover g conn ids =
      if is_owner_conn g conn
      then already_holding g
      else if not (is_some g.owner_conn)
      then do_acquire g conn ids
      else (let lost = counted g in
          let g' = counted (owned_by (dropped lost) conn ids) in
          accept g' "control lease taken over"
            (control lease_lost lost ++ control lease_acquired g'))

  unfoldable pub do_release : OperatorGateway → String → Answered F
  unfolding is_owner_conn reject on_disconnect
  do_release g conn =
      if not (is_owner_conn g conn)
      then reject g conn "not the lease owner"
      else on_disconnect g conn

  -- An accepted action of the owner that sends one control event.
  abbrev pub send : OperatorGateway → String → ControlEvent → Answered F
  send g reason event = accept (counted g) reason (control event (counted g))

  unfoldable pub do_heartbeat : OperatorGateway → String → Answered F
  unfolding owned
  do_heartbeat g conn = owned g conn (send g "heartbeat" heartbeat)

  unfoldable pub do_run : OperatorGateway → String → Fields F → Answered F
  unfolding owned truthy get
  do_run g conn action =
      let held = truthy (get action "held") in
      owned g conn (
        if held && not g.run_pressed
        then send (record g { run_pressed = true }) "RUN pressed" run_pressed
        else if held && g.run_pressed
        then send g "RUN held" heartbeat
        else if not held && g.run_pressed
        then send (record g { run_pressed = false }) "RUN released" run_released
        else accept g "RUN idle" [])

  unfoldable pub do_stop : OperatorGateway → String → Answered F
  unfolding owned
  do_stop g conn = owned g conn (send (at_rest g) "STOP requested" stop)

  unfoldable pub do_clear_stop : OperatorGateway → String → Answered F
  unfolding owned
  do_clear_stop g conn = owned g conn (send g "CLEAR STOP requested" clear_stop)

  abbrev pub demand : OperatorGateway → F → F → Answered F
  demand g speed steering =
      let g' = counted (record g { is_manual_active = true; run_pressed = false }) in
      accept g' "manual demand" (
        control_event (record (intent_of manual_active g') {
          manual_speed_mps = speed;
          manual_steering = steering;
        })
        ∷ [])

  -- What is converted goes on; what is invalid is rejected; an OverflowError escapes.
  abbrev pub when_converted :
      {A : Type 0} → OperatorGateway → String → String → Converted A → (A → Answered F) → Answered F
  when_converted g conn reason (converted a) f = f a
  when_converted g conn reason invalid f = reject g conn reason
  when_converted g conn reason overflow f = (none, g)

  module _ (b : Builtins F) where
    abbrev pub sample_of : Fields F → Converted (F × F)
    sample_of action = do
      speed ← float_of b (get action "speed_mps")
      steering ← float_of b (get action "steering")
      converted (speed, steering)

    abbrev pub manual_sample : OperatorGateway → String → Fields F → Answered F
    manual_sample g conn action =
        let reason : String = "manual needs finite speed and steering" in
        when_converted g conn reason (sample_of action) (λ p.
          if not (fl.is_finite p.0 && fl.is_finite p.1)
          then reject g conn reason
          else demand g p.0 p.1)

    unfoldable pub do_manual : OperatorGateway → String → Fields F → Answered F
    unfolding owned truthy get reject
    do_manual g conn action = owned g conn (
        if truthy (get action "active")
        then manual_sample g conn action
        else if not g.is_manual_active
        then accept g "manual idle" []
        else send (record g { is_manual_active = false }) "manual released" manual_inactive)
