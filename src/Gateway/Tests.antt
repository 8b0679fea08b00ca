-- ===== src/Gateway/Tests.antt =====
-- Two browsers before the gateway and its supervisor, with times in milliseconds: witnesses and runs.
use ros_pre_runner.Prelude.{
  is_some, String, true, false, none, some, List, [], ◌∷◌, ◌≡◌, refl, inl, inr,
}
use ros_pre_runner.Prelude.Int.{pos}
use ros_pre_runner.Prelude.Millis.{Millis, ms, millis_float}
use ros_pre_runner.StateMachine.{lease_active, initial, transition}
use ros_pre_runner.CommandSupervisor.{
  stop, lease_released, Supervisor, Settings, init, heartbeat, handle_control_event, tick,
  is_newer_sequence, run_pressed, lease_acquired,
}
use ros_pre_runner.CommandSupervisor.Calls.{call, ticked}
use ros_pre_runner.Gateway.Values.{
  array, no_items, Json, boolean, integer, number, text, object, Fields, no_fields, field, Builtins,
  Converted, converted, invalid, overflow, get,
}
use ros_pre_runner.Gateway.State.{
  on_disconnect, ControlEventIntent, OperatorGateway, new_gateway, is_owner_conn, counted,
  intent_of,
}
use ros_pre_runner.Gateway.Lease.{do_stop, do_heartbeat}
use ros_pre_runner.Gateway.Handle.{handle, action_named}
use ros_pre_runner.Gateway.Protocol.{
  EventPath, view, Call, message, disconnect, answers, events_by, intents_of, plain,
}
use ros_pre_runner.Gateway.Obeys.Runs.{answers-EventPath}
use ros_pre_runner.Gateway.Observers.{IsQuiet, MayTake, action_of, handle-IsQuiet}
use ros_pre_runner.Gateway.Submit.{submit}
use ros_pre_runner.Gateway.Submit.Published.{IsPublished, submit-IsPublished}
use ros_pre_runner.Gateway.Submit.Held.{clear_free, submit-clear_free}
use ros_pre_runner.Gateway.Pose.State.{PoseNode, waiting_stop}
use ros_pre_runner.Gateway.Link.{input_of}
use ros_pre_runner.Gateway.Link.Course.{Delivers, quiet, arrives, meanwhile}
use ros_pre_runner.Gateway.Link.Halts.{IsHalted, owner-halts}
use ros_pre_runner.Gateway.Link.Regains.{heartbeat-regains}

abbrev float_of_json : Json Millis → Converted Millis
float_of_json (number x) = converted x
float_of_json (integer z) = overflow
float_of_json _ = invalid

-- An integer is one that no float holds.
abbrev builtins : Builtins Millis
builtins = record {
  show = λ v. "value";
  to_float = float_of_json;
  to_int = λ v. invalid;
  strip = λ t. t;
  lower = λ t. t;
  fixed2 = λ x. "0.00";
}

abbrev press : String → Fields Millis → Json Millis
press name rest = object (field "action" (text name) rest)

abbrev run_held : Json Millis
run_held = press "run" (field "held" (boolean true) no_fields)

abbrev session : List (Call Millis)
session =
    message "tablet" (press "acquire" no_fields) ("client-1", "lease-1")
    ∷ message "tablet" run_held ("", "")
    ∷ []

abbrev contested : List (Call Millis)
contested =
    message "tablet" (press "acquire" no_fields) ("client-1", "lease-1")
    ∷ message "phone" run_held ("", "")
    ∷ message "phone" (press "takeover" no_fields) ("client-2", "lease-2")
    ∷ disconnect "phone"
    ∷ []

abbrev held_by_tablet : OperatorGateway
held_by_tablet = record {
  sequence = 2;
  owner_conn = some "tablet";
  client_id = "client-1";
  lease_id = "lease-1";
  run_pressed = true;
  is_manual_active = false;
}

session-runs : (answers builtins new_gateway session).1 ≡ held_by_tablet
unfolding answers
session-runs = refl

answers-EventPath_example :
    EventPath
      (view new_gateway)
      (answers builtins new_gateway contested).0
      (view (answers builtins new_gateway contested).1)
answers-EventPath_example = answers-EventPath builtins new_gateway contested

phone_may_not : ¬ MayTake held_by_tablet (action_of run_held)
unfolding get action_named
phone_may_not (inl p) = absurd (cc)
phone_may_not (inr p) = absurd (cc (p.0))

handle-IsQuiet_example :
    IsQuiet held_by_tablet (handle builtins held_by_tablet "phone" run_held ("", ""))
unfolding is_owner_conn
handle-IsQuiet_example =
    handle-IsQuiet builtins held_by_tablet "phone" run_held ("", "") refl phone_may_not

-- An OverflowError escapes, and the gateway is as before.
overflow_escapes :
    handle builtins held_by_tablet "tablet"
      (press "manual" (
        field "active"
          (boolean true)
          (field "speed_mps" (integer (pos 9)) (field "steering" (number (ms 0)) no_fields))))
      ("", "")
    ≡ (none, held_by_tablet)
unfolding handle
overflow_escapes = refl

abbrev settings : Settings Millis
settings = record {
  lease_timeout_sec = ms 150;
  raw_autonomy_timeout_sec = ms 150;
  control_liveness_sec = some (ms 3000);
  manual_timeout_sec = ms 250;
  manual_max_speed_mps = ms 400;
  minimum_moving_speed_mps = ms 250;
  active_autonomy_map = "studio";
}

abbrev fresh : Supervisor Millis
fresh = record {
  lease_timeout_sec = ms 150;
  control_liveness_sec = ms 3000;
  raw_autonomy_timeout_sec = ms 150;
  manual_timeout_sec = ms 250;
  manual_max_speed_mps = ms 400;
  minimum_moving_speed_mps = ms 250;
  state = initial "studio";
  last_lease_receive_at = none;
  last_raw_autonomy_at = none;
  last_manual_input_at = none;
  last_raw_manual_at = none;
  manual_demand = none;
  last_control_sequence = none;
  lapsed_lease = none;
}

abbrev acquired_first : ControlEventIntent Millis
acquired_first = plain lease_acquired 1 "client-1" "lease-1"

abbrev pressed_second : ControlEventIntent Millis
pressed_second = plain run_pressed 2 "client-1" "lease-1"

-- The supervisor after the two events, and ten seconds of silence.
abbrev silent : Supervisor Millis
silent =
    (call
      (handle_control_event (handle_control_event fresh (input_of acquired_first) (ms 0)).0
        (input_of pressed_second) (ms 100)).0
      ticked (ms 10000))

silent-HasLapsed : silent.lapsed_lease ≡ some ("client-1", "lease-1")
unfolding call handle_control_event tick transition is_newer_sequence
silent-HasLapsed = refl

silent-IsDelivered : Delivers fresh (answers builtins new_gateway session).0 silent
unfolding answers
silent-IsDelivered = arrives "tablet" acquired_first (ms 0) _ _ _ refl (
    arrives "tablet" pressed_second (ms 100) _ _ _ refl
      (meanwhile ticked (ms 10000) _ _ _ refl (quiet silent)))

heartbeat-regains_example :
    let g = (answers builtins new_gateway session).1 in
    let e : ControlEventIntent Millis = intent_of heartbeat (counted g) in
    let a = handle_control_event silent (input_of e) (ms 10050) in
    (events_by "tablet" (intents_of (do_heartbeat g "tablet").0) ≡ ("tablet", e) ∷ [])
    × (a.1.accepted ≡ true)
    × (a.0.state.lease_client_id ≡ g.client_id)
    × (a.0.state.lease_id ≡ g.lease_id)
unfolding init answers is_owner_conn
heartbeat-regains_example =
    heartbeat-regains builtins settings session fresh silent "tablet" (ms 10050) refl
      silent-IsDelivered refl refl

owner-halts_example :
    let g = (answers builtins new_gateway session).1 in
    let halt : ControlEventIntent Millis = intent_of stop (counted g) in
    let bye : ControlEventIntent Millis = intent_of lease_released (counted g) in
    (events_by "tablet" (intents_of (do_stop g "tablet").0) ≡ ("tablet", halt) ∷ [])
    × IsHalted (handle_control_event silent (input_of halt) (ms 10050)).0.state
    × (events_by "tablet" (intents_of (on_disconnect g "tablet").0) ≡ ("tablet", bye) ∷ [])
    × (lease_active (handle_control_event silent (input_of bye) (ms 10050)).0.state ≡ false)
    × IsHalted (handle_control_event silent (input_of bye) (ms 10050)).0.state
unfolding init answers is_owner_conn
owner-halts_example =
    owner-halts builtins settings session fresh silent "tablet" (ms 10050) refl silent-IsDelivered
      refl refl

submit-IsPublished_example :
    let a = handle builtins held_by_tablet "tablet" (press "clear_stop" no_fields) ("", "") in
    let s =
      submit builtins
        (λ i r. r)
        true
        "studio"
        held_by_tablet
        "tablet"
        (press "clear_stop" no_fields)
        ("", "") in
    (s.2 ≡ a.1) × IsPublished true (events_by "tablet" (intents_of a.0)) (events_by "tablet" s.1)
submit-IsPublished_example =
    submit-IsPublished builtins (λ i r. r) true "studio" held_by_tablet "tablet"
      (press "clear_stop" no_fields) ("", "")

abbrev pose_waits : PoseNode Millis
pose_waits = record {
  pending = some (record {
    request_id = 1;
    phase = waiting_stop;
    deadline = ms 5000;
    status = record {
      map = "studio";
      runtime_epoch = 2;
      requested = record { frame = "map"; x = ms 0; y = ms 0; yaw = ms 0 };
    };
    intent = record { frame = "map"; x = ms 0; y = ms 0; yaw = ms 0 };
    global_left = false;
    local_left = false;
    clear_errors = [];
    observed = none;
  });
  request_id = 1;
}

submit-clear_free_example :
    clear_free (
      events_by "tablet"
        (submit builtins
          (λ i r. r)
          (is_some pose_waits.pending)
          "studio"
          held_by_tablet
          "tablet"
          (press "clear_stop" no_fields)
          ("", "")).1)
    ≡ true
submit-clear_free_example =
    submit-clear_free builtins (λ i r. r) "studio" held_by_tablet "tablet"
      (press "clear_stop" no_fields) ("", "") pose_waits refl

-- CLEAR STOP is held back during an initial pose, though the gateway has counted it.
clear_stop_held_back :
    let s =
      submit builtins
        (λ i r. r)
        true
        "studio"
        held_by_tablet
        "tablet"
        (press "clear_stop" no_fields)
        ("", "") in
    (s.1 ≡ []) × (s.2 ≡ counted held_by_tablet)
unfolding submit
clear_stop_held_back = (refl, refl)

-- A message that is no object is rejected by the gateway, and its log raises an exception.
array_escapes :
    submit builtins (λ i r. r) false "studio" held_by_tablet "tablet" (array no_items) ("", "")
    ≡ (none, [], held_by_tablet)
unfolding submit
array_escapes = refl
