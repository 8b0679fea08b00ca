-- ===== src/Gateway/Pose/Tests.antt =====
-- One request for an initial pose, with times, lengths and angles in thousandths: witnesses and runs.
use ros_pre_runner.Prelude.{
  ℕ, ◌+◌, Option, true, false, none, some, List, [], ◌∷◌, ◌≡◌, refl, arith,
}
use ros_pre_runner.Prelude.Millis.{Millis, ms, millis_float}
use ros_pre_runner.Gateway.State.{controller}
use ros_pre_runner.Gateway.Pose.State.{
  Snapshot, PoseIntent, PoseStatus, PlanarPose, Observed, awaiting_pose, global, local, Pending,
  rejected, stopping, localizing, applied, Shown, published, asked, shown, PoseNode, Geometry,
  status_of, is_complete,
}
use ros_pre_runner.Gateway.Pose.Steps.{message_of}
use ros_pre_runner.Gateway.Pose.Clear.{Clients, agrees}
use ros_pre_runner.Gateway.Pose.Turn.{
  PoseEvent, turned, pose_events, Turn, PoseCall, requests, advances, confirms, replies, pose_calls,
}
use ros_pre_runner.Gateway.Pose.Protocol.{IsReady, IsSafe, IsSame, stage, Course}
use ros_pre_runner.Gateway.Pose.Evidence.{not_empty}
use ros_pre_runner.Gateway.Pose.Course.{pose_calls-Course}
use ros_pre_runner.Gateway.Pose.Applied.{pose_events-applied}
use ros_pre_runner.Gateway.Pose.Expiry.{pose_events-timed_out}

-- Small angles: a sine is its angle, and none is turned around.
abbrev geometry : Geometry Millis
geometry = record {
  hypot = λ a b. millis_float.add (millis_float.abs a) (millis_float.abs b);
  sin = λ a. a;
  cos = λ a. ms 1000;
  pi = ms 3142;
  radians = λ a. millis_float.mul a (ms 17);
  modulo = λ a b. a;
}

abbrev parked : Snapshot
parked = record {
  mode_fresh = true;
  map_state_fresh = true;
  stop_state_fresh = true;
  encoder_state_fresh = true;
  mode = some 2;
  status = some 0;
  ready = true;
  runtime_epoch = 3;
  active_autonomy_map = "yard";
  selected_map_applied = "yard";
  catalog = ("hall", true) ∷ ("yard", true) ∷ [];
  stopped = true;
  locked = true;
  healthy = true;
  applied = true;
  stationary = true;
}

abbrev gate : PoseIntent Millis
gate = record { frame = "map"; x = ms 1000; y = ms 2000; yaw = ms 500 }

abbrev near_gate : PlanarPose Millis
near_gate = record { x = ms 1100; y = ms 2100; yaw = ms 600 }

abbrev observed : Observed Millis
observed = record {
  stamp = ms 70;
  position = (ms 1100, ms 2100, ms 0);
  orientation = (ms 0, ms 0, ms 300, ms 950);
}

abbrev clients : Clients
clients = record {
  global_ready = true;
  local_ready = true;
  global_error = none;
  local_error = none;
}

abbrev idle_node : PoseNode Millis
idle_node = record { pending = none; request_id = 6 }

-- The local costmap answers first.
abbrev calls : List (PoseCall Millis)
calls =
    requests gate controller parked 1 (ms 10)
    ∷ advances parked 1 (ms 20)
    ∷ confirms observed near_gate clients parked (ms 80)
    ∷ replies 7 local none parked
    ∷ replies 7 global none parked
    ∷ []

parked-IsReady : IsReady parked
unfolding is_complete
parked-IsReady = record {
  mode_is_fresh = refl;
  is_autonomy = refl;
  is_stable = refl;
  is_ready = refl;
  map_is_fresh = refl;
  map_is_selected = not_empty "yard" refl;
  map_is_complete = refl;
  map_is_active = refl;
}

parked-IsSafe : IsSafe parked
parked-IsSafe = record {
  stop_is_fresh = refl;
  is_stopped = refl;
  is_locked = refl;
  is_healthy = refl;
  is_applied = refl;
  encoder_is_fresh = refl;
  is_stationary = refl;
}

parked-IsSame : IsSame (status_of gate parked) parked
parked-IsSame = (parked-IsReady, parked-IsSafe, refl, refl)

pose_calls-Course_example :
    Course geometry calls
      (stage idle_node)
      (pose_calls geometry idle_node calls).1
      (stage (pose_calls geometry idle_node calls).0)
pose_calls-Course_example = pose_calls-Course geometry idle_node calls

near : agrees geometry gate near_gate ≡ true
unfolding agrees
near = refl

abbrev gate_status : PoseStatus Millis
gate_status = status_of gate parked

-- The first turn has no transform yet.
abbrev turn_at : ℕ → Option (Observed Millis × PlanarPose Millis) → Turn Millis
turn_at now transform = record {
  expired_at = ms now;
  advanced_at = ms (now + 1);
  confirmed_at = ms (now + 2);
  seen = parked;
  subscribers = 1;
  transform = transform;
  clients = clients;
  seen_again = parked;
}

abbrev events : List (PoseEvent Millis)
events =
    PoseEvent.requested gate controller parked 1 (ms 10)
    ∷ turned (turn_at 20 none)
    ∷ turned (turn_at 80 (some (observed, near_gate)))
    ∷ PoseEvent.answered 7 local none parked
    ∷ PoseEvent.answered 7 global none parked
    ∷ []

pose_events-applied_example : pose_events geometry idle_node events ≡ (
  record { pending = none; request_id = 7 },
  shown gate_status stopping "STOP requested; awaiting applied STOP and stationary" none
      ∷ published (message_of geometry gate)
      ∷ shown gate_status localizing "pose published; awaiting slam_toolbox confirmation" none
      ∷ shown gate_status Shown.clearing "pose confirmed; clearing global and local costmaps"
          (some observed)
      ∷ asked global
      ∷ asked local
      ∷ shown gate_status applied
          "pose confirmed; global and local costmaps cleared; STOP remains asserted"
          (some observed)
      ∷ [],
)
pose_events-applied_example =
    pose_events-applied geometry 6 gate parked controller parked parked 1 (ms 10) (turn_at 20 none)
      (turn_at 80 (some (observed, near_gate))) observed near_gate local parked-IsReady
      (ground arith) refl parked-IsSame (ground arith) tt refl refl near parked-IsSame
      (refl, refl, refl, refl) parked-IsSame

abbrev waiting : Pending Millis
waiting = record {
  request_id = 7;
  phase = awaiting_pose;
  deadline = ms 5020;
  status = gate_status;
  intent = gate;
  global_left = false;
  local_left = false;
  clear_errors = [];
  observed = none;
}

-- The transform agrees, but too late, and so do the turn and the reply after it.
pose_events-timed_out_example :
    pose_events geometry
      (record { pending = some waiting; request_id = 7 })
      (turned (turn_at 5020 (some (observed, near_gate)))
        ∷ turned (turn_at 5100 (some (observed, near_gate)))
        ∷ PoseEvent.answered 7 local none parked
        ∷ [])
    ≡ (
      record { pending = none; request_id = 7 },
      shown gate_status rejected
            "application unconfirmed: map-frame robot pose did not match the requested initial pose"
            none
          ∷ [],
    )
pose_events-timed_out_example =
    pose_events-timed_out geometry 7 waiting (turn_at 5020 (some (observed, near_gate)))
      (turned (turn_at 5100 (some (observed, near_gate)))
        ∷ PoseEvent.answered 7 local none parked
        ∷ [])
      refl refl
