-- ===== src/Gateway/Pose/Steps.antt =====
-- The methods of the initial pose transaction of src/runner_paddock/runner_paddock/ros_state_node.py. A method that
-- takes a pending transaction gets the one that its caller read, and goes on only if it still is the same, as its number tells.
use ros_pre_runner.Prelude.{
  ℕ, ◌+◌, ◌==◌, String, str_eq, ltb, Bool, true, false, not, ◌&&◌, Option, none, some, List, [],
  ◌∷◌, if◌then◌else◌,
}
use ros_pre_runner.Prelude.Float.{Float}
use ros_pre_runner.Gateway.State.{GatewayResult, Role, result}
use ros_pre_runner.Gateway.Pose.State.{
  Snapshot, PoseIntent, Observed, Phase, waiting_stop, awaiting_pose, Pending, rejected, stopping,
  localizing, PoseMessage, PoseAction, published, shown, PoseNode, Geometry, rejection,
  safety_rejection, status_of, context_changed,
}

-- The node after a method, and what it sent.
abbrev pub Moved : Type 0 → Type 0
Moved F = PoseNode F × List (PoseAction F)

abbrev pub phase_eq : Phase → Phase → Bool
phase_eq waiting_stop waiting_stop = true
phase_eq awaiting_pose awaiting_pose = true
phase_eq Phase.clearing Phase.clearing = true
phase_eq _ _ = false

module _ {F : Type 0} where
  -- The transaction that is pending, in a phase.
  abbrev pub is_current : Option (Pending F) → ℕ → Phase → Bool
  is_current none id phase = false
  is_current (some p) id phase = p.request_id == id && phase_eq p.phase phase

  -- `_fail_initial_pose`
  unfoldable pub fail : PoseNode F → Pending F → String → Option (Observed F) → Moved F
  fail n p detail observed = elim n.pending [
    | none ↦ (n, [])
    | some c ↦
        if c.request_id == p.request_id
        then (record n { pending = none }, shown p.status rejected detail observed ∷ [])
        else (n, [])
  ]

-- `details`
abbrev pub timed_out : Phase → String
timed_out waiting_stop = "timed out waiting for applied STOP and stationary"
timed_out awaiting_pose =
    "application unconfirmed: map-frame robot pose did not match the requested initial pose"
timed_out Phase.clearing = "timed out clearing dynamic costmaps"

module _ {F : Type 0} ⦃fl : Float F⦄ where
  -- `_set_initial_pose`
  unfoldable pub set_initial_pose :
      PoseNode F → PoseIntent F → Role → Snapshot → ℕ → F → Moved F × GatewayResult F
  unfolding rejection
  set_initial_pose n intent role s subscribers now =
      let reason =
        if str_eq (rejection s) "" && ltb subscribers 1
        then "slam_toolbox /initialpose subscriber unavailable"
        else rejection s in
      let status = status_of intent s in
      if not (str_eq reason "")
      then (
        (record n { pending = none }, shown status rejected reason none ∷ []),
        result false reason [] role,
      )
      else elim n.pending [
        | some p ↦ ((n, []), result false "initial pose transaction already in progress" [] role)
        | none ↦ (
          (
            record n {
              request_id = n.request_id + 1;
              pending = some (record {
                request_id = n.request_id + 1;
                phase = waiting_stop;
                deadline = fl.add now (fl.lit 5 1);
                status = status;
                intent = intent;
                global_left = false;
                local_left = false;
                clear_errors = [];
                observed = none;
              });
            },
            shown status stopping "STOP requested; awaiting applied STOP and stationary" none ∷ [],
          ),
          result true "initial pose accepted; awaiting safe stopped state" [] role,
        )
      ]

  module _ (geo : Geometry F) where
    abbrev pub message_of : PoseIntent F → PoseMessage F
    message_of intent = record {
      frame_id = "map";
      covariance_x = fl.lit 25 100;
      covariance_y = fl.lit 25 100;
      covariance_yaw = fl.lit 6853891909122467 100000000000000000;
      x = intent.x;
      y = intent.y;
      orientation_z = geo.sin (fl.div intent.yaw (fl.lit 2 1));
      orientation_w = geo.cos (fl.div intent.yaw (fl.lit 2 1));
    }

    -- `_publish_initial_pose`
    unfoldable pub publish_pose : PoseNode F → Pending F → F → Moved F
    publish_pose n p now = elim n.pending [
      | none ↦ (n, [])
      | some c ↦ if not (is_current (some c) p.request_id waiting_stop) then (n, []) else (
        record n {
          pending = some (record c { phase = awaiting_pose; deadline = fl.add now (fl.lit 5 1) });
        },
        published (message_of p.intent)
            ∷ shown p.status localizing "pose published; awaiting slam_toolbox confirmation" none
            ∷ [],
      )
    ]

    -- `_advance_initial_pose_transaction`
    unfoldable pub advance : PoseNode F → Snapshot → ℕ → F → Moved F
    unfolding fail publish_pose context_changed safety_rejection
    advance n s subscribers now = elim n.pending [
      | none ↦ (n, [])
      | some p ↦
          if not (phase_eq p.phase waiting_stop)
          then (n, [])
          else if not (str_eq (context_changed p.status s) "")
          then fail n p (context_changed p.status s) none
          else if not (str_eq (safety_rejection s) "")
          then (n, shown p.status stopping (safety_rejection s) none ∷ [])
          else if ltb subscribers 1
          then fail n p "slam_toolbox /initialpose subscriber unavailable" none
          else publish_pose n p now
    ]

  -- `_expire_initial_pose_confirmation`
  unfoldable pub expire : PoseNode F → F → Moved F
  unfolding fail
  expire n now = elim n.pending [
    | none ↦ (n, [])
    | some p ↦ if fl.lt now p.deadline then (n, []) else fail n p (timed_out p.phase) p.observed
  ]
