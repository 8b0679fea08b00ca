-- ===== src/Gateway/Pose/Clear.antt =====
-- How the initial pose of src/runner_paddock/runner_paddock/ros_state_node.py is confirmed by a transform, and how
-- both costmaps are cleared behind it.
use ros_pre_runner.Prelude.{
  ℕ, String, str_eq, Bool, true, false, not, ◌&&◌, ◌||◌, Option, none, some, [], ◌∷◌, ◌++◌,
  if◌then◌else◌,
}
use ros_pre_runner.Prelude.Float.{Float}
use ros_pre_runner.ModeRuntime.Text.{◌<>◌, join}
use ros_pre_runner.Gateway.Pose.State.{
  Snapshot, PoseIntent, PlanarPose, Observed, Phase, awaiting_pose, Costmap, global, local, Pending,
  Shown, applied, asked, shown, PoseNode, Geometry, unsafe_reason,
}
use ros_pre_runner.Gateway.Pose.Steps.{Moved, phase_eq, is_current, fail}

abbrev pub costmap_name : Costmap → String
costmap_name global = "global"
costmap_name local = "local"

-- The error of a reply, from the exception that its result raises
abbrev pub reply_error : Costmap → Option String → Option String
reply_error costmap none = none
reply_error costmap (some exception) = some (costmap_name costmap <> " clear failed: " <> exception)

module _ {F : Type 0} where
  abbrev pub is_left : Pending F → Costmap → Bool
  is_left p global = p.global_left
  is_left p local = p.local_left

  abbrev pub without : Pending F → Costmap → Pending F
  without p global = record p { global_left = false }
  without p local = record p { local_left = false }

  -- The dictionary after one more reply
  abbrev pub replied : Pending F → Costmap → Option String → Pending F
  replied p costmap none = without p costmap
  replied p costmap (some error) = record (without p costmap) {
    clear_errors = p.clear_errors ++ error ∷ [];
  }

  -- `_finish_initial_pose_clear`, behind the last reply
  unfoldable pub complete : PoseNode F → Pending F → Snapshot → Moved F
  unfolding fail unsafe_reason
  complete n p s = elim p.clear_errors [
    | error ∷ errors ↦ fail n p ("costmap clear failed: " <> join "; " (error ∷ errors)) p.observed
    | [] ↦
        if not (str_eq (unsafe_reason p.status s) "")
        then fail n p ("safety invariant lost before completion: " <> unsafe_reason p.status s)
            p.observed
        else (
          record n { pending = none },
          shown p.status applied
                "pose confirmed; global and local costmaps cleared; STOP remains asserted"
                p.observed
              ∷ [],
        )
  ]

  unfoldable pub finish_clear : PoseNode F → ℕ → Costmap → Option String → Snapshot → Moved F
  unfolding complete
  finish_clear n id costmap error s = elim n.pending [
    | none ↦ (n, [])
    | some p ↦
        if not (is_current (some p) id Phase.clearing && is_left p costmap)
        then (n, [])
        else (let p' = replied p costmap error in
            let n' = record n { pending = some p' } in
            if p'.global_left || p'.local_left then (n', []) else complete n' p' s)
  ]

  -- A call of a clear service: its reply comes later, unless the call itself raises.
  unfoldable pub ask_clear : PoseNode F → ℕ → Costmap → Option String → Snapshot → Moved F
  unfolding finish_clear
  ask_clear n id costmap none s = (n, asked costmap ∷ [])
  ask_clear n id costmap (some error) s =
      let done =
        finish_clear n id costmap
          (some (costmap_name costmap <> " clear failed to start: " <> error)) s in
      (done.0, asked costmap ∷ done.1)

-- `' and '.join(unavailable)`
abbrev unavailable : Bool → Bool → String
unavailable true local_ready = "local"
unavailable false true = "global"
unavailable false false = "global and local"

-- The two clear services: whether each is ready, and what its call raises.
pub record Clients : Type 0 where
  pub global_ready : Bool
  pub local_ready : Bool
  pub global_error : Option String
  pub local_error : Option String

module _ {F : Type 0} ⦃fl : Float F⦄ where
  module _ (geo : Geometry F) where
    -- `normalized_yaw`
    abbrev pub normalized_yaw : F → F
    normalized_yaw yaw = fl.sub (geo.modulo (fl.add yaw geo.pi) (fl.mul (fl.lit 2 1) geo.pi)) geo.pi

    -- The transform is within both tolerances of the request.
    unfoldable pub agrees : PoseIntent F → PlanarPose F → Bool
    agrees intent robot =
        not (fl.lt (fl.lit 25 100) (geo.hypot (fl.sub robot.x intent.x) (fl.sub robot.y intent.y)))
        && not (
            fl.lt (geo.radians (fl.lit 15 1))
              (fl.abs (normalized_yaw (fl.sub robot.yaw intent.yaw))))

  -- `_start_initial_pose_clear`
  unfoldable pub start_clear :
      PoseNode F → Pending F → Observed F → Clients → Snapshot → F → Moved F
  unfolding fail ask_clear
  start_clear n p observed clients s now =
      if not (clients.global_ready && clients.local_ready)
      then fail n p
          ("Nav2 "
            <> unavailable clients.global_ready clients.local_ready
            <> " costmap clear service unavailable after localization confirmation")
          (some observed)
      else elim n.pending [
        | none ↦ (n, [])
        | some c ↦
            if not (is_current (some c) p.request_id awaiting_pose)
            then (n, [])
            else (let n' = record n {
              pending = some (record c {
                phase = Phase.clearing;
                deadline = fl.add now (fl.lit 2 1);
                global_left = true;
                local_left = true;
                clear_errors = [];
                observed = some observed;
              });
            } in
                let first = ask_clear n' p.request_id global clients.global_error s in
                let second = ask_clear first.0 p.request_id local clients.local_error s in
                (
                  second.0,
                  shown p.status Shown.clearing "pose confirmed; clearing global and local costmaps"
                          (some observed)
                        ∷ first.1
                      ++ second.1,
                ))
      ]

  module _ (geo : Geometry F) where
    -- `_confirm_initial_pose_from_tf`
    unfoldable pub confirm :
        PoseNode F → Observed F → PlanarPose F → Clients → Snapshot → F → Moved F
    unfolding fail start_clear agrees unsafe_reason
    confirm n observed robot clients s now = elim n.pending [
      | none ↦ (n, [])
      | some p ↦
          if not (phase_eq p.phase awaiting_pose) || not (agrees geo p.intent robot)
          then (n, [])
          else if not (str_eq (unsafe_reason p.status s) "")
          then fail n p (unsafe_reason p.status s) none
          else start_clear n p observed clients s now
    ]
