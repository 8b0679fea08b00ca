-- ===== src/Gateway/Pose/Applied.antt =====
-- The turns of an initial pose of src/runner_paddock/runner_paddock/ros_state_node.py that nothing hinders.
use ros_pre_runner.Prelude.{
  ◌∙◌, ◌≤◌, ℕ, ◌+◌, Bool, true, false, Option, none, some, [], ◌∷◌, ◌≡◌, refl,
}
use ros_pre_runner.Prelude.Float.{Float}
use ros_pre_runner.Gateway.State.{Role}
use ros_pre_runner.Gateway.Pose.State.{
  Snapshot, PoseIntent, PoseStatus, PlanarPose, Observed, Phase, waiting_stop, awaiting_pose,
  Costmap, global, local, Shown, stopping, localizing, applied, published, asked, shown, PoseNode,
  Geometry, status_of,
}
use ros_pre_runner.Gateway.Pose.Steps.{message_of}
use ros_pre_runner.Gateway.Pose.Clear.{Clients, agrees, confirm}
use ros_pre_runner.Gateway.Pose.Expiry.{
  confirm_calls, turn_calls, update_pose-pose_calls, pose_events-nil, pose_events-cons,
}
use ros_pre_runner.Gateway.Pose.Turn.{
  Turn, update_pose, PoseEvent, turned, pose_event, pose_events, pose_call, pose_calls,
}
use ros_pre_runner.Gateway.Pose.Protocol.{IsReady, IsSame, left}
use ros_pre_runner.Gateway.Pose.Way.{
  at, other_costmap, IsServing, requested, advanced, confirmed, heard_first, heard_last,
  expires_later, advances_no_more, pose_calls-nil, pose_calls-cons,
}

module _ {F : Type 0} ⦃fl : Float F⦄ (geo : Geometry F) where
  module _ (k : ℕ) (intent : PoseIntent F) (first : Snapshot) where
    abbrev pose_status : PoseStatus F
    pose_status = status_of intent first

    abbrev node_in : Phase → F → Bool → Bool → Option (Observed F) → PoseNode F
    node_in phase deadline g l observed = at geo k intent first phase deadline g l observed

    -- No transform, or one outside the tolerances
    abbrev pub IsUnconfirmed : Option (Observed F × PlanarPose F) → Type 0
    IsUnconfirmed none = Unit
    IsUnconfirmed (some (observed, robot)) = agrees geo intent robot ≡ false

    unconfirmed :
        (deadline : F) (transform : Option (Observed F × PlanarPose F)) (clients : Clients)
        (s : Snapshot) (now : F)
        → IsUnconfirmed transform
        → pose_calls geo
            (node_in awaiting_pose deadline false false none)
            (confirm_calls geo transform clients s now)
          ≡ (node_in awaiting_pose deadline false false none, [])
    unfolding pose_calls pose_call confirm_calls confirm
    unconfirmed deadline none clients s now h = refl
    unconfirmed deadline (some (observed, robot)) clients s now h = rw h refl

    -- The turn that publishes the pose
    turn-publishes :
        (deadline : F) (t : Turn F)
        → fl.lt t.expired_at deadline ≡ true
        → IsSame pose_status t.seen
        → 1 ≤ t.subscribers
        → IsUnconfirmed t.transform
        → update_pose geo (node_in waiting_stop deadline false false none) t ≡ (
          node_in awaiting_pose (fl.add t.advanced_at (fl.lit 5 1)) false false none,
          published (message_of geo intent)
              ∷ shown pose_status localizing "pose published; awaiting slam_toolbox confirmation"
                  none
              ∷ [],
        )
    unfolding turn_calls
    turn-publishes deadline t h same more u =
        let n : PoseNode F = node_in waiting_stop deadline false false none in
        let m : PoseNode F =
          node_in awaiting_pose (fl.add t.advanced_at (fl.lit 5 1)) false false none in
        update_pose-pose_calls geo n t
        ∙ pose_calls-cons geo n n m _ _ _ _
            (expires_later geo k intent first waiting_stop deadline false false none t.expired_at h)
            (pose_calls-cons geo n m m _ _ _ _
              (advanced geo k intent first deadline t.seen t.subscribers t.advanced_at same more)
              (unconfirmed _ t.transform t.clients t.seen_again t.confirmed_at u))

    -- The turn that recognizes the pose
    turn-confirms :
        (deadline : F) (t : Turn F) (observed : Observed F) (robot : PlanarPose F)
        → fl.lt t.expired_at deadline ≡ true
        → t.transform ≡ some (observed, robot)
        → agrees geo intent robot ≡ true
        → IsSame pose_status t.seen_again
        → IsServing t.clients
        → update_pose geo (node_in awaiting_pose deadline false false none) t ≡ (
          node_in Phase.clearing (fl.add t.confirmed_at (fl.lit 2 1)) true true (some observed),
          shown pose_status Shown.clearing "pose confirmed; clearing global and local costmaps"
                (some observed)
              ∷ asked global
              ∷ asked local
              ∷ [],
        )
    unfolding turn_calls confirm_calls
    turn-confirms deadline t observed robot h e a same (gr, lr, ge, le) =
        let n : PoseNode F = node_in awaiting_pose deadline false false none in
        let m : PoseNode F =
          node_in Phase.clearing (fl.add t.confirmed_at (fl.lit 2 1)) true true (some observed) in
        update_pose-pose_calls geo n t
        ∙ pose_calls-cons geo n n m _ _ _ _
            (expires_later geo k intent first awaiting_pose deadline false false none t.expired_at
              h)
            (pose_calls-cons geo n n m _ _ _ _
              (advances_no_more geo k intent first deadline t.seen t.subscribers t.advanced_at)
              (rw e (
                pose_calls-cons geo n m m _ _ _ _
                  (confirmed geo k intent first deadline observed robot t.clients t.seen_again
                    t.confirmed_at same a gr lr ge le)
                  (pose_calls-nil geo m))))

    -- A pose that a client requests, with a subscriber of /initialpose there, while the localization of a selected,
    -- complete map runs and no transaction is pending, is shown as applied, after one pose message and one call of
    -- each clear service, in that order, if what follows is: a turn of `_update_pose` less than 5 s after the
    -- request, which sees an applied STOP, a stationary robot and the map and runtime epoch of the request, with a
    -- subscriber, and which has no transform within the tolerances yet; a turn less than 5 s after that one, which
    -- has a transform within both tolerances and sees the same evidence once more, when both services are ready and
    -- neither call raises; and, before another turn, both services' replies without an error, in either order, the
    -- later one with the same evidence. No transaction is pending then.
    pub pose_events-applied :
        (role : Role) (fourth fifth : Snapshot) (subscribers : ℕ) (t₀ : F) (t u : Turn F)
        (observed : Observed F) (robot : PlanarPose F) (costmap : Costmap)
        → IsReady first
        → 1 ≤ subscribers
        → fl.lt t.expired_at (fl.add t₀ (fl.lit 5 1)) ≡ true
        → IsSame pose_status t.seen
        → 1 ≤ t.subscribers
        → IsUnconfirmed t.transform
        → fl.lt u.expired_at (fl.add t.advanced_at (fl.lit 5 1)) ≡ true
        → u.transform ≡ some (observed, robot)
        → agrees geo intent robot ≡ true
        → IsSame pose_status u.seen_again
        → IsServing u.clients
        → IsSame pose_status fifth
        → pose_events geo
            (record { pending = none; request_id = k })
            (PoseEvent.requested intent role first subscribers t₀
              ∷ turned t
              ∷ turned u
              ∷ PoseEvent.answered (k + 1) costmap none fourth
              ∷ PoseEvent.answered (k + 1) (other_costmap costmap) none fifth
              ∷ [])
          ≡ (
            record { pending = none; request_id = k + 1 },
            shown pose_status stopping "STOP requested; awaiting applied STOP and stationary" none
                ∷ published (message_of geo intent)
                ∷ shown pose_status localizing "pose published; awaiting slam_toolbox confirmation"
                    none
                ∷ shown pose_status Shown.clearing
                    "pose confirmed; clearing global and local costmaps"
                    (some observed)
                ∷ asked global
                ∷ asked local
                ∷ shown pose_status applied
                    "pose confirmed; global and local costmaps cleared; STOP remains asserted"
                    (some observed)
                ∷ [],
          )
    unfolding pose_event
    pose_events-applied role fourth fifth subscribers t₀ t u observed robot costmap r h early same
          more far soon e a again serving last =
        let idle : PoseNode F = record { pending = none; request_id = k } in
        let done : PoseNode F = record { pending = none; request_id = k + 1 } in
        let waiting : PoseNode F = node_in waiting_stop (fl.add t₀ (fl.lit 5 1)) false false none in
        let localized : PoseNode F =
          node_in awaiting_pose (fl.add t.advanced_at (fl.lit 5 1)) false false none in
        let over : F = fl.add u.confirmed_at (fl.lit 2 1) in
        let both : PoseNode F = node_in Phase.clearing over true true (some observed) in
        let single : PoseNode F =
          node_in Phase.clearing over (left costmap false true) (left costmap true false)
            (some observed) in
        pose_events-cons geo idle waiting done _ _ _ _
          (requested geo k intent first role subscribers t₀ r h)
          (pose_events-cons geo waiting localized done _ _ _ _
            (turn-publishes _ t early same more far)
            (pose_events-cons geo localized both done _ _ _ _
              (turn-confirms _ u observed robot soon e a again serving)
              (pose_events-cons geo both single done _ _ _ _
                (heard_first geo k intent first over observed costmap fourth)
                (pose_events-cons geo single done done _ _ _ _
                  (heard_last geo k intent first over observed costmap fifth last)
                  (pose_events-nil geo done)))))
