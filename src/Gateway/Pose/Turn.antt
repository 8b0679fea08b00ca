-- ===== src/Gateway/Pose/Turn.antt =====
-- One turn of `_update_pose` of src/runner_paddock/runner_paddock/ros_state_node.py, and the calls that the initial
-- pose transaction gets one by one.
use ros_pre_runner.Prelude.{ℕ, String, Option, none, some, List, [], ◌∷◌, ◌++◌}
use ros_pre_runner.Prelude.Float.{Float}
use ros_pre_runner.Gateway.State.{Role}
use ros_pre_runner.Gateway.Pose.State.{
  Snapshot, PoseIntent, PlanarPose, Observed, Costmap, PoseNode, Geometry,
}
use ros_pre_runner.Gateway.Pose.Steps.{Moved, set_initial_pose, advance, expire}
use ros_pre_runner.Gateway.Pose.Clear.{Clients, confirm, finish_clear, reply_error}

-- What one turn of `_update_pose` reads: clocks, snapshots, and the transform, if it is there and finite.
pub record Turn (F : Type 0) : Type 0 where
  pub expired_at : F
  pub advanced_at : F
  pub confirmed_at : F
  pub seen : Snapshot
  pub subscribers : ℕ
  pub transform : Option (Observed F × PlanarPose F)
  pub clients : Clients
  pub seen_again : Snapshot

module _ {F : Type 0} ⦃fl : Float F⦄ (geo : Geometry F) where
  unfoldable pub confirm_if :
      PoseNode F → Option (Observed F × PlanarPose F) → Clients → Snapshot → F → Moved F
  unfolding confirm
  confirm_if n none clients s now = (n, [])
  confirm_if n (some (observed, robot)) clients s now = confirm geo n observed robot clients s now

  -- `_update_pose`, as far as the transaction goes
  unfoldable pub update_pose : PoseNode F → Turn F → Moved F
  unfolding expire advance confirm_if
  update_pose n t =
      let a = expire n t.expired_at in
      let b = advance geo a.0 t.seen t.subscribers t.advanced_at in
      let c = confirm_if b.0 t.transform t.clients t.seen_again t.confirmed_at in
      (c.0, a.1 ++ b.1 ++ c.1)

-- The methods that a request, a turn of `_update_pose` and a reply call, one by
-- one; a turn calls the middle three in this order
pub data PoseCall (F : Type 0) : Type 0 where
  requests : PoseIntent F → Role → Snapshot → ℕ → F → PoseCall F
  expires : F → PoseCall F
  advances : Snapshot → ℕ → F → PoseCall F
  confirms : Observed F → PlanarPose F → Clients → Snapshot → F → PoseCall F
  replies : ℕ → Costmap → Option String → Snapshot → PoseCall F

module _ {F : Type 0} ⦃fl : Float F⦄ (geo : Geometry F) where
  unfoldable pub pose_call : PoseNode F → PoseCall F → Moved F
  unfolding set_initial_pose expire advance confirm finish_clear
  pose_call n (requests intent role s subscribers now) =
      (set_initial_pose n intent role s subscribers now).0
  pose_call n (expires now) = expire n now
  pose_call n (advances s subscribers now) = advance geo n s subscribers now
  pose_call n (confirms observed robot clients s now) = confirm geo n observed robot clients s now
  pose_call n (replies id costmap exception s) =
      finish_clear n id costmap (reply_error costmap exception) s

  unfoldable pub pose_calls : PoseNode F → List (PoseCall F) → Moved F
  unfolding pose_call
  pose_calls n [] = (n, [])
  pose_calls n (c ∷ cs) = let a = pose_call n c in let b = pose_calls a.0 cs in (b.0, a.1 ++ b.1)

-- What the node itself gets: a request, a turn of `_update_pose`, and a reply of a clear service.
pub data PoseEvent (F : Type 0) : Type 0 where
  requested : PoseIntent F → Role → Snapshot → ℕ → F → PoseEvent F
  turned : Turn F → PoseEvent F
  answered : ℕ → Costmap → Option String → Snapshot → PoseEvent F

module _ {F : Type 0} ⦃fl : Float F⦄ (geo : Geometry F) where
  unfoldable pub pose_event : PoseNode F → PoseEvent F → Moved F
  unfolding pose_call update_pose
  pose_event n (requested intent role s subscribers now) =
      pose_call geo n (requests intent role s subscribers now)
  pose_event n (turned t) = update_pose geo n t
  pose_event n (answered id costmap exception s) = pose_call geo n (replies id costmap exception s)

  unfoldable pub pose_events : PoseNode F → List (PoseEvent F) → Moved F
  unfolding pose_event
  pose_events n [] = (n, [])
  pose_events n (e ∷ es) = let a = pose_event n e in let b = pose_events a.0 es in (b.0, a.1 ++ b.1)
