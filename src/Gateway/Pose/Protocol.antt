-- ===== src/Gateway/Pose/Protocol.antt =====
-- The initial pose transaction of src/runner_paddock/runner_paddock/ros_state_node.py as a protocol: its stages, and
-- what each step needs to have seen.
use ros_pre_runner.Prelude.{
  ℕ, String, Bool, true, false, Option, none, some, is_some, List, [], ◌∷◌, ◌++◌, ◌≡◌, ◌≢◌,
}
use ros_pre_runner.Prelude.Float.{Float}
use ros_pre_runner.Gateway.Pose.State.{
  Snapshot, PoseIntent, PoseStatus, PlanarPose, Observed, Phase, waiting_stop, awaiting_pose,
  Costmap, global, local, Pending, Shown, rejected, stopping, localizing, applied, PoseAction,
  published, asked, shown, PoseNode, Geometry, is_complete, status_of,
}
use ros_pre_runner.Gateway.Pose.Steps.{message_of}
use ros_pre_runner.Gateway.Pose.Clear.{agrees, reply_error}
use ros_pre_runner.Gateway.Pose.Turn.{PoseCall, requests, expires, advances, confirms, replies}

-- The localization of a selected, complete map runs.
pub record IsReady (s : Snapshot) : Type 0 where
  pub mode_is_fresh : s.mode_fresh ≡ true
  pub is_autonomy : s.mode ≡ some 2
  pub is_stable : s.status ≡ some 0
  pub is_ready : s.ready ≡ true
  pub map_is_fresh : s.map_state_fresh ≡ true
  pub map_is_selected : s.selected_map_applied ≢ ""
  pub map_is_complete : is_complete s.selected_map_applied s.catalog ≡ true
  pub map_is_active : s.active_autonomy_map ≡ s.selected_map_applied

-- STOP is applied and the robot stands, by recent evidence.
pub record IsSafe (s : Snapshot) : Type 0 where
  pub stop_is_fresh : s.stop_state_fresh ≡ true
  pub is_stopped : s.stopped ≡ true
  pub is_locked : s.locked ≡ true
  pub is_healthy : s.healthy ≡ true
  pub is_applied : s.applied ≡ true
  pub encoder_is_fresh : s.encoder_state_fresh ≡ true
  pub is_stationary : s.stationary ≡ true

-- The stages, each with its request's number, status and pose; while the costmaps are cleared also which of them
-- are left, the errors, and the transform that confirmed the pose.
pub data Stage (F : Type 0) : Type 0 where
  idle : Stage F
  waits localizes : ℕ → PoseStatus F → PoseIntent F → Stage F
  clears :
      ℕ → PoseStatus F → PoseIntent F → Bool → Bool → List String → Option (Observed F) → Stage F

module _ {F : Type 0} where
  -- It is safe, and the map and the runtime are those of the request.
  abbrev pub IsSame : PoseStatus F → Snapshot → Type 0
  IsSame status s =
      IsReady s
      × IsSafe s
      × (s.runtime_epoch ≡ status.runtime_epoch)
      × (s.selected_map_applied ≡ status.map)

  unfoldable pub stage_in : Phase → Pending F → Stage F
  stage_in waiting_stop p = waits p.request_id p.status p.intent
  stage_in awaiting_pose p = localizes p.request_id p.status p.intent
  stage_in Phase.clearing p =
      clears p.request_id p.status p.intent p.global_left p.local_left p.clear_errors p.observed

  unfoldable pub stage_with : Option (Pending F) → Stage F
  unfolding stage_in
  stage_with none = idle
  stage_with (some p) = stage_in p.phase p

  abbrev pub stage : PoseNode F → Stage F
  stage n = stage_with n.pending

  abbrev pub status_in : Stage F → Option (PoseStatus F)
  status_in idle = none
  status_in (waits n status intent) = some status
  status_in (localizes n status intent) = some status
  status_in (clears n status intent g l errors observed) = some status

  -- The snapshot and the transform that a call has seen
  abbrev pub seen : PoseCall F → Option Snapshot
  seen (requests intent role s subscribers now) = some s
  seen (expires now) = none
  seen (advances s subscribers now) = some s
  seen (confirms observed robot clients s now) = some s
  seen (replies id costmap error s) = some s

  abbrev pub transform_of : PoseCall F → Option (Observed F × PlanarPose F)
  transform_of (confirms observed robot clients s now) = some (observed, robot)
  transform_of _ = none

  -- A reply to a call of a clear service, or the exception of the call itself
  abbrev pub Hears : PoseCall F → ℕ → Costmap → Option String → Type 0
  Hears (replies id costmap' error' s) n costmap error =
      (id ≡ n) × (costmap' ≡ costmap) × (reply_error costmap' error' ≡ error)
  Hears (confirms observed robot clients s now) n costmap error = is_some error ≡ true
  Hears _ n costmap error = ⊥

-- Whether a costmap is left, what is left after it, and the errors after a reply
abbrev pub left : Costmap → Bool → Bool → Bool
left global g l = g
left local g l = l

abbrev pub g_after : Costmap → Bool → Bool
g_after global g = false
g_after local g = g

abbrev pub l_after : Costmap → Bool → Bool
l_after global l = l
l_after local l = false

abbrev pub errors_after : List String → Option String → List String
errors_after errors none = errors
errors_after errors (some error) = errors ++ error ∷ []

module _ {F : Type 0} ⦃fl : Float F⦄ (geo : Geometry F) where
  pub data Moves (c : PoseCall F) : Stage F → List (PoseAction F) → Stage F → Type 0 where
    -- A request that is refused at once ends the pending transaction, too.
    refuses :
        (v : Stage F) (s : Snapshot) (intent : PoseIntent F) (reason : String)
        → seen c ≡ some s
        → Moves c v (shown (status_of intent s) rejected reason none ∷ []) idle
    accepts :
        (n : ℕ) (s : Snapshot) (intent : PoseIntent F) (detail : String)
        → seen c ≡ some s
        → IsReady s
        → Moves c idle
            (shown (status_of intent s) stopping detail none ∷ [])
            (waits n (status_of intent s) intent)
    fails :
        (v : Stage F) (status : PoseStatus F) (detail : String) (observed : Option (Observed F))
        → status_in v ≡ some status
        → Moves c v (shown status rejected detail observed ∷ []) idle
    lingers :
        (n : ℕ) (status : PoseStatus F) (intent : PoseIntent F) (detail : String)
        → Moves c
            (waits n status intent)
            (shown status stopping detail none ∷ [])
            (waits n status intent)
    publishes :
        (n : ℕ) (s : Snapshot) (status : PoseStatus F) (intent : PoseIntent F) (detail : String)
        → seen c ≡ some s
        → IsSame status s
        → Moves c
            (waits n status intent)
            (published (message_of geo intent) ∷ shown status localizing detail none ∷ [])
            (localizes n status intent)
    recognizes :
        (n : ℕ) (s : Snapshot) (status : PoseStatus F) (intent : PoseIntent F) (detail : String)
        (observed : Observed F) (robot : PlanarPose F)
        → seen c ≡ some s
        → IsSame status s
        → transform_of c ≡ some (observed, robot)
        → agrees geo intent robot ≡ true
        → Moves c
            (localizes n status intent)
            (shown status Shown.clearing detail (some observed) ∷ [])
            (clears n status intent true true [] (some observed))
    asks :
        (n : ℕ) (status : PoseStatus F) (intent : PoseIntent F) (g l : Bool) (errors : List String)
        (observed : Option (Observed F)) (costmap : Costmap)
        → Moves c
            (clears n status intent g l errors observed)
            (asked costmap ∷ [])
            (clears n status intent g l errors observed)
    hears :
        (n : ℕ) (status : PoseStatus F) (intent : PoseIntent F) (g l : Bool) (errors : List String)
        (observed : Option (Observed F)) (costmap : Costmap) (error : Option String)
        → Hears c n costmap error
        → left costmap g l ≡ true
        → Moves c (clears n status intent g l errors observed) [] (
            clears n status intent
              (g_after costmap g)
              (l_after costmap l)
              (errors_after errors error)
              observed)
    applies :
        (n : ℕ) (s : Snapshot) (status : PoseStatus F) (intent : PoseIntent F) (g l : Bool)
        (errors : List String) (detail : String) (observed : Option (Observed F))
        → g ≡ false
        → l ≡ false
        → errors ≡ []
        → seen c ≡ some s
        → IsSame status s
        → Moves c
            (clears n status intent g l errors observed)
            (shown status applied detail observed ∷ [])
            idle

  -- Moves on what one call has seen
  pub data Steps (c : PoseCall F) : Stage F → List (PoseAction F) → Stage F → Type 0 where
    rests : (v : Stage F) → Steps c v [] v
    moves :
        (v w u : Stage F) (a b : List (PoseAction F))
        → Moves c v a w
        → Steps c w b u
        → Steps c v (a ++ b) u

  -- Calls, each with what it has seen
  pub data Course : List (PoseCall F) → Stage F → List (PoseAction F) → Stage F → Type 0 where
    over : (v : Stage F) → Course [] v [] v
    goes_on :
        (c : PoseCall F) (cs : List (PoseCall F)) (v w u : Stage F) (a b : List (PoseAction F))
        → Steps c v a w
        → Course cs w b u
        → Course (c ∷ cs) v (a ++ b) u
