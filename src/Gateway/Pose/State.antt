-- ===== src/Gateway/Pose/State.antt =====
-- What the initial pose transaction of src/runner_paddock/runner_paddock/ros_state_node.py reads, keeps and sends,
-- and its preconditions. A value that is missing in the snapshot is false, 0, the empty text or none.
use ros_pre_runner.Prelude.{
  ℕ, ◌==◌, String, str_eq, Bool, false, not, ◌&&◌, ◌||◌, Option, none, some, List, [], ◌∷◌,
  if◌then◌else◌,
}
use ros_pre_runner.ModeRuntime.Text.{◌<>◌}

-- What is read of `StateCache.state_snapshot()`
pub record Snapshot : Type 0 where
  pub mode_fresh : Bool
  pub map_state_fresh : Bool
  pub stop_state_fresh : Bool
  pub encoder_state_fresh : Bool
  pub mode : Option ℕ
  pub status : Option ℕ
  pub ready : Bool
  pub runtime_epoch : ℕ
  pub active_autonomy_map : String
  pub selected_map_applied : String
  pub catalog : List (String × Bool)  -- name and complete
  pub stopped : Bool
  pub locked : Bool
  pub healthy : Bool
  pub applied : Bool
  pub stationary : Bool

pub record PoseIntent (F : Type 0) : Type 0 where
  pub frame : String
  pub x : F
  pub y : F
  pub yaw : F

-- Without the covariance, which is the same three constants in each
pub record PoseStatus (F : Type 0) : Type 0 where
  pub map : String
  pub runtime_epoch : ℕ
  pub requested : PoseIntent F

pub record PlanarPose (F : Type 0) : Type 0 where
  pub x : F
  pub y : F
  pub yaw : F

-- The transform from which a pose was confirmed
pub record Observed (F : Type 0) : Type 0 where
  pub stamp : F
  pub position : F × F × F
  pub orientation : F × F × F × F

pub data Phase : Type 0 where
  waiting_stop awaiting_pose clearing : Phase

pub data Costmap : Type 0 where
  global local : Costmap

-- The dictionary; `clear_pending` has a test for each costmap.
pub record Pending (F : Type 0) : Type 0 where
  pub request_id : ℕ
  pub phase : Phase
  pub deadline : F
  pub status : PoseStatus F
  pub intent : PoseIntent F
  pub global_left : Bool
  pub local_left : Bool
  pub clear_errors : List String
  pub observed : Option (Observed F)

pub data Shown : Type 0 where
  rejected stopping localizing clearing applied : Shown

-- Without the stamp, and of the covariance the three numbers that are set
pub record PoseMessage (F : Type 0) : Type 0 where
  pub frame_id : String
  pub covariance_x : F
  pub covariance_y : F
  pub covariance_yaw : F
  pub x : F
  pub y : F
  pub orientation_z : F
  pub orientation_w : F

-- A message on /initialpose, a call of a costmap's clear service, and an update of the cache.
pub data PoseAction (F : Type 0) : Type 0 where
  published : PoseMessage F → PoseAction F
  asked : Costmap → PoseAction F
  shown : PoseStatus F → Shown → String → Option (Observed F) → PoseAction F

-- The attributes _pending_initial_pose and _initial_pose_request_id
pub record PoseNode (F : Type 0) : Type 0 where
  pub pending : Option (Pending F)
  pub request_id : ℕ

-- Functions of Python's math module, and `%` of floats.
pub record Geometry (F : Type 0) : Type 0 where
  pub hypot : F → F → F
  pub sin : F → F
  pub cos : F → F
  pub pi : F
  pub radians : F → F
  pub modulo : F → F → F

abbrev pub is_number : Option ℕ → ℕ → Bool
is_number none n = false
is_number (some m) n = m == n

unfoldable pub is_complete : String → List (String × Bool) → Bool
is_complete selected [] = false
is_complete selected ((name, complete) ∷ rest) =
    str_eq name selected && complete || is_complete selected rest

-- The empty text where there is no reason.
unfoldable pub rejection : Snapshot → String
unfolding is_complete
rejection s =
    if not s.mode_fresh
    then "runtime state unavailable or stale"
    else if not (is_number s.mode 2) || not (is_number s.status 0)
    then "initial pose requires stable AUTONOMY localization"
    else if not s.ready
    then "localization is not ready"
    else if not s.map_state_fresh
        || (str_eq s.selected_map_applied "" || not (is_complete s.selected_map_applied s.catalog))
    then "a valid selected map is required"
    else if not (str_eq s.active_autonomy_map s.selected_map_applied)
    then "selected map is not the active localization map"
    else ""

unfoldable pub safety_rejection : Snapshot → String
safety_rejection s =
    if not s.stop_state_fresh
    then "STOP state unavailable or stale"
    else if not (s.stopped && (s.locked && (s.healthy && s.applied)))
    then "awaiting healthy applied STOP"
    else if not s.encoder_state_fresh
    then "encoder stationary state unavailable or stale"
    else if not s.stationary
    then "robot is not stationary"
    else ""

module _ {F : Type 0} where
  abbrev pub status_of : PoseIntent F → Snapshot → PoseStatus F
  status_of intent s = record {
    map = s.selected_map_applied;
    runtime_epoch = s.runtime_epoch;
    requested = intent;
  }

  unfoldable pub context_changed : PoseStatus F → Snapshot → String
  unfolding rejection
  context_changed status s =
      if not (str_eq (rejection s) "")
      then "initial pose context lost: " <> rejection s
      else if not (s.runtime_epoch == status.runtime_epoch)
          || (not (str_eq s.selected_map_applied status.map)
              || not (str_eq s.active_autonomy_map status.map))
      then "runtime or active map changed during initial pose"
      else ""

  -- The first of both reasons
  unfoldable pub unsafe_reason : PoseStatus F → Snapshot → String
  unfolding context_changed safety_rejection
  unsafe_reason status s =
      if str_eq (context_changed status s) "" then safety_rejection s else context_changed status s
