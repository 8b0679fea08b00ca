-- ===== src/ModeRuntime/State.antt =====
-- The data of src/runner_paddock/runner_paddock/mode_runtime.py: units, their systemd state, the
-- authoritative snapshot, and the names of the nodes of each mode, in the order of `sorted`.
use ros_pre_runner.Prelude.{ℕ, String, str_eq, Bool, ◌&&◌, List, [], ◌∷◌, ◌==◌}
use ros_pre_runner.StateMachine.{Mode, idle, mapping, autonomy}

pub data ModeUnit : Type 0 where
  mapping_unit autonomy_unit : ModeUnit

abbrev pub unit_name : ModeUnit → String
unit_name mapping_unit = "runner-mode-mapping.service"
unit_name autonomy_unit = "runner-mode-autonomy.service"

abbrev pub mode_units : List ModeUnit
mode_units = mapping_unit ∷ autonomy_unit ∷ []

pub data Lifecycle : Type 0 where
  stable transitioning fault : Lifecycle

pub record UnitState : Type 0 where
  pub active_state : String
  pub sub_state : String
  pub main_pid : ℕ
  pub control_group : String
  pub cgroup_processes : List (ℕ × String)

unfoldable pub unit_active : UnitState → Bool
unit_active u = str_eq u.active_state "active" && str_eq u.sub_state "running"

unfoldable pub cleanly_inactive : UnitState → Bool
cleanly_inactive u = (u.main_pid == 0) && str_eq u.control_group ""

pub record RuntimeState : Type 0 where
  pub mode : Mode
  pub lifecycle : Lifecycle
  pub accepted_request_id : ℕ
  pub active_autonomy_map : String
  pub detail : String
  pub runtime_epoch : ℕ
  pub mapping_session_id : String
  pub ready : Bool
  pub readiness_reason : String

-- `Mode.name`
abbrev pub mode_name : Mode → String
mode_name idle = "IDLE"
mode_name mapping = "MAPPING"
mode_name autonomy = "AUTONOMY"

-- `COMMON_NODES | PERSISTENT_LOCAL_NODES`
abbrev pub mapping_required : List String
mapping_required =
    "/LD19" ∷ "/base_link_to_base_laser" ∷ "/base_link_to_imu_link" ∷ "/bno085" ∷ "/drive_adapter"
    ∷ "/ekf_node" ∷ "/joy_node" ∷ "/rf2o_laser_odometry" ∷ "/rf2o_scan_canonicalizer"
    ∷ "/runner_stop_enforcer" ∷ "/runner_teleop" ∷ "/scan_rebinner" ∷ "/slam_toolbox" ∷ "/twist_mux"
    ∷ []

-- and `| AUTONOMY_ONLY_NODES`
abbrev pub autonomy_required : List String
autonomy_required =
    "/LD19" ∷ "/base_link_to_base_laser" ∷ "/base_link_to_imu_link" ∷ "/bno085" ∷ "/bt_navigator"
    ∷ "/bt_navigator_navigate_through_poses_rclcpp_node"
    ∷ "/bt_navigator_navigate_to_pose_rclcpp_node" ∷ "/controller_server" ∷ "/drive_adapter"
    ∷ "/ekf_node" ∷ "/global_costmap/global_costmap" ∷ "/joy_node" ∷ "/lifecycle_manager_navigation"
    ∷ "/local_costmap/local_costmap" ∷ "/map_server" ∷ "/planner_server" ∷ "/rf2o_laser_odometry"
    ∷ "/rf2o_scan_canonicalizer" ∷ "/runner_navigation_runtime" ∷ "/runner_stop_enforcer"
    ∷ "/runner_teleop" ∷ "/scan_rebinner" ∷ "/slam_toolbox" ∷ "/speed_envelope_observer"
    ∷ "/twist_mux" ∷ []

-- `MODE_NODES`
abbrev pub mode_nodes : List String
mode_nodes =
    "/LD19" ∷ "/base_link_to_base_laser" ∷ "/base_link_to_imu_link" ∷ "/bno085" ∷ "/bt_navigator"
    ∷ "/bt_navigator_navigate_through_poses_rclcpp_node"
    ∷ "/bt_navigator_navigate_to_pose_rclcpp_node" ∷ "/controller_server" ∷ "/ekf_node"
    ∷ "/global_costmap/global_costmap" ∷ "/lifecycle_manager_navigation"
    ∷ "/local_costmap/local_costmap" ∷ "/map_server" ∷ "/planner_server" ∷ "/rf2o_laser_odometry"
    ∷ "/rf2o_scan_canonicalizer" ∷ "/runner_navigation_runtime" ∷ "/scan_rebinner" ∷ "/slam_toolbox"
    ∷ "/speed_envelope_observer" ∷ []

-- `AUTONOMY_ONLY_NODES`
abbrev pub autonomy_only_nodes : List String
autonomy_only_nodes =
    "/bt_navigator" ∷ "/bt_navigator_navigate_through_poses_rclcpp_node"
    ∷ "/bt_navigator_navigate_to_pose_rclcpp_node" ∷ "/controller_server"
    ∷ "/global_costmap/global_costmap" ∷ "/lifecycle_manager_navigation"
    ∷ "/local_costmap/local_costmap" ∷ "/map_server" ∷ "/planner_server"
    ∷ "/runner_navigation_runtime" ∷ "/speed_envelope_observer" ∷ []

-- The required nodes of a mode, those that it forbids, and its unit.
abbrev pub required_nodes : Mode → List String
required_nodes autonomy = autonomy_required
required_nodes _ = mapping_required

abbrev pub forbidden_nodes : Mode → List String
forbidden_nodes mapping = autonomy_only_nodes
forbidden_nodes _ = []

abbrev pub unit_of : Mode → ModeUnit
unit_of mapping = mapping_unit
unit_of _ = autonomy_unit
