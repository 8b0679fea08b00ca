-- ===== src/Gateway/Link.antt =====
-- The gateway of src/runner_paddock/runner_paddock/gateway.py before the supervisor of
-- src/runner_paddock/runner_paddock/command_supervisor.py: the message between them
-- (src/runner_paddock/runner_paddock/ros_state_node.py to
-- src/runner_paddock/runner_paddock/command_authority_node.py), and the lease as both see it.
pub mod Calls
mod Events
mod Follows
pub mod Course
pub mod Regains
pub mod Halts
use ros_pre_runner.Prelude.{
  ℕ, ◌≤◌, String, Bool, true, false, ◌&&◌, Option, none, some, ◌≡◌, ◌⊎◌, ltb,
}
use ros_pre_runner.Prelude.Float.{Float}
use ros_pre_runner.StateMachine.{nonempty}
use ros_pre_runner.CommandSupervisor.{Supervisor, ControlInput, uint64_half_range}
use ros_pre_runner.Gateway.State.{ControlEventIntent}
use ros_pre_runner.Gateway.Protocol.{View, free, held}

-- A control event's message, as it is published and handed to `handle_control_event`.
abbrev pub input_of : {F : Type 0} → ControlEventIntent F → ControlInput F
input_of e = record {
  event = e.event;
  client_id = e.client_id;
  lease_id = e.lease_id;
  sequence = e.sequence;
  goal_x = e.goal_x;
  goal_y = e.goal_y;
  goal_yaw = e.goal_yaw;
  manual_speed_mps = e.manual_speed_mps;
  manual_steering = e.manual_steering;
}

-- What a supervisor knows of its link.
pub record Link : Type 0 where
  pub client : String
  pub lease : String
  pub last : Option ℕ
  pub lapsed : Option (String × String)

abbrev pub link : {F : Type 0} → Supervisor F → Link
link c = record {
  client = c.state.lease_client_id;
  lease = c.state.lease_id;
  last = c.last_control_sequence;
  lapsed = c.lapsed_lease;
}

-- The supervisor holds this lease, and its last number is none that is still to come.
abbrev pub Follows : ℕ → String → String → Link → Type 0
Follows n client lease k =
    (k.client ≡ client) × (k.lease ≡ lease) × (m : ℕ) × (k.last ≡ some m) × (m ≤ n)

-- The supervisor holds no lease, and this one lapsed.
abbrev pub HasLapsed : String → String → Link → Type 0
HasLapsed client lease k = (nonempty k.lease ≡ false) × (k.lapsed ≡ some (client, lease))

-- A lease has its two texts, and a number below half the range of the 64-bit numbers.
abbrev pub is_sendable : ℕ → String → String → Bool
is_sendable n client lease = nonempty client && (nonempty lease && ltb n uint64_half_range)

-- The supervisor's lease is the one that the events gave, or that one has lapsed; it holds none where the
-- events ended it.
unfoldable pub IsLinked : View → Link → Type 0
IsLinked (free n) k = nonempty k.lease ≡ false
IsLinked (held owner n client lease run manual) k =
    (is_sendable n client lease ≡ true) × (Follows n client lease k ⊎ HasLapsed client lease k)
