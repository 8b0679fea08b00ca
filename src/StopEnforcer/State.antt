-- ===== src/StopEnforcer/State.antt =====
-- The attributes of `StopEnforcer` in src/runner_paddock/runner_paddock/stop_enforcer.py, its messages,
-- and its subscriptions. What the node publishes comes back as a list. `time.monotonic()` is the
-- argument `now`; a write that the worker has not finished is `write`, with what it persists.
use Prim.Native.String.{◌++◌ as str_append}
use ros_pre_runner.Prelude.{
  ℕ, String, Bool, true, false, not, ◌&&◌, ◌||◌, Option, none, some, List, is_some, if◌then◌else◌,
}
use ros_pre_runner.Prelude.Float.{Float}

-- `self.fault`: the empty string, STOP_STATE_UNKNOWN, or a failed write with its exception's name.
pub data Fault : Type 0 where
  healthy state_unknown : Fault
  persistence_failed : String → Fault

abbrev pub fault_text : Fault → String
fault_text healthy = ""
fault_text state_unknown = "STOP_STATE_UNKNOWN"
fault_text (persistence_failed error) = str_append "PERSISTENCE_FAILED:" error

-- `bool(self.fault)`
abbrev pub faulty : Fault → Bool
faulty healthy = false
faulty _ = true

-- `(generation, stopped)`, the arguments and the result of `persist`
pub record Record : Type 0 where
  pub generation : ℕ
  pub stopped : Bool

pub record StopRequest : Type 0 where
  pub requester_id : String
  pub request_id : ℕ
  pub stopped : Bool
  pub expected_boot_id : String
  pub expected_generation : ℕ

-- The remembered answer to a requester: its request id, and `(accepted, reason)`.
pub record Answer : Type 0 where
  pub request_id : ℕ
  pub accepted : Bool
  pub reason : String

-- StopState less its stamp, which is `_state_key`
pub record StopState : Type 0 where
  pub boot_id : String
  pub generation : ℕ
  pub stopped : Bool
  pub locked : Bool
  pub is_healthy : Bool
  pub applied : Bool
  pub clear_pending : Bool
  pub reason : String
  pub last_requester_id : String
  pub last_request_id : ℕ
  pub last_request_accepted : Bool
  pub last_request_reason : String

pub record Enforcer (F : Type 0) : Type 0 where
  pub boot : String
  pub fault : Fault
  pub generation : ℕ
  pub stopped : Bool
  pub durable : Bool
  pub locked : Bool
  pub clear_at : Option F
  pub zero_seen : Bool
  pub final_at : Option F
  pub encoder_at : Option F
  pub stationary : Bool
  pub local_at : Option F
  pub local_released : Bool
  pub local_neutral : Bool
  pub write : Option Record
  pub last_requester_id : String
  pub last_request_id : ℕ
  pub last_request_accepted : Bool
  pub last_request_reason : String
  pub request_results : List (String × Answer)
  pub last_state_publish_at : Option F
  pub last_state_key : Option StopState

-- What a callback publishes and hands to the worker.
pub data Output : Type 0 where
  stop_lock : Bool → Output  -- /paddock/stop_lock
  zero_velocity : Output  -- /cmd_vel_stop
  stop_state : StopState → Output  -- /paddock/stop_state
  submit : Record → Output  -- worker.submit(persist, path, generation, stopped)

module _ {F : Type 0} where
  unfoldable pub on_encoder : Enforcer F → Bool → F → Enforcer F
  on_encoder n stationary now = record n { encoder_at = some now; stationary = stationary }

  unfoldable pub on_local_control : Enforcer F → Bool → Bool → F → Enforcer F
  on_local_control n released neutral now = record n {
    local_at = some now;
    local_released = released;
    local_neutral = neutral;
  }

module _ {F : Type 0} ⦃fl : Float F⦄ where
  -- `linear` and `angular` are message.linear.x and message.angular.z.
  unfoldable pub on_final : Enforcer F → F → F → F → Enforcer F
  on_final n linear angular now =
      if n.locked && (fl.eq linear (fl.lit 0 1) && fl.eq angular (fl.lit 0 1))
      then record n { zero_seen = true; final_at = some now }
      else n

  -- `at is None or now - at > bound`
  unfoldable pub older : F → Option F → F → Bool
  older bound none now = true
  older bound (some at) now = fl.lt bound (fl.sub now at)

  unfoldable pub clear_reason : Enforcer F → F → String
  unfolding older
  clear_reason n now =
      if older (fl.lit 20 100) n.encoder_at now
      then "ENCODER_STALE"
      else if not n.stationary
      then "NOT_STATIONARY"
      else if older (fl.lit 20 100) n.local_at now
      then "LOCAL_STATUS_STALE"
      else if not n.local_released || not n.local_neutral
      then "LOCAL_NOT_NEUTRAL"
      else if faulty n.fault || (not n.durable || is_some n.write)
      then (if faulty n.fault then fault_text n.fault else "PERSISTENCE_PENDING")
      else ""
