-- ===== src/StopEnforcer/Restore.antt =====
-- `restore` and the start of `StopEnforcer.__init__`, in
-- src/runner_paddock/runner_paddock/stop_enforcer.py. Reading the file and parsing its JSON are the
-- library's: the parsed value, or the exception, is an argument.
use ros_pre_runner.Prelude.{
  ℕ, ◌^◌, String, Bool, true, false, not, ◌&&◌, Option, none, some, [], ◌==◌, ltb, if◌then◌else◌,
}
use ros_pre_runner.Prelude.Float.{Float}
use ros_pre_runner.StopEnforcer.State.{Fault, healthy, state_unknown, faulty, Record, Enforcer}

-- A JSON value as `value.get(...)` returns it; `negative n` is -(n + 1).
pub data Json (F : Type 0) : Type 0 where
  missing other : Json F
  bool : Bool → Json F
  int negative : ℕ → Json F
  float : F → Json F

-- What `json.loads(Path(path).read_text())` comes to.
pub data Loaded (F : Type 0) : Type 0 where
  object : Json F → Json F → Json F → Loaded F  -- the keys version, generation and stopped
  not_object : Loaded F  -- a list, a number, a text, true, false or null
  unreadable : Loaded F  -- OSError or ValueError

-- The record, an exception that `__init__` catches, or one that it does not.
pub data Restored : Type 0 where
  restored : Record → Restored
  caught uncaught : Restored

module _ {F : Type 0} ⦃fl : Float F⦄ where
  -- `value == 1`, of which True and 1.0 are instances
  unfoldable pub equals_one : Json F → Bool
  equals_one (int n) = n == 1
  equals_one (bool b) = b
  equals_one (float x) = fl.eq x (fl.lit 1 1)
  equals_one _ = false

  unfoldable pub checked : Json F → Json F → Restored
  checked (int generation) (bool stopped) =
      if ltb generation (2 ^ 63)
      then restored (record { generation = generation; stopped = stopped })
      else caught
  checked _ _ = caught

  unfoldable pub restore : Loaded F → Restored
  unfolding equals_one checked
  restore unreadable = caught
  restore not_object = uncaught
  restore (object version generation stopped) =
      if not (equals_one version) then caught else checked generation stopped

  -- DRAIN_TIME
  abbrev pub drain_time : F
  drain_time = fl.lit 40 100

  start : String → F → Record → Fault → Enforcer F
  start boot started r fault = record {
    boot = boot;
    fault = fault;
    generation = r.generation;
    stopped = r.stopped;
    durable = not (faulty fault);
    locked = true;
    clear_at =
        if not r.stopped && not (faulty fault) then some (fl.add started drain_time) else none;
    zero_seen = false;
    final_at = none;
    encoder_at = none;
    stationary = false;
    local_at = none;
    local_released = false;
    local_neutral = false;
    write = none;
    last_requester_id = "";
    last_request_id = 0;
    last_request_accepted = false;
    last_request_reason = "";
    request_results = [];
    last_state_publish_at = none;
    last_state_key = none;
  }

  unfoldable pub launch : Restored → String → F → Option (Enforcer F)
  unfolding start
  launch (restored r) boot started = some (start boot started r healthy)
  launch caught boot started =
      some (start boot started (record { generation = 0; stopped = true }) state_unknown)
  launch uncaught boot started = none

  -- `__init__`; `none` where it raises
  unfoldable pub init : Loaded F → String → F → Option (Enforcer F)
  unfolding restore launch
  init loaded boot started = launch (restore loaded) boot started
