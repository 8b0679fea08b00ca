-- ===== src/StopEnforcer/Tests.antt =====
-- A STOP and its clear, with times in milliseconds: witnesses and runs.
use ros_pre_runner.Prelude.{
  inr, ◌≤◌, ℕ, ◌≡◌, refl, Bool, true, false, none, some, List, [], ◌∷◌, arith,
}
use ros_pre_runner.Prelude.Millis.{Millis, ms, millis_float}
use ros_pre_runner.StopEnforcer.State.{
  on_encoder, on_local_control, StopRequest, Enforcer, healthy, clear_reason,
}
use ros_pre_runner.StopEnforcer.Restore.{Loaded, object, int, bool, init}
use ros_pre_runner.StopEnforcer.Requests.{request, lookup, insert}
use ros_pre_runner.StopEnforcer.Tick.{Worker, running, succeeded, tick, settle_write}
use ros_pre_runner.StopEnforcer.Invariant.{
  Input, encoder, local_control, asked, timer, step, run, IsGuarded, run-IsGuarded,
}
use ros_pre_runner.StopEnforcer.Start.{StartsLocked, init-locks}
use ros_pre_runner.StopEnforcer.Release.{IsReleasable, release_needs_clear}
use ros_pre_runner.StopEnforcer.Retry.{IsNew, NamesBoot, retry-idempotent, stop-fences_clears}

abbrev stored : Loaded Millis
stored = object (int 1) (int 7) (bool true)

-- What `init` makes of `stored`.
abbrev started : Enforcer Millis
started = record {
  boot = "b1";
  fault = healthy;
  generation = 7;
  stopped = true;
  durable = true;
  locked = true;
  clear_at = none;
  zero_seen = false;
  final_at = none;
  encoder_at = none;
  stationary = false;
  local_at = none;
  local_released = false;
  local_neutral = false;
  write = none;
  last_requester_id = "";
  last_request_id = 0;
  last_request_accepted = false;
  last_request_reason = "";
  request_results = [];
  last_state_publish_at = none;
  last_state_key = none;
}

started_init : init stored "b1" (ms 0) ≡ some started
unfolding init
started_init = refl

abbrev ask : ℕ → Bool → ℕ → StopRequest
ask n stopped generation = record {
  requester_id = "paddock";
  request_id = n;
  stopped = stopped;
  expected_boot_id = "b1";
  expected_generation = generation;
}

-- A clear at rest is written, drained for 400 ms and then applied.
abbrev clearing : List (Input Millis × Millis)
clearing =
    (encoder true, ms 900)
    ∷ (local_control true true, ms 900)
    ∷ (asked (ask 1 false 7), ms 1000)
    ∷ (timer running, ms 1020)
    ∷ (timer succeeded, ms 1040)
    ∷ (encoder true, ms 1400)
    ∷ (local_control true true, ms 1400)
    ∷ []

abbrev draining : Enforcer Millis
draining = run started clearing

draining_locked : draining.locked ≡ true
unfolding run step request tick clear_reason on_encoder on_local_control
draining_locked = refl

draining_released : (step draining (timer running) (ms 1440)).locked ≡ false
unfolding run step request tick clear_reason on_encoder on_local_control
draining_released = refl

draining_waits : (step draining (timer running) (ms 1420)).locked ≡ true
unfolding run step request tick clear_reason on_encoder on_local_control
draining_waits = refl

run-IsGuarded_example : IsGuarded draining
run-IsGuarded_example = run-IsGuarded stored "b1" (ms 0) started clearing started_init

draining-IsGuarded : IsGuarded draining
draining-IsGuarded = run-IsGuarded stored "b1" (ms 0) started clearing started_init

init-locks_example : StartsLocked stored (init stored "b1" (ms 0))
init-locks_example = init-locks stored "b1" (ms 0)

release_needs_clear_example :
    (w : Worker) × (◌≡◌ {A = Input Millis} (timer running) (timer w))
    × IsReleasable (settle_write draining w (ms 1440)) (ms 1440)
release_needs_clear_example =
    release_needs_clear draining (timer running) (ms 1440) draining-IsGuarded draining_locked
      draining_released

retry-idempotent_example :
    request (request started (ask 1 true 7) (ms 10)).0 (ask 1 true 7) (ms 20)
    ≡ ((request started (ask 1 true 7) (ms 10)).0, [])
retry-idempotent_example = retry-idempotent started (ask 1 true 7) (ms 10) (ms 20)

-- The same requester has asked before.
abbrev stopped_once : Enforcer Millis
stopped_once = run started ((asked (ask 1 true 7), ms 5) ∷ [])

once-IsNew :
    IsNew (lookup "paddock" stopped_once.request_results) (ask 2 true 8)
    × NamesBoot stopped_once (ask 2 true 8)
    × (8 ≤ stopped_once.generation)
unfolding run step request lookup insert
once-IsNew = (omega arith, inr refl, omega arith)

stop-fences_clears_example :
    let m = run stopped_once ((asked (ask 2 true 8), ms 10) ∷ (timer succeeded, ms 30) ∷ []) in
    ((request m (ask 3 false 8) (ms 50)).1 ≡ [])
    × ((request m (ask 3 false 8) (ms 50)).0.write ≡ m.write)
stop-fences_clears_example =
    stop-fences_clears stopped_once (ask 2 true 8) (ask 3 false 8) ((timer succeeded, ms 30) ∷ [])
      (ms 10) (ms 50) once-IsNew.0 once-IsNew.1 refl refl once-IsNew.2
