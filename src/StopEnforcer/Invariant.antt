-- ===== src/StopEnforcer/Invariant.antt =====
-- What holds of the STOP enforcer between two callbacks, and after any of them.
use ros_pre_runner.Prelude.{
  String, ◌≡◌, Bool, true, false, Option, some, List, [], ◌∷◌, arith, is_some,
}
use ros_pre_runner.Prelude.Float.{Float}
use ros_pre_runner.StopEnforcer.State.{
  faulty, StopRequest, Enforcer, on_encoder, on_local_control, on_final, Answer,
}
use ros_pre_runner.StopEnforcer.Restore.{Loaded, init}
use ros_pre_runner.StopEnforcer.Requests.{
  request_clear, new_request, repeat_request, request, lookup,
}
use ros_pre_runner.StopEnforcer.Tick.{Worker, settle_write, drain, publish_status, tick}

-- A callback of the node, with what it was given.
pub data Input (F : Type 0) : Type 0 where
  encoder : Bool → Input F
  local_control : Bool → Bool → Input F
  final_command : F → F → Input F
  asked : StopRequest → Input F
  timer : Worker → Input F

module _ {F : Type 0} ⦃fl : Float F⦄ where
  unfoldable pub step : Enforcer F → Input F → F → Enforcer F
  step n (encoder stationary) now = on_encoder n stationary now
  step n (local_control released neutral) now = on_local_control n released neutral now
  step n (final_command linear angular) now = on_final n linear angular now
  step n (asked q) now = (request n q now).0
  step n (timer w) now = (tick n w now).0

  unfoldable pub run : Enforcer F → List (Input F × F) → Enforcer F
  run n [] = n
  run n ((i, now) ∷ rest) = run (step n i now) rest

module _ {F : Type 0} where
  pub record IsGuarded (n : Enforcer F) : Type 0 where
    -- A stopped vehicle is locked, and so is one whose STOP record is in doubt.
    pub stop_locks : n.stopped ≡ true → n.locked ≡ true
    pub fault_locks : faulty n.fault ≡ true → n.locked ≡ true
    pub fault_stops : faulty n.fault ≡ true → n.stopped ≡ true
    -- A clear drains only behind a durable record, with no fault and no write pending.
    pub drain_durable : is_some n.clear_at ≡ true → n.durable ≡ true
    pub drain_sound : is_some n.clear_at ≡ true → faulty n.fault ≡ false
    pub drain_written : is_some n.clear_at ≡ true → is_some n.write ≡ false
    -- A lock without a STOP is a clear that drains.
    pub lock_reason : n.locked ≡ true → n.stopped ≡ false → is_some n.clear_at ≡ true

module _ {F : Type 0} ⦃fl : Float F⦄ where
  init-IsGuarded :
      (loaded : Loaded F) (boot : String) (started : F) (n : Enforcer F)
      → init loaded boot started ≡ some n
      → IsGuarded n
  unfolding init
  init-IsGuarded loaded boot started n e = ground arith

  request_clear-IsGuarded :
      (n : Enforcer F) (q : StopRequest) (now : F)
      → IsGuarded n
      → IsGuarded (request_clear n q now).0
  unfolding request_clear
  request_clear-IsGuarded n q now h = ground arith

  new_request-IsGuarded :
      (n : Enforcer F) (q : StopRequest) (now : F) → IsGuarded n → IsGuarded (new_request n q now).0
  unfolding new_request
  new_request-IsGuarded n q now h = ground arith

  pub settle_write-IsGuarded :
      (n : Enforcer F) (w : Worker) (now : F) → IsGuarded n → IsGuarded (settle_write n w now)
  unfolding settle_write
  settle_write-IsGuarded n w now h = ground arith

  drain-IsGuarded : (n : Enforcer F) (now : F) → IsGuarded n → IsGuarded (drain n now).0
  unfolding drain
  drain-IsGuarded n now h = ground arith

  publish_status-IsGuarded :
      (n : Enforcer F) (now : F) → IsGuarded n → IsGuarded (publish_status n now).0
  unfolding publish_status
  publish_status-IsGuarded n now h = ground arith

  repeat_request-IsGuarded :
      (a : Option Answer) (n : Enforcer F) (q : StopRequest) (now : F)
      → IsGuarded n
      → IsGuarded (repeat_request a n q now).0
  unfolding repeat_request
  repeat_request-IsGuarded a n q now h = ground (arith, new_request-IsGuarded n q now)

  -- Every callback keeps the enforcer guarded.
  step-IsGuarded : (n : Enforcer F) (i : Input F) (now : F) → IsGuarded n → IsGuarded (step n i now)
  unfolding step on_encoder on_local_control on_final request tick
  step-IsGuarded n (encoder stationary) now h = ground arith
  step-IsGuarded n (local_control released neutral) now h = ground arith
  step-IsGuarded n (final_command linear angular) now h = ground arith
  step-IsGuarded n (asked q) now h =
      repeat_request-IsGuarded (lookup q.requester_id n.request_results) n q now h
  step-IsGuarded n (timer w) now h =
      publish_status-IsGuarded _ now (drain-IsGuarded _ now (settle_write-IsGuarded n w now h))

  run_from-IsGuarded :
      (n : Enforcer F) (is : List (Input F × F)) → IsGuarded n → IsGuarded (run n is)
  unfolding run
  run_from-IsGuarded n [] h = h
  run_from-IsGuarded n ((i, now) ∷ rest) h =
      run_from-IsGuarded (step n i now) rest (step-IsGuarded n i now h)

  -- Whatever record the node found at its start, and after any callbacks in any order with any clock:
  -- a STOP and a doubtful record keep the vehicle locked, a clear drains only behind a durable record
  -- with no fault and no write pending, and a lock without a STOP is such a drain.
  pub run-IsGuarded :
      (loaded : Loaded F) (boot : String) (started : F) (n : Enforcer F) (is : List (Input F × F))
      → init loaded boot started ≡ some n
      → IsGuarded (run n is)
  run-IsGuarded loaded boot started n is e =
      run_from-IsGuarded n is (init-IsGuarded loaded boot started n e)
