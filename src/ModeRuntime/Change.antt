-- ===== src/ModeRuntime/Change.antt =====
-- `refresh` and `transition` of src/runner_paddock/runner_paddock/mode_runtime.py.
use ros_pre_runner.Prelude.{
  ℕ, ◌+◌, String, str_eq, Bool, true, false, not, ◌&&◌, ◌||◌, Option, none, some, List, leb,
  if◌then◌else◌,
}
use ros_pre_runner.StateMachine.{Mode, idle, mapping, autonomy, mode_eq}
use ros_pre_runner.ModeRuntime.Text.{◌<>◌}
use ros_pre_runner.ModeRuntime.State.{
  Lifecycle, stable, transitioning, RuntimeState, mode_name, unit_name, unit_of,
}
use ros_pre_runner.ModeRuntime.View.{View, fully_ready}
use ros_pre_runner.ModeRuntime.Run.{
  attempt, start_unit, begin_quiescence, map_written, M, ◌>>=◌, ◌>>◌, return, from, try_except,
  set_state, perform, get_state,
}
use ros_pre_runner.ModeRuntime.Wait.{
  raise_if, transition_progress, wait_for_readiness, wait_for_quiescence, Stopping, stop_all, fail,
}

-- `OP_NEW_MAP`, and any other operation.
pub data Operation : Type 0 where
  select_runtime new_map : Operation

abbrev pub is_new_map : Operation → Bool
is_new_map new_map = true
is_new_map select_runtime = false

abbrev pub is_stable : Lifecycle → Bool
is_stable stable = true
is_stable _ = false

-- What happens around one transition: the polls of its loops, the single looks at the runtime, and
-- the exceptions of the calls outside.
pub record Surroundings : Type 0 where
  pub quiescing : List View
  pub rejected : View
  pub stopping : Stopping
  pub map_error : Option String  -- validate_map_bundle
  pub write_error : Option String  -- _write_map
  pub start_error : Option String  -- systemd.start
  pub readiness : List View
  pub final : View
  pub session : String  -- session_id_factory
  pub failing : Stopping

abbrev pub same : Bool → Bool → Bool
same true b = b
same false b = not b

abbrev pub set_when : Bool → Bool → String → M (Unit {0})
set_when true good reason = set_state (λ s. record s { ready = good; readiness_reason = reason })
set_when false good reason = return tt

abbrev pub unready_when : Bool → M (Unit {0})
unready_when true = set_state (λ s. record s { ready = false })
unready_when false = return tt

-- Whether a readiness differs from the one in force.
abbrev pub differs : RuntimeState → Bool → String → Bool
differs s good reason = not (same good s.ready) || not (str_eq reason s.readiness_reason)

unfoldable pub refresh : View → M RuntimeState
unfolding fully_ready
refresh v r =
    let s = r.state in
    (if not (is_stable s.lifecycle)
        then (do unready_when s.ready; get_state)
        else if mode_eq s.mode idle
        then (do set_when (not s.ready || not (str_eq s.readiness_reason "")) true ""; get_state)
        else (do
          (good, reason) ← from (fully_ready v s.mode)
          set_when (differs s good reason) good reason
          get_state))
      r

-- The map is validated and written down, for AUTONOMY only.
abbrev pub prepare : Surroundings → Mode → String → M (Unit {0})
prepare w autonomy map = do
  transition_progress ("Validating selected map — " <> map)
  raise_if w.map_error
  raise_if w.write_error
  perform (map_written map)
prepare w _ map = return tt

abbrev pub session_of : Surroundings → Mode → ℕ → String
session_of w mapping epoch = w.final.decimal epoch <> "-" <> w.session
session_of w _ epoch = ""

abbrev pub selected_map : Mode → String → String → String
selected_map autonomy map old = map
selected_map _ map old = old

-- The successful end of a transition.
unfoldable pub finish_transition : Surroundings → Mode → String → M RuntimeState
unfolding fully_ready
finish_transition w requested map = do
  (good, reason) ← from (fully_ready w.final requested)
  set_state (λ s. record s {
    mode = requested;
    lifecycle = stable;
    active_autonomy_map = selected_map requested map s.active_autonomy_map;
    detail = "";
    runtime_epoch = s.runtime_epoch + 1;
    mapping_session_id = session_of w requested (s.runtime_epoch + 1);
    ready = good;
    readiness_reason = reason;
  })
  get_state

unfoldable pub start_requested : Surroundings → Mode → String → M RuntimeState
unfolding transition_progress wait_for_readiness finish_transition
start_requested w requested map = do
  prepare w requested map
  transition_progress
      ("Starting " <> mode_name requested <> " — requesting " <> unit_name (unit_of requested))
  perform (start_unit (unit_of requested))
  raise_if w.start_error
  transition_progress ("Starting " <> mode_name requested <> " — waiting for runtime readiness")
  wait_for_readiness requested w.readiness
  finish_transition w requested map

abbrev pub set_stopped : M RuntimeState
set_stopped = do
  set_state (λ s. record s {
    mode = idle;
    lifecycle = stable;
    detail = "";
    mapping_session_id = "";
    ready = true;
    readiness_reason = "";
  })
  get_state

abbrev pub after_stop : Surroundings → Mode → String → M RuntimeState
after_stop w idle map = set_stopped
after_stop w mapping map = start_requested w mapping map
after_stop w autonomy map = start_requested w autonomy map

-- Stop everything, then start what is requested; or fail.
unfoldable pub restart_as : Surroundings → Mode → String → M RuntimeState
unfolding stop_all start_requested fail
restart_as w requested map =
    try_except (do stop_all true w.stopping; after_stop w requested map)
      (λ e. fail w.failing (mode_name requested <> " transition failed: " <> e))

abbrev pub begin_transition : ℕ → String → M (Unit {0})
begin_transition request_id detail = set_state (λ s. record s {
  lifecycle = transitioning;
  accepted_request_id = request_id;
  detail = detail;
  ready = false;
  readiness_reason = detail;
  mapping_session_id = "";
})

-- A fresh mapping session that was refused: the previous one goes on.
unfoldable pub reject_new_map : Surroundings → RuntimeState → String → M RuntimeState
unfolding fully_ready
reject_new_map w previous e = do
  (good, reason) ← from (fully_ready w.rejected mapping)
  set_state (λ s. record s {
    mode = previous.mode;
    lifecycle = stable;
    detail = "NEW MAP rejected: " <> e;
    runtime_epoch = previous.runtime_epoch;
    mapping_session_id = previous.mapping_session_id;
    ready = good;
    readiness_reason = reason;
  })
  get_state

-- A wait for quiescence, and what follows it or its failure.
unfoldable pub renew_map : Surroundings → RuntimeState → String → M RuntimeState
unfolding wait_for_quiescence restart_as reject_new_map
renew_map w previous map =
    attempt (wait_for_quiescence w.quiescing) (λ _. restart_as w mapping map)
      (reject_new_map w previous)

abbrev pub acknowledge : ℕ → (RuntimeState → RuntimeState) → M RuntimeState
acknowledge request_id f = do
  set_state (λ s. record (f s) { accepted_request_id = request_id })
  get_state

abbrev pub is_mapping_session : RuntimeState → Bool
is_mapping_session s =
    is_stable s.lifecycle && (mode_eq s.mode mapping && not (str_eq s.mapping_session_id ""))

abbrev pub same_selection : Mode → String → RuntimeState → Bool
same_selection requested map s =
    not (mode_eq requested autonomy) || str_eq map s.active_autonomy_map

-- `transition` of a request that is new and names a mode.
unfoldable pub accepted_transition :
    Surroundings → Mode → ℕ → String → Operation → RuntimeState → M RuntimeState
unfolding renew_map restart_as
accepted_transition w requested request_id map operation s =
    let fresh = is_new_map operation && mode_eq requested mapping in
    if mode_eq requested autonomy && str_eq map ""
    then acknowledge request_id (λ t. record t { detail = "AUTONOMY needs a selected map" })
    else if fresh && not (is_mapping_session s)
    then acknowledge request_id
        (λ t. record t { detail = "NEW MAP rejected: requires an active stable MAPPING session" })
    else if fresh
    then (do
      perform begin_quiescence
      begin_transition request_id "starting fresh mapping session"
      renew_map w s map)
    else if is_stable s.lifecycle && (mode_eq requested s.mode && same_selection requested map s)
    then acknowledge request_id (λ t. t)
    else (do
      begin_transition request_id ("transitioning to " <> mode_name requested)
      restart_as w requested map)

unfoldable pub transition : Surroundings → Option Mode → ℕ → String → Operation → M RuntimeState
unfolding accepted_transition
transition w none request_id map operation = get_state
transition w (some requested) request_id map operation = λ r.
    (if leb request_id r.state.accepted_request_id
        then get_state
        else accepted_transition w requested request_id map operation r.state)
      r
