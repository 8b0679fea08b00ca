-- ===== src/ModeRuntime/Wait.antt =====
-- The loops of src/runner_paddock/runner_paddock/mode_runtime.py that poll until a deadline, `_stop_all`
-- and `_fail`. A loop takes the views of its polls: those before the deadline, however many there are.
use ros_pre_runner.Prelude.{
  String, str_eq, Bool, true, false, Option, none, some, List, [], ◌∷◌, if◌then◌else◌,
}
use ros_pre_runner.StateMachine.{Mode, idle}
use ros_pre_runner.ModeRuntime.Text.{◌<>◌, join}
use ros_pre_runner.ModeRuntime.State.{
  ModeUnit, mapping_unit, autonomy_unit, fault, RuntimeState, mode_name,
}
use ros_pre_runner.ModeRuntime.View.{
  Outcome, ok, raised, View, unit_cleanup_status, resources_gone, fully_ready,
}
use ros_pre_runner.ModeRuntime.Run.{
  stop_unit, saw_units, saw_graph, M, ◌>>=◌, ◌>>◌, return, from, try_except, set_state, perform,
  get_state,
}

abbrev pub raise {ℓ} : {A : Type ℓ} → String → M A
raise text = from (raised text)

abbrev pub raise_if : Option String → M (Unit {0})
raise_if none = return tt
raise_if (some text) = raise text

-- `_transition_progress`
unfoldable pub transition_progress : String → M (Unit {0})
transition_progress detail r =
    if str_eq detail r.state.detail
    then (ok tt, r)
    else set_state (λ s. record s { detail = detail; readiness_reason = detail }) r

-- The new last reason, once a changed one is published.
unfoldable pub note_reason : (String → String) → String → String → M String
unfolding transition_progress
note_reason text last reason =
    if str_eq reason last
    then return last
    else (do transition_progress (text reason); return reason)

abbrev pub silently : String → String → M String
silently last reason = return last

-- One loop: it logs a poll, ends if the check succeeds, and raises when no poll is left.
unfoldable pub wait_until :
    (View → M (Unit {0}))
    → (View → Outcome (Bool × String))
    → (String → String → M String)
    → (String → String)
    → String
    → List View
    → M (Unit {0})
wait_until log check noted expired last [] = raise (expired last)
wait_until log check noted expired last (v ∷ vs) = do
  log v
  (done, reason) ← from (check v)
  elim done [
    | true ↦ return tt
    | false ↦ (do last' ← noted last reason; wait_until log check noted expired last' vs)
  ]

abbrev pub unlogged : View → M (Unit {0})
unlogged v = return tt

-- `f'timed out waiting for {what}{suffix}'`
abbrev pub timed_out : String → String → String
timed_out what last =
    if str_eq last ""
    then "timed out waiting for " <> what
    else "timed out waiting for " <> what <> ": " <> last

abbrev pub gone_check : View → Outcome (Bool × String)
gone_check v = ok (resources_gone v, "")

-- `_wait_for_unit_cleanup`, with or without progress
unfoldable pub wait_for_unit_cleanup : Bool → List View → M (Unit {0})
unfolding wait_until
wait_for_unit_cleanup reports =
    wait_until (λ v. perform (saw_units v)) unit_cleanup_status
      (if reports
        then note_reason (λ reason. "Stopping previous runtime — waiting for " <> reason)
        else silently)
      (timed_out "empty mode cgroups") ""

unfoldable pub wait_for_resources : List View → M (Unit {0})
unfolding wait_until
wait_for_resources =
    wait_until (λ v. perform (saw_graph v)) gone_check silently
      (timed_out "mode-scoped ROS resources to disappear") ""

unfoldable pub wait_for_readiness : Mode → List View → M (Unit {0})
unfolding wait_until
wait_for_readiness mode =
    wait_until unlogged (λ v. fully_ready v mode)
      (note_reason (λ reason. "Starting " <> mode_name mode <> " — " <> reason))
      (timed_out (mode_name mode <> " readiness")) ""

abbrev or_unsafe : String → String
or_unsafe reason = if str_eq reason "" then "waiting for motion to become safe" else reason

unfoldable pub wait_for_quiescence : List View → M (Unit {0})
unfolding wait_until
wait_for_quiescence =
    wait_until unlogged (λ v. ok v.quiescent)
      (note_reason (λ reason. "Resetting MAPPING — " <> or_unsafe reason))
      (timed_out "confirmed stationary state") ""

-- What happens to the requests to stop the units, and the polls of the two loops.
pub record Stopping : Type 0 where
  pub stop_error : ModeUnit → Option String
  pub cleanup : List View
  pub gone : List View

abbrev pub stop_errors : Stopping → List String
stop_errors s = listed (s.stop_error mapping_unit) (s.stop_error autonomy_unit)
  where
    listed : Option String → Option String → List String
    listed none none = []
    listed none (some e) = e ∷ []
    listed (some e) none = e ∷ []
    listed (some e) (some e') = e ∷ e' ∷ []

abbrev pub raise_all : List String → M (Unit {0})
raise_all [] = return tt
raise_all (e ∷ es) = raise (join "; " (e ∷ es))

abbrev pub report : Bool → String → M (Unit {0})
report true text = transition_progress text
report false text = return tt

unfoldable pub stop_all : Bool → Stopping → M (Unit {0})
unfolding wait_for_unit_cleanup wait_for_resources
stop_all reports s = do
  report reports "Stopping previous runtime — requesting service stop"
  perform (stop_unit mapping_unit)
  perform (stop_unit autonomy_unit)
  raise_all (stop_errors s)
  wait_for_unit_cleanup reports s.cleanup
  report reports "Stopping previous runtime — waiting for ROS graph cleanup"
  wait_for_resources s.gone

unfoldable pub fail : Stopping → String → M RuntimeState
unfolding stop_all
fail s detail = do
  cleanup ← try_except (do stop_all false s; return "") (λ e. return ("; cleanup failed: " <> e))
  set_state (λ s. record s {
    mode = idle;
    lifecycle = fault;
    detail = detail <> cleanup;
    mapping_session_id = "";
    ready = false;
    readiness_reason = detail;
  })
  get_state
