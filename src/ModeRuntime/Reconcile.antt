-- ===== src/ModeRuntime/Reconcile.antt =====
-- `reconcile` of src/runner_paddock/runner_paddock/mode_runtime.py.
use ros_pre_runner.Prelude.{
  ℕ, ◌+◌, String, str_eq, Bool, true, false, not, ◌&&◌, Option, List, [], ◌∷◌, leb, if◌then◌else◌,
}
use ros_pre_runner.StateMachine.{Mode, mapping, autonomy}
use ros_pre_runner.ModeRuntime.Text.{◌<>◌, join}
use ros_pre_runner.ModeRuntime.State.{
  mapping_unit, autonomy_unit, stable, RuntimeState, UnitState, unit_active, cleanly_inactive,
  mode_name, unit_name,
}
use ros_pre_runner.ModeRuntime.View.{
  Outcome, ok, raised, View, resources_gone, structural_reason, is_ready, fully_ready,
}
use ros_pre_runner.ModeRuntime.Run.{
  M, attempt, ◌>>=◌, ◌>>◌, return, from, try_except, set_state, get_state,
}
use ros_pre_runner.ModeRuntime.Wait.{
  raise_if, wait_until, unlogged, silently, timed_out, Stopping, fail,
}
use ros_pre_runner.ModeRuntime.Change.{set_stopped}

-- What one reconciliation meets: the first look, the polls for the graph, the look after the last of
-- them, and the map that is stored on disk.
pub record Survey : Type 0 where
  pub found : View
  pub discovery : List View
  pub partial : View
  pub stored_map : Outcome String
  pub map_error : Option String
  pub final : View
  pub session : String
  pub failing : Stopping

abbrev pub units_where : (UnitState → Bool) → UnitState → UnitState → List String
units_where p m a =
    let rest = if p a then unit_name autonomy_unit ∷ [] else [] in
    if p m then unit_name mapping_unit ∷ rest else rest

unfoldable pub active_units : UnitState → UnitState → List String
unfolding unit_active
active_units = units_where unit_active

unfoldable pub ambiguous_units : UnitState → UnitState → List String
unfolding unit_active cleanly_inactive
ambiguous_units = units_where (λ u. not (unit_active u) && not (cleanly_inactive u))

unfoldable pub reject : Survey → String → M RuntimeState
unfolding fail
reject w detail = fail w.failing detail

abbrev pub chosen_map : Survey → Mode → RuntimeState → M String
chosen_map w autonomy s = do selected ← from w.stored_map; raise_if w.map_error; return selected
chosen_map w _ s = return s.active_autonomy_map

abbrev pub new_session_id : Survey → Mode → ℕ → String
new_session_id w mapping epoch = w.final.decimal (epoch + 1) <> "-" <> w.session
new_session_id w _ epoch = ""

-- The runtime that is already active becomes the current one.
unfoldable pub adopt : Survey → Mode → M RuntimeState
unfolding fully_ready
adopt w mode = do
  s ← get_state
  selected ← chosen_map w mode s
  (good, reason) ← from (fully_ready w.final mode)
  set_state (λ t. record t {
    mode = mode;
    lifecycle = stable;
    active_autonomy_map = selected;
    detail = "";
    runtime_epoch = if leb t.runtime_epoch 1 then 1 else t.runtime_epoch;
    mapping_session_id = new_session_id w mode t.runtime_epoch;
    ready = good;
    readiness_reason = reason;
  })
  get_state

abbrev pub ready_check : Mode → View → Outcome (Bool × String)
ready_check mode v = elim (is_ready v mode) [ ok b ↦ ok (b, "") | raised e ↦ raised e ]

abbrev pub discover : Survey → Mode → M (Unit {0})
discover w mode =
    wait_until unlogged (ready_check mode) silently
      (timed_out (mode_name mode <> " graph discovery")) "" w.discovery

abbrev pub reject_partial : Survey → Mode → M RuntimeState
reject_partial w mode = do
  reason ← from (structural_reason w.partial mode)
  reject w (mode_name mode <> " unit is active but graph is partial: " <> reason)

-- One active unit: its graph is awaited for a while.
unfoldable pub resume : Survey → Mode → M RuntimeState
unfolding wait_until is_ready structural_reason reject adopt
resume w mode = do
  complete ← from (is_ready w.found mode)
  elim complete [
    | true ↦ adopt w mode
    | false ↦ attempt (discover w mode) (λ _. adopt w mode) (λ _. reject_partial w mode)
  ]

abbrev pub names : List String → List String → List String
names [] active = active
names (unit ∷ units) active = unit ∷ units

-- By the ambiguous units and the active ones.
unfoldable pub reconcile_named : Survey → List String → List String → M RuntimeState
unfolding resources_gone reject resume
reconcile_named w [] [] =
    if resources_gone w.found
    then set_stopped
    else reject w "mode-scoped ROS resources exist outside active mode units"
reconcile_named w [] (unit ∷ []) =
    resume w (if str_eq unit (unit_name mapping_unit) then mapping else autonomy)
reconcile_named w ambiguous active =
    reject w ("ambiguous systemd mode state: " <> join ", " (names ambiguous active))

unfoldable pub reconcile : Survey → M RuntimeState
unfolding active_units ambiguous_units reconcile_named reject
reconcile w =
    try_except
      (do
        m ← from (w.found.state mapping_unit)
        a ← from (w.found.state autonomy_unit)
        reconcile_named w (ambiguous_units m a) (active_units m a))
      (λ e. reject w ("reconciliation failed: " <> e))
