-- ===== src/ModeRuntime/View.antt =====
-- What one poll of systemd and the ROS graph shows, and the readiness that
-- src/runner_paddock/runner_paddock/mode_runtime.py derives from it. The answers of systemd (a state, or
-- the text of the RuntimeError), the node counts and the node's callbacks are fields of the view.
use ros_pre_runner.Prelude.{
  ℕ, String, str_eq, Bool, true, false, not, ◌&&◌, List, [], ◌∷◌, ◌++◌, ◌==◌, any, if◌then◌else◌,
}
use ros_pre_runner.StateMachine.{Mode}
use ros_pre_runner.ModeRuntime.Text.{◌<>◌, join}
use ros_pre_runner.ModeRuntime.State.{
  ModeUnit, mapping_unit, autonomy_unit, unit_name, UnitState, unit_active, cleanly_inactive,
  mode_nodes, required_nodes, forbidden_nodes, unit_of,
}

-- A result, or the text of an exception.
pub data Outcome {ℓ} (A : Type ℓ) : Type ℓ where
  ok : A → Outcome A
  raised : String → Outcome A

infixl 5 ◌>>=◌
abbrev pub ◌>>=◌ {ℓ κ} : {A : Type ℓ} {B : Type κ} → Outcome A → (A → Outcome B) → Outcome B
ok a >>= f = f a
raised e >>= f = raised e

pub record View : Type 0 where
  pub state : ModeUnit → Outcome UnitState
  pub detailed : ModeUnit → Outcome UnitState  -- state(unit, process_details=True)
  pub count : String → ℕ  -- Counter(self.graph_nodes())
  pub owned : Mode → Bool  -- ownership_ready
  pub capable : Mode → Bool × String  -- capability_ready
  pub quiescent : Bool × String  -- quiescence_ready
  pub decimal : ℕ → String  -- str of an integer

abbrev pub is_empty : List String → Bool
is_empty [] = true
is_empty (_ ∷ _) = false

abbrev or_else : String → String → String
or_else text default = if str_eq text "" then default else text

-- `', '.join(f'PID {pid} {command}' ...)`
abbrev process_texts : View → List (ℕ × String) → List String
process_texts v [] = []
process_texts v ((pid, command) ∷ rest) =
    ("PID " <> v.decimal pid <> " " <> command) ∷ process_texts v rest

abbrev processes_text : View → UnitState → String
processes_text v u =
    let listed = join ", " (process_texts v u.cgroup_processes) in
    let main =
      if str_eq listed "" && not (u.main_pid == 0)
      then "MainPID " <> v.decimal u.main_pid
      else listed in
    or_else main "no process details available"

abbrev blocker : View → ModeUnit → UnitState → String
blocker v unit u =
    unit_name unit
    <> " "
    <> u.active_state
    <> "/"
    <> u.sub_state
    <> ", cgroup "
    <> or_else u.control_group "<no cgroup reported>"
    <> ": "
    <> processes_text v u

abbrev pub detailed_blockers : View → ModeUnit → UnitState → List String
detailed_blockers v unit u = if cleanly_inactive u then [] else blocker v unit u ∷ []

-- The blocker of one unit, if there is one. The details are read only of a unit that is not clean.
abbrev pub unit_blockers : View → ModeUnit → UnitState → Outcome (List String)
unit_blockers v unit u =
    if cleanly_inactive u
    then ok []
    else (do second ← v.detailed unit; ok (detailed_blockers v unit second))

unfoldable pub unit_cleanup_status : View → Outcome (Bool × String)
unfolding cleanly_inactive join
unit_cleanup_status v = do
  mapping_state ← v.state mapping_unit
  first ← unit_blockers v mapping_unit mapping_state
  autonomy_state ← v.state autonomy_unit
  second ← unit_blockers v autonomy_unit autonomy_state
  ok (is_empty (first ++ second), join "; " (first ++ second))

unfoldable pub resources_gone : View → Bool
resources_gone v = not (any (λ node. not (v.count node == 0)) mode_nodes)

abbrev pub filter_nodes : (String → Bool) → List String → List String
filter_nodes p [] = []
filter_nodes p (node ∷ rest) = if p node then node ∷ filter_nodes p rest else filter_nodes p rest

-- The prefixed list of names, or the later reason if there are none.
abbrev pub named : String → List String → String → String
named prefix [] later = later
named prefix (node ∷ rest) later = prefix <> join ", " (node ∷ rest)

-- The graph and its owners, once the unit is active.
unfoldable pub graph_reason : View → Mode → String
unfolding join
graph_reason v mode =
    named "missing node(s): " (filter_nodes (λ node. v.count node == 0) (required_nodes mode)) (
      named "unexpected node(s): "
        (filter_nodes (λ node. not (v.count node == 0)) (forbidden_nodes mode))
        (if v.owned mode then "" else "single-writer ownership check failed"))

unfoldable pub structural_reason : View → Mode → Outcome String
unfolding unit_active graph_reason
structural_reason v mode = do
  u ← v.state (unit_of mode)
  ok (
      if unit_active u
      then graph_reason v mode
      else unit_name (unit_of mode) <> " is not active/running")

unfoldable pub is_ready : View → Mode → Outcome Bool
unfolding structural_reason
is_ready v mode = do reason ← structural_reason v mode; ok (str_eq reason "")

abbrev capability : Bool × String → Bool × String
capability (true, reason) = (true, "")
capability (false, reason) = (false, or_else reason "capability not ready")

unfoldable pub fully_ready : View → Mode → Outcome (Bool × String)
unfolding structural_reason
fully_ready v mode = do
  reason ← structural_reason v mode
  ok (if str_eq reason "" then capability (v.capable mode) else (false, reason))
