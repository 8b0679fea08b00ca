-- ===== src/ModeRuntime/Tests.antt =====
-- A runtime that starts MAPPING and then takes further calls: witnesses and runs.
use ros_pre_runner.Prelude.{
  ℕ, ◌↔◌, any, str_eq, if◌then◌else◌, ◌≡◌, refl, inl, String, true, false, none, some, List, [],
  ◌∷◌,
}
use ros_pre_runner.StateMachine.{mapping}
use ros_pre_runner.ModeRuntime.State.{
  mapping_unit, autonomy_unit, transitioning, autonomy_only_nodes, UnitState, unit_active,
}
use ros_pre_runner.ModeRuntime.View.{Outcome, ok, raised, View, structural_reason}
use ros_pre_runner.ModeRuntime.Run.{Runtime}
use ros_pre_runner.ModeRuntime.Wait.{Stopping}
use ros_pre_runner.ModeRuntime.Change.{Surroundings, new_map, select_runtime, transition}
use ros_pre_runner.ModeRuntime.Reconcile.{Survey, reconcile}
use ros_pre_runner.ModeRuntime.Triple.{Post}
use ros_pre_runner.ModeRuntime.Transition.{EscapesNew, Responds, request_after}
use ros_pre_runner.ModeRuntime.Order.{IsOrdered}
use ros_pre_runner.ModeRuntime.Settle.{IsSettled, Never}
use ros_pre_runner.ModeRuntime.Known.{IsKnown}
use ros_pre_runner.ModeRuntime.Reconciled.{IsReconciled}
use ros_pre_runner.ModeRuntime.History.{
  RuntimeCall, request, timer, survey, run, boot, transition-IsSettled, reconcile-IsSettled,
  run-IsOrdered,
}
use ros_pre_runner.ModeRuntime.Structure.{IsComplete, structural_reason_exact}

abbrev unit_state : String → String → ℕ → UnitState
unit_state active sub pid = record {
  active_state = active;
  sub_state = sub;
  main_pid = pid;
  control_group = "";
  cgroup_processes = [];
}

-- Both units stopped and no node; and MAPPING up.
abbrev quiet : View
quiet = record {
  state = λ u. ok (unit_state "inactive" "dead" 0);
  detailed = λ u. ok (unit_state "inactive" "dead" 0);
  count = λ n. 0;
  owned = λ m. true;
  capable = λ m. (true, "");
  quiescent = (false, "moving");
  decimal = λ n. "1";
}

abbrev mapping_up : View
mapping_up = record quiet {
  state = λ u. elim u [
    | mapping_unit ↦ ok (unit_state "active" "running" 7)
    | autonomy_unit ↦ ok (unit_state "inactive" "dead" 0)
  ];
  count = λ n. if any (str_eq n) autonomy_only_nodes then 0 else 1;
}

abbrev lost : View
lost = record quiet { state = λ u. raised "cannot inspect" }

abbrev stopping : Stopping
stopping = record { stop_error = λ u. none; cleanup = quiet ∷ []; gone = quiet ∷ [] }

-- The second look after a start succeeds; the look after a refused NEW MAP raises.
abbrev around : Surroundings
around = record {
  quiescing = quiet ∷ [];
  rejected = lost;
  stopping = stopping;
  map_error = none;
  write_error = none;
  start_error = none;
  readiness = record mapping_up { count = λ n. 0 } ∷ mapping_up ∷ [];
  final = mapping_up;
  session = "abc";
  failing = stopping;
}

abbrev found : Survey
found = record {
  found = mapping_up;
  discovery = [];
  partial = mapping_up;
  stored_map = raised "no map";
  map_error = none;
  final = mapping_up;
  session = "abc";
  failing = stopping;
}

abbrev mapping_runtime : Runtime
mapping_runtime = record boot {
  state = record boot.state { mode = mapping; runtime_epoch = 1; mapping_session_id = "1-abc" };
}

abbrev calls : List RuntimeCall
calls =
    request around (some mapping) 1 "" select_runtime
    ∷ timer quiet
    ∷ survey found
    ∷ request around (some mapping) 2 "" new_map
    ∷ timer quiet
    ∷ []

run-IsOrdered_example : IsOrdered (run calls boot).actions × IsKnown (run calls boot).state
run-IsOrdered_example = run-IsOrdered calls

transition-IsSettled_example :
    Post
      (Responds IsSettled boot.state (request_after (some mapping) 1 boot.state))
      (EscapesNew around boot.state 1)
      (transition around (some mapping) 1 "" select_runtime boot)
transition-IsSettled_example =
    transition-IsSettled around (some mapping) 1 "" select_runtime boot tt
      (inl (refl, inl (refl, refl, refl)))

reconcile-IsSettled_example : Post (IsReconciled boot.state) Never (reconcile found boot)
reconcile-IsSettled_example = reconcile-IsSettled found boot tt

structural_reason_exact_example : (structural_reason mapping_up mapping ≡ ok "") ↔ (
    (u : UnitState) × (mapping_up.state mapping_unit ≡ ok u)
    × (unit_active u ≡ true)
    × IsComplete mapping_up mapping)
structural_reason_exact_example = structural_reason_exact mapping_up mapping

-- A start of MAPPING that becomes ready at the second look.
started :
    (transition around (some mapping) 1 "" select_runtime boot).1.state.mapping_session_id ≡ "1-abc"
unfolding transition ros_pre_runner.ModeRuntime.Run.◌>>◌ ros_pre_runner.ModeRuntime.Run.◌>>=◌
    ros_pre_runner.ModeRuntime.Wait.note_reason ros_pre_runner.ModeRuntime.Run.try_except
    ros_pre_runner.ModeRuntime.View.unit_cleanup_status
    ros_pre_runner.ModeRuntime.View.resources_gone
started = refl

-- A runtime that maps and is asked for a NEW MAP it cannot give stays in transition.
stuck :
    (transition around (some mapping) 1 "" new_map mapping_runtime).1.state.lifecycle
    ≡ transitioning
unfolding transition ros_pre_runner.ModeRuntime.Run.◌>>◌ ros_pre_runner.ModeRuntime.Run.◌>>=◌
    ros_pre_runner.ModeRuntime.Wait.note_reason
stuck = refl
