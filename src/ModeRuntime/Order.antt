-- ===== src/ModeRuntime/Order.antt =====
-- How far a stop of the mode units has come, read from what the runtime did, and what the steps of
-- src/runner_paddock/runner_paddock/mode_runtime.py do to it.
use ros_pre_runner.Prelude.{ℕ, ◌≤◌, Bool, false, ◌&&◌, ◌||◌, List, [], ◌∷◌, ◌==◌, if◌then◌else◌}
use ros_pre_runner.ModeRuntime.State.{
  ModeUnit, mapping_unit, autonomy_unit, UnitState, cleanly_inactive,
}
use ros_pre_runner.ModeRuntime.View.{Outcome, ok, raised, View, resources_gone}
use ros_pre_runner.ModeRuntime.Run.{
  Action, published, stop_unit, start_unit, begin_quiescence, map_written, saw_units, saw_graph,
}

-- Whether a view shows that a unit is empty, at the first look or at the detailed one.
abbrev pub shows_clean : Outcome UnitState → Bool
shows_clean (ok u) = cleanly_inactive u
shows_clean (raised e) = false

unfoldable pub seen_clean : View → ModeUnit → Bool
unfolding cleanly_inactive
seen_clean v u = shows_clean (v.state u) || shows_clean (v.detailed u)

-- From 0 (nothing since the last start) by way of 1 and 2 (the units were told to stop) and 3 (and
-- then seen empty) to 4 (and then the graph was seen without their nodes).
unfoldable pub advance : ℕ → Action → ℕ
unfolding seen_clean resources_gone
advance g (published s) = g
advance g (stop_unit mapping_unit) = 1
advance g (stop_unit autonomy_unit) = if g == 1 then 2 else 0
advance g (start_unit u) = 0
advance g begin_quiescence = g
advance g (map_written m) = g
advance g (saw_units v) =
    if (g == 2) && (seen_clean v mapping_unit && seen_clean v autonomy_unit) then 3 else g
advance g (saw_graph v) = if (g == 3) && resources_gone v then 4 else g

unfoldable pub stage : List Action → ℕ
unfolding advance
stage [] = 0
stage (a ∷ rest) = advance (stage rest) a

-- Every start of a unit came after a complete stop.
abbrev pub IsOrdered : List Action → Type 0
IsOrdered [] = Unit {0}
IsOrdered (start_unit u ∷ rest) = (4 ≤ stage rest) × IsOrdered rest
IsOrdered (_ ∷ rest) = IsOrdered rest
