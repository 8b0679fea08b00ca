-- ===== src/StateMachine/Rearm.antt =====
-- RUN after a takeover by the DualSense pad: `run_blocked_until_release` of state_machine.py.
use ros_pre_runner.Prelude.{◌≡◌, Bool, true, false, List, [], ◌∷◌, ◌&&◌, not, arith}
use ros_pre_runner.StateMachine.State.{
  Event, release_lease, lose_lease, request_mode, run_release, stop, manual_active,
  dualsense_active, set_active_map, restart, PaddockState, autonomy_permitted,
}
use ros_pre_runner.StateMachine.Events.{Inputs, transition}
use ros_pre_runner.StateMachine.Invariant.{run}

-- The events that may end a held RUN.
abbrev pub disarms : Event → Bool
disarms run_release = true
disarms stop = true
disarms manual_active = true
disarms release_lease = true
disarms lose_lease = true
disarms request_mode = true
disarms set_active_map = true
disarms restart = true
disarms _ = false

module _ {F : Type 0} where
  abbrev pub never_disarms : List (Event × Inputs F) → Bool
  never_disarms [] = true
  never_disarms ((e, i) ∷ rest) = not (disarms e) && never_disarms rest

  pub record IsBlocked (s : PaddockState F) : Type 0 where
    pub blocked : s.run_blocked_until_release ≡ true
    pub held : s.run_held ≡ true

  transition-IsBlocked :
      (s : PaddockState F) (e : Event) (i : Inputs F)
      → disarms e ≡ false
      → IsBlocked s
      → IsBlocked (transition s e i).state
  unfolding transition
  transition-IsBlocked s e i d h = ground arith

  run-IsBlocked :
      (s : PaddockState F) (es : List (Event × Inputs F))
      → never_disarms es ≡ true
      → IsBlocked s
      → IsBlocked (run s es)
  unfolding run
  run-IsBlocked s [] d h = h
  run-IsBlocked s ((e, i) ∷ rest) d h =
      run-IsBlocked (transition s e i).state rest (ground arith)
        (transition-IsBlocked s e i (ground arith) h)

  takeover-IsBlocked :
      (s : PaddockState F) (i : Inputs F)
      → s.is_dualsense_active ≡ false
      → s.run_held ≡ true
      → IsBlocked (transition s dualsense_active i).state
  unfolding transition
  takeover-IsBlocked s i p h = ground arith

  IsBlocked-not_permitted : (s : PaddockState F) → IsBlocked s → autonomy_permitted s ≡ false
  unfolding autonomy_permitted
  IsBlocked-not_permitted s h = ground arith

  -- Once the pad takes over while RUN is held, no sequence of events permits autonomy again, the pad's
  -- release, new goals and further RUN presses included, unless one of them may end the held RUN: its
  -- release, STOP, manual control, the loss of the lease, another mode or map, or a restart.
  pub takeover-needs_rearm :
      (s : PaddockState F) (i : Inputs F) (es : List (Event × Inputs F))
      → s.is_dualsense_active ≡ false
      → s.run_held ≡ true
      → never_disarms es ≡ true
      → autonomy_permitted (run s ((dualsense_active, i) ∷ es)) ≡ false
  unfolding run
  takeover-needs_rearm s i es p h d =
      IsBlocked-not_permitted (run (transition s dualsense_active i).state es)
        (run-IsBlocked (transition s dualsense_active i).state es d (takeover-IsBlocked s i p h))
