-- ===== src/StateMachine/Tests.antt =====
-- A session with the reducer: witnesses and runs, with numbers for the coordinates.
use ros_pre_runner.Prelude.{ℕ, ◌≡◌, refl, false, some, List, [], ◌∷◌}
use ros_pre_runner.StateMachine.State.{
  autonomy, Event, acquire_lease, request_mode, select_goal, run_press, dualsense_active, stop,
  dualsense_inactive, PaddockState, initial, authority, paddock_autonomy, dualsense,
  autonomy_permitted, brake, cancel_navigation,
}
use ros_pre_runner.StateMachine.Events.{Inputs, no_inputs, transition}
use ros_pre_runner.StateMachine.Invariant.{IsConsistent, run, run-IsConsistent}
use ros_pre_runner.StateMachine.Effects.{IsAnnounced, transition-IsAnnounced}
use ros_pre_runner.StateMachine.Ownership.{generation_identifies}
use ros_pre_runner.StateMachine.Rearm.{takeover-needs_rearm}

abbrev by_owner : Inputs ℕ
by_owner = record no_inputs { client_id = "browser"; lease_id = "L1" }

abbrev arm : List (Event × Inputs ℕ)
arm =
    (acquire_lease, by_owner)
    ∷ (request_mode, record by_owner { mode = some autonomy; request_id = 1 })
    ∷ (
      select_goal,
      record by_owner { goal = some (record { map_name = "studio"; x = 1; y = 2; yaw = 0 }) },
    )
    ∷ (run_press, by_owner)
    ∷ []

-- Autonomy under a lease, with a goal and RUN held.
abbrev driving : PaddockState ℕ
driving = run (initial "studio") arm

driving_autonomy : authority driving ≡ paddock_autonomy
unfolding run transition authority
driving_autonomy = refl

driving_stop : (transition driving stop by_owner).effects ≡ brake ∷ cancel_navigation ∷ []
unfolding run transition
driving_stop = refl

driving_taken : authority (transition driving dualsense_active no_inputs).state ≡ dualsense
unfolding run transition authority
driving_taken = refl

run-IsConsistent_example : IsConsistent driving
run-IsConsistent_example = run-IsConsistent "studio" arm

driving-IsConsistent : IsConsistent driving
driving-IsConsistent = run-IsConsistent "studio" arm

transition-IsAnnounced_example : IsAnnounced driving (transition driving stop by_owner)
transition-IsAnnounced_example =
    transition-IsAnnounced driving stop by_owner (λ e. cc) driving-IsConsistent

generation_identifies_example :
    (run driving (
      (dualsense_active, no_inputs)
      ∷ (dualsense_inactive, no_inputs)
      ∷ (run_press, by_owner)
      ∷ [])).lease_id
    ≡ driving.lease_id
unfolding run transition
generation_identifies_example =
    generation_identifies driving
      ((dualsense_active, no_inputs) ∷ (dualsense_inactive, no_inputs) ∷ (run_press, by_owner) ∷ [])
      refl refl

takeover-needs_rearm_example :
    autonomy_permitted (
      run driving (
        (dualsense_active, no_inputs)
        ∷ (dualsense_inactive, no_inputs)
        ∷ (run_press, by_owner)
        ∷ []))
    ≡ false
unfolding run transition
takeover-needs_rearm_example =
    takeover-needs_rearm driving no_inputs
      ((dualsense_inactive, no_inputs) ∷ (run_press, by_owner) ∷ []) refl refl refl
