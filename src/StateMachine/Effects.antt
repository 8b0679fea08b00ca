-- ===== src/StateMachine/Effects.antt =====
-- The effects of `transition`: what a change of navigation or of authority asks of the adapter.
use ros_pre_runner.Prelude.{
  not, if◌then◌else◌, Option, ℕ, String, ◌≡◌, ◌≢◌, refl, ◌⊎◌, Bool, true, false, List, ◌∷◌, arith,
  any,
}
use ros_pre_runner.StateMachine.State.{
  Mode, GoalIntent, Event, acquire_lease, release_lease, lose_lease, request_mode, select_goal,
  run_press, run_release, stop, manual_active, manual_inactive, dualsense_active,
  dualsense_inactive, set_active_map, restart, Effect, brake, cancel_navigation, dispatch_goal,
  PaddockState, is_paddock, lease_active, autonomy_permitted, authority, authority_eq,
}
use ros_pre_runner.StateMachine.Events.{
  Transition, keep, owns_lease, on_set_active_map, on_acquire_lease, on_drop_lease,
  on_dualsense_active, on_request_mode, on_select_goal, on_run_press, on_run_release, on_stop,
  on_manual_active, on_manual_inactive, owner_event, Inputs, transition,
}
use ros_pre_runner.StateMachine.Invariant.{IsConsistent, owns_lease-active}

-- The vehicle is braked first, and the navigation cancelled next.
abbrev pub cancels_first : List Effect → Bool
cancels_first (brake ∷ cancel_navigation ∷ rest) = true
cancels_first _ = false

abbrev pub is_dispatch : Effect → Bool
is_dispatch dispatch_goal = true
is_dispatch _ = false

abbrev pub is_brake : Effect → Bool
is_brake brake = true
is_brake _ = false

module _ {F : Type 0} where
  pub record IsAnnounced (s : PaddockState F) (t : Transition F) : Type 0 where
    -- A navigation that ends, or that a new goal supersedes, is braked and cancelled, in that order.
    pub cancelled :
        s.navigation_active ≡ true
        → (t.state.navigation_active ≡ false) ⊎ (any is_dispatch t.effects ≡ true)
        → cancels_first t.effects ≡ true
    -- A goal is dispatched only into a state that permits autonomy.
    pub dispatched : any is_dispatch t.effects ≡ true → autonomy_permitted t.state ≡ true
    -- A navigation starts exactly with a dispatch.
    pub started :
        s.navigation_active ≡ false → t.state.navigation_active ≡ any is_dispatch t.effects
    -- Where Paddock's authority over the vehicle changes or goes, the vehicle is braked.
    pub braked :
        is_paddock (authority s) ≡ true
        → authority_eq (authority t.state) (authority s) ≡ false
        → any is_brake t.effects ≡ true

  keep-IsAnnounced : (s : PaddockState F) → IsConsistent s → IsAnnounced s (keep s)
  keep-IsAnnounced s h = ground arith

  on_acquire_lease-IsAnnounced :
      (s : PaddockState F) (c l : String) → IsConsistent s → IsAnnounced s (on_acquire_lease s c l)
  unfolding on_acquire_lease lease_active autonomy_permitted authority
  on_acquire_lease-IsAnnounced s c l h = ground arith

  on_drop_lease-IsAnnounced :
      (s : PaddockState F) (l : String) → IsConsistent s → IsAnnounced s (on_drop_lease s l)
  unfolding on_drop_lease lease_active autonomy_permitted authority
  on_drop_lease-IsAnnounced s l h = ground arith

  on_request_mode-IsAnnounced :
      (s : PaddockState F) (m : Option Mode) (r : ℕ)
      → IsConsistent s
      → IsAnnounced s (on_request_mode s m r)
  unfolding on_request_mode lease_active autonomy_permitted authority
  on_request_mode-IsAnnounced s m r h = ground arith

  on_select_goal-IsAnnounced :
      (s : PaddockState F) (g : Option (GoalIntent F))
      → lease_active s ≡ true
      → IsConsistent s
      → IsAnnounced s (on_select_goal s g)
  unfolding on_select_goal lease_active autonomy_permitted authority
  on_select_goal-IsAnnounced s g l h = ground arith

  on_run_press-IsAnnounced :
      (s : PaddockState F) → lease_active s ≡ true → IsConsistent s → IsAnnounced s (on_run_press s)
  unfolding on_run_press lease_active autonomy_permitted authority
  on_run_press-IsAnnounced s l h = ground arith

  on_run_release-IsAnnounced :
      (s : PaddockState F) → IsConsistent s → IsAnnounced s (on_run_release s)
  unfolding on_run_release lease_active autonomy_permitted authority
  on_run_release-IsAnnounced s h = ground arith

  on_stop-IsAnnounced : (s : PaddockState F) → IsConsistent s → IsAnnounced s (on_stop s)
  unfolding on_stop lease_active autonomy_permitted authority
  on_stop-IsAnnounced s h = ground arith

  on_manual_active-IsAnnounced :
      (s : PaddockState F)
      → lease_active s ≡ true
      → IsConsistent s
      → IsAnnounced s (on_manual_active s)
  unfolding on_manual_active lease_active autonomy_permitted authority
  on_manual_active-IsAnnounced s l h = ground arith

  on_manual_inactive-IsAnnounced :
      (s : PaddockState F) → IsConsistent s → IsAnnounced s (on_manual_inactive s)
  unfolding on_manual_inactive lease_active autonomy_permitted authority
  on_manual_inactive-IsAnnounced s h = ground arith

  on_dualsense_active-IsAnnounced :
      (s : PaddockState F) → IsConsistent s → IsAnnounced s (on_dualsense_active s)
  unfolding on_dualsense_active lease_active autonomy_permitted authority
  on_dualsense_active-IsAnnounced s h = ground arith

  on_set_active_map-IsAnnounced :
      (s : PaddockState F) (m : Option String)
      → IsConsistent s
      → IsAnnounced s (on_set_active_map s m)
  unfolding on_set_active_map lease_active autonomy_permitted authority
  on_set_active_map-IsAnnounced s m h = ground arith

  dualsense_inactive-IsAnnounced :
      (s : PaddockState F)
      → IsConsistent s
      → IsAnnounced s (keep (record s { is_dualsense_active = false }))
  unfolding lease_active autonomy_permitted authority
  dualsense_inactive-IsAnnounced s h = ground arith

  -- The guard `if not _owns_lease(state, lease_id)`.
  guarded-IsAnnounced :
      (owned : Bool) (s : PaddockState F) (t : Transition F)
      → IsConsistent s
      → (owned ≡ true → IsAnnounced s t)
      → IsAnnounced s (if not owned then keep s else t)
  guarded-IsAnnounced true s t h k = k refl
  guarded-IsAnnounced false s t h k = keep-IsAnnounced s h

  owner_event-IsAnnounced :
      (s : PaddockState F) (e : Event) (i : Inputs F)
      → lease_active s ≡ true
      → IsConsistent s
      → IsAnnounced s (owner_event s e i)
  unfolding owner_event
  owner_event-IsAnnounced s request_mode i l h = on_request_mode-IsAnnounced s i.mode i.request_id h
  owner_event-IsAnnounced s select_goal i l h = on_select_goal-IsAnnounced s i.goal l h
  owner_event-IsAnnounced s run_press i l h = on_run_press-IsAnnounced s l h
  owner_event-IsAnnounced s run_release i l h = on_run_release-IsAnnounced s h
  owner_event-IsAnnounced s stop i l h = on_stop-IsAnnounced s h
  owner_event-IsAnnounced s manual_active i l h = on_manual_active-IsAnnounced s l h
  owner_event-IsAnnounced s manual_inactive i l h = on_manual_inactive-IsAnnounced s h
  owner_event-IsAnnounced s _ i l h = keep-IsAnnounced s h

  -- Every event but a restart, whatever its arguments, announces to the adapter what it does: from a
  -- consistent state, a navigation that ends or is superseded is braked and then cancelled, a goal is
  -- dispatched only where autonomy is permitted, a navigation starts exactly with a dispatch, and a
  -- change or loss of Paddock's manual or autonomy authority brakes the vehicle.
  pub transition-IsAnnounced :
      (s : PaddockState F) (e : Event) (i : Inputs F)
      → e ≢ restart
      → IsConsistent s
      → IsAnnounced s (transition s e i)
  unfolding transition
  transition-IsAnnounced s acquire_lease i ne h =
      on_acquire_lease-IsAnnounced s i.client_id i.lease_id h
  transition-IsAnnounced s release_lease i ne h = on_drop_lease-IsAnnounced s i.lease_id h
  transition-IsAnnounced s lose_lease i ne h = on_drop_lease-IsAnnounced s i.lease_id h
  transition-IsAnnounced s dualsense_active i ne h = on_dualsense_active-IsAnnounced s h
  transition-IsAnnounced s dualsense_inactive i ne h = dualsense_inactive-IsAnnounced s h
  transition-IsAnnounced s set_active_map i ne h =
      on_set_active_map-IsAnnounced s i.active_autonomy_map h
  transition-IsAnnounced s restart i ne h = absurd (ne refl)
  transition-IsAnnounced s e i ne h =
      guarded-IsAnnounced (owns_lease s i.lease_id) s (owner_event s e i) h
        (λ own. owner_event-IsAnnounced s e i (owns_lease-active s i.lease_id own) h)
