-- ===== src/StateMachine/Invariant.antt =====
-- What holds of a `PaddockState` between two events, and after any sequence of them.
use ros_pre_runner.Prelude.{
  refl, ℕ, not, if◌then◌else◌, [], ◌∷◌, List, eq_iff, String, ◌≡◌, Bool, true, false, Option, none,
  some, arith, str_eq,
}
use ros_pre_runner.StateMachine.State.{
  Mode, idle, autonomy, Event, acquire_lease, release_lease, lose_lease, request_mode, select_goal,
  run_press, run_release, stop, manual_active, manual_inactive, dualsense_active,
  dualsense_inactive, set_active_map, restart, GoalIntent, PaddockState, initial, mode_eq, nonempty,
  lease_active, autonomy_permitted,
}
use ros_pre_runner.StateMachine.Events.{
  Inputs, Transition, keep, owns_lease, transition, on_set_active_map, owner_event,
  on_acquire_lease, on_drop_lease, on_request_mode, on_select_goal, on_run_press, on_run_release,
  on_stop, on_manual_active, on_manual_inactive, on_dualsense_active, on_restart,
}

module _ {F : Type 0} where
  -- A selected goal belongs to the lease and to the active map of AUTONOMY.
  abbrev pub Fits : Mode → Bool → String → Option (GoalIntent F) → Type 0
  Fits mode leased map none = Unit
  Fits mode leased map (some g) =
      (mode ≡ autonomy) × (leased ≡ true) × (str_eq g.map_name map ≡ true)

  pub record IsConsistent (s : PaddockState F) : Type 0 where
    pub navigating : s.navigation_active ≡ autonomy_permitted s
    pub blocked_held : s.run_blocked_until_release ≡ true → s.run_held ≡ true
    pub dualsense_blocks :
        s.is_dualsense_active ≡ true → s.run_held ≡ true → s.run_blocked_until_release ≡ true
    pub held_leased : s.run_held ≡ true → lease_active s ≡ true
    pub manual_leased : s.is_manual_active ≡ true → lease_active s ≡ true
    pub manual_mode : s.is_manual_active ≡ true → mode_eq s.mode idle ≡ false
    pub manual_pad : s.is_manual_active ≡ true → s.is_dualsense_active ≡ false
    pub goal_fits : Fits s.mode (lease_active s) s.active_autonomy_map s.goal
    pub client_known : lease_active s ≡ nonempty s.lease_client_id

  pub IsConsistent-initial : (m : String) → IsConsistent (initial m)
  unfolding lease_active autonomy_permitted
  IsConsistent-initial m = ground arith

  -- `m` is the active map over again.
  pub Fits-renamed :
      (mode : Mode) (leased : Bool) (m map : String) (g : Option (GoalIntent F))
      → str_eq m map ≡ true
      → Fits mode leased map g
      → Fits mode leased m g
  Fits-renamed mode leased m map none e h = tt
  Fits-renamed mode leased m map (some g) e h = rw ((eq_iff m map).0 e) h

  on_set_active_map-IsConsistent :
      (s : PaddockState F) (m : Option String)
      → IsConsistent s
      → IsConsistent (on_set_active_map s m).state
  unfolding on_set_active_map lease_active autonomy_permitted
  on_set_active_map-IsConsistent s none h = h
  on_set_active_map-IsConsistent s (some m) h =
      ground (arith, Fits-renamed s.mode (lease_active s) m s.active_autonomy_map s.goal)

  on_acquire_lease-IsConsistent :
      (s : PaddockState F) (c l : String)
      → IsConsistent s
      → IsConsistent (on_acquire_lease s c l).state
  unfolding on_acquire_lease lease_active autonomy_permitted
  on_acquire_lease-IsConsistent s c l h = ground arith

  on_drop_lease-IsConsistent :
      (s : PaddockState F) (l : String) → IsConsistent s → IsConsistent (on_drop_lease s l).state
  unfolding on_drop_lease lease_active autonomy_permitted
  on_drop_lease-IsConsistent s l h = ground arith

  on_request_mode-IsConsistent :
      (s : PaddockState F) (m : Option Mode) (r : ℕ)
      → IsConsistent s
      → IsConsistent (on_request_mode s m r).state
  unfolding on_request_mode lease_active autonomy_permitted
  on_request_mode-IsConsistent s m r h = ground arith

  on_select_goal-IsConsistent :
      (s : PaddockState F) (g : Option (GoalIntent F))
      → lease_active s ≡ true
      → IsConsistent s
      → IsConsistent (on_select_goal s g).state
  unfolding on_select_goal lease_active autonomy_permitted
  on_select_goal-IsConsistent s g l h = ground arith

  on_run_press-IsConsistent :
      (s : PaddockState F)
      → lease_active s ≡ true
      → IsConsistent s
      → IsConsistent (on_run_press s).state
  unfolding on_run_press lease_active autonomy_permitted
  on_run_press-IsConsistent s l h = ground arith

  on_run_release-IsConsistent :
      (s : PaddockState F) → IsConsistent s → IsConsistent (on_run_release s).state
  unfolding on_run_release lease_active autonomy_permitted
  on_run_release-IsConsistent s h = ground arith

  on_stop-IsConsistent : (s : PaddockState F) → IsConsistent s → IsConsistent (on_stop s).state
  unfolding on_stop lease_active autonomy_permitted
  on_stop-IsConsistent s h = ground arith

  on_manual_active-IsConsistent :
      (s : PaddockState F)
      → lease_active s ≡ true
      → IsConsistent s
      → IsConsistent (on_manual_active s).state
  unfolding on_manual_active lease_active autonomy_permitted
  on_manual_active-IsConsistent s l h = ground arith

  on_manual_inactive-IsConsistent :
      (s : PaddockState F) → IsConsistent s → IsConsistent (on_manual_inactive s).state
  unfolding on_manual_inactive lease_active autonomy_permitted
  on_manual_inactive-IsConsistent s h = ground arith

  on_dualsense_active-IsConsistent :
      (s : PaddockState F) → IsConsistent s → IsConsistent (on_dualsense_active s).state
  unfolding on_dualsense_active lease_active autonomy_permitted
  on_dualsense_active-IsConsistent s h = ground arith

  on_restart-IsConsistent :
      (s : PaddockState F) (m : Option String)
      → IsConsistent s
      → IsConsistent (on_restart s m).state
  unfolding on_restart lease_active autonomy_permitted
  on_restart-IsConsistent s m h = ground arith

  -- The guard `if not _owns_lease(state, lease_id)`.
  guarded-IsConsistent :
      (owned : Bool) (s : PaddockState F) (t : Transition F)
      → IsConsistent s
      → (owned ≡ true → IsConsistent t.state)
      → IsConsistent (if not owned then keep s else t).state
  guarded-IsConsistent true s t h k = k refl
  guarded-IsConsistent false s t h k = h

  pub owns_lease-active :
      (s : PaddockState F) (l : String) → owns_lease s l ≡ true → lease_active s ≡ true
  unfolding owns_lease
  owns_lease-active s l h = ground arith

  owner_event-IsConsistent :
      (s : PaddockState F) (e : Event) (i : Inputs F)
      → lease_active s ≡ true
      → IsConsistent s
      → IsConsistent (owner_event s e i).state
  unfolding owner_event
  owner_event-IsConsistent s request_mode i l h =
      on_request_mode-IsConsistent s i.mode i.request_id h
  owner_event-IsConsistent s select_goal i l h = on_select_goal-IsConsistent s i.goal l h
  owner_event-IsConsistent s run_press i l h = on_run_press-IsConsistent s l h
  owner_event-IsConsistent s run_release i l h = on_run_release-IsConsistent s h
  owner_event-IsConsistent s stop i l h = on_stop-IsConsistent s h
  owner_event-IsConsistent s manual_active i l h = on_manual_active-IsConsistent s l h
  owner_event-IsConsistent s manual_inactive i l h = on_manual_inactive-IsConsistent s h
  owner_event-IsConsistent s _ i l h = h

  -- Every event, whatever its arguments, keeps the state consistent.
  pub transition-IsConsistent :
      (s : PaddockState F) (e : Event) (i : Inputs F)
      → IsConsistent s
      → IsConsistent (transition s e i).state
  unfolding transition
  transition-IsConsistent s acquire_lease i h =
      on_acquire_lease-IsConsistent s i.client_id i.lease_id h
  transition-IsConsistent s release_lease i h = on_drop_lease-IsConsistent s i.lease_id h
  transition-IsConsistent s lose_lease i h = on_drop_lease-IsConsistent s i.lease_id h
  transition-IsConsistent s dualsense_active i h = on_dualsense_active-IsConsistent s h
  transition-IsConsistent s dualsense_inactive i h = ground arith
  transition-IsConsistent s set_active_map i h =
      on_set_active_map-IsConsistent s i.active_autonomy_map h
  transition-IsConsistent s restart i h = on_restart-IsConsistent s i.active_autonomy_map h
  transition-IsConsistent s e i h =
      guarded-IsConsistent (owns_lease s i.lease_id) s (owner_event s e i) h
        (λ own. owner_event-IsConsistent s e i (owns_lease-active s i.lease_id own) h)

  -- The state after a sequence of events.
  unfoldable pub run : PaddockState F → List (Event × Inputs F) → PaddockState F
  run s [] = s
  run s ((e, i) ∷ rest) = run (transition s e i).state rest

  run_from-IsConsistent :
      (s : PaddockState F) (es : List (Event × Inputs F)) → IsConsistent s → IsConsistent (run s es)
  unfolding run
  run_from-IsConsistent s [] h = h
  run_from-IsConsistent s ((e, i) ∷ rest) h =
      run_from-IsConsistent (transition s e i).state rest (transition-IsConsistent s e i h)

  -- After any events from the start of the process, whatever their arguments, the state is
  -- consistent: navigation runs exactly while autonomy is permitted, RUN and manual control are held
  -- under a lease only, the pad excludes manual control and blocks a held RUN, and a goal belongs to
  -- AUTONOMY, to the lease and to the active map.
  pub run-IsConsistent :
      (m : String) (es : List (Event × Inputs F)) → IsConsistent (run (initial m) es)
  run-IsConsistent m es = run_from-IsConsistent (initial m) es (IsConsistent-initial m)
