-- ===== src/StateMachine/Events.antt =====
-- `transition` of src/runner_paddock/runner_paddock/state_machine.py, with one function for each
-- event. Keyword arguments are the record `Inputs`; `replace` is a record update.
use ros_pre_runner.Prelude.{
  ℕ, ◌+◌, String, Bool, true, false, not, ◌&&◌, ◌||◌, Option, none, some, List, [], ◌∷◌, ◌++◌,
  str_eq, leb, if◌then◌else◌,
}
use ros_pre_runner.StateMachine.State.{
  Mode, mapping, autonomy, Event, acquire_lease, release_lease, lose_lease, request_mode,
  select_goal, run_press, run_release, stop, manual_active, manual_inactive, dualsense_active,
  dualsense_inactive, set_active_map, restart, Effect, brake, cancel_navigation, dispatch_goal,
  lease_granted, lease_rejected, GoalIntent, PaddockState, initial, mode_eq, is_paddock, nonempty,
  lease_active, autonomy_permitted, authority,
}

-- The keyword arguments; `mode` is `none` where the source's is no `Mode`.
pub record Inputs (F : Type 0) : Type 0 where
  pub client_id : String
  pub lease_id : String
  pub mode : Option Mode
  pub request_id : ℕ
  pub goal : Option (GoalIntent F)
  pub active_autonomy_map : Option String

abbrev pub no_inputs : {F : Type 0} → Inputs F
no_inputs = record {
  client_id = "";
  lease_id = "";
  mode = none;
  request_id = 0;
  goal = none;
  active_autonomy_map = none;
}

pub record Transition (F : Type 0) : Type 0 where
  pub state : PaddockState F
  pub effects : List Effect

module _ {F : Type 0} where
  -- `Transition(state)`
  abbrev pub keep : PaddockState F → Transition F
  keep s = record { state = s; effects = [] }

  unfoldable pub owns_lease : PaddockState F → String → Bool
  unfolding lease_active
  owns_lease s l = lease_active s && str_eq l s.lease_id

  unfoldable pub stop_effects : PaddockState F → List Effect
  stop_effects s = if s.navigation_active then brake ∷ cancel_navigation ∷ [] else brake ∷ []

  unfoldable pub on_restart : PaddockState F → Option String → Transition F
  on_restart s none = keep (initial s.active_autonomy_map)
  on_restart s (some m) = keep (initial m)

  unfoldable pub on_set_active_map : PaddockState F → Option String → Transition F
  unfolding stop_effects
  on_set_active_map s none = keep s
  on_set_active_map s (some m) =
      if str_eq m s.active_autonomy_map
      then keep (record s { active_autonomy_map = m })
      else record {
        state = record s {
          active_autonomy_map = m;
          run_held = false;
          run_blocked_until_release = false;
          is_manual_active = false;
          goal = none;
          navigation_active = false;
        };
        effects = stop_effects s;
      }

  unfoldable pub on_acquire_lease : PaddockState F → String → String → Transition F
  unfolding lease_active
  on_acquire_lease s client l =
      if lease_active s || (not (nonempty client) || not (nonempty l))
      then record { state = s; effects = lease_rejected ∷ [] }
      else record {
        state = record s {
          lease_client_id = client;
          lease_id = l;
          lease_generation = s.lease_generation + 1;
          accepted_mode_request_id = 0;
        };
        effects = lease_granted ∷ [];
      }

  -- RELEASE_LEASE and LOSE_LEASE
  unfoldable pub on_drop_lease : PaddockState F → String → Transition F
  unfolding owns_lease stop_effects
  on_drop_lease s l = if not (owns_lease s l) then keep s else record {
    state = record s {
      lease_client_id = "";
      lease_id = "";
      lease_generation = s.lease_generation + 1;
      run_held = false;
      run_blocked_until_release = false;
      is_manual_active = false;
      goal = none;
      navigation_active = false;
    };
    effects = stop_effects s;
  }

  unfoldable pub on_dualsense_active : PaddockState F → Transition F
  unfolding authority stop_effects
  on_dualsense_active s = if s.is_dualsense_active then keep s else record {
    state = record s {
      is_dualsense_active = true;
      run_blocked_until_release = s.run_held;
      is_manual_active = false;
      navigation_active = false;
    };
    effects = if is_paddock (authority s) then stop_effects s else [];
  }

  unfoldable pub on_request_mode : PaddockState F → Option Mode → ℕ → Transition F
  unfolding stop_effects
  on_request_mode s none r = keep s
  on_request_mode s (some m) r =
      if leb r s.accepted_mode_request_id
      then keep s
      else if mode_eq m s.mode
      then keep (record s { accepted_mode_request_id = r })
      else record {
        state = record s {
          mode = m;
          accepted_mode_request_id = r;
          run_held = false;
          run_blocked_until_release = false;
          is_manual_active = false;
          goal = none;
          navigation_active = false;
        };
        effects = stop_effects s;
      }

  -- `(BRAKE, CANCEL_NAVIGATION)` if a navigation is active, else `()`
  cancel_effects : PaddockState F → List Effect
  cancel_effects s = if s.navigation_active then brake ∷ cancel_navigation ∷ [] else []

  dispatch_if_permitted : PaddockState F → List Effect → Transition F
  unfolding autonomy_permitted
  dispatch_if_permitted s effects =
      if autonomy_permitted s
      then record {
        state = record s { navigation_active = true };
        effects = effects ++ dispatch_goal ∷ [];
      }
      else record { state = s; effects = effects }

  unfoldable pub on_select_goal : PaddockState F → Option (GoalIntent F) → Transition F
  unfolding cancel_effects dispatch_if_permitted
  on_select_goal s none = keep s
  on_select_goal s (some g) =
      if not (mode_eq s.mode autonomy)
        || (not (nonempty s.active_autonomy_map) || not (str_eq g.map_name s.active_autonomy_map))
      then keep s
      else dispatch_if_permitted (record s { goal = some g; navigation_active = false })
          (cancel_effects s)

  unfoldable pub on_run_press : PaddockState F → Transition F
  unfolding dispatch_if_permitted
  on_run_press s =
      if s.run_held
      then keep s
      else dispatch_if_permitted
          (record s { run_held = true; run_blocked_until_release = s.is_dualsense_active }) []

  unfoldable pub on_run_release : PaddockState F → Transition F
  unfolding stop_effects
  on_run_release s = if not s.run_held && not s.run_blocked_until_release then keep s else record {
    state = record s {
      run_held = false;
      run_blocked_until_release = false;
      navigation_active = false;
    };
    effects = stop_effects s;
  }

  unfoldable pub on_stop : PaddockState F → Transition F
  unfolding stop_effects
  on_stop s = record {
    state = record s {
      run_held = false;
      run_blocked_until_release = false;
      is_manual_active = false;
      navigation_active = false;
    };
    effects = stop_effects s;
  }

  unfoldable pub on_manual_active : PaddockState F → Transition F
  unfolding cancel_effects
  on_manual_active s =
      if not (mode_eq s.mode mapping || mode_eq s.mode autonomy) || s.is_dualsense_active
      then keep s
      else record {
        state = record s {
          is_manual_active = true;
          run_held = false;
          run_blocked_until_release = false;
          navigation_active = false;
        };
        effects = cancel_effects s;
      }

  unfoldable pub on_manual_inactive : PaddockState F → Transition F
  on_manual_inactive s =
      if not s.is_manual_active
      then keep s
      else record { state = record s { is_manual_active = false }; effects = brake ∷ [] }

  -- The events behind the guard `if not _owns_lease(state, lease_id)`.
  unfoldable pub owner_event : PaddockState F → Event → Inputs F → Transition F
  unfolding on_request_mode on_select_goal on_run_press on_run_release on_stop on_manual_active
      on_manual_inactive
  owner_event s request_mode i = on_request_mode s i.mode i.request_id
  owner_event s select_goal i = on_select_goal s i.goal
  owner_event s run_press i = on_run_press s
  owner_event s run_release i = on_run_release s
  owner_event s stop i = on_stop s
  owner_event s manual_active i = on_manual_active s
  owner_event s manual_inactive i = on_manual_inactive s
  owner_event s _ i = keep s

  unfoldable pub transition : PaddockState F → Event → Inputs F → Transition F
  unfolding on_restart on_set_active_map on_acquire_lease on_drop_lease on_dualsense_active
      owns_lease owner_event
  transition s restart i = on_restart s i.active_autonomy_map
  transition s set_active_map i = on_set_active_map s i.active_autonomy_map
  transition s acquire_lease i = on_acquire_lease s i.client_id i.lease_id
  transition s release_lease i = on_drop_lease s i.lease_id
  transition s lose_lease i = on_drop_lease s i.lease_id
  transition s dualsense_active i = on_dualsense_active s
  transition s dualsense_inactive i = keep (record s { is_dualsense_active = false })
  transition s e i = if not (owns_lease s i.lease_id) then keep s else owner_event s e i
