-- ===== src/ModeRuntime/Settle.antt =====
-- What a restart of src/runner_paddock/runner_paddock/mode_runtime.py ends in.
use ros_pre_runner.Prelude.{
  ℕ, ◌+◌, ◌≡◌, refl, ap, ◌⊎◌, inl, inr, String, true, false, Option, none, some, arith,
}
use ros_pre_runner.StateMachine.{Mode, idle, mapping, autonomy, mode_eq}
use ros_pre_runner.ModeRuntime.State.{ModeUnit, stable, fault, unit_of, RuntimeState}
use ros_pre_runner.ModeRuntime.Run.{
  start_unit, map_written, Runtime, return, set_state, perform, get_state, ◌>>◌,
}
use ros_pre_runner.ModeRuntime.Triple.{Triple, bind-Triple, then-Triple, try-Triple}
use ros_pre_runner.ModeRuntime.Wait.{raise_if, Stopping, fail}
use ros_pre_runner.ModeRuntime.Change.{
  Surroundings, prepare, session_of, finish_transition, start_requested, set_stopped, after_stop,
  restart_as,
}
use ros_pre_runner.ModeRuntime.Order.{advance, stage, IsOrdered}
use ros_pre_runner.ModeRuntime.Steps.{
  At, Reaches, return-Reaches, from-Reaches, progress-Reaches, core,
}
use ros_pre_runner.ModeRuntime.Stops.{lose, stop_all-Reaches, wait_for_readiness-Reaches}

-- Between two operations, a stable runtime is idle and ready, or maps, or drives by itself; and a
-- faulty one is idle and not ready. Only MAPPING has a session.
abbrev pub IsRunning : RuntimeState → Type 0
IsRunning s =
    ((s.mode ≡ idle) × (s.ready ≡ true) × (s.mapping_session_id ≡ ""))
    ⊎ ((s.mode ≡ mapping) ⊎ ((s.mode ≡ autonomy) × (s.mapping_session_id ≡ "")))

abbrev pub IsSettled : RuntimeState → Type 0
IsSettled s =
    ((s.lifecycle ≡ stable) × IsRunning s)
    ⊎ ((s.lifecycle ≡ fault) × (s.mode ≡ idle) × (s.ready ≡ false) × (s.mapping_session_id ≡ ""))

-- The answer `t` to a request that was accepted in the snapshot `s`.
abbrev pub IsAnswer : RuntimeState → RuntimeState → Runtime → Type 0
IsAnswer s t r =
    IsOrdered r.actions
    × (t ≡ r.state)
    × IsSettled t
    × (t.accepted_request_id ≡ s.accepted_request_id)
    × ((t.runtime_epoch ≡ s.runtime_epoch)
        ⊎ ((t.lifecycle ≡ stable) × (t.runtime_epoch ≡ s.runtime_epoch + 1)))

abbrev pub Never : String → Runtime → Type 0
Never e r = ⊥

running :
    (w : Surroundings) (m : Mode) (epoch : ℕ)
    → mode_eq m idle ≡ false
    → ((m ≡ mapping) ⊎ ((m ≡ autonomy) × (session_of w m epoch ≡ "")))
running w idle epoch h = absurd (cc)
running w mapping epoch h = inl refl
running w autonomy epoch h = inr (refl, refl)

module _ (s : RuntimeState) where
  pub request_kept :
      (r : Runtime) → core r.state ≡ core s → r.state.accepted_request_id ≡ s.accepted_request_id
  request_kept r c = ap (λ t. t.accepted_request_id) c

  pub epoch_kept : (r : Runtime) → core r.state ≡ core s → r.state.runtime_epoch ≡ s.runtime_epoch
  epoch_kept r c = ap (λ t. t.runtime_epoch) c

  -- A published snapshot is the answer when it is a settled one.
  pub publish-IsAnswer :
      (g : ℕ) (f : RuntimeState → RuntimeState)
      → ((r : Runtime)
          → core r.state ≡ core s
          → IsSettled (f r.state)
            × ((f r.state).accepted_request_id ≡ s.accepted_request_id)
            × (((f r.state).runtime_epoch ≡ s.runtime_epoch)
                ⊎ (((f r.state).lifecycle ≡ stable)
                    × ((f r.state).runtime_epoch ≡ s.runtime_epoch + 1))))
      → (E : String → Runtime → Type 0) → Triple (At s g) (set_state f >> get_state) (IsAnswer s) E
  unfolding Triple ◌>>◌
  publish-IsAnswer g f h E r (q, _, c) = let (a, b, d) = h r c in (q, refl, a, b, d)

  pub set_stopped-IsAnswer :
      (g : ℕ) (E : String → Runtime → Type 0) → Triple (At s g) set_stopped (IsAnswer s) E
  set_stopped-IsAnswer g E =
      publish-IsAnswer g _
        (λ r c. (inl (refl, inl (refl, refl, refl)), request_kept r c, inl (epoch_kept r c))) E

  return-At :
      (h : ℕ) (text : String) (E : String → Runtime → Type 0)
      → Triple (At s h) (return text) (λ _. At s 0) E
  unfolding Triple
  return-At h text E r p = lose s h "" r p

  pub raise_if-Reaches : (g : ℕ) (o : Option String) → Reaches s g g (raise_if o)
  raise_if-Reaches g none = return-Reaches s g tt
  raise_if-Reaches g (some e) = from-Reaches s g _

  written-Reaches : (g : ℕ) (map : String) → Reaches s g g (perform (map_written map))
  unfolding Triple stage advance
  written-Reaches g map r p = p

  pub fail-IsAnswer :
      (g : ℕ) (w : Stopping) (detail : String) → Triple (At s g) (fail w detail) (IsAnswer s) Never
  unfolding fail
  fail-IsAnswer g w detail =
      bind-Triple _ (λ _. At s 0) _ _ _ _
        (try-Triple _ (λ _. At s 0) _ (λ _. At s 0) _ _
          (then-Triple _ (λ _. At s 4) _ _ _ _ (stop_all-Reaches s g false w)
            (λ _. return-At 4 "" (λ _. At s 0)))
          (λ e. return-At 0 _ Never))
        (λ cleanup.
          publish-IsAnswer 0 _
            (λ r c. (inr (refl, refl, refl, refl), request_kept r c, inl (epoch_kept r c))) Never)

  prepare-Reaches :
      (g : ℕ) (w : Surroundings) (requested : Mode) (map : String)
      → Reaches s g g (prepare w requested map)
  prepare-Reaches g w idle map = return-Reaches s g tt
  prepare-Reaches g w mapping map = return-Reaches s g tt
  prepare-Reaches g w autonomy map =
      then-Triple _ (λ _. At s g) _ _ _ _ (progress-Reaches s g _)
        (λ _.
          then-Triple _ (λ _. At s g) _ _ _ _ (raise_if-Reaches g w.map_error)
            (λ _.
              then-Triple _ (λ _. At s g) _ _ _ _ (raise_if-Reaches g w.write_error)
                (λ _. written-Reaches g map)))

  -- The one start of a unit, at stage 4.
  start-Reaches : (u : ModeUnit) → Reaches s 4 0 (perform (start_unit u))
  unfolding Triple stage advance
  start-Reaches u r (q, l, c) = ((l, q), omega arith, c)

  finish_transition-IsAnswer :
      (w : Surroundings) (requested : Mode) (map : String)
      → mode_eq requested idle ≡ false
      → Triple (At s 0) (finish_transition w requested map) (IsAnswer s) (λ _. At s 0)
  unfolding finish_transition
  finish_transition-IsAnswer w requested map h =
      bind-Triple _ (λ _. At s 0) _ _ _ _ (from-Reaches s 0 _)
        (λ p.
          publish-IsAnswer 0 _
            (λ r c. (
              inl (refl, inr (running w requested _ h)),
              request_kept r c,
              inr (refl, ap (λ n. n + 1) (epoch_kept r c)),
            ))
            (λ _. At s 0))

  start_requested-IsAnswer :
      (w : Surroundings) (requested : Mode) (map : String)
      → mode_eq requested idle ≡ false
      → Triple (At s 4) (start_requested w requested map) (IsAnswer s) (λ _. At s 0)
  unfolding start_requested
  start_requested-IsAnswer w requested map h =
      then-Triple _ (λ _. At s 4) _ _ _ _ (prepare-Reaches 4 w requested map)
        (λ _.
          then-Triple _ (λ _. At s 4) _ _ _ _ (progress-Reaches s 4 _)
            (λ _.
              then-Triple _ (λ _. At s 0) _ _ _ _ (start-Reaches (unit_of requested))
                (λ _.
                  then-Triple _ (λ _. At s 0) _ _ _ _ (raise_if-Reaches 0 w.start_error)
                    (λ _.
                      then-Triple _ (λ _. At s 0) _ _ _ _ (progress-Reaches s 0 _)
                        (λ _.
                          then-Triple _ (λ _. At s 0) _ _ _ _
                            (wait_for_readiness-Reaches s 0 requested w.readiness)
                            (λ _. finish_transition-IsAnswer w requested map h))))))

  after_stop-IsAnswer :
      (w : Surroundings) (requested : Mode) (map : String)
      → Triple (At s 4) (after_stop w requested map) (IsAnswer s) (λ _. At s 0)
  after_stop-IsAnswer w idle map = set_stopped-IsAnswer 4 (λ _. At s 0)
  after_stop-IsAnswer w mapping map = start_requested-IsAnswer w mapping map refl
  after_stop-IsAnswer w autonomy map = start_requested-IsAnswer w autonomy map refl

  -- A restart always answers: whatever is raised inside it ends in a fault.
  pub restart_as-IsAnswer :
      (w : Surroundings) (requested : Mode) (map : String)
      → Triple (At s 0) (restart_as w requested map) (IsAnswer s) Never
  unfolding restart_as
  restart_as-IsAnswer w requested map =
      try-Triple _ _ _ (λ _. At s 0) _ _
        (then-Triple _ (λ _. At s 4) _ _ _ _ (stop_all-Reaches s 0 true w.stopping)
          (λ _. after_stop-IsAnswer w requested map))
        (λ e. fail-IsAnswer 0 w.failing _)
