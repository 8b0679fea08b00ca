-- ===== src/ModeRuntime/Reconciled.antt =====
-- What `reconcile` of src/runner_paddock/runner_paddock/mode_runtime.py ends in.
use ros_pre_runner.Prelude.{
  ℕ, ◌+◌, ◌≤◌, ◌≡◌, refl, ◌⊎◌, inl, inr, String, str_eq, Bool, true, false, List, [], ◌∷◌, leb,
  if◌then◌else◌, arith, if_both,
}
use ros_pre_runner.StateMachine.{Mode, idle, mapping, autonomy, mode_eq}
use ros_pre_runner.ModeRuntime.State.{mapping_unit, unit_name, stable, RuntimeState}
use ros_pre_runner.ModeRuntime.View.{Outcome, ok, raised, resources_gone}
use ros_pre_runner.ModeRuntime.Run.{Runtime, M, attempt, set_state, get_state, ◌>>◌}
use ros_pre_runner.ModeRuntime.Triple.{
  Post, Triple, attempt-Triple, bind-Triple, then-Triple, try-Triple,
}
use ros_pre_runner.ModeRuntime.Loop.{wait_until-Triple}
use ros_pre_runner.ModeRuntime.Wait.{unlogged, silently}
use ros_pre_runner.ModeRuntime.Reconcile.{
  Survey, reject, chosen_map, new_session_id, adopt, ready_check, discover, reject_partial, resume,
  reconcile_named, reconcile, active_units, ambiguous_units,
}
use ros_pre_runner.ModeRuntime.Order.{IsOrdered}
use ros_pre_runner.ModeRuntime.Steps.{At, core, Reaches, return-Reaches, from-Reaches}
use ros_pre_runner.ModeRuntime.Stops.{lose}
use ros_pre_runner.ModeRuntime.Settle.{
  IsSettled, IsAnswer, Never, request_kept, epoch_kept, set_stopped-IsAnswer, fail-IsAnswer,
  raise_if-Reaches,
}

-- The outcome `t` of a reconciliation that began in `s`.
abbrev pub IsReconciled : RuntimeState → RuntimeState → Runtime → Type 0
IsReconciled s t r =
    IsOrdered r.actions
    × (t ≡ r.state)
    × IsSettled t
    × (t.accepted_request_id ≡ s.accepted_request_id)
    × (s.runtime_epoch ≤ t.runtime_epoch)

adopted :
    (w : Survey) (m : Mode) (epoch : ℕ)
    → mode_eq m idle ≡ false
    → ((m ≡ mapping) ⊎ ((m ≡ autonomy) × (new_session_id w m epoch ≡ "")))
adopted w idle epoch h = absurd (cc)
adopted w mapping epoch h = inl refl
adopted w autonomy epoch h = inr (refl, refl)

at_least_one : (m n : ℕ) → n ≡ m → m ≤ (if leb n 1 then 1 else n)
at_least_one m n e = ground arith

module _ (s : RuntimeState) where
  weakened :
      (E H : String → Runtime → Type 0) (g : ℕ) (m : M RuntimeState)
      → ((e : String) (r : Runtime) → E e r → H e r)
      → Triple (At s g) m (IsAnswer s) E
      → Triple (At s g) m (IsReconciled s) H
  unfolding Triple
  weakened E H g m w t r p = weaken (m r) (t r p)
    where
      grown :
          (a : RuntimeState)
          → ((a.runtime_epoch ≡ s.runtime_epoch)
              ⊎ ((a.lifecycle ≡ stable) × (a.runtime_epoch ≡ s.runtime_epoch + 1)))
          → s.runtime_epoch ≤ a.runtime_epoch
      grown a (inl e) = omega arith
      grown a (inr (_, e)) = omega arith

      weaken :
          (o : Outcome RuntimeState × Runtime) → Post (IsAnswer s) E o → Post (IsReconciled s) H o
      weaken (ok a, r') (q, e, b, c, d) = (q, e, b, c, grown a d)
      weaken (raised e, r') q = w e r' q

  reject-IsReconciled :
      (H : String → Runtime → Type 0) (g : ℕ) (w : Survey) (detail : String)
      → Triple (At s g) (reject w detail) (IsReconciled s) H
  unfolding reject
  reject-IsReconciled H g w detail =
      weakened Never H g _ (λ e r q. absurd q) (fail-IsAnswer s g w.failing detail)

  chosen_map-Reaches : (w : Survey) (m : Mode) (t : RuntimeState) → Reaches s 0 0 (chosen_map w m t)
  chosen_map-Reaches w idle t = return-Reaches s 0 _
  chosen_map-Reaches w mapping t = return-Reaches s 0 _
  chosen_map-Reaches w autonomy t =
      bind-Triple _ (λ _. At s 0) _ _ _ _ (from-Reaches s 0 w.stored_map)
        (λ selected.
          then-Triple _ (λ _. At s 0) _ _ _ _ (raise_if-Reaches s 0 w.map_error)
            (λ _. return-Reaches s 0 selected))

  get_state-Reaches : Reaches s 0 0 get_state
  unfolding Triple
  get_state-Reaches r p = p

  publish-IsReconciled :
      (f : RuntimeState → RuntimeState)
      → ((r : Runtime)
          → core r.state ≡ core s
          → IsSettled (f r.state)
            × ((f r.state).accepted_request_id ≡ s.accepted_request_id)
            × (s.runtime_epoch ≤ (f r.state).runtime_epoch))
      → Triple (At s 0) (set_state f >> get_state) (IsReconciled s) (λ _. At s 0)
  unfolding Triple ◌>>◌
  publish-IsReconciled f h r (q, _, c) = let (a, b, d) = h r c in (q, refl, a, b, d)

  adopt-IsReconciled :
      (w : Survey) (mode : Mode)
      → mode_eq mode idle ≡ false
      → Triple (At s 0) (adopt w mode) (IsReconciled s) (λ _. At s 0)
  unfolding adopt
  adopt-IsReconciled w mode h =
      bind-Triple _ (λ _. At s 0) _ _ _ _ get_state-Reaches
        (λ t.
          bind-Triple _ (λ _. At s 0) _ _ _ _ (chosen_map-Reaches w mode t)
            (λ selected.
              bind-Triple _ (λ _. At s 0) _ _ _ _ (from-Reaches s 0 _)
                (λ p. publish-IsReconciled _ (λ r c. (
                  inl (refl, inr (adopted w mode _ h)),
                  request_kept s r c,
                  at_least_one _ _ (epoch_kept s r c),
                )))))

  discover-Reaches : (w : Survey) (mode : Mode) → Reaches s 0 0 (discover w mode)
  discover-Reaches w mode =
      wait_until-Triple (At s 0) (At s 0) (λ _. At s 0) (λ _. At s 0) unlogged (ready_check mode)
        silently _ (λ _. return-Reaches s 0 tt) (λ v reason r _ p. p) (λ v r p. p)
        (λ last reason. return-Reaches s 0 last) (lose s 0) "" w.discovery

  resume-IsReconciled :
      (w : Survey) (mode : Mode)
      → mode_eq mode idle ≡ false
      → Triple (At s 0) (resume w mode) (IsReconciled s) (λ _. At s 0)
  unfolding resume
  resume-IsReconciled w mode h = bind-Triple _ (λ _. At s 0) _ _ _ _ (from-Reaches s 0 _) branch
    where
      branch :
          (b : Bool)
          → Triple
              (At s 0)
              (elim b [
                | true ↦ adopt w mode
                | false ↦ attempt (discover w mode) (λ _. adopt w mode) (λ _. reject_partial w mode)
              ])
              (IsReconciled s)
              (λ _. At s 0)
      branch true = adopt-IsReconciled w mode h
      branch false =
          attempt-Triple _ (λ _. At s 0) _ _ _ _ (λ _. At s 0) _ (discover-Reaches w mode)
            (λ _. adopt-IsReconciled w mode h)
            (λ _.
              bind-Triple _ (λ _. At s 0) _ _ _ _ (from-Reaches s 0 _)
                (λ reason. reject-IsReconciled (λ _. At s 0) 0 w _))

  not_idle : (b : Bool) → mode_eq (if b then mapping else autonomy) idle ≡ false
  not_idle true = refl
  not_idle false = refl

  reconcile_named-IsReconciled :
      (w : Survey) (ambiguous active : List String)
      → Triple (At s 0) (reconcile_named w ambiguous active) (IsReconciled s) (λ _. At s 0)
  unfolding reconcile_named
  reconcile_named-IsReconciled w [] [] =
      if_both (λ m. Triple (At s 0) m (IsReconciled s) (λ _. At s 0)) (resources_gone w.found)
        (λ _.
          weakened (λ _. At s 0) (λ _. At s 0) 0 _ (λ e r q. q)
            (set_stopped-IsAnswer s 0 (λ _. At s 0)))
        (λ _. reject-IsReconciled (λ _. At s 0) 0 w _)
  reconcile_named-IsReconciled w [] (unit ∷ []) =
      resume-IsReconciled w _ (not_idle (str_eq unit (unit_name mapping_unit)))
  reconcile_named-IsReconciled w [] (unit ∷ other ∷ rest) = reject-IsReconciled (λ _. At s 0) 0 w _
  reconcile_named-IsReconciled w (unit ∷ rest) active = reject-IsReconciled (λ _. At s 0) 0 w _

  pub reconcile-IsReconciled : (w : Survey) → Triple (At s 0) (reconcile w) (IsReconciled s) Never
  unfolding reconcile
  reconcile-IsReconciled w =
      try-Triple _ _ _ (λ _. At s 0) _ _
        (bind-Triple _ (λ _. At s 0) _ _ _ _ (from-Reaches s 0 _)
          (λ m.
            bind-Triple _ (λ _. At s 0) _ _ _ _ (from-Reaches s 0 _)
              (λ a. reconcile_named-IsReconciled w (ambiguous_units m a) (active_units m a))))
        (λ e. reject-IsReconciled Never 0 w _)
