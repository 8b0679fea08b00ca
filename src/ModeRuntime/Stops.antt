-- ===== src/ModeRuntime/Stops.antt =====
-- `_stop_all` and the loops of src/runner_paddock/runner_paddock/mode_runtime.py, by the stage they reach.
use ros_pre_runner.Prelude.{
  if◌then◌else◌, ℕ, ◌≤◌, ◌≡◌, refl, String, Bool, true, false, ◌&&◌, List, [], ◌∷◌, arith,
}
use ros_pre_runner.StateMachine.{Mode}
use ros_pre_runner.ModeRuntime.State.{mapping_unit, autonomy_unit, RuntimeState}
use ros_pre_runner.ModeRuntime.View.{Outcome, ok, View, resources_gone}
use ros_pre_runner.ModeRuntime.Run.{stop_unit, saw_units, saw_graph, Runtime, perform}
use ros_pre_runner.ModeRuntime.Triple.{Triple, then-Triple}
use ros_pre_runner.ModeRuntime.Loop.{wait_until-Triple}
use ros_pre_runner.ModeRuntime.Wait.{
  note_reason, silently, unlogged, wait_until, raise_all, gone_check, wait_for_unit_cleanup,
  wait_for_resources, wait_for_readiness, wait_for_quiescence, report, stop_errors, Stopping,
  stop_all,
}
use ros_pre_runner.ModeRuntime.Order.{advance, stage, seen_clean}
use ros_pre_runner.ModeRuntime.Clean.{unit_cleanup_status-clean}
use ros_pre_runner.ModeRuntime.Steps.{
  At, Reaches, return-Reaches, from-Reaches, progress-Reaches, note_reason-Reaches,
}

module _ (s : RuntimeState) where
  pub lose : (g : ℕ) (e : String) (r : Runtime) → At s g r → At s 0 r
  lose g e r (q, _, c) = (q, omega arith, c)

  -- A loop that leaves no trace keeps what holds.
  unlogged-Reaches :
      (g : ℕ) (check : View → Outcome (Bool × String)) (text expired : String → String)
      (last : String) (vs : List View)
      → Reaches s g g (wait_until unlogged check (note_reason text) expired last vs)
  unlogged-Reaches g check text expired =
      wait_until-Triple (At s g) (At s g) (λ _. At s 0) (λ _. At s g) unlogged check
        (note_reason text) expired (λ _. return-Reaches s g tt) (λ v reason r _ p. p) (λ v r p. p)
        (note_reason-Reaches s g text) (lose g)

  pub wait_for_readiness-Reaches :
      (g : ℕ) (mode : Mode) (vs : List View) → Reaches s g g (wait_for_readiness mode vs)
  unfolding wait_for_readiness
  wait_for_readiness-Reaches g mode vs = unlogged-Reaches g _ _ _ "" vs

  pub wait_for_quiescence-Reaches :
      (g : ℕ) (vs : List View) → Reaches s g g (wait_for_quiescence vs)
  unfolding wait_for_quiescence
  wait_for_quiescence-Reaches g vs = unlogged-Reaches g _ _ _ "" vs

  -- After a look at the units: at stage 3 if both are clean.
  abbrev Looked : View → Runtime → Type 0
  Looked v r =
      At s 2 r
      × ((seen_clean v mapping_unit && seen_clean v autonomy_unit) ≡ true → 3 ≤ stage r.actions)

  look-Looked : (v : View) → Triple (At s 2) (perform (saw_units v)) (λ _. Looked v) (λ _. At s 0)
  unfolding Triple stage advance
  look-Looked v r (q, l, c) = ((q, ground arith, c), λ h. ground arith)

  reported-Reaches :
      (g : ℕ) (b : Bool) (text : String → String) (last reason : String)
      → Reaches s g g ((if b then note_reason text else silently) last reason)
  reported-Reaches g true text last reason = note_reason-Reaches s g text last reason
  reported-Reaches g false text last reason = return-Reaches s g last

  pub wait_for_unit_cleanup-Reaches :
      (b : Bool) (vs : List View) → Reaches s 2 3 (wait_for_unit_cleanup b vs)
  unfolding wait_for_unit_cleanup
  wait_for_unit_cleanup-Reaches b vs =
      wait_until-Triple (At s 2) (At s 3) (λ _. At s 0) Looked _ _ _ _ look-Looked
        (λ v reason r e p. (p.0.0, p.1 (unit_cleanup_status-clean v reason e), p.0.2))
        (λ v r p. p.0) (reported-Reaches 2 b _) (lose 2) "" vs

  -- After a look at the graph: at stage 4 if the nodes are gone.
  abbrev Checked : View → Runtime → Type 0
  Checked v r = At s 3 r × (resources_gone v ≡ true → 4 ≤ stage r.actions)

  check-Checked :
      (v : View) → Triple (At s 3) (perform (saw_graph v)) (λ _. Checked v) (λ _. At s 0)
  unfolding Triple stage advance
  check-Checked v r (q, l, c) = ((q, ground arith, c), λ h. ground arith)

  pub wait_for_resources-Reaches : (vs : List View) → Reaches s 3 4 (wait_for_resources vs)
  unfolding wait_for_resources
  wait_for_resources-Reaches vs =
      wait_until-Triple (At s 3) (At s 4) (λ _. At s 0) Checked _ gone_check _ _ check-Checked
        (λ v reason r e p. (p.0.0, p.1 (ap_gone v reason e), p.0.2)) (λ v r p. p.0)
        (λ last reason. return-Reaches s 3 last) (lose 3) "" vs
    where
      ap_gone :
          (v : View) (reason : String) → gone_check v ≡ ok (true, reason) → resources_gone v ≡ true
      ap_gone v reason e = cc

  report-Reaches : (g : ℕ) (b : Bool) (text : String) → Reaches s g g (report b text)
  report-Reaches g true text = progress-Reaches s g text
  report-Reaches g false text = return-Reaches s g tt

  request-Reaches :
      (g : ℕ)
      → Triple
          (At s g)
          (perform (stop_unit mapping_unit))
          (λ _ r. At s 1 r × (stage r.actions ≡ 1))
          (λ _. At s 0)
  unfolding Triple stage advance
  request-Reaches g r (q, l, c) = ((q, omega arith, c), refl)

  request_both-Reaches :
      Triple
        (λ r. At s 1 r × (stage r.actions ≡ 1))
        (perform (stop_unit autonomy_unit))
        (λ _. At s 2)
        (λ _. At s 0)
  unfolding Triple stage advance
  request_both-Reaches r ((q, l, c), e) = (q, ground arith, c)

  raise_all-Reaches : (g : ℕ) (es : List String) → Reaches s g g (raise_all es)
  raise_all-Reaches g [] = return-Reaches s g tt
  raise_all-Reaches g (e ∷ es) = from-Reaches s g _

  pub stop_all-Reaches : (g : ℕ) (b : Bool) (w : Stopping) → Reaches s g 4 (stop_all b w)
  unfolding stop_all
  stop_all-Reaches g b w =
      then-Triple _ (λ _. At s g) _ _ _ _ (report-Reaches g b _)
        (λ _.
          then-Triple _ (λ _ r. At s 1 r × (stage r.actions ≡ 1)) _ _ _ _ (request-Reaches g)
            (λ _.
              then-Triple _ (λ _. At s 2) _ _ _ _ request_both-Reaches
                (λ _.
                  then-Triple _ (λ _. At s 2) _ _ _ _ (raise_all-Reaches 2 (stop_errors w))
                    (λ _.
                      then-Triple _ (λ _. At s 3) _ _ _ _
                        (wait_for_unit_cleanup-Reaches b w.cleanup)
                        (λ _.
                          then-Triple _ (λ _. At s 3) _ _ _ _ (report-Reaches 3 b _)
                            (λ _. wait_for_resources-Reaches w.gone))))))
