-- ===== src/ModeRuntime/Answer.antt =====
-- What a request to src/runner_paddock/runner_paddock/mode_runtime.py is answered with, branch by branch.
use ros_pre_runner.Prelude.{ℕ, ◌≡◌, refl, ap, inl, inr, String, Bool, false, arith}
use ros_pre_runner.StateMachine.{mapping}
use ros_pre_runner.ModeRuntime.State.{transitioning, RuntimeState}
use ros_pre_runner.ModeRuntime.View.{Outcome, ok, raised, fully_ready}
use ros_pre_runner.ModeRuntime.Run.{Runtime, M, from}
use ros_pre_runner.ModeRuntime.Triple.{Post, Triple, attempt-Triple, bind-Triple}
use ros_pre_runner.ModeRuntime.Change.{Surroundings, begin_transition, reject_new_map, renew_map}
use ros_pre_runner.ModeRuntime.Order.{IsOrdered}
use ros_pre_runner.ModeRuntime.Steps.{At, core}
use ros_pre_runner.ModeRuntime.Stops.{wait_for_quiescence-Reaches}
use ros_pre_runner.ModeRuntime.Settle.{
  IsAnswer, Never, publish-IsAnswer, request_kept, restart_as-IsAnswer,
}

-- The snapshot that a new request begins with, but for its texts.
abbrev pub begun : RuntimeState → ℕ → RuntimeState
begun s request_id = record s {
  lifecycle = transitioning;
  accepted_request_id = request_id;
  ready = false;
  mapping_session_id = "";
}

abbrev pub Begins : RuntimeState → Runtime → Type 0
Begins s r = IsOrdered r.actions × (r.state ≡ s)

-- The one way in which a transition raises: the look after a refused NEW MAP does.
abbrev pub Escapes : Surroundings → RuntimeState → String → Runtime → Type 0
Escapes w s e r =
    IsOrdered r.actions × (core r.state ≡ core s) × (fully_ready w.rejected mapping ≡ raised e)

pub begin_transition-At :
    (s : RuntimeState) (request_id : ℕ) (detail : String) (E : String → Runtime → Type 0)
    → Triple (Begins s) (begin_transition request_id detail) (λ _. At (begun s request_id) 0) E
unfolding Triple
begin_transition-At s request_id detail E r (q, e) =
    (q, omega arith, ap (λ t. core (begun t request_id)) e)

raised-Triple :
    (w : Surroundings) (s : RuntimeState)
    → Triple (At s 0) (from (fully_ready w.rejected mapping)) (λ _. At s 0) (Escapes w s)
unfolding Triple
raised-Triple w s = by_outcome (fully_ready w.rejected mapping) refl
  where
    by_outcome :
        (o : Outcome (Bool × String))
        → fully_ready w.rejected mapping ≡ o
        → Triple (At s 0) (from o) (λ _. At s 0) (Escapes w s)
    by_outcome (ok a) h r p = p
    by_outcome (raised e) h r (q, _, c) = (q, c, h)

module _ (w : Surroundings) (previous : RuntimeState) (request_id : ℕ) where
  reject_new_map-IsAnswer :
      (e : String)
      → previous.mode ≡ mapping
      → Triple
          (At (begun previous request_id) 0)
          (reject_new_map w previous e)
          (IsAnswer (begun previous request_id))
          (Escapes w (begun previous request_id))
  unfolding reject_new_map
  reject_new_map-IsAnswer e m =
      bind-Triple _ (λ _. At (begun previous request_id) 0) _ _ _ _
        (raised-Triple w (begun previous request_id))
        (λ p.
          publish-IsAnswer (begun previous request_id) 0 _
            (λ r c.
              (inl (refl, inr (inl m)), request_kept (begun previous request_id) r c, inl refl))
            (Escapes w (begun previous request_id)))

  pub widened :
      (m : M RuntimeState) (s : RuntimeState)
      → Triple (At s 0) m (IsAnswer s) Never
      → Triple (At s 0) m (IsAnswer s) (Escapes w s)
  unfolding Triple
  widened m s t r p = widen (m r) (t r p)
    where
      widen :
          (o : Outcome RuntimeState × Runtime)
          → Post (IsAnswer s) Never o
          → Post (IsAnswer s) (Escapes w s) o
      widen (ok a, r') q = q
      widen (raised e, r') q = absurd q

  pub renew_map-IsAnswer :
      (map : String)
      → previous.mode ≡ mapping
      → Triple
          (At (begun previous request_id) 0)
          (renew_map w previous map)
          (IsAnswer (begun previous request_id))
          (Escapes w (begun previous request_id))
  unfolding renew_map
  renew_map-IsAnswer map m =
      attempt-Triple _ (λ _. At (begun previous request_id) 0) _ _ _ _
        (λ _. At (begun previous request_id) 0) _
        (wait_for_quiescence-Reaches (begun previous request_id) 0 w.quiescing)
        (λ _.
          widened _ (begun previous request_id)
            (restart_as-IsAnswer (begun previous request_id) w mapping map))
        (λ e. reject_new_map-IsAnswer e m)
