-- ===== src/ModeRuntime/Known.antt =====
-- The snapshots of src/runner_paddock/runner_paddock/mode_runtime.py that a refresh meets and leaves.
use ros_pre_runner.Prelude.{
  String, ◌≡◌, refl, ap, ◌⊎◌, inl, inr, Bool, true, false, not, if_both, arith,
}
use mathlib.Core.Path.{subst}
use ros_pre_runner.StateMachine.{idle, mode_eq}
use ros_pre_runner.ModeRuntime.State.{stable, transitioning, RuntimeState}
use ros_pre_runner.ModeRuntime.View.{Outcome, ok, raised, View, fully_ready}
use ros_pre_runner.ModeRuntime.Change.{is_stable}
use ros_pre_runner.ModeRuntime.Clean.{ok-injective}
use ros_pre_runner.ModeRuntime.Settle.{IsSettled, IsRunning}
use ros_pre_runner.ModeRuntime.Refreshed.{readiness_of}

-- Settled, or left in transition by an exception, and then not ready and without a session.
abbrev pub IsKnown : RuntimeState → Type 0
IsKnown s =
    IsSettled s ⊎ ((s.lifecycle ≡ transitioning) × (s.ready ≡ false) × (s.mapping_session_id ≡ ""))

apart : (b : Bool) → b ≡ true → b ≡ false → ⊥
apart b h g = absurd (cc)

stable-IsRunning :
    (s : RuntimeState)
    → is_stable s.lifecycle ≡ true
    → IsKnown s
    → (s.lifecycle ≡ stable) × IsRunning s
stable-IsRunning s h (inl (inl p)) = p
stable-IsRunning s h (inl (inr p)) = absurd (apart _ h (ap is_stable p.0))
stable-IsRunning s h (inr p) = absurd (apart _ h (ap is_stable p.0))

-- A refresh leaves a known snapshot known, with its numbers.
pub readiness_of-IsKnown :
    (v : View) (s t : RuntimeState)
    → IsKnown s
    → readiness_of v s ≡ ok t
    → IsKnown t
      × (t.accepted_request_id ≡ s.accepted_request_id)
      × (t.runtime_epoch ≡ s.runtime_epoch)
readiness_of-IsKnown v s t k =
    if_both Fact (not (is_stable s.lifecycle)) (λ h. given _ (unstable k h, refl, refl))
      (λ h.
        let (l, m) = stable-IsRunning s (ground arith) k in
        if_both Fact (mode_eq s.mode idle) (λ i. given _ (resting l m i, refl, refl))
          (λ i. looked l m i (fully_ready v s.mode)))
  where
    Fact : Outcome RuntimeState → Type 0
    Fact o =
        o ≡ ok t
        → IsKnown t
          × (t.accepted_request_id ≡ s.accepted_request_id)
          × (t.runtime_epoch ≡ s.runtime_epoch)

    given :
        (u : RuntimeState)
        → IsKnown u
          × (u.accepted_request_id ≡ s.accepted_request_id)
          × (u.runtime_epoch ≡ s.runtime_epoch)
        → Fact (ok u)
    given u p e =
        subst
          (λ x.
            IsKnown x
            × (x.accepted_request_id ≡ s.accepted_request_id)
            × (x.runtime_epoch ≡ s.runtime_epoch))
          (ok-injective e) p

    unstable : IsKnown s → not (is_stable s.lifecycle) ≡ true → IsKnown (record s { ready = false })
    unstable (inl (inl (e, _))) h = absurd (apart _ h (ap (λ l. not (is_stable l)) e))
    unstable (inl (inr (e, m, _, n))) h = inl (inr (e, m, refl, n))
    unstable (inr (e, _, n)) h = inr (e, refl, n)

    resting :
        s.lifecycle ≡ stable
        → IsRunning s
        → mode_eq s.mode idle ≡ true
        → IsKnown (record s { ready = true; readiness_reason = "" })
    resting l (inl (m, _, n)) i = inl (inl (l, inl (m, refl, n)))
    resting l (inr (inl m)) i = absurd (apart _ i (ap (λ x. mode_eq x idle) m))
    resting l (inr (inr p)) i = absurd (apart _ i (ap (λ x. mode_eq x idle) p.0))

    looked :
        s.lifecycle ≡ stable
        → IsRunning s
        → mode_eq s.mode idle ≡ false
        → (o : Outcome (Bool × String))
        → Fact (elim o [
          | ok p ↦ ok (record s { ready = p.0; readiness_reason = p.1 })
          | raised e ↦ raised e
        ])
    looked l (inl p) i o = absurd (apart _ (ap (λ x. mode_eq x idle) p.0) i)
    looked l (inr m) i (ok p) = given _ (inl (inl (l, inr m)), refl, refl)
    looked l (inr m) i (raised e) = λ h. absurd (cc)
