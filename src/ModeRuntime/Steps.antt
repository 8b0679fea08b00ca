-- ===== src/ModeRuntime/Steps.antt =====
-- What the loops, `_stop_all` and the progress reports of
-- src/runner_paddock/runner_paddock/mode_runtime.py keep and reach.
use ros_pre_runner.Prelude.{ℕ, ◌≤◌, ◌≡◌, refl, ◌∙◌, String, str_eq, arith, if_both}
use ros_pre_runner.ModeRuntime.State.{RuntimeState}
use ros_pre_runner.ModeRuntime.View.{Outcome, ok, raised}
use ros_pre_runner.ModeRuntime.Run.{Runtime, M, return, from, set_state}
use ros_pre_runner.ModeRuntime.Triple.{Post, Triple, then-Triple}
use ros_pre_runner.ModeRuntime.Wait.{transition_progress, note_reason}
use ros_pre_runner.ModeRuntime.Order.{advance, stage, IsOrdered}

-- A snapshot without its two texts.
abbrev pub core : RuntimeState → RuntimeState
core s = record s { detail = ""; readiness_reason = "" }

-- Starts were guarded, the stop has come to `g`, and but for the texts the snapshot is `s`.
abbrev pub At : RuntimeState → ℕ → Runtime → Type 0
At s g r = IsOrdered r.actions × (g ≤ stage r.actions) × (core r.state ≡ core s)

-- From stage `g` on, a computation that ends there, and loses no snapshot when it raises.
abbrev pub Reaches : {A : Type 0} → RuntimeState → ℕ → ℕ → M A → Type 0
Reaches s g h m = Triple (At s g) m (λ _. At s h) (λ _. At s 0)

module _ (s : RuntimeState) (g : ℕ) where
  pub return-Reaches : {A : Type 0} (a : A) → Reaches s g g (return a)
  unfolding Triple
  return-Reaches a r p = p

  pub from-Reaches : {A : Type 0} (o : Outcome A) → Reaches s g g (from o)
  unfolding Triple
  from-Reaches (ok a) r p = p
  from-Reaches (raised e) r (q, _, c) = (q, omega arith, c)

  pub set-Reaches :
      (f : RuntimeState → RuntimeState)
      → ((t : RuntimeState) → core (f t) ≡ core t)
      → Reaches s g g (set_state f)
  unfolding Triple stage advance
  set-Reaches f h r (q, l, c) = (q, l, h r.state ∙ c)

  pub progress-Reaches : (detail : String) → Reaches s g g (transition_progress detail)
  unfolding Triple transition_progress
  progress-Reaches detail r p =
      if_both (Post (λ _. At s g) (λ _. At s 0)) (str_eq detail r.state.detail) (λ _. p)
        (λ _.
          set-Reaches (λ t. record t { detail = detail; readiness_reason = detail }) (λ t. refl) r
            p)

  pub note_reason-Reaches :
      (text : String → String) (last reason : String) → Reaches s g g (note_reason text last reason)
  unfolding note_reason
  note_reason-Reaches text last reason =
      if_both (Reaches s g g) (str_eq reason last) (λ _. return-Reaches last)
        (λ _.
          then-Triple _ (λ _. At s g) _ _ _ _ (progress-Reaches (text reason))
            (λ _. return-Reaches reason))
