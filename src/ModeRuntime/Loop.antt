-- ===== src/ModeRuntime/Loop.antt =====
-- A rule for the loops of src/runner_paddock/runner_paddock/mode_runtime.py.
use ros_pre_runner.Prelude.{◌≡◌, refl, String, Bool, true, false, List, [], ◌∷◌}
use ros_pre_runner.ModeRuntime.View.{Outcome, ok, raised, View}
use ros_pre_runner.ModeRuntime.Run.{Runtime, M, return, from, ◌>>=◌}
use ros_pre_runner.ModeRuntime.Triple.{Triple, bind-Triple, then-Triple}
use ros_pre_runner.ModeRuntime.Wait.{wait_until}

pub from-Triple :
    {A : Type 0} (P : Runtime → Type 0) (E : String → Runtime → Type 0) (o : Outcome A)
    → ((e : String) (r : Runtime) → P r → E e r)
    → Triple P (from o) (λ a r. (o ≡ ok a) × P r) E
unfolding Triple
from-Triple P E (ok a) h r p = (refl, p)
from-Triple P E (raised e) h r p = h e r p

module _ (P Q : Runtime → Type 0) (E : String → Runtime → Type 0) (logged : View → Runtime → Type 0)
    (log : View → M (Unit {0})) (check : View → Outcome (Bool × String))
    (noted : String → String → M String) (expired : String → String)
    (log_lem : (v : View) → Triple P (log v) (λ _. logged v) E)
    (done_lem : (v : View) (reason : String) (r : Runtime)
      → check v ≡ ok (true, reason)
      → logged v r
      → Q r)
    (keep_lem : (v : View) (r : Runtime) → logged v r → P r)
    (noted_lem : (last reason : String) → Triple P (noted last reason) (λ _. P) E)
    (fails_lem : (e : String) (r : Runtime) → P r → E e r) where
  -- Every loop ends, since it makes the polls that there are, and a result means that the last check
  -- succeeded.
  pub wait_until-Triple :
      (last : String) (vs : List View)
      → Triple P (wait_until log check noted expired last vs) (λ _. Q) E
  unfolding wait_until Triple
  wait_until-Triple last [] = λ r p. fails_lem (expired last) r p
  wait_until-Triple last (v ∷ vs) =
      then-Triple P (λ _. logged v) _ _ _ _ (log_lem v)
        (λ _.
          bind-Triple (logged v) (λ a r. (check v ≡ ok a) × logged v r) _ _ _ _
            (from-Triple (logged v) E (check v) (λ e r p. fails_lem e r (keep_lem v r p)))
            (branch (λ last'. wait_until-Triple last' vs)))
    where
      branch :
          ((last' : String) → Triple P (wait_until log check noted expired last' vs) (λ _. Q) E)
          → (a : Bool × String)
          → Triple
              (λ r. (check v ≡ ok a) × logged v r)
              (elim a.0 [
                | true ↦ return tt
                | false ↦ noted last a.1 >>= (λ last'. wait_until log check noted expired last' vs)
              ])
              (λ _. Q)
              E
      branch again (true, reason) r p = done_lem v reason r p.0 p.1
      branch again (false, reason) r p =
          bind-Triple P (λ _. P) _ _ _ _ (noted_lem last reason) again r (keep_lem v r p.1)
