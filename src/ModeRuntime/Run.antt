-- ===== src/ModeRuntime/Run.antt =====
-- The state of a `ModeRuntime` with what it did, newest first, and computations over it that may raise.
use ros_pre_runner.Prelude.{String, List, ◌∷◌}
use ros_pre_runner.ModeRuntime.State.{ModeUnit, RuntimeState}
use ros_pre_runner.ModeRuntime.View.{Outcome, ok, raised, View}

pub data Action : Type 0 where
  published : RuntimeState → Action
  stop_unit start_unit : ModeUnit → Action
  begin_quiescence : Action
  map_written : String → Action
  saw_units saw_graph : View → Action  -- a poll for empty units, and one for an empty graph

pub record Runtime : Type 0 where
  pub state : RuntimeState
  pub actions : List Action

abbrev pub M {ℓ} : Type ℓ → Type ℓ
M A = Runtime → Outcome A × Runtime

module _ {ℓ κ} {A : Type ℓ} {B : Type κ} where
  -- `try: m` with `except ... as error: handler(error)`, and the continuation `k` outside it
  abbrev pub continue : (A → M B) → (String → M B) → Outcome A × Runtime → Outcome B × Runtime
  continue k handler (ok a, r) = k a r
  continue k handler (raised e, r) = handler e r

  unfoldable pub attempt : M A → (A → M B) → (String → M B) → M B
  attempt m k handler r = continue k handler (m r)

  infixl 5 ◌>>=◌ ◌>>◌
  unfoldable pub ◌>>=◌ : M A → (A → M B) → M B
  unfolding attempt
  m >>= k = attempt m k (λ e r. (raised e, r))

  unfoldable pub ◌>>◌ : M A → M B → M B
  unfolding attempt
  m >> k = attempt m (λ _. k) (λ e r. (raised e, r))

module _ {ℓ} {A : Type ℓ} where
  abbrev pub return : A → M A
  return a r = (ok a, r)

  abbrev pub from : Outcome A → M A
  from o r = (o, r)

  -- `try: m` with `except ... as error: handler(error)`
  unfoldable pub try_except : M A → (String → M A) → M A
  unfolding attempt
  try_except m handler = attempt m return handler

-- `_set`
abbrev pub set_state : (RuntimeState → RuntimeState) → M (Unit {0})
set_state f r = (ok tt, record r { state = f r.state; actions = published (f r.state) ∷ r.actions })

abbrev pub perform : Action → M (Unit {0})
perform a r = (ok tt, record r { actions = a ∷ r.actions })

abbrev pub get_state : M RuntimeState
get_state r = (ok r.state, r)
