-- ===== src/ModeRuntime/Triple.antt =====
-- What holds before and after a computation of a mode runtime, that may raise.
use ros_pre_runner.Prelude.{String}
use ros_pre_runner.ModeRuntime.View.{Outcome, ok, raised}
use ros_pre_runner.ModeRuntime.Run.{return, Runtime, M, continue, attempt, ◌>>=◌, ◌>>◌, try_except}

module _ {A : Type 0} where
  -- `q` after a result and `e` after an exception
  abbrev pub Post :
      (A → Runtime → Type 0) → (String → Runtime → Type 0) → Outcome A × Runtime → Type 0
  Post Q E (ok a, r) = Q a r
  Post Q E (raised e, r) = E e r

  unfoldable pub Triple :
      (Runtime → Type 0) → M A → (A → Runtime → Type 0) → (String → Runtime → Type 0) → Type 0
  Triple P m Q E = (r : Runtime) → P r → Post Q E (m r)

module _ {A B : Type 0} where
  continue-Post :
      (Q : A → Runtime → Type 0) (S : B → Runtime → Type 0) (E H : String → Runtime → Type 0)
      (k : A → M B) (h : String → M B) (t : Outcome A × Runtime)
      → Post Q H t
      → ((a : A) → Triple (Q a) (k a) S E)
      → ((e : String) → Triple (H e) (h e) S E)
      → Post S E (continue k h t)
  unfolding Triple
  continue-Post Q S E H k h (ok a, r) p f g = f a r p
  continue-Post Q S E H k h (raised e, r) p f g = g e r p

module _ {A B : Type 0} (P : Runtime → Type 0) (Q : A → Runtime → Type 0) (S : B → Runtime → Type 0)
    (E : String → Runtime → Type 0) (m : M A) (k : A → M B) where
  pub attempt-Triple :
      (H : String → Runtime → Type 0) (h : String → M B)
      → Triple P m Q H
      → ((a : A) → Triple (Q a) (k a) S E)
      → ((e : String) → Triple (H e) (h e) S E)
      → Triple P (attempt m k h) S E
  unfolding Triple attempt
  attempt-Triple H h t f g r p = continue-Post Q S E H k h (m r) (t r p) f g

  pub bind-Triple : Triple P m Q E → ((a : A) → Triple (Q a) (k a) S E) → Triple P (m >>= k) S E
  unfolding Triple ◌>>=◌
  bind-Triple t f = attempt-Triple E (λ e r. (raised e, r)) t f (λ e r p. p)

module _ {A B : Type 0} (P : Runtime → Type 0) (Q : A → Runtime → Type 0) (S : B → Runtime → Type 0)
    (E : String → Runtime → Type 0) (m : M A) (k : M B) where
  pub then-Triple : Triple P m Q E → ((a : A) → Triple (Q a) k S E) → Triple P (m >> k) S E
  unfolding Triple ◌>>◌
  then-Triple t f = attempt-Triple P Q S E m (λ _. k) E (λ e r. (raised e, r)) t f (λ e r p. p)

module _ {A : Type 0} (P : Runtime → Type 0) (S : A → Runtime → Type 0)
    (E H : String → Runtime → Type 0) (m : M A) (h : String → M A) where
  pub try-Triple :
      Triple P m S H → ((e : String) → Triple (H e) (h e) S E) → Triple P (try_except m h) S E
  unfolding Triple try_except
  try-Triple t g = attempt-Triple P S S E m return H h t (λ a r p. p) g
