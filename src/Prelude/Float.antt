-- ===== src/Prelude/Float.antt =====
-- Python's `float`, which the source computes with and does not implement: a carrier and the
-- operations that the source uses, taken as a parameter by every definition that has floats.
use Prim.Native.Nat.{ℕ}
use mathlib.Core.Bool.{Bool}
use ros_pre_runner.Prelude.Tests.{if◌then◌else◌}

pub record Float (F : Type 0) : Type 0 where
  pub lit : ℕ → ℕ → F  -- the decimal literal n / d, such as `lit 20 100` for 0.20
  pub add : F → F → F
  pub sub : F → F → F
  pub mul : F → F → F
  pub div : F → F → F  -- by a divisor that is not zero
  pub neg : F → F  -- unary minus
  pub abs : F → F
  pub copysign : F → F → F  -- math.copysign
  pub lt : F → F → Bool
  pub le : F → F → Bool
  pub eq : F → F → Bool  -- `==`
  pub same : F → F → Bool  -- identical objects, or `==`: how tuples compare their components
  pub is_finite : F → Bool  -- math.isfinite
  pub tan : F → F
  pub atan : F → F
  pub is_close : F → F → F → Bool  -- math.isclose(a, b, rel_tol=0.0, abs_tol=t), t last
  pub of_int : ℕ → F  -- an integer among floats
  pub to_int : F → ℕ  -- `int(x)` of a positive x

module _ {F : Type 0} ⦃fl : Float F⦄ where
  -- Python's `max(a, b)` and `min(a, b)`: the first argument unless the second beats it.
  abbrev pub fmax : F → F → F
  fmax a b = if fl.lt a b then b else a

  abbrev pub fmin : F → F → F
  fmin a b = if fl.lt b a then b else a

  abbrev pub zero_f : F
  zero_f = fl.lit 0 1
