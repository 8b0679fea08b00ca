-- ===== src/Prelude/Millis.antt =====
-- A concrete `Float`: whole thousandths, positive and negative, and a value that is not finite. The
-- examples compute with it; tan and atan are the identity, which serves for small angles.
use ros_pre_runner.Prelude.{ℕ, suc, ◌+◌, ◌*◌, ◌/◌, Bool, true, false, ltb, leb, ◌==◌}
use ros_pre_runner.Prelude.Float.{Float}
use ros_pre_runner.Prelude.Int.{ℤ, pos, negsuc, pos_part, neg_part, sub_ℕ}

pub data Millis : Type 0 where
  millis : ℤ → Millis
  nan : Millis

abbrev on_both : (ℤ → ℤ → ℤ) → Millis → Millis → Millis
on_both f (millis a) (millis b) = millis (f a b)
on_both f _ _ = nan

abbrev both : (ℤ → ℤ → Bool) → Millis → Millis → Bool
both f (millis a) (millis b) = f a b
both f _ _ = false

abbrev neg_ℤ : ℤ → ℤ
neg_ℤ a = sub_ℕ (neg_part a) (pos_part a)

abbrev abs_ℤ : ℤ → ℤ
abs_ℤ a = pos (pos_part a + neg_part a)

abbrev copysign_ℤ : ℤ → ℤ → ℤ
copysign_ℤ a (pos _) = abs_ℤ a
copysign_ℤ a (negsuc _) = neg_ℤ (abs_ℤ a)

abbrev mul_millis : ℤ → ℤ → ℤ
mul_millis a b =
    sub_ℕ ((pos_part a * pos_part b + neg_part a * neg_part b) / 1000)
      ((pos_part a * neg_part b + neg_part a * pos_part b) / 1000)

abbrev div_millis : ℤ → ℤ → ℤ
div_millis a (pos n) = sub_ℕ (pos_part a * 1000 / n) (neg_part a * 1000 / n)
div_millis a (negsuc n) = sub_ℕ (neg_part a * 1000 / suc n) (pos_part a * 1000 / suc n)

abbrev whole_part : Millis → ℕ
whole_part nan = 0
whole_part (millis a) = pos_part a / 1000

abbrev le_ℤ : ℤ → ℤ → Bool
le_ℤ a b = leb (pos_part a + neg_part b) (pos_part b + neg_part a)

abbrev lt_ℤ : ℤ → ℤ → Bool
lt_ℤ a b = ltb (pos_part a + neg_part b) (pos_part b + neg_part a)

abbrev eq_ℤ : ℤ → ℤ → Bool
eq_ℤ a b = pos_part a + neg_part b == pos_part b + neg_part a

abbrev same_millis : Millis → Millis → Bool
same_millis nan nan = true
same_millis a b = both eq_ℤ a b

abbrev is_finite : Millis → Bool
is_finite nan = false
is_finite (millis _) = true

abbrev on_one : (ℤ → ℤ) → Millis → Millis
on_one f nan = nan
on_one f (millis a) = millis (f a)

-- the distance of two values, within the third
abbrev is_close : Millis → Millis → Millis → Bool
is_close (millis a) (millis b) (millis t) =
    le_ℤ (abs_ℤ (sub_ℕ (pos_part a + neg_part b) (neg_part a + pos_part b))) t
is_close _ _ _ = false

instance abbrev pub millis_float : Float Millis
millis_float = record {
  lit = λ n d. millis (pos (n * 1000 / d));
  add = on_both (λ a b. sub_ℕ (pos_part a + pos_part b) (neg_part a + neg_part b));
  sub = on_both (λ a b. sub_ℕ (pos_part a + neg_part b) (neg_part a + pos_part b));
  mul = on_both mul_millis;
  div = on_both div_millis;
  neg = on_one neg_ℤ;
  abs = on_one abs_ℤ;
  copysign = on_both copysign_ℤ;
  lt = both lt_ℤ;
  le = both le_ℤ;
  eq = both eq_ℤ;
  same = same_millis;
  is_finite = is_finite;
  tan = λ x. x;
  atan = λ x. x;
  is_close = is_close;
  of_int = λ n. millis (pos (n * 1000));
  to_int = whole_part;
}

-- n thousandths
abbrev pub ms : ℕ → Millis
ms n = millis (pos n)
