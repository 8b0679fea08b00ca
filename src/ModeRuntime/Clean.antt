-- ===== src/ModeRuntime/Clean.antt =====
-- What a finished unit cleanup of src/runner_paddock/runner_paddock/mode_runtime.py means.
use ros_pre_runner.Prelude.{
  String, ◌≡◌, refl, ap, ◌∙◌, Bool, true, false, ◌&&◌, ◌||◌, List, [], ◌∷◌, ◌++◌, arith, if_both,
}
use ros_pre_runner.ModeRuntime.State.{
  ModeUnit, mapping_unit, autonomy_unit, UnitState, cleanly_inactive,
}
use ros_pre_runner.ModeRuntime.View.{
  Outcome, ok, raised, ◌>>=◌, View, is_empty, unit_blockers, detailed_blockers, unit_cleanup_status,
}
use ros_pre_runner.ModeRuntime.Order.{seen_clean, shows_clean}

module _ {ℓ κ} {A : Type ℓ} {B : Type κ} where
  pub bind-ok :
      (o : Outcome A) (f : A → Outcome B) (b : B)
      → (o >>= f) ≡ ok b
      → (a : A) × (o ≡ ok a) × (f a ≡ ok b)
  bind-ok (ok a) f b h = (a, refl, h)
  bind-ok (raised e) f b h = absurd (cc)

pub ok-injective : {A : Type 0} {a b : A} → Outcome.ok a ≡ ok b → a ≡ b
ok-injective h = cc

detailed-clean :
    (v : View) (unit : ModeUnit) (u : UnitState)
    → is_empty (detailed_blockers v unit u) ≡ true
    → cleanly_inactive u ≡ true
detailed-clean v unit u h = ground arith

and_intro : (a b : Bool) → a ≡ true → b ≡ true → (a && b) ≡ true
and_intro true b h e = e
and_intro false b h e = absurd (cc)

or_left : (a b : Bool) → a ≡ true → (a || b) ≡ true
or_left true b h = refl
or_left false b h = absurd (cc)

or_right : (a b : Bool) → b ≡ true → (a || b) ≡ true
or_right true b h = refl
or_right false b h = h

unit_blockers-clean :
    (v : View) (unit : ModeUnit) (u : UnitState) (bs : List String)
    → v.state unit ≡ ok u
    → unit_blockers v unit u ≡ ok bs
    → is_empty bs ≡ true
    → seen_clean v unit ≡ true
unfolding seen_clean
unit_blockers-clean v unit u bs s h e =
    if_both (λ o. o ≡ ok bs → seen_clean v unit ≡ true) (cleanly_inactive u)
      (λ c _. or_left _ _ (ap shows_clean s ∙ c))
      (λ _ h'.
        let (second, q, r) = bind-ok (v.detailed unit) _ bs h' in
        or_right _ _
          (ap shows_clean q ∙ detailed-clean v unit second (ap is_empty (ok-injective r) ∙ e)))
      h

empty_parts :
    (xs ys : List String) → is_empty (xs ++ ys) ≡ true → (is_empty xs ≡ true) × (is_empty ys ≡ true)
empty_parts [] ys h = (refl, h)
empty_parts (x ∷ xs) ys h = absurd (cc)

-- An empty report needs both units to have been seen empty.
pub unit_cleanup_status-clean :
    (v : View) (reason : String)
    → unit_cleanup_status v ≡ ok (true, reason)
    → (seen_clean v mapping_unit && seen_clean v autonomy_unit) ≡ true
unfolding unit_cleanup_status
unit_cleanup_status-clean v reason h =
    let (m, sm, h1) = bind-ok (v.state mapping_unit) _ _ h in
    let (first, bm, h2) = bind-ok (unit_blockers v mapping_unit m) _ _ h1 in
    let (a, sa, h3) = bind-ok (v.state autonomy_unit) _ _ h2 in
    let (second, ba, h4) = bind-ok (unit_blockers v autonomy_unit a) _ _ h3 in
    let parts = empty_parts first second (ap (λ p. p.0) (ok-injective h4)) in
    and_intro _ _ (unit_blockers-clean v mapping_unit m first sm bm parts.0)
      (unit_blockers-clean v autonomy_unit a second sa ba parts.1)
