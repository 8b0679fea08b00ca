-- ===== src/StopEnforcer/Start.antt =====
-- How the STOP enforcer starts from what it finds on disk.
use mathlib.Core.Path.{subst}
use ros_pre_runner.Prelude.{
  sym, ℕ, ◌^◌, ◌<◌, ◌⊎◌, inl, inr, ◌∙◌, String, ◌≡◌, ◌≢◌, refl, Bool, true, false, not, ltb,
  if_both, Option, none, some, arith,
}
use ros_pre_runner.Prelude.Float.{Float}
use ros_pre_runner.StopEnforcer.State.{Enforcer, faulty}
use ros_pre_runner.StopEnforcer.Restore.{
  Json, missing, other, bool, int, negative, float, launch, Loaded, object, not_object, unreadable,
  Restored, restored, caught, uncaught, equals_one, checked, restore, init,
}

module _ {F : Type 0} ⦃fl : Float F⦄ where
  -- A value that Python takes to equal 1
  abbrev pub IsOne : Json F → Type 0
  IsOne v =
      (v ≡ int 1) ⊎ ((v ≡ bool true) ⊎ ((x : F) × (v ≡ float x) × (fl.eq x (fl.lit 1 1) ≡ true)))

  -- A generation below 2^63, and a truth value
  abbrev IsPair : Json F → Json F → ℕ → Bool → Type 0
  IsPair g s generation stopped = (g ≡ int generation) × (s ≡ bool stopped) × (generation < 2 ^ 63)

  -- The file holds a record of version 1.
  abbrev pub IsRecord : Loaded F → ℕ → Bool → Type 0
  IsRecord loaded generation stopped =
      (version : Json F) × (g : Json F) × (s : Json F) × (loaded ≡ object version g s)
      × IsOne version
      × IsPair g s generation stopped

  abbrev pub Stored : Loaded F → Enforcer F → Type 0
  Stored loaded n =
      IsRecord loaded n.generation n.stopped × (n.durable ≡ true) × (faulty n.fault ≡ false)

  abbrev pub Faulted : Loaded F → Enforcer F → Type 0
  Faulted loaded n =
      (¬ ((generation : ℕ) × (stopped : Bool) × IsRecord loaded generation stopped))
      × (n.stopped ≡ true)
      × (faulty n.fault ≡ true)
      × (n.durable ≡ false)

  -- The state with which the node starts, if it does.
  abbrev pub StartsLocked : Loaded F → Option (Enforcer F) → Type 0
  StartsLocked loaded none = loaded ≡ not_object
  StartsLocked loaded (some n) =
      (loaded ≢ not_object) × (n.locked ≡ true) × (Stored loaded n ⊎ Faulted loaded n)

  equals_one-IsOne : (v : Json F) → equals_one v ≡ true → IsOne v
  unfolding equals_one
  equals_one-IsOne missing h = absurd (cc)
  equals_one-IsOne other h = absurd (cc)
  equals_one-IsOne (bool b) h = inr (inl (cc))
  equals_one-IsOne (int n) h = let e : n ≡ 1 = ground arith in inl (cc)
  equals_one-IsOne (negative n) h = absurd (cc)
  equals_one-IsOne (float x) h = inr (inr (x, refl, h))

  IsOne-equals_one : (v : Json F) → IsOne v → equals_one v ≡ true
  unfolding equals_one
  IsOne-equals_one v (inl e) = rw e refl
  IsOne-equals_one v (inr (inl e)) = rw e refl
  IsOne-equals_one v (inr (inr (x, e, h))) = rw e h

  -- What `checked` finds
  abbrev Checked : Json F → Json F → Restored → Type 0
  Checked g s (restored r) = IsPair g s r.generation r.stopped
  Checked g s caught = ¬ ((generation : ℕ) × (stopped : Bool) × IsPair g s generation stopped)
  Checked g s uncaught = ⊥

  checked-Checked : (g s : Json F) → Checked g s (checked g s)
  unfolding checked
  checked-Checked (int n) (bool b) =
      if_both (Checked (int n) (bool b)) (ltb n (2 ^ 63)) (λ p. (refl, refl, ground arith))
        (λ p (m, c, (e, f, l)). let i : n ≡ m = cc in ground arith)
  checked-Checked (int n) missing = λ (m, c, (e, f, l)). cc
  checked-Checked (int n) other = λ (m, c, (e, f, l)). cc
  checked-Checked (int n) (int k) = λ (m, c, (e, f, l)). cc
  checked-Checked (int n) (negative k) = λ (m, c, (e, f, l)). cc
  checked-Checked (int n) (float x) = λ (m, c, (e, f, l)). cc
  checked-Checked missing s = λ (m, c, (e, f, l)). cc
  checked-Checked other s = λ (m, c, (e, f, l)). cc
  checked-Checked (bool b) s = λ (m, c, (e, f, l)). cc
  checked-Checked (negative n) s = λ (m, c, (e, f, l)). cc
  checked-Checked (float x) s = λ (m, c, (e, f, l)). cc

  -- Without a record in the file
  launch-Faulted :
      (v g s : Json F) (boot : String) (started : F)
      → ¬ ((generation : ℕ) × (stopped : Bool) × IsRecord (object v g s) generation stopped)
      → StartsLocked (object v g s) (launch caught boot started)
  unfolding launch
  launch-Faulted v g s boot started h = ((λ e. cc), refl, inr (h, refl, refl, refl))

  launch-StartsLocked :
      (v g s : Json F) (boot : String) (started : F) (r : Restored)
      → IsOne v
      → Checked g s r
      → StartsLocked (object v g s) (launch r boot started)
  unfolding launch
  launch-StartsLocked v g s boot started (restored r) one h =
      ((λ e. cc), refl, inl ((v, g, s, refl, one, h), refl, refl))
  launch-StartsLocked v g s boot started caught one h =
      launch-Faulted v g s boot started (λ (m, c, (v', g', s', e, o, (p, q, l))).
        let i : g ≡ g' = cc in let j : s ≡ s' = cc in h (m, c, (i ∙ p, j ∙ q, l)))
  launch-StartsLocked v g s boot started uncaught one h = absurd h

  -- From a file whose JSON is no object, and only from that, the node does not start. From any other it
  -- starts locked: with the stored generation and stop, durable and without a fault, if the file holds a
  -- record (its version equals 1, its generation is an integer from 0 to below 2^63, and its stop is a
  -- truth value); and otherwise, also where it cannot be read, stopped, with a fault and not durable.
  pub init-locks :
      (loaded : Loaded F) (boot : String) (started : F)
      → StartsLocked loaded (init loaded boot started)
  unfolding init restore
  init-locks unreadable boot started =
      unfold launch in ((λ e. cc), refl, inr ((λ (m, c, (v, g, s, e, o, h)). cc), refl, refl, refl))
  init-locks not_object boot started = unfold launch in refl
  init-locks (object v g s) boot started =
      if_both (λ (r : Restored). StartsLocked (object v g s) (launch r boot started))
        (not (equals_one v))
        (λ p. launch-Faulted v g s boot started (λ (m, c, (v', g', s', e, o, h)).
          let i : v ≡ v' = cc in let one = IsOne-equals_one v (subst IsOne (sym i) o) in cc))
        (λ p.
          launch-StartsLocked v g s boot started (checked g s) (equals_one-IsOne v (ground arith))
            (checked-Checked g s))
