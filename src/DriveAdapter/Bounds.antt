-- ===== src/DriveAdapter/Bounds.antt =====
-- The bounds of throttle, steering and integrator, whatever the drive adapter receives.
use ros_pre_runner.Prelude.{
  ◌≡◌, refl, sym, ◌⊎◌, inl, inr, Bool, true, not, ◌||◌, Option, none, some, List, [], ◌∷◌, if_both,
  any,
}
use mathlib.Core.Path.{subst}
use ros_pre_runner.Prelude.Float.{Float, fmax, fmin, zero_f}
use ros_pre_runner.DriveAdapter.Config.{AdapterConfig, Policy, BadConfig, post_init}
use ros_pre_runner.DriveAdapter.State.{
  DriveAdapter, init, update_command, update_manual_command, invalidate_command, update_motion,
  update_active_mode, update_encoder, update_adapter_output, update_mux_output, shutdown,
}
use ros_pre_runner.DriveAdapter.Live.{
  Parameter, Value, Refusal, merge, commit, set_live_parameters, is_unsupported, is_other,
  is_integral,
}
use ros_pre_runner.DriveAdapter.Control.{
  saturation, drives_farther, AdapterDecision, IntegratorFreezeReason, not_frozen, command_sign,
  one_f, limited, candidate, integrate, steering_of, drive, fresh_step, command_step, step,
}
use ros_pre_runner.DriveAdapter.Calls.{
  Call, call, run, command, manual_command, invalidate, motion, mode, encoder, adapter_output,
  mux_output, live, cycle, stopped,
}
use ros_pre_runner.DriveAdapter.Limits.{merge-IsSameVehicle, config-step}

module _ {F : Type 0} ⦃fl : Float F⦄ where
  -- One of both ends, or strictly between them: a value that is no number is not, unless an end is.
  abbrev pub IsWithin : F → F → F → Type 0
  IsWithin lo hi x = (x ≡ lo) ⊎ ((x ≡ hi) ⊎ ((fl.lt lo x ≡ true) × (fl.lt x hi ≡ true)))

  -- A throttle of zero, or one whose magnitude is within the output limits.
  abbrev pub IsThrottle : AdapterConfig F → F → Type 0
  IsThrottle c throttle =
      (throttle ≡ zero_f)
      ⊎ ((sign magnitude : F) × (throttle ≡ fl.mul sign magnitude)
          × ((sign ≡ one_f) ⊎ (sign ≡ fl.neg one_f))
          × IsWithin c.output_min c.output_max magnitude)

  abbrev pub IsSteering : F → Type 0
  IsSteering s = (s ≡ zero_f) ⊎ IsWithin (fl.neg one_f) one_f s

  -- The integrator is within its bound, on both sides.
  abbrev pub IsIntegral : AdapterConfig F → F → Type 0
  IsIntegral c x = (x ≡ zero_f) ⊎ IsWithin (fl.neg c.integrator_bound) c.integrator_bound x

  abbrev pub IsBoundedStep : DriveAdapter F → DriveAdapter F × AdapterDecision F → Type 0
  IsBoundedStep a (b, d) =
      IsThrottle a.config d.final_throttle
      × IsSteering d.normalized_steering
      × IsIntegral a.config b.integrator

  clamp-IsWithin : (lo hi x : F) → IsWithin lo hi (fmax lo (fmin hi x))
  clamp-IsWithin lo hi x =
      if_both (IsWithin lo hi) (fl.lt lo (fmin hi x)) (λ p. below p) (λ p. inl refl)
    where
      below : fl.lt lo (fmin hi x) ≡ true → IsWithin lo hi (fmin hi x)
      below =
          if_both (λ (y : F). fl.lt lo y ≡ true → IsWithin lo hi y) (fl.lt x hi)
            (λ q p. inr (inr (p, q))) (λ q p. inr (inl refl))

  clamped-IsSteering : (x : F) → IsSteering (fmax (fl.neg one_f) (fmin one_f x))
  clamped-IsSteering x = inr (clamp-IsWithin (fl.neg one_f) one_f x)

  steering_of-IsSteering :
      (a : DriveAdapter F) (speed demand : F) → IsSteering (steering_of a speed demand).0
  unfolding steering_of
  steering_of-IsSteering a speed demand =
      if_both (λ (t : F × Bool). IsSteering t.0) a.command_uses_direct_steering
        (λ p. clamped-IsSteering demand) (λ p. clamped-IsSteering _)

  integrate-IsIntegral :
      (a : DriveAdapter F) (base error : F) (dt : Option F) (reason : IntegratorFreezeReason)
      → IsIntegral a.config a.integrator
      → IsIntegral a.config (integrate a base error dt reason).0
  unfolding integrate candidate
  integrate-IsIntegral a base error none not_frozen i = i
  integrate-IsIntegral a base error (some dt) not_frozen i =
      if_both (λ (t : F × IntegratorFreezeReason). IsIntegral a.config t.0)
        (drives_farther (saturation a.config (fl.add base (candidate a error dt))) error) (λ p. i)
        (λ p. inr (
          clamp-IsWithin (fl.neg a.config.integrator_bound) a.config.integrator_bound
            (fl.add a.integrator (fl.mul (fl.mul a.config.integral_gain error) dt))))
  integrate-IsIntegral a base error dt reason i = i

  drive-IsBoundedStep :
      (a : DriveAdapter F) (speed demand now : F)
      → IsIntegral a.config a.integrator
      → IsBoundedStep a (drive a speed demand now)
  unfolding drive limited
  drive-IsBoundedStep a speed demand now i = (
    inr (
      command_sign speed,
      _,
      refl,
      sign,
      clamp-IsWithin a.config.output_min a.config.output_max _,
    ),
    steering_of-IsSteering a speed demand,
    integrate-IsIntegral a _ _ _ _ i,
  )
    where
      sign : (command_sign speed ≡ one_f) ⊎ (command_sign speed ≡ fl.neg one_f)
      sign =
          if_both (λ (x : F). (x ≡ one_f) ⊎ (x ≡ fl.neg one_f)) (fl.lt zero_f speed) (λ p. inl refl)
            (λ p. inr refl)

  fresh_step-IsBoundedStep :
      (a : DriveAdapter F) (speed demand now : F)
      → IsIntegral a.config a.integrator
      → IsBoundedStep a (fresh_step a speed demand now)
  unfolding fresh_step
  fresh_step-IsBoundedStep a speed demand now i =
      if_both (IsBoundedStep a) (not (fl.is_finite speed) || not (fl.is_finite demand))
        (λ q. (inl refl, inl refl, i))
        (λ q.
          if_both (IsBoundedStep a) (fl.eq speed zero_f)
            (λ r.
              if_both
                (λ (d : AdapterDecision F).
                  IsThrottle a.config d.final_throttle
                  × IsSteering d.normalized_steering
                  × IsIntegral a.config a.integrator)
                a.command_uses_direct_steering (λ t. (inl refl, clamped-IsSteering demand, i))
                (λ t. (inl refl, inl refl, i)))
            (λ r. drive-IsBoundedStep a speed demand now i))

  command_step-IsBoundedStep :
      (a : DriveAdapter F) (c : Option (F × F)) (at : Option F) (now : F)
      → IsIntegral a.config a.integrator
      → IsBoundedStep a (command_step a c at now)
  unfolding command_step
  command_step-IsBoundedStep a none at now i = (inl refl, inl refl, i)
  command_step-IsBoundedStep a (some c) none now i = (inl refl, inl refl, i)
  command_step-IsBoundedStep a (some (speed, demand)) (some at) now i =
      if_both (IsBoundedStep a) (fl.lt a.config.cmd_vel_nav_timeout (fl.sub now at))
        (λ q. (inl refl, inl refl, i)) (λ q. fresh_step-IsBoundedStep a speed demand now i)

  step-IsBoundedStep :
      (a : DriveAdapter F) (now : F)
      → IsIntegral a.config a.integrator
      → IsBoundedStep a (step a now)
  unfolding step
  step-IsBoundedStep a now i = command_step-IsBoundedStep a a.command a.command_time now i

  -- A change of the configuration that keeps the bound, with the integrator kept or cleared.
  commit-IsIntegral :
      (a : DriveAdapter F) (us : List (Parameter × Value F)) (c : AdapterConfig F)
      (e : Option BadConfig)
      → IsIntegral a.config a.integrator
      → c.integrator_bound ≡ a.config.integrator_bound
      → IsIntegral (commit a us c e).0.config (commit a us c e).0.integrator
  commit-IsIntegral a us c (some e) i q = i
  commit-IsIntegral a us c none i q =
      if_both (λ (t : DriveAdapter F × Option Refusal). IsIntegral t.0.config t.0.integrator)
        (any (λ (u : Parameter × Value F). is_integral u.0) us) (λ r. inl refl)
        (λ r. subst (λ b. (a.integrator ≡ zero_f) ⊎ IsWithin (fl.neg b) b a.integrator) (sym q) i)

  live-IsIntegral :
      (p : Policy F) (a : DriveAdapter F) (us : List (Parameter × Value F))
      → IsIntegral a.config a.integrator
      → IsIntegral (set_live_parameters p a us).0.config (set_live_parameters p a us).0.integrator
  unfolding set_live_parameters
  live-IsIntegral p a us i =
      let P : DriveAdapter F × Option Refusal → Type 0 =
        λ t. IsIntegral t.0.config t.0.integrator in
      if_both P (any (λ (u : Parameter × Value F). is_unsupported u.0) us) (λ q. i)
        (λ q.
          if_both P (any (λ (u : Parameter × Value F). is_other u.1) us) (λ r. i)
            (λ r.
              commit-IsIntegral a us (merge a.config us) (post_init p (merge a.config us)) i
                (merge-IsSameVehicle a.config us).7))

  call-IsIntegral :
      (p : Policy F) (a : DriveAdapter F) (k : Call F) (now : F)
      → IsIntegral a.config a.integrator
      → IsIntegral (call p a k now).config (call p a k now).integrator
  unfolding call
  call-IsIntegral p a (command s y) now i = unfold update_command in i
  call-IsIntegral p a (manual_command s y) now i = unfold update_manual_command in i
  call-IsIntegral p a invalidate now i = unfold invalidate_command in i
  call-IsIntegral p a (motion s) now i = unfold update_motion in i
  call-IsIntegral p a (mode t) now i = unfold update_active_mode in i
  call-IsIntegral p a (encoder r d s) now i = unfold update_encoder in i
  call-IsIntegral p a (adapter_output l n) now i = unfold update_adapter_output in i
  call-IsIntegral p a (mux_output l n) now i = unfold update_mux_output in i
  call-IsIntegral p a (live us) now i = live-IsIntegral p a us i
  call-IsIntegral p a cycle now i =
      subst (λ c. IsIntegral c (step a now).0.integrator) (sym (config-step a now))
        (step-IsBoundedStep a now i).2
  call-IsIntegral p a stopped now i = unfold shutdown in i

  run-IsIntegral :
      (p : Policy F) (a : DriveAdapter F) (calls : List (Call F × F))
      → IsIntegral a.config a.integrator
      → IsIntegral (run p a calls).config (run p a calls).integrator
  unfolding run
  run-IsIntegral p a [] i = i
  run-IsIntegral p a ((k, now) ∷ rest) i =
      run-IsIntegral p (call p a k now) rest (call-IsIntegral p a k now i)

  -- From any configuration, and after any calls with any clock and any values, numbers or not: every
  -- cycle commands a throttle that is zero, or plus or minus a magnitude that is one of the output
  -- limits or strictly between them; a steering that is zero, -1 or 1, or strictly between these two;
  -- and it leaves the integrator zero, at its bound on one side, or strictly between both sides.
  pub run-IsBoundedStep :
      (p : Policy F) (c : AdapterConfig F) (calls : List (Call F × F)) (now : F)
      → IsBoundedStep (run p (init c) calls) (step (run p (init c) calls) now)
  unfolding init
  run-IsBoundedStep p c calls now =
      step-IsBoundedStep (run p (init c) calls) now (run-IsIntegral p (init c) calls (inl refl))
