-- ===== src/DriveAdapter/Limits.antt =====
-- The limits that live changes of the drive adapter cannot break.
use ros_pre_runner.Prelude.{
  ◌≡◌, refl, sym, ◌∙◌, Bool, true, false, not, ◌||◌, Option, none, some, List, [], ◌∷◌, if_both,
  any,
}
use ros_pre_runner.Prelude.Float.{Float, zero_f}
use mathlib.Core.Path.{subst}
use ros_pre_runner.DriveAdapter.Config.{
  AdapterConfig, Policy, BadConfig, unless, values, feedforward_at, check_drive, post_init,
}
use ros_pre_runner.DriveAdapter.State.{
  DriveAdapter, update_command, update_manual_command, invalidate_command, update_motion,
  update_active_mode, update_encoder, update_adapter_output, update_mux_output, shutdown,
}
use ros_pre_runner.DriveAdapter.Control.{step, command_step, fresh_step, drive, AdapterDecision}
use ros_pre_runner.DriveAdapter.Calls.{
  Call, call, run, command, manual_command, invalidate, motion, mode, encoder, adapter_output,
  mux_output, live, cycle, stopped,
}
use ros_pre_runner.DriveAdapter.Live.{
  merge, update_config, Parameter, Value, double, other, Refusal, commit, set_live_parameters,
  maximum_commanded_speed, feedforward_effort_per_speed, feedforward_effort_intercept, output_max,
  proportional_gain, integral_gain, unsupported, is_unsupported, is_integral, is_other,
}

unless-none :
    (b : Bool) (e : BadConfig) (rest : Option BadConfig)
    → unless b e rest ≡ none
    → (b ≡ false) × (rest ≡ none)
unfolding unless
unless-none true e rest h = absurd (cc)
unless-none false e rest h = (refl, h)

or_false : (a b : Bool) → (a || b) ≡ false → a ≡ false
or_false true b h = absurd (cc)
or_false false b h = refl

module _ {F : Type 0} where
  -- What is no live parameter: geometry, the slowest speed, the timeouts and the
  -- integrator's bound.
  abbrev pub IsSameVehicle : AdapterConfig F → AdapterConfig F → Type 0
  IsSameVehicle c d =
      (c.wheelbase ≡ d.wheelbase)
      × (c.max_steering_angle ≡ d.max_steering_angle)
      × (c.minimum_moving_speed ≡ d.minimum_moving_speed)
      × (c.motion_signal_timeout_sec ≡ d.motion_signal_timeout_sec)
      × (c.encoder_state_timeout_sec ≡ d.encoder_state_timeout_sec)
      × (c.cmd_vel_nav_timeout ≡ d.cmd_vel_nav_timeout)
      × (c.active_mode_timeout_sec ≡ d.active_mode_timeout_sec)
      × (c.integrator_bound ≡ d.integrator_bound)

  same-IsSameVehicle : (c : AdapterConfig F) → IsSameVehicle c c
  same-IsSameVehicle c = (refl, refl, refl, refl, refl, refl, refl, refl)

  update_config-IsSameVehicle :
      (c : AdapterConfig F) (q : Parameter) (v : Value F) → IsSameVehicle (update_config c q v) c
  unfolding update_config
  update_config-IsSameVehicle c maximum_commanded_speed (double v) = same-IsSameVehicle c
  update_config-IsSameVehicle c feedforward_effort_per_speed (double v) = same-IsSameVehicle c
  update_config-IsSameVehicle c feedforward_effort_intercept (double v) = same-IsSameVehicle c
  update_config-IsSameVehicle c output_max (double v) = same-IsSameVehicle c
  update_config-IsSameVehicle c proportional_gain (double v) = same-IsSameVehicle c
  update_config-IsSameVehicle c integral_gain (double v) = same-IsSameVehicle c
  update_config-IsSameVehicle c (unsupported n) (double v) = same-IsSameVehicle c
  update_config-IsSameVehicle c maximum_commanded_speed other = same-IsSameVehicle c
  update_config-IsSameVehicle c feedforward_effort_per_speed other = same-IsSameVehicle c
  update_config-IsSameVehicle c feedforward_effort_intercept other = same-IsSameVehicle c
  update_config-IsSameVehicle c output_max other = same-IsSameVehicle c
  update_config-IsSameVehicle c proportional_gain other = same-IsSameVehicle c
  update_config-IsSameVehicle c integral_gain other = same-IsSameVehicle c
  update_config-IsSameVehicle c (unsupported n) other = same-IsSameVehicle c

  trans-IsSameVehicle :
      (c d e : AdapterConfig F) → IsSameVehicle c d → IsSameVehicle d e → IsSameVehicle c e
  trans-IsSameVehicle c d e (a, b, f, g, h, i, j, k) (a', b', f', g', h', i', j', k') =
      (a ∙ a', b ∙ b', f ∙ f', g ∙ g', h ∙ h', i ∙ i', j ∙ j', k ∙ k')

  pub merge-IsSameVehicle :
      (c : AdapterConfig F) (us : List (Parameter × Value F)) → IsSameVehicle (merge c us) c
  unfolding merge
  merge-IsSameVehicle c [] = same-IsSameVehicle c
  merge-IsSameVehicle c ((q, v) ∷ us) =
      trans-IsSameVehicle (merge (update_config c q v) us) (update_config c q v) c
        (merge-IsSameVehicle (update_config c q v) us) (update_config-IsSameVehicle c q v)

module _ {F : Type 0} ⦃fl : Float F⦄ where
  -- All parameters are finite, the speeds are in order and within the policy, and so is the output,
  -- which is enough for the feedforward of the highest speed.
  abbrev pub IsLimited : Policy F → AdapterConfig F → Type 0
  IsLimited p c =
      (any (λ v. not (fl.is_finite v)) (values c) ≡ false)
      × (fl.lt c.maximum_commanded_speed c.minimum_moving_speed ≡ false)
      × (fl.lt p.maximum_commanded_speed_limit c.maximum_commanded_speed ≡ false)
      × (fl.lt p.maximum_output_authority c.output_max ≡ false)
      × (fl.lt c.output_max (feedforward_at c c.maximum_commanded_speed) ≡ false)

  check_drive-reach :
      (c : AdapterConfig F)
      → check_drive c ≡ none
      → fl.lt c.output_max (feedforward_at c c.maximum_commanded_speed) ≡ false
  unfolding check_drive
  check_drive-reach c h = (unless-none _ _ _ (unless-none _ _ _ h).1).0

  post_init-IsLimited : (p : Policy F) (c : AdapterConfig F) → post_init p c ≡ none → IsLimited p c
  unfolding post_init
  post_init-IsLimited p c h =
      let (finite, h2) = unless-none _ _ _ h in
      let (positive, h3) = unless-none _ _ _ h2 in
      let (angle, h4) = unless-none _ _ _ h3 in
      let (gain, h5) = unless-none _ _ _ h4 in
      let (range, h6) = unless-none _ _ _ h5 in
      let (limit, h7) = unless-none _ _ _ h6 in
      let (zero_min, h8) = unless-none _ _ _ h7 in
      let (authority, h9) = unless-none _ _ _ h8 in
      (finite, range, limit, or_false _ _ authority, check_drive-reach c h9)

  abbrev pub Kept : Policy F → DriveAdapter F → DriveAdapter F × Option Refusal → Type 0
  Kept p a (b, r) = (post_init p b.config ≡ none) × IsSameVehicle b.config a.config

  commit-Kept :
      (p : Policy F) (a : DriveAdapter F) (us : List (Parameter × Value F)) (c : AdapterConfig F)
      → post_init p a.config ≡ none
      → IsSameVehicle c a.config
      → (o : Option BadConfig) → post_init p c ≡ o
      → Kept p a (commit a us c o)
  commit-Kept p a us c h s none q =
      if_both (Kept p a) (any (λ (u : Parameter × Value F). is_integral u.0) us) (λ r. (q, s))
        (λ r. (q, s))
  commit-Kept p a us c h s (some e) q = (h, same-IsSameVehicle a.config)

  set_live_parameters-Kept :
      (p : Policy F) (a : DriveAdapter F) (us : List (Parameter × Value F))
      → post_init p a.config ≡ none
      → Kept p a (set_live_parameters p a us)
  unfolding set_live_parameters
  set_live_parameters-Kept p a us h =
      if_both (Kept p a) (any (λ (u : Parameter × Value F). is_unsupported u.0) us)
        (λ q. (h, same-IsSameVehicle a.config))
        (λ q.
          if_both (Kept p a) (any (λ (u : Parameter × Value F). is_other u.1) us)
            (λ r. (h, same-IsSameVehicle a.config))
            (λ r.
              commit-Kept p a us (merge a.config us) h (merge-IsSameVehicle a.config us)
                (post_init p (merge a.config us)) refl))

  config-fresh_step :
      (a : DriveAdapter F) (speed demand now : F)
      → (fresh_step a speed demand now).0.config ≡ a.config
  unfolding fresh_step
  config-fresh_step a speed demand now =
      let P : DriveAdapter F × AdapterDecision F → Type 0 = λ t. t.0.config ≡ a.config in
      if_both P (not (fl.is_finite speed) || not (fl.is_finite demand)) (λ q. refl)
        (λ q. if_both P (fl.eq speed zero_f) (λ r. refl) (λ r. unfold drive in refl))

  config-command_step :
      (a : DriveAdapter F) (c : Option (F × F)) (at : Option F) (now : F)
      → (command_step a c at now).0.config ≡ a.config
  unfolding command_step
  config-command_step a none at now = refl
  config-command_step a (some c) none now = refl
  config-command_step a (some (speed, demand)) (some at) now =
      if_both (λ (t : DriveAdapter F × AdapterDecision F). t.0.config ≡ a.config)
        (fl.lt a.config.cmd_vel_nav_timeout (fl.sub now at)) (λ q. refl)
        (λ q. config-fresh_step a speed demand now)

  -- A cycle leaves the configuration alone.
  pub config-step : (a : DriveAdapter F) (now : F) → (step a now).0.config ≡ a.config
  unfolding step
  config-step a now = config-command_step a a.command a.command_time now

  same_config-Kept :
      (p : Policy F) (a b : DriveAdapter F)
      → b.config ≡ a.config
      → post_init p a.config ≡ none
      → Kept p a (b, none)
  same_config-Kept p a b e h =
      subst (λ c. (post_init p c ≡ none) × IsSameVehicle c a.config) (sym e)
        (h, same-IsSameVehicle a.config)

  pub call-Kept :
      (p : Policy F) (a : DriveAdapter F) (k : Call F) (now : F)
      → post_init p a.config ≡ none
      → Kept p a (call p a k now, none)
  unfolding call
  call-Kept p a (command s y) now h = unfold update_command in (h, same-IsSameVehicle a.config)
  call-Kept p a (manual_command s y) now h =
      unfold update_manual_command in (h, same-IsSameVehicle a.config)
  call-Kept p a invalidate now h = unfold invalidate_command in (h, same-IsSameVehicle a.config)
  call-Kept p a (motion s) now h = unfold update_motion in (h, same-IsSameVehicle a.config)
  call-Kept p a (mode t) now h = unfold update_active_mode in (h, same-IsSameVehicle a.config)
  call-Kept p a (encoder r d s) now h = unfold update_encoder in (h, same-IsSameVehicle a.config)
  call-Kept p a (adapter_output l n) now h =
      unfold update_adapter_output in (h, same-IsSameVehicle a.config)
  call-Kept p a (mux_output l n) now h =
      unfold update_mux_output in (h, same-IsSameVehicle a.config)
  call-Kept p a (live updates) now h = set_live_parameters-Kept p a updates h
  call-Kept p a cycle now h = same_config-Kept p a (step a now).0 (config-step a now) h
  call-Kept p a stopped now h = unfold shutdown in (h, same-IsSameVehicle a.config)

  pub run-Kept :
      (p : Policy F) (a : DriveAdapter F) (calls : List (Call F × F))
      → post_init p a.config ≡ none
      → Kept p a (run p a calls, none)
  unfolding run
  run-Kept p a [] h = (h, same-IsSameVehicle a.config)
  run-Kept p a ((k, now) ∷ rest) h =
      let b = call p a k now in
      let (v, s) = call-Kept p a k now h in
      let (v', s') = run-Kept p b rest v in
      (v', trans-IsSameVehicle (run p b rest).config b.config a.config s' s)

  -- From a configuration that passed its checks, no calls in any order, live changes of whatever
  -- names and values included, break the limits, and none changes the geometry, the slowest speed,
  -- a timeout or the integrator's bound.
  pub run-IsLimited :
      (p : Policy F) (a : DriveAdapter F) (calls : List (Call F × F))
      → post_init p a.config ≡ none
      → IsLimited p (run p a calls).config × IsSameVehicle (run p a calls).config a.config
  run-IsLimited p a calls h =
      let (v, s) = run-Kept p a calls h in (post_init-IsLimited p (run p a calls).config v, s)

  commit-refused :
      (a : DriveAdapter F) (us : List (Parameter × Value F)) (c : AdapterConfig F)
      (o : Option BadConfig) (r : Refusal)
      → (commit a us c o).1 ≡ some r
      → (commit a us c o).0 ≡ a
  commit-refused a us c (some e) r = λ h. refl
  commit-refused a us c none r =
      if_both (λ (t : DriveAdapter F × Option Refusal). t.1 ≡ some r → t.0 ≡ a)
        (any (λ (u : Parameter × Value F). is_integral u.0) us) (λ q h. absurd (cc))
        (λ q h. absurd (cc))

  -- A refused change is refused as a whole: it leaves the configuration and the integrator alone.
  refused-unchanged :
      (p : Policy F) (a : DriveAdapter F) (us : List (Parameter × Value F)) (r : Refusal)
      → (set_live_parameters p a us).1 ≡ some r
      → (set_live_parameters p a us).0 ≡ a
  unfolding set_live_parameters
  refused-unchanged p a us r =
      let P : DriveAdapter F × Option Refusal → Type 0 = λ t. t.1 ≡ some r → t.0 ≡ a in
      if_both P (any (λ (u : Parameter × Value F). is_unsupported u.0) us) (λ q h. refl)
        (λ q.
          if_both P (any (λ (u : Parameter × Value F). is_other u.1) us) (λ s h. refl)
            (λ s. commit-refused a us (merge a.config us) (post_init p (merge a.config us)) r))
