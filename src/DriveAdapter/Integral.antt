-- ===== src/DriveAdapter/Integral.antt =====
-- When the drive adapter may change its integrator.
use ros_pre_runner.Prelude.{
  ◌&&◌, ◌≡◌, refl, ◌≢◌, true, false, not, ◌||◌, Option, none, some, if_both, Bool-cases, inl, inr,
  arith,
}
use ros_pre_runner.Prelude.Float.{Float, zero_f}
use ros_pre_runner.DriveAdapter.Config.{AdapterConfig}
use ros_pre_runner.DriveAdapter.State.{DriveAdapter, is_older}
use ros_pre_runner.DriveAdapter.Control.{
  AdapterDecision, IntegratorFreezeReason, not_frozen, is_not_frozen, direction_of, same_direction,
  integration_timeout, arbitration_is_available, adapter_output_is_selected, wheelspin_guard,
  measured_speed_of, freeze_reason_of, integrate, saturation, drives_farther, candidate, drive,
  fresh_step, command_step, step,
}
use ros_pre_runner.DriveAdapter.Output.{IsMotion}

module _ {F : Type 0} ⦃fl : Float F⦄ where
  -- What the integration asks for: recent and finite feedback of the wheels, no wheelspin, wheels that
  -- turn the way of the command, and an output that the multiplexer recently selected.
  pub record IsIntegrating (a : DriveAdapter F) (now speed : F) : Type 0 where
    pub recent : is_older a.encoder_time (integration_timeout a) now ≡ false
    pub finite : fl.is_finite a.encoder_edge_rate ≡ true
    pub gripping : (wheelspin_guard a now (measured_speed_of a)).1 ≡ false
    pub aligned : same_direction a.pending_direction (direction_of (fl.lt zero_f speed)) ≡ true
    pub arbitrated : arbitration_is_available a now ≡ true
    pub selected : adapter_output_is_selected a ≡ true

  -- No windup: an output above the greatest does not go with an error that asks for more, nor one
  -- below the least with an error that asks for less.
  abbrev pub IsUnwound : AdapterConfig F → F → F → Type 0
  IsUnwound c output error =
      ((fl.lt c.output_max output && fl.lt zero_f error) ≡ false)
      × ((not (fl.lt c.output_max output) && (fl.lt output c.output_min && fl.lt error zero_f))
          ≡ false)

  -- The output that a cycle asks for with the integrator it leaves.
  abbrev pub IsUnwoundStep : AdapterConfig F → DriveAdapter F × AdapterDecision F → Type 0
  IsUnwoundStep c (b, d) =
      IsUnwound c (fl.add (fl.add d.feedforward_throttle d.proportional_term) b.integrator)
        d.speed_error

  unwound :
      (c : AdapterConfig F) (output error : F)
      → drives_farther (saturation c output) error ≡ false
      → IsUnwound c output error
  unfolding saturation
  unwound c output error = ground arith

  integrate-IsUnwound :
      (a : DriveAdapter F) (base error : F) (dt : Option F) (reason : IntegratorFreezeReason)
      → (integrate a base error dt reason).0 ≢ a.integrator
      → IsUnwound a.config (fl.add base (integrate a base error dt reason).0) error
  unfolding integrate
  integrate-IsUnwound a base error none not_frozen n = absurd (n refl)
  integrate-IsUnwound a base error (some dt) not_frozen n =
      if_both
        (λ (t : F × IntegratorFreezeReason).
          t.0 ≢ a.integrator → IsUnwound a.config (fl.add base t.0) error)
        (drives_farther (saturation a.config (fl.add base (candidate a error dt))) error)
        (λ p m. absurd (m refl)) (λ p m. unwound a.config _ error p) n
  integrate-IsUnwound a base error dt reason n = absurd (n refl)

  integrate-frozen :
      (a : DriveAdapter F) (base error : F) (dt : Option F) (reason : IntegratorFreezeReason)
      → is_not_frozen reason ≡ false
      → (integrate a base error dt reason).0 ≡ a.integrator
  unfolding integrate
  integrate-frozen a base error dt not_frozen h = absurd (cc)
  integrate-frozen a base error dt reason h = refl

  not_frozen-IsIntegrating :
      (a : DriveAdapter F) (now speed : F)
      → is_not_frozen (freeze_reason_of a now speed (wheelspin_guard a now (measured_speed_of a)).1)
        ≡ true
      → IsIntegrating a now speed
  unfolding freeze_reason_of
  not_frozen-IsIntegrating a now speed h = ground arith

  drive-integrates :
      (a : DriveAdapter F) (speed demand now : F)
      → (drive a speed demand now).0.integrator ≢ a.integrator
      → IsIntegrating a now speed × IsUnwoundStep a.config (drive a speed demand now)
  unfolding drive
  drive-integrates a speed demand now n =
      let reason = freeze_reason_of a now speed (wheelspin_guard a now (measured_speed_of a)).1 in
      (
        elim (Bool-cases (is_not_frozen reason)) [
          | inl free ↦ not_frozen-IsIntegrating a now speed free
          | inr frozen ↦ absurd (n (integrate-frozen a _ _ _ reason frozen))
        ],
        integrate-IsUnwound a _ _ _ reason n,
      )

  fresh_step-integrates :
      (a : DriveAdapter F) (speed demand now : F)
      → (fresh_step a speed demand now).0.integrator ≢ a.integrator
      → IsMotion (speed, demand)
        × IsIntegrating a now speed
        × IsUnwoundStep a.config (fresh_step a speed demand now)
  unfolding fresh_step
  fresh_step-integrates a speed demand now =
      let P : DriveAdapter F × AdapterDecision F → Type 0 = λ t.
        t.0.integrator ≢ a.integrator
        → IsMotion (speed, demand) × IsIntegrating a now speed × IsUnwoundStep a.config t in
      if_both P (not (fl.is_finite speed) || not (fl.is_finite demand)) (λ q n. absurd (n refl))
        (λ q.
          if_both P (fl.eq speed zero_f) (λ r n. absurd (n refl))
            (λ r n.
              let (i, u) = drive-integrates a speed demand now n in
              ((ground arith, ground arith, r), i, u)))

  command_step-integrates :
      (a : DriveAdapter F) (command : Option (F × F)) (at : Option F) (now : F)
      → (command_step a command at now).0.integrator ≢ a.integrator
      → (c : F × F) × (command ≡ some c)
        × IsMotion c
        × IsIntegrating a now c.0
        × IsUnwoundStep a.config (command_step a command at now)
  unfolding command_step
  command_step-integrates a none at now = λ n. absurd (n refl)
  command_step-integrates a (some c) none now = λ n. absurd (n refl)
  command_step-integrates a (some (speed, demand)) (some at) now =
      if_both
        (λ (t : DriveAdapter F × AdapterDecision F).
          t.0.integrator ≢ a.integrator
          → (c : F × F) × (◌≡◌ {A = Option (F × F)} (some (speed, demand)) (some c))
            × IsMotion c
            × IsIntegrating a now c.0
            × IsUnwoundStep a.config t)
        (fl.lt a.config.cmd_vel_nav_timeout (fl.sub now at)) (λ q n. absurd (n refl))
        (λ q n.
          let (m, i, u) = fresh_step-integrates a speed demand now n in
          ((speed, demand), refl, m, i, u))

  -- No windup: a cycle changes the integrator only under a command of two finite numbers whose speed
  -- is not zero, with recent and finite feedback of the wheels, without wheelspin, while the wheels
  -- turn the way of the command and the multiplexer selects the adapter's own output; and with the
  -- integrator that it leaves, the output (feedforward, proportional and integral term) is not above
  -- the greatest while the speed error is above zero, nor below the least while it is below zero.
  pub step-integrates :
      (a : DriveAdapter F) (now : F)
      → (step a now).0.integrator ≢ a.integrator
      → (c : F × F) × (a.command ≡ some c)
        × IsMotion c
        × IsIntegrating a now c.0
        × IsUnwoundStep a.config (step a now)
  unfolding step
  step-integrates a now n = command_step-integrates a a.command a.command_time now n
