-- ===== src/DriveAdapter/Live.antt =====
-- `DriveAdapter.set_live_parameters` of
-- src/runner_drive_adapter/runner_drive_adapter/drive_adapter.py: checked changes of the configuration.
use ros_pre_runner.Prelude.{
  String, Bool, true, false, Option, none, some, List, [], ◌∷◌, if◌then◌else◌, any,
}
use ros_pre_runner.Prelude.Float.{Float, zero_f}
use ros_pre_runner.DriveAdapter.Config.{AdapterConfig, Policy, BadConfig, post_init}
use ros_pre_runner.DriveAdapter.State.{DriveAdapter}

-- A keyword of `set_live_parameters`: a live tunable one, or another.
pub data Parameter : Type 0 where
  maximum_commanded_speed feedforward_effort_per_speed feedforward_effort_intercept : Parameter
  output_max proportional_gain integral_gain : Parameter
  unsupported : String → Parameter

-- Its value: a float, or a value of another type.
pub data Value (F : Type 0) : Type 0 where
  double : F → Value F
  other : Value F

pub data Refusal : Type 0 where
  not_live_tunable not_a_double : Refusal
  bad_config : BadConfig → Refusal

abbrev pub is_unsupported : Parameter → Bool
is_unsupported (unsupported name) = true
is_unsupported _ = false

abbrev pub is_integral : Parameter → Bool
is_integral integral_gain = true
is_integral _ = false

module _ {F : Type 0} where
  abbrev pub is_other : Value F → Bool
  is_other other = true
  is_other (double v) = false

  unfoldable pub update_config : AdapterConfig F → Parameter → Value F → AdapterConfig F
  update_config c maximum_commanded_speed (double v) = record c { maximum_commanded_speed = v }
  update_config c feedforward_effort_per_speed (double v) = record c {
    feedforward_effort_per_speed = v;
  }
  update_config c feedforward_effort_intercept (double v) = record c {
    feedforward_effort_intercept = v;
  }
  update_config c output_max (double v) = record c { output_max = v }
  update_config c proportional_gain (double v) = record c { proportional_gain = v }
  update_config c integral_gain (double v) = record c { integral_gain = v }
  update_config c _ _ = c

  -- `{**self.config.__dict__, **updates}`
  unfoldable pub merge : AdapterConfig F → List (Parameter × Value F) → AdapterConfig F
  unfolding update_config
  merge c [] = c
  merge c ((p, v) ∷ rest) = merge (update_config c p v) rest

module _ {F : Type 0} ⦃fl : Float F⦄ where
  abbrev pub commit :
      DriveAdapter F
      → List (Parameter × Value F)
      → AdapterConfig F
      → Option BadConfig
      → DriveAdapter F × Option Refusal
  commit a updates candidate (some e) = (a, some (bad_config e))
  commit a updates candidate none =
      if any (λ u. is_integral u.0) updates
      then (
        record a { config = candidate; integrator = zero_f; previous_encoder_sample_time = none },
        none,
      )
      else (record a { config = candidate }, none)

  -- The new attributes, and the exception if one is raised.
  unfoldable pub set_live_parameters :
      Policy F → DriveAdapter F → List (Parameter × Value F) → DriveAdapter F × Option Refusal
  unfolding post_init merge
  set_live_parameters p a updates =
      if any (λ u. is_unsupported u.0) updates
      then (a, some not_live_tunable)
      else if any (λ u. is_other u.1) updates
      then (a, some not_a_double)
      else commit a updates (merge a.config updates) (post_init p (merge a.config updates))
