-- ===== src/DriveAdapter/Output.antt =====
-- When the drive adapter drives, and the bounds of what it commands.
use ros_pre_runner.Prelude.{◌≡◌, ◌↔◌, Bool, true, false, Option, some}
use ros_pre_runner.Prelude.Float.{Float, zero_f}
use ros_pre_runner.DriveAdapter.State.{DriveAdapter}
use ros_pre_runner.DriveAdapter.Control.{DriveMode, silence, forward, reverse}

abbrev pub is_driving : DriveMode → Bool
is_driving forward = true
is_driving reverse = true
is_driving _ = false

abbrev pub is_silent : DriveMode → Bool
is_silent silence = true
is_silent _ = false

module _ {F : Type 0} ⦃fl : Float F⦄ where
  abbrev FreshIn : F → Option (F × F) → Option F → F → F × F → Type 0
  FreshIn timeout command at now c =
      (command ≡ some c) × ((t : F) × (at ≡ some t) × (fl.lt timeout (fl.sub now t) ≡ false))

  -- A command that was received no longer than the timeout ago.
  abbrev pub IsFresh : DriveAdapter F → F → F × F → Type 0
  IsFresh a now c = FreshIn a.config.cmd_vel_nav_timeout a.command a.command_time now c

  -- Two finite numbers, of which the speed is not zero.
  abbrev pub IsMotion : F × F → Type 0
  IsMotion (speed, demand) =
      (fl.is_finite speed ≡ true) × (fl.is_finite demand ≡ true) × (fl.eq speed zero_f ≡ false)

  -- What the decision on a command that may be missing or stale says.
  abbrev IsExact : DriveAdapter F → Option (F × F) → Option F → F → DriveMode → Bool → Type 0
  IsExact a command at now m publish =
      let timeout = a.config.cmd_vel_nav_timeout in
      ((is_driving m ≡ true) ↔ ((c : F × F) × FreshIn timeout command at now c × IsMotion c))
      × ((is_silent m ≡ false) ↔ ((c : F × F) × FreshIn timeout command at now c))
      × ((publish ≡ true) ↔ ((c : F × F) × FreshIn timeout command at now c))
