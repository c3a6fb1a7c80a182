-- ===== src/MotorDriver/Drive.antt =====
-- The drive register of `defaultMotionControl`.
use quad_bot_code_actuation.Prelude.{
  ℕ, ◌/◌, ◌%◌, ◌≡◌, Bool, true, false, arith, if◌then◌else◌, ◌==◌,
}
use quad_bot_code_actuation.MotorDriver.{drive_value}

-- What bits 6 and 7 are set to: 0 for always on, 1 for off, 2 for PWM0 and 3 for PWM1.
abbrev pub mode : ℕ → ℕ
mode level = if level == 3 then 0 else if level == 2 then 3 else if level == 1 then 2 else 1

abbrev pub code : Bool → ℕ
code direction = if direction then 0x04 else 0x11

-- The drive register holds the mode of the level in its top two bits and the code of the direction in
-- the other six; levels above 3 are off, as level 0 is.
pub drive_value_lem :
    (level : ℕ) (direction : Bool)
    → (drive_value level direction / 64 ≡ mode level)
      × (drive_value level direction % 64 ≡ code direction)
unfolding drive_value
drive_value_lem level true = ground arith
drive_value_lem level false = ground arith
