-- ===== src/MotorDriver.antt =====
-- Quadruped_Bot_Actuation_Code/src/MotorDriver_LP3943.cpp: the motor drivers, one behind each channel
-- of the I2C multiplexer. Chip addresses, speeds and channels are bytes.
pub mod Registers
pub mod Operations
pub mod Commands
pub mod Order
pub mod Misdirected
pub mod Reads
pub mod Drive
pub mod Frames
mod Tests
use quad_bot_code_actuation.Prelude.{
  ℕ, ◌-◌, Bool, List, [], ◌∷◌, bit_and, bit_or, shr, ◌==◌, if◌then◌else◌,
}
use quad_bot_code_actuation.Prelude.Int.{pos}
use quad_bot_code_actuation.Float.{Float, binary32, literal, of_int, mul, div}
use quad_bot_code_actuation.Board.{delay, M, pure, ◌>>=◌, ◌>>◌, done, call}
use quad_bot_code_actuation.Board.Traffic.{i2c_mux_address}
use quad_bot_code_actuation.I2c.{i2c_wr_register, i2c_rd_register}
use quad_bot_code_actuation.I2cMux.{i2c_select_channel}

abbrev pub init_registers : List ℕ
init_registers = 0x02 ∷ 0x03 ∷ 0x04 ∷ 0x07 ∷ []

abbrev pub init_values : List ℕ
init_values = 0x00 ∷ 0x80 ∷ 0x00 ∷ 0x55 ∷ []

-- The loop of `motorDriverInit` over both arrays.
unfoldable pub write_all : ℕ → List ℕ → List ℕ → M (Unit {0})
unfolding i2c_wr_register
write_all chip [] vs = done
write_all chip (r ∷ rs) [] = done
write_all chip (r ∷ rs) (v ∷ vs) = do i2c_wr_register chip r v; call (delay 2); write_all chip rs vs

unfoldable pub motor_driver_init : ℕ → ℕ → M (Unit {0})
unfolding i2c_select_channel write_all
motor_driver_init channel chip = do
  i2c_select_channel i2c_mux_address channel
  write_all chip init_registers init_values

unfoldable pub motor_driver_reg_control : ℕ → ℕ → Bool → M (Unit {0})
unfolding i2c_select_channel i2c_wr_register
motor_driver_reg_control channel chip enable = do
  i2c_select_channel i2c_mux_address channel
  if enable
      then (do i2c_wr_register chip 0x08 0x15; i2c_wr_register chip 0x08 0x05)
      else i2c_wr_register chip 0x08 0x00

unfoldable pub variable_motion_control : ℕ → ℕ → ℕ → Bool → M (Unit {0})
unfolding i2c_select_channel i2c_wr_register
variable_motion_control channel chip speed direction = do
  i2c_select_channel i2c_mux_address channel
  i2c_wr_register chip 0x05 (255 - speed)
  if direction then i2c_wr_register chip 0x07 0xc4 else i2c_wr_register chip 0x07 0xd1

unfoldable pub set_motion_control : ℕ → ℕ → ℕ → ℕ → M (Unit {0})
unfolding i2c_select_channel i2c_wr_register
set_motion_control channel chip speed_one speed_two = do
  i2c_select_channel i2c_mux_address channel
  i2c_wr_register chip 0x03 (255 - speed_one)
  i2c_wr_register chip 0x05 (255 - speed_two)

-- Bits 6 and 7 of the drive register: off, PWM0, PWM1 or full on.
unfoldable pub speed_bits : ℕ → ℕ
speed_bits level =
    if level == 3
    then 0b0000_0000
    else if level == 2
    then 0b1100_0000
    else if level == 1
    then 0b1000_0000
    else 0b0100_0000

unfoldable pub drive_value : ℕ → Bool → ℕ
unfolding speed_bits
drive_value level direction =
    let direction_code : ℕ = if direction then 0x04 else 0x11 in
    bit_or (speed_bits level) (bit_and direction_code 0x3f)

unfoldable pub default_motion_control : ℕ → ℕ → ℕ → Bool → M (Unit {0})
unfolding i2c_select_channel i2c_wr_register drive_value
default_motion_control channel chip level direction = do
  i2c_select_channel i2c_mux_address channel
  i2c_wr_register chip 0x07 (drive_value level direction)

unfoldable pub motor_driver_stop : ℕ → ℕ → M (Unit {0})
unfolding i2c_select_channel i2c_wr_register
motor_driver_stop channel chip = do
  i2c_select_channel i2c_mux_address channel
  i2c_wr_register chip 0x07 0x55

unfoldable pub read_limit_triggers : ℕ → ℕ → ℕ → M ℕ
unfolding i2c_select_channel i2c_rd_register
read_limit_triggers polls channel chip = do
  i2c_select_channel i2c_mux_address channel
  v ← i2c_rd_register polls chip 0x00
  pure (bit_and 0b0000_1111 v)

-- `(raw / 31.0f) * 6.1467f`
unfoldable pub to_amperes : ℕ → Float
unfolding mul div
to_amperes raw =
    mul binary32 (div binary32 (of_int binary32 (pos raw)) (literal binary32 31 1))
      (literal binary32 61467 10000)

unfoldable pub read_current_estimate : ℕ → ℕ → ℕ → M Float
unfolding i2c_select_channel i2c_rd_register to_amperes
read_current_estimate polls channel chip = do
  i2c_select_channel i2c_mux_address channel
  v ← i2c_rd_register polls chip 0x01
  pure (to_amperes (shr (bit_and v 0b1111_1000) 3))
