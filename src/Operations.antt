-- ===== src/Operations.antt =====
-- The firmware's operations, each under the part of it that it belongs to.
use quad_bot_code_actuation.Prelude.{ℕ, Bool, Option, CString}
use quad_bot_code_actuation.Prelude.Int.{ℤ}
use quad_bot_code_actuation.Float.{Float}
use quad_bot_code_actuation.Board.{M}
use quad_bot_code_actuation.Board.Frames.{Part, motors, encoders, battery, signal, power}
use quad_bot_code_actuation.Board.Pins.{level}
use quad_bot_code_actuation.MotorDriver.{
  motor_driver_init, motor_driver_reg_control, variable_motion_control, set_motion_control,
  default_motion_control, motor_driver_stop, read_limit_triggers, read_current_estimate,
}
use quad_bot_code_actuation.Encoder.{read_encoder_position, read_turns, reset_encoder}
use quad_bot_code_actuation.Bms.Core.{
  bms_address, set_bms_conversion_state, read_bms_data, write_bms_data, on_bms_ready_rise,
  is_bms_data_valid,
}
use quad_bot_code_actuation.Bms.Setup.{
  send_bms_config_command, rw_bms_nvm, send_bms_identity_command, send_bms_real_time_command,
}
use quad_bot_code_actuation.Bms.Numerical.{send_bms_numerical_command}
use quad_bot_code_actuation.Bms.Read.{
  CoulombCountResult, read_v_cell1, read_v_cell2, read_v_cell3, read_v_cell4, read_v_cell5,
  read_v_cell_sum, read_vb, read_ntc_gpio, read_die_temp, read_current, read_coulomb_counter,
  read_manufacturer_name, read_manufacturer_date, read_first_usage_date, read_serial_number,
  read_device_name,
}
use quad_bot_code_actuation.Power.{set_dsg, set_chg, read_pack_sense, precharge}
use quad_bot_code_actuation.Main.Console.{run_line}

-- The operations of each part; `line` is a whole line of the console.
pub data Operation : Part → Type 0 where
  init stop : ℕ → ℕ → Operation motors
  regulate : ℕ → ℕ → Bool → Operation motors
  variable_move default_move : ℕ → ℕ → ℕ → Bool → Operation motors
  set_speeds : ℕ → ℕ → ℕ → ℕ → Operation motors
  limit_triggers current_estimate : ℕ → ℕ → ℕ → Operation motors
  line : ℕ → CString → Operation motors
  position turns reset : ℕ → Operation encoders
  config : CString → CString → Operation battery
  nvm real_time conversion : CString → Operation battery
  identity : CString → ℕ → Operation battery
  numerical : (CString → Float) → CString → Option CString → Option CString → Operation battery
  read : ℕ → Operation battery
  write : ℕ → ℕ → Operation battery
  v_cell1 v_cell2 v_cell3 v_cell4 v_cell5 v_cell_sum vb ntc_gpio die_temp current :
      Operation battery
  coulombs : Operation battery
  manufacturer_name manufacturer_date first_usage_date serial_number device_name : Operation battery
  ready_rise is_valid : Operation signal
  dsg chg : Bool → Operation power
  pack_sense : Operation power
  charge : ℤ → Operation power

-- What each operation returns.
abbrev pub Result : {p : Part} → Operation p → Type 0
Result (limit_triggers polls channel chip) = ℕ
Result (current_estimate polls channel chip) = Float
Result (position channel) = Float
Result (turns channel) = ℕ
Result (read reg) = ℕ
Result v_cell1 = Float
Result v_cell2 = Float
Result v_cell3 = Float
Result v_cell4 = Float
Result v_cell5 = Float
Result v_cell_sum = Float
Result vb = Float
Result ntc_gpio = Float
Result die_temp = Float
Result current = Float
Result coulombs = CoulombCountResult
Result manufacturer_name = ℕ
Result manufacturer_date = ℕ
Result first_usage_date = ℕ
Result serial_number = ℕ
Result device_name = ℕ
Result is_valid = Bool
Result pack_sense = Float
Result _ = Unit

unfoldable pub perform : {p : Part} (o : Operation p) → M (Result o)
perform (init channel chip) = motor_driver_init channel chip
perform (stop channel chip) = motor_driver_stop channel chip
perform (regulate channel chip enable) = motor_driver_reg_control channel chip enable
perform (variable_move channel chip speed d) = variable_motion_control channel chip speed d
perform (default_move channel chip level d) = default_motion_control channel chip level d
perform (set_speeds channel chip one two) = set_motion_control channel chip one two
perform (limit_triggers polls channel chip) = read_limit_triggers polls channel chip
perform (current_estimate polls channel chip) = read_current_estimate polls channel chip
perform (line polls text) = run_line polls text
perform (position channel) = read_encoder_position channel
perform (turns channel) = read_turns channel
perform (reset channel) = reset_encoder channel
perform (config command value) = send_bms_config_command command value
perform (nvm command) = rw_bms_nvm command
perform (real_time command) = send_bms_real_time_command command
perform (conversion state) = set_bms_conversion_state state
perform (identity command value) = send_bms_identity_command command value
perform (numerical atof command arg1 arg2) = send_bms_numerical_command atof command arg1 arg2
perform (read reg) = read_bms_data bms_address reg
perform (write reg v) = write_bms_data bms_address reg v
perform v_cell1 = read_v_cell1
perform v_cell2 = read_v_cell2
perform v_cell3 = read_v_cell3
perform v_cell4 = read_v_cell4
perform v_cell5 = read_v_cell5
perform v_cell_sum = read_v_cell_sum
perform vb = read_vb
perform ntc_gpio = read_ntc_gpio
perform die_temp = read_die_temp
perform current = read_current
perform coulombs = read_coulomb_counter
perform manufacturer_name = read_manufacturer_name
perform manufacturer_date = read_manufacturer_date
perform first_usage_date = read_first_usage_date
perform serial_number = read_serial_number
perform device_name = read_device_name
perform ready_rise = on_bms_ready_rise
perform is_valid = is_bms_data_valid
perform (dsg state) = set_dsg state
perform (chg state) = set_chg state
perform pack_sense = read_pack_sense
perform (charge n) = precharge n
