-- ===== src/Isolation.antt =====
-- Each operation works with the devices and variables of its own part and leaves those of the other
-- parts alone.
pub mod Steps
pub mod Resets
mod Tests
use quad_bot_code_actuation.Prelude.{
  ℕ, ◌≡◌, refl, sym, ap, ◌∙◌, Bool, true, false, Option, none, some, List, [], ◌∷◌, CString,
}
use quad_bot_code_actuation.Prelude.Int.{ℤ}
use quad_bot_code_actuation.Float.{Float}
use quad_bot_code_actuation.Board.{Bus, State, Env, M, done, pure, ◌>>=◌, ◌>>◌, History, transfer}
use quad_bot_code_actuation.Board.Frames.{
  Part, allowed, motors, encoders, battery, signal, power, owns, drives, others, graft, regraft,
  Stays, After, After_weaken, Keeps, ◌⨾◌, Keeps-pure,
}
use quad_bot_code_actuation.Board.Devices.{Extends-messages, Extends-level, Extends-exchanges}
use quad_bot_code_actuation.Board.Pins.{level, exchanges}
use quad_bot_code_actuation.Board.Traffic.{messages}
use quad_bot_code_actuation.MotorDriver.{
  motor_driver_init, motor_driver_reg_control, variable_motion_control, set_motion_control,
  default_motion_control, motor_driver_stop, read_limit_triggers, read_current_estimate,
}
use quad_bot_code_actuation.MotorDriver.Frames.{
  motor_driver_init-Keeps, motor_driver_reg_control-Keeps, variable_motion_control-Keeps,
  set_motion_control-Keeps, default_motion_control-Keeps, motor_driver_stop-Keeps,
  read_limit_triggers-Keeps, read_current_estimate-Keeps,
}
use quad_bot_code_actuation.Encoder.{read_encoder_position, read_turns, reset_encoder}
use quad_bot_code_actuation.Encoder.Frames.{
  read_turns-Keeps, read_encoder_position-Keeps, reset_encoder-Keeps,
}
use quad_bot_code_actuation.Bms.Core.{
  bms_address, set_bms_conversion_state, read_bms_data, write_bms_data, on_bms_ready_rise,
  is_bms_data_valid,
}
use quad_bot_code_actuation.Bms.Setup.{
  send_bms_config_command, rw_bms_nvm, send_bms_identity_command, send_bms_real_time_command,
}
use quad_bot_code_actuation.Bms.Numerical.{send_bms_numerical_command}
use quad_bot_code_actuation.Bms.Read.{
  CoulombCountResult, read_v_cell1, read_v_cell2, read_v_cell3, read_v_cell4, read_v_cell5,
  read_v_cell_sum, read_vb, read_ntc_gpio, read_die_temp, read_current, read_coulomb_counter,
  read_manufacturer_name, read_manufacturer_date, read_first_usage_date, read_serial_number,
  read_device_name,
}
use quad_bot_code_actuation.Bms.Frames.{
  on_bms_ready_rise-Keeps, is_bms_data_valid-Keeps, write_bms_data-Keeps, read_bms_data-Keeps,
  set_bms_conversion_state-Keeps, send_bms_config_command-Keeps, rw_bms_nvm-Keeps,
  send_bms_identity_command-Keeps, send_bms_real_time_command-Keeps,
  send_bms_numerical_command-Keeps,
}
use quad_bot_code_actuation.Bms.ReadFrames.{
  read_v_cell1-Keeps, read_v_cell2-Keeps, read_v_cell3-Keeps, read_v_cell4-Keeps,
  read_v_cell5-Keeps, read_v_cell_sum-Keeps, read_vb-Keeps, read_ntc_gpio-Keeps,
  read_die_temp-Keeps, read_manufacturer_name-Keeps, read_serial_number-Keeps,
  read_device_name-Keeps, read_manufacturer_date-Keeps, read_first_usage_date-Keeps,
  read_current-Keeps, read_coulomb_counter-Keeps,
}
use quad_bot_code_actuation.Power.{set_dsg, set_chg, read_pack_sense, precharge}
use quad_bot_code_actuation.Power.Frames.{
  set_dsg-Keeps, set_chg-Keeps, read_pack_sense-Keeps, precharge-Keeps,
}
use quad_bot_code_actuation.Main.Console.{run_line}
use quad_bot_code_actuation.Main.Frames.{run_line-Keeps}
use quad_bot_code_actuation.Operations.{
  Operation, perform, init, stop, regulate, variable_move, default_move, set_speeds, limit_triggers,
  current_estimate, line, position, turns, reset, config, nvm, real_time, conversion, identity,
  numerical, read, write, v_cell1, v_cell2, v_cell3, v_cell4, v_cell5, v_cell_sum, vb, ntc_gpio,
  die_temp, current, coulombs, manufacturer_name, manufacturer_date, first_usage_date,
  serial_number, device_name, ready_rise, is_valid, dsg, chg, pack_sense, charge,
}

perform-Keeps : {p : Part} (o : Operation p) → Keeps p (perform o)
unfolding perform
perform-Keeps (init channel chip) = motor_driver_init-Keeps channel chip
perform-Keeps (stop channel chip) = motor_driver_stop-Keeps channel chip
perform-Keeps (regulate channel chip enable) = motor_driver_reg_control-Keeps channel chip enable
perform-Keeps (variable_move channel chip speed d) =
    variable_motion_control-Keeps channel chip speed d
perform-Keeps (default_move channel chip level d) =
    default_motion_control-Keeps channel chip level d
perform-Keeps (set_speeds channel chip one two) = set_motion_control-Keeps channel chip one two
perform-Keeps (limit_triggers polls channel chip) = read_limit_triggers-Keeps polls channel chip
perform-Keeps (current_estimate polls channel chip) = read_current_estimate-Keeps polls channel chip
perform-Keeps (line polls text) = run_line-Keeps polls text
perform-Keeps (position channel) = read_encoder_position-Keeps channel
perform-Keeps (turns channel) = read_turns-Keeps channel
perform-Keeps (reset channel) = reset_encoder-Keeps channel
perform-Keeps (config command value) = send_bms_config_command-Keeps command value
perform-Keeps (nvm command) = rw_bms_nvm-Keeps command
perform-Keeps (real_time command) = send_bms_real_time_command-Keeps command
perform-Keeps (conversion state) = set_bms_conversion_state-Keeps state
perform-Keeps (identity command value) = send_bms_identity_command-Keeps command value
perform-Keeps (numerical atof command arg1 arg2) =
    send_bms_numerical_command-Keeps atof command arg1 arg2
perform-Keeps (read reg) = read_bms_data-Keeps reg
perform-Keeps (write reg v) = write_bms_data-Keeps reg v
perform-Keeps v_cell1 = read_v_cell1-Keeps
perform-Keeps v_cell2 = read_v_cell2-Keeps
perform-Keeps v_cell3 = read_v_cell3-Keeps
perform-Keeps v_cell4 = read_v_cell4-Keeps
perform-Keeps v_cell5 = read_v_cell5-Keeps
perform-Keeps v_cell_sum = read_v_cell_sum-Keeps
perform-Keeps vb = read_vb-Keeps
perform-Keeps ntc_gpio = read_ntc_gpio-Keeps
perform-Keeps die_temp = read_die_temp-Keeps
perform-Keeps current = read_current-Keeps
perform-Keeps coulombs = read_coulomb_counter-Keeps
perform-Keeps manufacturer_name = read_manufacturer_name-Keeps
perform-Keeps manufacturer_date = read_manufacturer_date-Keeps
perform-Keeps first_usage_date = read_first_usage_date-Keeps
perform-Keeps serial_number = read_serial_number-Keeps
perform-Keeps device_name = read_device_name-Keeps
perform-Keeps ready_rise = on_bms_ready_rise-Keeps
perform-Keeps is_valid = is_bms_data_valid-Keeps
perform-Keeps (dsg state) = set_dsg-Keeps state
perform-Keeps (chg state) = set_chg-Keeps state
perform-Keeps pack_sense = read_pack_sense-Keeps
perform-Keeps (charge n) = precharge-Keeps n

-- What an operation of a part leaves alone: the variables of the other parts, the messages on a bus,
-- the level of a pin and the bytes sent to the encoders, where these are not the part's own.
pub record IsIsolated (p : Part) (s t : State) : Type 0 where
  pub variables : others p t ≡ others p s
  pub buses : (b : Bus) → owns p b ≡ false → messages b t.calls ≡ messages b s.calls
  pub pins : (pin : ℕ) → drives p pin ≡ false → level pin t.calls ≡ level pin s.calls
  pub encoders : allowed p (transfer 0) ≡ false → exchanges t.calls ≡ exchanges s.calls

-- Whichever operation of a part is called, in whichever state and whatever the devices answer. When it
-- returns, the variables of the other parts are as they were, no message went out on a bus that is
-- not the part's, no other part's pin has changed its level, and unless the part is the encoders'
-- no byte went to an encoder. And its result, its calls and its effect on the part's own variables do
-- not depend on the variables of the other parts: from any other values of these it does the same and
-- leaves those values. A line of the serial port counts as an operation on the motors, and the ready
-- signal and the test of its age as a part of their own.
pub perform-IsIsolated :
    {p : Part} (o : Operation p) (env : Env) (s v : State)
    → (After (perform o env s) λ _ t. IsIsolated p s t)
      × (perform o env (graft p s v) ≡ regraft p v (perform o env s))
perform-IsIsolated {p} o env s v = (
  After_weaken (perform o env s) (λ _ t. Stays p s t) (λ _ t. IsIsolated p s t)
      (λ _ t k. record {
        variables = k.kept;
        buses = λ b h. Extends-messages p b s.calls h k.calls;
        pins = λ pin h. Extends-level p pin s.calls h k.calls;
        encoders = λ h. Extends-exchanges p s.calls h k.calls;
      })
      ((perform-Keeps o).run env s),
  (perform-Keeps o).local env s v,
)
