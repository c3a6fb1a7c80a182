-- ===== src/MotorDriver/Frames.antt =====
-- The motor drivers use the first I2C bus and the remembered channel, and nothing else.
use quad_bot_code_actuation.Prelude.{u8, shr, bit_and, arith, ℕ, zero, suc, refl, Bool, false, ◌==◌}
use quad_bot_code_actuation.Board.{
  wire, hangs, wire_available, wire_read, begin_transmission, wire_write, end_transmission,
  request_from, done,
}
use quad_bot_code_actuation.Board.Frames.{
  motors, same, more, Keeps, ◌⨾◌, Keeps-fail, Keeps-call, Keeps-ask, Keeps-pure, Keeps-elim,
}
use quad_bot_code_actuation.Board.Traffic.{i2c_mux_address}
use quad_bot_code_actuation.I2c.{wait_available, i2c_rd_register}
use quad_bot_code_actuation.I2cMux.{i2c_select_channel, i2c_disable_all_channels}
use quad_bot_code_actuation.MotorDriver.{
  write_all, init_registers, init_values, motor_driver_init, motor_driver_reg_control,
  variable_motion_control, set_motion_control, default_motion_control, motor_driver_stop,
  read_limit_triggers, read_current_estimate, to_amperes,
}

pub i2c_select_channel-Keeps :
    (channel : ℕ) → Keeps motors (i2c_select_channel i2c_mux_address channel)
unfolding i2c_select_channel
i2c_select_channel-Keeps channel = record {
  run = λ env s. grind (arith, more, same);
  local = λ env s v. ground arith;
}

pub i2c_disable_all_channels-Keeps : Keeps motors (i2c_disable_all_channels i2c_mux_address)
unfolding i2c_disable_all_channels
i2c_disable_all_channels-Keeps = record {
  run = λ env s. grind (arith, more, same);
  local = λ env s v. ground arith;
}

init_writes-Keeps : (chip : ℕ) → Keeps motors (write_all chip init_registers init_values)
unfolding write_all
init_writes-Keeps chip = record {
  run = λ env s. record { calls = search (more, same) depth 25; kept = refl };
  local = λ env s v. refl;
}

pub motor_driver_init-Keeps : (channel chip : ℕ) → Keeps motors (motor_driver_init channel chip)
unfolding motor_driver_init
motor_driver_init-Keeps channel chip =
    i2c_select_channel-Keeps channel ⨾ λ _. init_writes-Keeps chip

module _ (channel chip : ℕ) where
  pub motor_driver_reg_control-Keeps :
      (enable : Bool) → Keeps motors (motor_driver_reg_control channel chip enable)
  unfolding motor_driver_reg_control
  motor_driver_reg_control-Keeps enable = record {
    run = λ env s. grind (arith, more, same);
    local = λ env s v. ground arith;
  }

  pub variable_motion_control-Keeps :
      (speed : ℕ) (d : Bool) → Keeps motors (variable_motion_control channel chip speed d)
  unfolding variable_motion_control
  variable_motion_control-Keeps speed d = record {
    run = λ env s. grind (arith, more, same);
    local = λ env s v. ground arith;
  }

  pub set_motion_control-Keeps :
      (one two : ℕ) → Keeps motors (set_motion_control channel chip one two)
  unfolding set_motion_control
  set_motion_control-Keeps one two = record {
    run = λ env s. grind (arith, more, same);
    local = λ env s v. ground arith;
  }

  pub default_motion_control-Keeps :
      (level : ℕ) (d : Bool) → Keeps motors (default_motion_control channel chip level d)
  unfolding default_motion_control
  default_motion_control-Keeps level d = record {
    run = λ env s. grind (arith, more, same);
    local = λ env s v. ground arith;
  }

  pub motor_driver_stop-Keeps : Keeps motors (motor_driver_stop channel chip)
  unfolding motor_driver_stop
  motor_driver_stop-Keeps = record {
    run = λ env s. grind (arith, more, same);
    local = λ env s v. ground arith;
  }

wait_available-Keeps : (polls : ℕ) → Keeps motors (wait_available polls wire)
unfolding wait_available
wait_available-Keeps zero = Keeps-fail hangs
wait_available-Keeps (suc polls) = Keeps-ask (wire_available wire) refl ⨾ λ n.
    Keeps-elim (wait_available polls wire) done (n == 0) (wait_available-Keeps polls)
      (Keeps-pure tt)

i2c_rd_register-Keeps : (polls chip reg : ℕ) → Keeps motors (i2c_rd_register polls chip reg)
unfolding i2c_rd_register
i2c_rd_register-Keeps polls chip reg = Keeps-call (begin_transmission wire chip) refl ⨾ λ _.
    Keeps-call (wire_write wire reg) refl ⨾ λ _.
    Keeps-call (end_transmission wire false) refl ⨾ λ _.
    Keeps-call (request_from wire chip 1) refl ⨾ λ _.
    wait_available-Keeps polls ⨾ λ _. Keeps-ask (wire_read wire) refl ⨾ λ v. Keeps-pure (u8 v)

pub read_limit_triggers-Keeps :
    (polls channel chip : ℕ) → Keeps motors (read_limit_triggers polls channel chip)
unfolding read_limit_triggers
read_limit_triggers-Keeps polls channel chip = i2c_select_channel-Keeps channel ⨾ λ _.
    i2c_rd_register-Keeps polls chip 0x00 ⨾ λ v. Keeps-pure (bit_and 0b0000_1111 v)

pub read_current_estimate-Keeps :
    (polls channel chip : ℕ) → Keeps motors (read_current_estimate polls channel chip)
unfolding read_current_estimate
read_current_estimate-Keeps polls channel chip = i2c_select_channel-Keeps channel ⨾ λ _.
    i2c_rd_register-Keeps polls chip 0x01 ⨾ λ v.
    Keeps-pure (to_amperes (shr (bit_and v 0b1111_1000) 3))
