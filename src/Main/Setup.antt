-- ===== src/Main/Setup.antt =====
-- `setup` of main.cpp.
use quad_bot_code_actuation.Prelude.{ℕ, zero, suc, true, false, List, [], ◌∷◌, CString, str, ◌==◌}
use quad_bot_code_actuation.Prelude.Int.{pos}
use quad_bot_code_actuation.Float.{Float}
use quad_bot_code_actuation.Board.{
  wire, wire1, input, output, pin_mode, digital_write, delay, attach_interrupt, wire_begin,
  spi_begin, serial_begin, serial_ready, hangs, M, fail, ◌>>=◌, ◌>>◌, done, call, ask, say,
}
use quad_bot_code_actuation.Board.Pins.{
  pre_dsg_en, dsg_en, chg_en, strobe, cs_1, cs_2, cs_3, cs_4, inhibit, nfault, rdy, en_pin, nreset,
  servo_reg_enable, pack_sns, low, high,
}
use quad_bot_code_actuation.Board.Traffic.{i2c_mux_address}
use quad_bot_code_actuation.I2cMux.{i2c_disable_all_channels}
use quad_bot_code_actuation.Encoder.{reset_encoder}
use quad_bot_code_actuation.MotorDriver.{motor_driver_init}
use quad_bot_code_actuation.Power.{precharge}
use quad_bot_code_actuation.Bms.Core.{set_bms_conversion_state}
use quad_bot_code_actuation.Bms.SetUpBms.{set_up_bms}
use quad_bot_code_actuation.Main.Console.{motor_driver_default_address}

abbrev outputs : List ℕ → M (Unit {0})
outputs [] = done
outputs (p ∷ ps) = call (pin_mode p output) >> outputs ps

abbrev lows : List ℕ → M (Unit {0})
lows [] = done
lows (p ∷ ps) = call (digital_write p low) >> lows ps

-- The pin directions and start-up levels, in the order of the source.
unfoldable pub set_up_pins : M (Unit {0})
set_up_pins = do
  outputs (pre_dsg_en ∷ dsg_en ∷ chg_en ∷ [])
  outputs (strobe ∷ cs_1 ∷ cs_2 ∷ cs_3 ∷ cs_4 ∷ inhibit ∷ [])
  call (pin_mode nfault input)
  call (pin_mode rdy input)
  outputs (en_pin ∷ nreset ∷ servo_reg_enable ∷ [])
  call (pin_mode pack_sns input)
  lows (pre_dsg_en ∷ dsg_en ∷ chg_en ∷ strobe ∷ cs_1 ∷ cs_2 ∷ cs_3 ∷ cs_4 ∷ [])
  call (digital_write inhibit high)
  lows (en_pin ∷ nreset ∷ servo_reg_enable ∷ [])

-- `while (!Serial) delay(10);`, given up after `polls` tests.
unfoldable pub wait_serial : ℕ → M (Unit {0})
wait_serial zero = fail hangs
wait_serial (suc polls) = do
  ready ← ask serial_ready
  elim (ready == 0) [ true ↦ call (delay 10) >> wait_serial polls | false ↦ done ]

unfoldable pub start_buses : ℕ → M (Unit {0})
unfolding wait_serial
start_buses polls = do
  call (delay 1000)
  call (serial_begin 9600)
  call (wire_begin wire)
  call (wire_begin wire1)
  wait_serial polls
  say (str "\nI2C Initialized")
  call (delay 100)
  call spi_begin
  call (delay 100)
  say (str "\nSPI Initialized")
  call (digital_write en_pin high)
  call (delay 10)
  call (digital_write nreset low)
  call (delay 10)
  call (digital_write nreset high)
  call (delay 10)

abbrev pub motors : List ℕ
motors = 0 ∷ 1 ∷ 2 ∷ 3 ∷ 4 ∷ 5 ∷ 6 ∷ 7 ∷ []

unfoldable pub init_motors : List ℕ → M (Unit {0})
unfolding motor_driver_init
init_motors [] = done
init_motors (c ∷ cs) = motor_driver_init c motor_driver_default_address >> init_motors cs

abbrev pub encoders : List ℕ
encoders = 0 ∷ 1 ∷ 2 ∷ 3 ∷ 4 ∷ 5 ∷ 6 ∷ 7 ∷ 8 ∷ 9 ∷ 10 ∷ 11 ∷ 12 ∷ 13 ∷ 14 ∷ 15 ∷ []

unfoldable pub reset_encoders : List ℕ → M (Unit {0})
unfolding reset_encoder
reset_encoders [] = done
reset_encoders (c ∷ cs) = reset_encoder c >> reset_encoders cs

unfoldable pub setup : (CString → Float) → ℕ → M (Unit {0})
unfolding set_up_pins start_buses i2c_disable_all_channels init_motors reset_encoders set_up_bms
    set_bms_conversion_state precharge
setup atof polls = do
  set_up_pins
  start_buses polls
  i2c_disable_all_channels i2c_mux_address
  init_motors motors
  reset_encoders encoders
  set_up_bms atof
  call (attach_interrupt rdy)
  set_bms_conversion_state (str "CONVERSION_ON")
  call (delay 100)
  precharge (pos 1)
