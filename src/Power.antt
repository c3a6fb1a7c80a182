-- ===== src/Power.antt =====
-- Quadruped_Bot_Actuation_Code/src/PWR_MNGMT_FCT.cpp: the current paths of the battery pack.
pub mod Threshold
pub mod Sequence
pub mod Frames
mod Tests
use quad_bot_code_actuation.Prelude.{ℕ, ◌^◌, Bool, ◌&&◌, str, if◌then◌else◌}
use quad_bot_code_actuation.Prelude.Int.{ℤ, pos, ◌+ℤ◌, ◌*ℤ◌, fits_int, to_unsigned}
use quad_bot_code_actuation.Float.{
  Float, binary32, binary64, literal, of_int, mul, div, ge, narrow, widen,
}
use quad_bot_code_actuation.Board.{
  analog_read, digital_write, delay, M, pure, require, ◌>>=◌, ◌>>◌, call, ask, say,
}
use quad_bot_code_actuation.Board.Pins.{pre_dsg_en, dsg_en, chg_en, pack_sns, low, high}

-- The pack voltage of an ADC reading: a 10-bit converter at 3.3 V behind a voltage divider.
unfoldable pub pack_voltage : ℕ → Float
unfolding mul div narrow widen
pack_voltage raw =
    let voltage_at_pin = narrow (
      mul binary64 (div binary64 (of_int binary64 (pos raw)) (literal binary64 1023 1))
        (literal binary64 33 10)) in
    let divider_ratio =
      narrow (div binary64 (literal binary64 2015 100) (literal binary64 1683 1000)) in
    mul binary32 voltage_at_pin divider_ratio

unfoldable pub read_pack_sense : M Float
unfolding pack_voltage
read_pack_sense = do raw ← ask (analog_read pack_sns); pure (pack_voltage raw)

unfoldable pub set_dsg : Bool → M (Unit {0})
set_dsg state = call (digital_write dsg_en (if state then high else low))

unfoldable pub set_chg : Bool → M (Unit {0})
set_chg state = call (digital_write chg_en (if state then high else low))

abbrev pub base_time_ms : ℤ
base_time_ms = pos 100

abbrev pub min_voltage_threshold : Float
min_voltage_threshold = literal binary32 10 1

-- `int` arithmetic is undefined where it overflows; `delay` takes a `uint32_t`.
unfoldable pub precharge : ℤ → M (Unit {0})
unfolding read_pack_sense ge ◌+ℤ◌ ◌*ℤ◌
precharge num_capacitors =
    let product = num_capacitors *ℤ base_time_ms in
    let precharge_duration = product +ℤ pos 100 in
    do
      require (fits_int product && fits_int precharge_duration)
      call (digital_write pre_dsg_en high)
      call (delay (to_unsigned (2 ^ 32) precharge_duration))
      pack ← read_pack_sense
      if ge pack min_voltage_threshold
          then (do
            call (digital_write dsg_en high)
            call (delay 100)
            call (digital_write pre_dsg_en low))
          else do
            call (digital_write pre_dsg_en low)
            say (str "\n Precharge resistor deactivated.")
            say (str "\n Warning: Pack voltage too low. Discharge FETs not enabled.")
