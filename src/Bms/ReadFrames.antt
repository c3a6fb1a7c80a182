-- ===== src/Bms/ReadFrames.antt =====
-- The reads of the battery chip keep to it.
use quad_bot_code_actuation.Prelude.{ℕ, ◌^◌, refl, bit_and, bit_or, u32, shl}
use quad_bot_code_actuation.Float.{Float, binary32, literal, div}
use quad_bot_code_actuation.Board.{pure, ◌>>=◌}
use quad_bot_code_actuation.Board.Frames.{battery, same, Keeps, ◌⨾◌, Keeps-pure}
use quad_bot_code_actuation.Bms.Core.{sense_resistor}
use quad_bot_code_actuation.Bms.Frames.{read_bms_data-Keeps, write_bms_data-Keeps}
use quad_bot_code_actuation.Bms.Read.{
  scale_reading, five_volts, read_masked, read_v_cell1, read_v_cell2, read_v_cell3, read_v_cell4,
  read_v_cell5, read_v_cell_sum, read_vb, read_ntc_gpio, die_temp, read_die_temp, measured_voltage,
  signed, read_current, read_coulomb_counter, read_pair, read_manufacturer_name,
  read_manufacturer_date, read_first_usage_date, read_serial_number, read_device_name,
}

-- A masked reading that is converted.
read_masked-Keeps :
    (reg mask : ℕ) (f : ℕ → Float) → Keeps battery (read_masked reg mask >>= λ b. pure (f b))
read_masked-Keeps reg mask f =
    (read_bms_data-Keeps reg ⨾ λ raw. Keeps-pure (bit_and raw mask)) ⨾ λ b. Keeps-pure (f b)

read_pair-Keeps : (high_reg low_reg : ℕ) → Keeps battery (read_pair high_reg low_reg)
read_pair-Keeps high_reg low_reg = read_bms_data-Keeps high_reg ⨾ λ msb.
    read_bms_data-Keeps low_reg ⨾ λ lsb. Keeps-pure (bit_or (u32 (shl msb 16)) lsb)

pub read_v_cell1-Keeps : Keeps battery read_v_cell1
unfolding read_v_cell1
read_v_cell1-Keeps = read_masked-Keeps 0x21 0x0fff (scale_reading five_volts)

pub read_v_cell2-Keeps : Keeps battery read_v_cell2
unfolding read_v_cell2
read_v_cell2-Keeps = read_masked-Keeps 0x22 0x0fff (scale_reading five_volts)

pub read_v_cell3-Keeps : Keeps battery read_v_cell3
unfolding read_v_cell3
read_v_cell3-Keeps = read_masked-Keeps 0x23 0x0fff (scale_reading five_volts)

pub read_v_cell4-Keeps : Keeps battery read_v_cell4
unfolding read_v_cell4
read_v_cell4-Keeps = read_masked-Keeps 0x24 0x0fff (scale_reading five_volts)

pub read_v_cell5-Keeps : Keeps battery read_v_cell5
unfolding read_v_cell5
read_v_cell5-Keeps = read_masked-Keeps 0x25 0x0fff (scale_reading five_volts)

pub read_v_cell_sum-Keeps : Keeps battery read_v_cell_sum
unfolding read_v_cell_sum
read_v_cell_sum-Keeps = read_masked-Keeps 0x26 0x7fff (scale_reading five_volts)

pub read_vb-Keeps : Keeps battery read_vb
unfolding read_vb
read_vb-Keeps = read_masked-Keeps 0x27 0x0fff (scale_reading (literal binary32 25 1))

pub read_ntc_gpio-Keeps : Keeps battery read_ntc_gpio
unfolding read_ntc_gpio
read_ntc_gpio-Keeps = read_masked-Keeps 0x28 0x0fff (scale_reading (literal binary32 33 10))

pub read_die_temp-Keeps : Keeps battery read_die_temp
unfolding read_die_temp
read_die_temp-Keeps = read_masked-Keeps 0x29 0x0fff die_temp

pub read_manufacturer_name-Keeps : Keeps battery read_manufacturer_name
unfolding read_manufacturer_name
read_manufacturer_name-Keeps = read_pair-Keeps 0x17 0x18

pub read_serial_number-Keeps : Keeps battery read_serial_number
unfolding read_serial_number
read_serial_number-Keeps = read_pair-Keeps 0x1b 0x1c

pub read_device_name-Keeps : Keeps battery read_device_name
unfolding read_device_name
read_device_name-Keeps = read_pair-Keeps 0x1d 0x1e

pub read_manufacturer_date-Keeps : Keeps battery read_manufacturer_date
unfolding read_manufacturer_date
read_manufacturer_date-Keeps = read_bms_data-Keeps 0x19

pub read_first_usage_date-Keeps : Keeps battery read_first_usage_date
unfolding read_first_usage_date
read_first_usage_date-Keeps = read_bms_data-Keeps 0x1a

pub read_current-Keeps : Keeps battery read_current
unfolding read_current
read_current-Keeps = read_bms_data-Keeps 0x2c ⨾ λ raw.
    Keeps-pure (div binary32 (measured_voltage (signed (2 ^ 16) raw)) sense_resistor)

pub read_coulomb_counter-Keeps : Keeps battery read_coulomb_counter
unfolding read_coulomb_counter
read_coulomb_counter-Keeps = write_bms_data-Keeps 0x2d 0xffff ⨾ λ _.
    read_bms_data-Keeps 0x2d ⨾ λ msb. read_bms_data-Keeps 0x2e ⨾ λ lsb. record {
      run = λ env s. record { calls = same; kept = refl };
      local = λ env s v. refl;
    }
