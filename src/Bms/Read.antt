-- ===== src/Bms/Read.antt =====
-- Quadruped_Bot_Actuation_Code/src/BMS_ReadCommands.cpp: measurements and identity of the L9961.
use quad_bot_code_actuation.Prelude.{
  ℕ, ◌+◌, ◌-◌, ◌^◌, bit_and, bit_or, shr, shl, u32, ltb, ◌==◌, if◌then◌else◌,
}
use quad_bot_code_actuation.Prelude.Int.{ℤ, pos, negsuc}
use quad_bot_code_actuation.Float.{Float, binary32, literal, of_int, add, sub, mul, div, roundf}
use quad_bot_code_actuation.Board.{M, pure, ◌>>=◌, ◌>>◌, get, modify}
use quad_bot_code_actuation.Bms.Core.{
  bms_address, voltage_limit_range_ext, sense_resistor, current_filter_int, read_bms_data,
  write_bms_data,
}

-- `(bits / 4095.0f) * range`
unfoldable pub scale_reading : Float → ℕ → Float
unfolding mul div
scale_reading range bits =
    mul binary32 (div binary32 (of_int binary32 (pos bits)) (literal binary32 4095 1)) range

abbrev pub five_volts : Float
five_volts = literal binary32 5 1

abbrev pub read_masked : ℕ → ℕ → M ℕ
read_masked reg mask = do raw ← read_bms_data bms_address reg; pure (bit_and raw mask)

unfoldable pub read_v_cell1 : M Float
unfolding read_bms_data scale_reading
read_v_cell1 = do cell_bits ← read_masked 0x21 0x0fff; pure (scale_reading five_volts cell_bits)

unfoldable pub read_v_cell2 : M Float
unfolding read_bms_data scale_reading
read_v_cell2 = do cell_bits ← read_masked 0x22 0x0fff; pure (scale_reading five_volts cell_bits)

unfoldable pub read_v_cell3 : M Float
unfolding read_bms_data scale_reading
read_v_cell3 = do cell_bits ← read_masked 0x23 0x0fff; pure (scale_reading five_volts cell_bits)

unfoldable pub read_v_cell4 : M Float
unfolding read_bms_data scale_reading
read_v_cell4 = do cell_bits ← read_masked 0x24 0x0fff; pure (scale_reading five_volts cell_bits)

unfoldable pub read_v_cell5 : M Float
unfolding read_bms_data scale_reading
read_v_cell5 = do cell_bits ← read_masked 0x25 0x0fff; pure (scale_reading five_volts cell_bits)

unfoldable pub read_v_cell_sum : M Float
unfolding read_bms_data scale_reading
read_v_cell_sum = do sum_bits ← read_masked 0x26 0x7fff; pure (scale_reading five_volts sum_bits)

unfoldable pub read_vb : M Float
unfolding read_bms_data scale_reading
read_vb = do vb_bits ← read_masked 0x27 0x0fff; pure (scale_reading (literal binary32 25 1) vb_bits)

unfoldable pub read_ntc_gpio : M Float
unfolding read_bms_data scale_reading
read_ntc_gpio = do
  ntc_bits ← read_masked 0x28 0x0fff
  pure (scale_reading (literal binary32 33 10) ntc_bits)

-- `343.165f - 0.196f * bits`
unfoldable pub die_temp : ℕ → Float
unfolding sub mul
die_temp bits =
    sub binary32 (literal binary32 343165 1000)
      (mul binary32 (literal binary32 196 1000) (of_int binary32 (pos bits)))

unfoldable pub read_die_temp : M Float
unfolding read_bms_data die_temp
read_die_temp = do die_bits ← read_masked 0x29 0x0fff; pure (die_temp die_bits)

-- The number that a two's complement pattern of `w` values stands for.
abbrev pub signed : ℕ → ℕ → ℤ
signed w x = if ltb (x + x) w then pos x else negsuc (w - x - 1)

-- The voltage across the sense resistor of a signed reading.
unfoldable pub measured_voltage : ℤ → Float
unfolding mul div voltage_limit_range_ext
measured_voltage n =
    mul binary32 (of_int binary32 n)
      (div binary32 voltage_limit_range_ext (literal binary32 32767 1))

unfoldable pub read_current : M Float
unfolding read_bms_data measured_voltage div sense_resistor
read_current = do
  raw ← read_bms_data bms_address 0x2c
  let measured = measured_voltage (signed (2 ^ 16) raw)
  pure (div binary32 measured sense_resistor)

pub record CoulombCountResult : Type 0 where
  pub coulombs : Float
  pub sample_count : ℕ
  pub total_coulombs : Float
  pub total_sample_count : ℕ

-- The 24-bit accumulator with its sign extended to 32 bits.
unfoldable pub accumulator : ℕ → ℕ → ℕ
accumulator msb lsb_and_count =
    let acc24 = bit_or (u32 (shl msb 8)) (shr lsb_and_count 8) in
    if bit_and acc24 0x800000 == 0 then acc24 else bit_or acc24 0xff000000

unfoldable pub charge : ℤ → Float
unfolding measured_voltage mul div sense_resistor
charge n =
    div binary32
      (mul binary32 (div binary32 (measured_voltage n) sense_resistor)
        (of_int binary32 (pos current_filter_int)))
      (literal binary32 1000000 1)

-- The running total, kept to two decimals.
unfoldable pub add_charge : Float → Float → Float
unfolding add mul div roundf
add_charge total c =
    div binary32 (roundf (mul binary32 (add binary32 total c) (literal binary32 100 1)))
      (literal binary32 100 1)

unfoldable pub read_coulomb_counter : M CoulombCountResult
unfolding read_bms_data write_bms_data accumulator charge add_charge
read_coulomb_counter = do
  write_bms_data bms_address 0x2d 0xffff
  msb ← read_bms_data bms_address 0x2d
  lsb_and_count ← read_bms_data bms_address 0x2e
  let coulombs = charge (signed (2 ^ 32) (accumulator msb lsb_and_count))
  let count = bit_and lsb_and_count 0xff
  modify λ s. record s { total_coulombs = add_charge s.total_coulombs coulombs }
  modify λ s. record s { total_sample_count = u32 (s.total_sample_count + count) }
  total ← get λ s. s.total_coulombs
  total_count ← get λ s. s.total_sample_count
  pure (record {
    coulombs = coulombs;
    sample_count = count;
    total_coulombs = total;
    total_sample_count = total_count;
  })

-- Two registers as one 32-bit number.
abbrev pub read_pair : ℕ → ℕ → M ℕ
read_pair high_reg low_reg = do
  msb ← read_bms_data bms_address high_reg
  lsb ← read_bms_data bms_address low_reg
  pure (bit_or (u32 (shl msb 16)) lsb)

unfoldable pub read_manufacturer_name : M ℕ
unfolding read_bms_data
read_manufacturer_name = read_pair 0x17 0x18

unfoldable pub read_manufacturer_date : M ℕ
unfolding read_bms_data
read_manufacturer_date = read_bms_data bms_address 0x19

unfoldable pub read_first_usage_date : M ℕ
unfolding read_bms_data
read_first_usage_date = read_bms_data bms_address 0x1a

unfoldable pub read_serial_number : M ℕ
unfolding read_bms_data
read_serial_number = read_pair 0x1b 0x1c

unfoldable pub read_device_name : M ℕ
unfolding read_bms_data
read_device_name = read_pair 0x1d 0x1e
