-- ===== src/Bms/Core.antt =====
-- Quadruped_Bot_Actuation_Code/src/Bms_CoreCommands.cpp: registers, conversions and the ready signal
-- of the L9961 on the second I2C bus.
use quad_bot_code_actuation.Prelude.{
  ℕ, ◌+◌, ◌-◌, ◌*◌, Bool, CString, str, strcmp_eq, bit_and, bit_or, shr, shl, u8, u16, u32, ltb,
  leb, not, ◌==◌, true, if◌then◌else◌,
}
use quad_bot_code_actuation.Prelude.Int.{pos}
use quad_bot_code_actuation.Float.{Float, binary32, literal, div}
use quad_bot_code_actuation.Board.{
  wire1, delay_microseconds, micros, begin_transmission, wire_write, end_transmission, request_from,
  wire_available, wire_read, print, println, text, hex, M, pure, ◌>>=◌, ◌>>◌, get, modify, call,
  ask, say,
}

abbrev pub bms_address : ℕ
bms_address = 0x49

abbrev pub cell_stack_size : ℕ
cell_stack_size = 5

abbrev pub current_filter : ℕ
current_filter = 3

abbrev pub cell_filter : ℕ
cell_filter = 3

abbrev pub shortcircuit_filter : ℕ
shortcircuit_filter = 7

abbrev pub measure_cycle : ℕ
measure_cycle = 31

unfoldable pub sense_resistor : Float
sense_resistor = literal binary32 8 1000

abbrev pub cell_mask : ℕ
cell_mask = bit_and (shl 1 cell_stack_size - 1) 0b11111

abbrev pub cell_filter_int : ℕ
cell_filter_int =
    if cell_filter == 0
    then 800
    else if cell_filter == 1
    then 1310
    else if cell_filter == 2
    then 4380
    else if cell_filter == 3
    then 16670
    else 800

abbrev pub current_filter_int : ℕ
current_filter_int = u32 (528 * shl 1 (3 + current_filter))

abbrev pub measure_cycle_int : ℕ
measure_cycle_int = u32 (10000 * measure_cycle)

-- Microseconds after the ready signal; the subtraction does not go below zero.
abbrev pub valid_window : ℕ
valid_window = u32 (measure_cycle_int - (cell_stack_size + 1) * cell_filter_int + 1600)

unfoldable pub voltage_limit_range_ext : Float
voltage_limit_range_ext = literal binary32 300 1000

unfoldable pub imax : Float
unfolding div voltage_limit_range_ext sense_resistor
imax = div binary32 voltage_limit_range_ext sense_resistor

unfoldable pub vcell_res : Float
vcell_res = literal binary32 122 100000

unfoldable pub vb_res : Float
vb_res = literal binary32 61 10000

unfoldable pub vntc_res : Float
vntc_res = literal binary32 806 1000000

-- The interrupt service routine of the RDY pin.
unfoldable pub on_bms_ready_rise : M (Unit {0})
on_bms_ready_rise = do
  modify λ s. record s { bms_data_ready = true }
  now ← ask micros
  modify λ s. record s { bms_data_timestamp = u32 now }

-- `micros()` and the sum are 32-bit.
unfoldable pub is_bms_data_valid : M Bool
is_bms_data_valid = do
  now ← ask micros
  since ← get λ s. s.bms_data_timestamp
  pure (ltb (u32 now) (u32 (since + valid_window)))

unfoldable pub read_bms_data : ℕ → ℕ → M ℕ
read_bms_data chip reg = do
  call (begin_transmission wire1 chip)
  call (wire_write wire1 reg)
  call (end_transmission wire1 true)
  call (delay_microseconds 3)
  call (request_from wire1 chip 2)
  n ← ask (wire_available wire1)
  if leb 2 n
      then (do
        hi ← ask (wire_read wire1)
        lo ← ask (wire_read wire1)
        pure (u16 (bit_or (shl (u8 hi) 8) (u8 lo))))
      else pure 0

unfoldable pub write_bms_data : ℕ → ℕ → ℕ → M (Unit {0})
write_bms_data chip reg value = do
  call (begin_transmission wire1 chip)
  call (wire_write wire1 reg)
  let high_byte = bit_and (shr value 8) 0xff
  let low_byte = bit_and value 0xff
  call (wire_write wire1 high_byte)
  call (wire_write wire1 low_byte)
  status ← ask (end_transmission wire1 true)
  if not (status == 0)
      then say (str "Error: Failed to write data to BMS.")
      else say (str "Write successful.")

abbrev pub conversion_register : ℕ
conversion_register = 0x02

unfoldable pub conversion_on_value : ℕ
conversion_on_value =
    bit_or
      (bit_or (bit_or (shl (bit_and measure_cycle 0x1f) 7) (shl (bit_and current_filter 0x03) 5))
        (shl (bit_and shortcircuit_filter 0x07) 2))
      (shl (bit_and cell_filter 0x03) 0)

unfoldable pub set_bms_conversion_state : CString → M (Unit {0})
unfolding write_bms_data
set_bms_conversion_state state =
    if strcmp_eq state (str "CONVERSION_OFF")
    then (do
      write_bms_data bms_address conversion_register 0x0000
      modify λ s. record s { bms_conversion_active = 0 }
      say (str "Conversion OFF command sent."))
    else if strcmp_eq state (str "CONVERSION_ON")
    then (do
      write_bms_data bms_address conversion_register conversion_on_value
      modify λ s. record s { bms_conversion_active = 1 }
      call (print (text (str "Conversion ON command sent. Register value: 0x")))
      call (println (hex (pos conversion_on_value))))
    else say (str "Unknown conversion state command.")
