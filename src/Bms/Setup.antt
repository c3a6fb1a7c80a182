-- ===== src/Bms/Setup.antt =====
-- Quadruped_Bot_Actuation_Code/src/BMS_SetupCommands.cpp: configuration, memory, identity and
-- real-time commands of the L9961.
use quad_bot_code_actuation.Prelude.{
  ℕ, zero, suc, ◌^◌, Bool, true, false, Option, none, some, [], CString, str, strcmp_eq,
  strip_prefix, ltb, ◌==◌, bit_and, shr, if◌then◌else◌,
}
use quad_bot_code_actuation.Prelude.Int.{pos, to_unsigned, strtol}
use quad_bot_code_actuation.Board.{
  delay, print, println, text, dec, hex, M, ◌>>=◌, ◌>>◌, done, when, get, call, say,
}
use quad_bot_code_actuation.Bms.Core.{bms_address, write_bms_data, set_bms_conversion_state}

-- Register address, default and greatest value of a configuration command.
pub record ConfigEntry : Type 0 where
  pub register_address : ℕ
  pub default_data : ℕ
  pub max_data : ℕ

abbrev entry : ℕ → ℕ → ℕ → Option ConfigEntry
entry r d m = some (record { register_address = r; default_data = d; max_data = m })

unfoldable pub config_entry : CString → Option ConfigEntry
config_entry command =
    if strcmp_eq command (str "CFG2_ENABLES")
    then entry 0x04 0x19ff 0x3fff
    else if strcmp_eq command (str "TO_PRDV_BAL_MSK")
    then entry 0x13 0x7fff 0x7fff
    else if strcmp_eq command (str "TO_FUSE_RST_MSK")
    then entry 0x14 0x007f 0x007f
    else if strcmp_eq command (str "TO_FAULTN_MSK")
    then entry 0x15 0x0fff 0x0fff
    else if strcmp_eq command (str "CURR_MSK")
    then entry 0x16 0x0fff 0x0fff
    else if strcmp_eq command (str "DIAG_OV_OT_UT")
    then entry 0x2a 0x0000 0xffff
    else if strcmp_eq command (str "DIAG_UV")
    then entry 0x2b 0x0000 0xffff
    else if strcmp_eq command (str "DIAG_CURR")
    then entry 0x2f 0x0000 0xffff
    else none

-- `data`, and whether it was capped.
unfoldable pub config_value : ConfigEntry → CString → Option (ℕ × Bool)
unfolding strcmp_eq strip_prefix strtol
config_value e value_str =
    if strcmp_eq value_str (str "default")
    then some (e.default_data, false)
    else elim (strip_prefix (str "0b") value_str) [
      | none ↦ none
      | some bits ↦
          let value = to_unsigned (2 ^ 16) (strtol 2 bits) in
          if ltb e.max_data value then some (e.max_data, true) else some (value, false)
    ]

-- `for (int i = n - 1; i >= 0; --i) Serial.print((value >> i) & 1)`
unfoldable pub print_bits : ℕ → ℕ → M (Unit {0})
print_bits zero value = done
print_bits (suc i) value = do call (print (dec (pos (bit_and (shr value i) 1)))); print_bits i value

-- The check and write that every command of this file ends in.
unfoldable pub write_stopped : ℕ → ℕ → M (Unit {0})
unfolding write_bms_data set_bms_conversion_state
write_stopped register_address value = do
  active ← get λ s. s.bms_conversion_active
  when (active == 1) (set_bms_conversion_state (str "CONVERSION_OFF"))
  write_bms_data bms_address register_address value

-- The text that a command ends with.
abbrev pub report : CString → CString → ℕ → M (Unit {0})
report label command value = do
  call (print (text label))
  call (print (text command))
  call (print (text (str " with data 0x")))
  call (println (hex (pos value)))

-- Writes a register with the conversion off, and reports it.
unfoldable pub send_register : CString → CString → ℕ → ℕ → M (Unit {0})
unfolding write_stopped
send_register label command register_address value = do
  write_stopped register_address value
  report label command value

-- The rest of `sendBMSConfigCommand`, once its value is known.
unfoldable pub send_config : CString → CString → ConfigEntry → ℕ → Bool → M (Unit {0})
unfolding print_bits write_stopped
send_config command value_str e value capped = do
  when capped do
    call (print (text (str "Warning: Value ")))
    call (print (text value_str))
    call (print (text (str " exceeds max allowed for ")))
    call (print (text command))
    call (print (text (str ". Capping to 0b")))
    print_bits 16 e.max_data
    say []
  write_stopped e.register_address value
  call (print (text (str "Config Command sent: ")))
  call (print (text command))
  call (print (text (str " with data 0x")))
  call (print (hex (pos value)))
  call (print (text (str " (binary: ")))
  print_bits 16 value
  say (str ")")
  call (delay 10)

unfoldable pub send_bms_config_command : CString → CString → M (Unit {0})
unfolding config_entry config_value send_config
send_bms_config_command command value_str env s = elim (config_entry command) [
  | none ↦ say (str "Unknown Config command.") env s
  | some e ↦ elim (config_value e value_str) [
    | none ↦
        say (str "Error: Value must be \"default\" or a binary string like \"0b101010\".") env s
    | some (value, capped) ↦ send_config command value_str e value capped env s
  ]
]

-- Register and data of the memory commands.
unfoldable pub nvm_command : CString → Option (ℕ × ℕ)
nvm_command command =
    if strcmp_eq command (str "NVM_2_DL")
    then some (0x20, 0xaaaa)
    else if strcmp_eq command (str "NVM_2_UL")
    then some (0x20, 0x5555)
    else none

abbrev pub send_nvm : CString → ℕ → ℕ → M (Unit {0})
send_nvm command register_address value = do
  send_register (str "NVM Command sent: ") command register_address value
  call (delay 100)

unfoldable pub rw_bms_nvm : CString → M (Unit {0})
unfolding nvm_command send_register
rw_bms_nvm command env s = elim (nvm_command command) [
  | none ↦ say (str "Unknown NVM command.") env s
  | some (register_address, value) ↦ send_nvm command register_address value env s
]

unfoldable pub identity_register : CString → Option ℕ
identity_register command =
    if strcmp_eq command (str "MANUFACTURE_NAME_MSB")
    then some 0x17
    else if strcmp_eq command (str "MANUFACTURE_NAME_LSB")
    then some 0x18
    else if strcmp_eq command (str "MANUFACTURING_DATE")
    then some 0x19
    else if strcmp_eq command (str "FIRST_USAGE_DATE")
    then some 0x1a
    else if strcmp_eq command (str "SERIAL_NUMBER_MSB")
    then some 0x1b
    else if strcmp_eq command (str "SERIAL_NUMBER_LSB")
    then some 0x1c
    else if strcmp_eq command (str "DEVICE_NAME_MSB")
    then some 0x1d
    else if strcmp_eq command (str "DEVICE_NAME_LSB")
    then some 0x1e
    else none

-- The refusal of an identity value of zero.
abbrev pub refuse_zero : CString → M (Unit {0})
refuse_zero command = do
  call (print (text (str "Error: Identity value for ")))
  call (print (text command))
  say (str " cannot be 0x0000.")

unfoldable pub send_bms_identity_command : CString → ℕ → M (Unit {0})
unfolding identity_register send_register
send_bms_identity_command command value = if value == 0 then refuse_zero command else λ env s.
    elim (identity_register command) [
      | none ↦ say (str "Unknown identity command.") env s
      | some register_address ↦
          send_register (str "Identity Command sent: ") command register_address value env s
    ]

-- Register and data of the real-time commands.
unfoldable pub real_time_command : CString → Option (ℕ × ℕ)
real_time_command command =
    if strcmp_eq command (str "BAL_ENABLE")
    then some (0x01, 0x001f)
    else if strcmp_eq command (str "BAL_DISABLE")
    then some (0x01, 0x0000)
    else if strcmp_eq command (str "GO2SHIP")
    then some (0x21, 0x2000)
    else if strcmp_eq command (str "GO2STBY")
    then some (0x22, 0x2000)
    else if strcmp_eq command (str "FUSE_TRIG_DISARM")
    then some (0x23, 0x1000)
    else if strcmp_eq command (str "FUSE_TRIG_ARM")
    then some (0x23, 0x2000)
    else if strcmp_eq command (str "FUSE_TRIG_FIRE_INTERRUPT")
    then some (0x24, 0x1000)
    else if strcmp_eq command (str "FUSE_TRIG_FIRE")
    then some (0x24, 0x2000)
    else none

unfoldable pub send_bms_real_time_command : CString → M (Unit {0})
unfolding real_time_command send_register
send_bms_real_time_command command env s = elim (real_time_command command) [
  | none ↦ say (str "Unknown Real Time command.") env s
  | some (register_address, value) ↦
      send_register (str "BMS Command sent: ") command register_address value env s
]
