-- ===== src/Bms/Tests.antt =====
-- The commands of the L9961 on concrete texts.
use quad_bot_code_actuation.Prelude.{Bool}
use quad_bot_code_actuation.Prelude.{refl, List, [], ◌∷◌, str}
use quad_bot_code_actuation.Board.{Ends}
use quad_bot_code_actuation.Board.Initial.{initial, answering}
use quad_bot_code_actuation.Board.Traffic.{messages, register16}
use quad_bot_code_actuation.Bms.Setup.{ConfigEntry, config_entry, config_value}
use quad_bot_code_actuation.Bms.Registers.{ReadBack, read_bms_data-ReadBack}
use quad_bot_code_actuation.Bms.Core.{read_bms_data}
use quad_bot_code_actuation.Prelude.Int.{strtol}
use quad_bot_code_actuation.Prelude.{◌≡◌, some, true, strcmp_eq, strip_prefix}
use quad_bot_code_actuation.Bms.Guard.{
  Command, config, real_time, conversion, identity, perform_all, IsGuarded, guarded, converting,
  perform_all-IsGuarded, nvm, numerical,
}
use quad_bot_code_actuation.Bms.Chip.{chip_of, effects, perform_all-chip_of}
use quad_bot_code_actuation.Bms.Setup.{nvm_command, identity_register, real_time_command}
use quad_bot_code_actuation.Prelude.{none, false, CString}
use quad_bot_code_actuation.Float.{Float, num}

initial-IsGuarded : IsGuarded initial
unfolding guarded converting messages
initial-IsGuarded = record { mirror = refl; safe = refl }

abbrev commands : List Command
commands =
    conversion (str "CONVERSION_ON")
    ∷ config (str "CURR_MSK") (str "0b1010")
    ∷ identity (str "SERIAL_NUMBER_MSB") 7
    ∷ conversion (str "CONVERSION_ON")
    ∷ real_time (str "FUSE_TRIG_ARM")
    ∷ config (str "no such") (str "default")
    ∷ nvm (str "NVM_2_DL")
    ∷ numerical (str "VCELL_OV_TH") (some (str "max")) none
    ∷ []

abbrev no_float : CString → Float
no_float s = num false 0

perform_all-IsGuarded_example :
    Ends (perform_all no_float commands (answering 0) initial) λ _ t. IsGuarded t
perform_all-IsGuarded_example =
    perform_all-IsGuarded no_float commands (answering 0) initial initial-IsGuarded

perform_all-chip_of_example :
    Ends
      (perform_all no_float commands (answering 0) initial)
      λ _ t. chip_of t ≡ effects commands (chip_of initial)
perform_all-chip_of_example = perform_all-chip_of no_float commands (answering 0) initial

-- What the commands leave in two registers.
serial_number : (effects commands (chip_of initial)).registers 0x1b ≡ some 7
unfolding messages register16 config_entry config_value nvm_command identity_register
    real_time_command strcmp_eq strip_prefix strtol
serial_number = refl

memory : (effects commands (chip_of initial)).registers 0x20 ≡ some 0xaaaa
unfolding messages register16 config_entry config_value nvm_command identity_register
    real_time_command strcmp_eq strip_prefix strtol
memory = refl

read_bms_data-ReadBack_example :
    Ends
      (read_bms_data 0x49 0x21 (answering 7) initial)
      λ v t. ReadBack (answering 7) 0x49 0x21 v initial t
read_bms_data-ReadBack_example = read_bms_data-ReadBack 0x49 0x21 (answering 7) initial

abbrev curr_msk : ConfigEntry
curr_msk = record { register_address = 0x16; default_data = 0x0fff; max_data = 0x0fff }

-- 2 ^ 16: none of its low 16 bits is set.
abbrev seventeen : List Bool
seventeen =
    true ∷ false ∷ false ∷ false ∷ false ∷ false ∷ false ∷ false ∷ false ∷ false ∷ false ∷ false
    ∷ false ∷ false ∷ false ∷ false ∷ false ∷ []
