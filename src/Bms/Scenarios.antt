-- ===== src/Bms/Scenarios.antt =====
-- Thresholds, start-up, clock and measurements of the L9961 on concrete data.
use quad_bot_code_actuation.Bms.SetUpBms.{set_up_bms}
use quad_bot_code_actuation.Bms.StartUp.{identity_messages, config_messages, set_up_bms-Sent}
use quad_bot_code_actuation.Prelude.{◌++◌, refl}
use quad_bot_code_actuation.Bms.Storing.{storing, storing-IsStoring}
use quad_bot_code_actuation.Bms.Identity.{
  serial_number, msb_command, lsb_command, read_back, identity-read_back,
}
use quad_bot_code_actuation.Bms.Setup.{send_bms_identity_command}
use quad_bot_code_actuation.Board.{◌>>◌}
use quad_bot_code_actuation.Prelude.{none, some, ◌*◌, []}
use quad_bot_code_actuation.Prelude.{
  ◌*◌, ◌^◌, ◌≡◌, true, false, arith, some, none, [], CString, str,
}
use quad_bot_code_actuation.Float.{Float, num, lt, literal, binary32}
use quad_bot_code_actuation.Board.{State, Ends}
use quad_bot_code_actuation.Board.Initial.{initial, answering}
use quad_bot_code_actuation.Bms.Core.{is_bms_data_valid}
use quad_bot_code_actuation.Bms.Read.{read_coulomb_counter, scale_reading, five_volts}
use quad_bot_code_actuation.Bms.Numerical.{encode, send_bms_numerical_command}
use quad_bot_code_actuation.Bms.Traffic.{Sent}
use quad_bot_code_actuation.Bms.Thresholds.{
  IsDefined, encode-IsDefined, send_bms_numerical_command-Sent,
}
use quad_bot_code_actuation.Bms.Table.{measure, vb, Measured, convert, measure-Measured}
use quad_bot_code_actuation.Bms.Clock.{is_bms_data_valid_wraps}
use quad_bot_code_actuation.Bms.Counters.{Counted, read_coulomb_counter-Counted}
use quad_bot_code_actuation.Bms.Measurements.{scale_reading_range}

-- A function for `atof` that knows one number.
abbrev four_volts : CString → Float
four_volts s = num false (4 * 2 ^ 1074)

encode-IsDefined_example :
    IsDefined (encode four_volts (str "VCELL_OV_TH") (some (str "4")) (some (str "max")))
encode-IsDefined_example =
    encode-IsDefined four_volts (str "VCELL_OV_TH") (some (str "4")) (some (str "max"))

send_bms_numerical_command-Sent_example :
    Ends
      (send_bms_numerical_command four_volts
        (str "VCELL_OV_TH")
        (some (str "4"))
        none
        (answering 0)
        initial)
      λ _ t. Sent [] initial.bms_conversion_active initial t
send_bms_numerical_command-Sent_example =
    send_bms_numerical_command-Sent four_volts (str "VCELL_OV_TH") (some (str "4")) none
      (answering 0) initial

abbrev late : State
late = record initial { bms_data_timestamp = 4294967000 }

is_bms_data_valid_wraps_example :
    Ends (is_bms_data_valid (answering 4294967001) late) λ valid t. valid ≡ false
is_bms_data_valid_wraps_example =
    is_bms_data_valid_wraps (answering 4294967001) late (omega arith) (omega arith) (omega arith)
      (omega arith)

scale_reading_range_example :
    (lt (scale_reading five_volts 3000) (scale_reading five_volts 3001) ≡ true)
    × (lt (scale_reading (literal binary32 25 1) 3000) (scale_reading (literal binary32 25 1) 3001)
        ≡ true)
    × (scale_reading five_volts 0 ≡ num false 0)
    × (scale_reading five_volts 4095 ≡ five_volts)
    × (scale_reading (literal binary32 25 1) 4095 ≡ literal binary32 25 1)
scale_reading_range_example = scale_reading_range 3000 3001 (omega arith) (omega arith)

identity-read_back_example :
    Ends
      ((send_bms_identity_command (msb_command serial_number) 0xabcd
          >> send_bms_identity_command (lsb_command serial_number) 0xef01
          >> read_back serial_number)
        storing initial)
      λ v _. v ≡ 0xabcdef01
identity-read_back_example =
    identity-read_back serial_number 0xabcd 0xef01 (λ e. omega arith) (λ e. omega arith)
      (omega arith) (omega arith) storing (storing-IsStoring 0x1b) (storing-IsStoring 0x1c) initial

read_coulomb_counter-Counted_example :
    Ends (read_coulomb_counter (answering 3) initial) λ r t. Counted (answering 3) initial r t
read_coulomb_counter-Counted_example = read_coulomb_counter-Counted (answering 3) initial

measure-Measured_example :
    Ends
      (measure vb (answering 9) initial)
      λ d t. Measured 0x27 12 (convert vb) (answering 9) initial d t
measure-Measured_example = measure-Measured vb (answering 9) initial

set_up_bms-Sent_example :
    Ends
      (set_up_bms four_volts (answering 0) initial)
      λ _ t. Sent (identity_messages ++ config_messages) 0 initial t
set_up_bms-Sent_example = set_up_bms-Sent four_volts (answering 0) initial refl
