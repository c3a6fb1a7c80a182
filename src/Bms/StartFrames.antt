-- ===== src/Bms/StartFrames.antt =====
-- The start-up sequence of the battery chip keeps to it.
use quad_bot_code_actuation.Prelude.{none, some, CString, str}
use quad_bot_code_actuation.Float.{Float}
use quad_bot_code_actuation.Board.Frames.{battery, Keeps, ◌⨾◌}
use quad_bot_code_actuation.Bms.Frames.{
  send_bms_config_command-Keeps, send_bms_identity_command-Keeps, send_bms_numerical_command-Keeps,
}
use quad_bot_code_actuation.Bms.Setup.{send_bms_config_command}
use quad_bot_code_actuation.Bms.Numerical.{send_bms_numerical_command}
use quad_bot_code_actuation.Bms.SetUpBms.{
  set_up_config, set_up_identity, set_up_thresholds, set_up_bms,
}

config : (command : CString) → Keeps battery (send_bms_config_command command (str "default"))
config command = send_bms_config_command-Keeps command (str "default")

set_up_config-Keeps : Keeps battery set_up_config
unfolding set_up_config
set_up_config-Keeps = config (str "CFG2_ENABLES") ⨾ λ _. config (str "TO_PRDV_BAL_MSK") ⨾ λ _.
    config (str "TO_FUSE_RST_MSK") ⨾ λ _. config (str "TO_FAULTN_MSK") ⨾ λ _.
    config (str "CURR_MSK") ⨾ λ _.
    config (str "DIAG_OV_OT_UT") ⨾ λ _. config (str "DIAG_UV") ⨾ λ _. config (str "DIAG_CURR")

set_up_identity-Keeps : Keeps battery set_up_identity
unfolding set_up_identity
set_up_identity-Keeps = send_bms_identity_command-Keeps (str "MANUFACTURE_NAME_MSB") 0x1234 ⨾ λ _.
    send_bms_identity_command-Keeps (str "MANUFACTURE_NAME_LSB") 0x5678 ⨾ λ _.
    send_bms_identity_command-Keeps (str "MANUFACTURING_DATE") 0x2025 ⨾ λ _.
    send_bms_identity_command-Keeps (str "FIRST_USAGE_DATE") 0x2025 ⨾ λ _.
    send_bms_identity_command-Keeps (str "SERIAL_NUMBER_MSB") 0xabcd ⨾ λ _.
    send_bms_identity_command-Keeps (str "SERIAL_NUMBER_LSB") 0xef01 ⨾ λ _.
    send_bms_identity_command-Keeps (str "DEVICE_NAME_MSB") 0x1357 ⨾ λ _.
    send_bms_identity_command-Keeps (str "DEVICE_NAME_LSB") 0x2468

module _ (atof : CString → Float) where
  two :
      (command arg1 arg2 : CString)
      → Keeps battery (send_bms_numerical_command atof command (some arg1) (some arg2))
  two command arg1 arg2 = send_bms_numerical_command-Keeps atof command (some arg1) (some arg2)

  one :
      (command arg1 : CString)
      → Keeps battery (send_bms_numerical_command atof command (some arg1) none)
  one command arg1 = send_bms_numerical_command-Keeps atof command (some arg1) none

  set_up_thresholds-Keeps : Keeps battery (set_up_thresholds atof)
  unfolding set_up_thresholds
  set_up_thresholds-Keeps = one (str "CSA_GAIN_FACTOR") (str "default") ⨾ λ _.
      two (str "VCELL_OV_TH") (str "max") (str "max") ⨾ λ _.
      two (str "VCELL_UV_TH") (str "min") (str "max") ⨾ λ _.
      two (str "VCELL_SEVERE_DELTA_THRS") (str "max") (str "min") ⨾ λ _.
      two (str "VCELL_BAL_UV_DELTA_TH") (str "min") (str "max") ⨾ λ _.
      two (str "VB_OV_TH") (str "max") (str "max") ⨾ λ _.
      two (str "VB_UV_TH") (str "min") (str "max") ⨾ λ _.
      one (str "VB_SUM_MAX_DIFF_TH") (str "max") ⨾ λ _.
      two (str "VNTC_OT_TH") (str "max") (str "max") ⨾ λ _.
      two (str "VNTC_UT_TH") (str "min") (str "max") ⨾ λ _.
      one (str "VNTC_SEVERE_OT_DELTA_TH") (str "max") ⨾ λ _.
      two (str "OVC_THRESHOLDS") (str "max") (str "max") ⨾ λ _.
      one (str "PERSISTENT_OVC_THRESHOLDS") (str "max") ⨾ λ _.
      two (str "SC_THRESHOLD") (str "max") (str "max")

  pub set_up_bms-Keeps : Keeps battery (set_up_bms atof)
  unfolding set_up_bms
  set_up_bms-Keeps = set_up_config-Keeps ⨾ λ _. set_up_identity-Keeps ⨾ λ _. set_up_thresholds-Keeps
