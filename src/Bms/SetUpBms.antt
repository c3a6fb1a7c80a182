-- ===== src/Bms/SetUpBms.antt =====
-- Quadruped_Bot_Actuation_Code/src/SetUpBMS.cpp: every command that sets the L9961 up.
use quad_bot_code_actuation.Prelude.{none, some, CString, str}
use quad_bot_code_actuation.Float.{Float}
use quad_bot_code_actuation.Board.{M, ◌>>◌}
use quad_bot_code_actuation.Bms.Setup.{send_bms_config_command, send_bms_identity_command}
use quad_bot_code_actuation.Bms.Numerical.{send_bms_numerical_command}

abbrev default_arg : CString
default_arg = str "default"

unfoldable pub set_up_config : M (Unit {0})
unfolding send_bms_config_command
set_up_config = do
  send_bms_config_command (str "CFG2_ENABLES") default_arg
  send_bms_config_command (str "TO_PRDV_BAL_MSK") default_arg
  send_bms_config_command (str "TO_FUSE_RST_MSK") default_arg
  send_bms_config_command (str "TO_FAULTN_MSK") default_arg
  send_bms_config_command (str "CURR_MSK") default_arg
  send_bms_config_command (str "DIAG_OV_OT_UT") default_arg
  send_bms_config_command (str "DIAG_UV") default_arg
  send_bms_config_command (str "DIAG_CURR") default_arg

unfoldable pub set_up_identity : M (Unit {0})
unfolding send_bms_identity_command
set_up_identity = do
  send_bms_identity_command (str "MANUFACTURE_NAME_MSB") 0x1234
  send_bms_identity_command (str "MANUFACTURE_NAME_LSB") 0x5678
  send_bms_identity_command (str "MANUFACTURING_DATE") 0x2025
  send_bms_identity_command (str "FIRST_USAGE_DATE") 0x2025
  send_bms_identity_command (str "SERIAL_NUMBER_MSB") 0xabcd
  send_bms_identity_command (str "SERIAL_NUMBER_LSB") 0xef01
  send_bms_identity_command (str "DEVICE_NAME_MSB") 0x1357
  send_bms_identity_command (str "DEVICE_NAME_LSB") 0x2468

module _ (atof : CString → Float) where
  abbrev threshold : CString → CString → CString → M (Unit {0})
  threshold command arg1 arg2 = send_bms_numerical_command atof command (some arg1) (some arg2)

  abbrev threshold_alone : CString → CString → M (Unit {0})
  threshold_alone command arg1 = send_bms_numerical_command atof command (some arg1) none

  unfoldable pub set_up_thresholds : M (Unit {0})
  unfolding send_bms_numerical_command
  set_up_thresholds = do
    threshold_alone (str "CSA_GAIN_FACTOR") (str "default")
    threshold (str "VCELL_OV_TH") (str "max") (str "max")
    threshold (str "VCELL_UV_TH") (str "min") (str "max")
    threshold (str "VCELL_SEVERE_DELTA_THRS") (str "max") (str "min")
    threshold (str "VCELL_BAL_UV_DELTA_TH") (str "min") (str "max")
    threshold (str "VB_OV_TH") (str "max") (str "max")
    threshold (str "VB_UV_TH") (str "min") (str "max")
    threshold_alone (str "VB_SUM_MAX_DIFF_TH") (str "max")
    threshold (str "VNTC_OT_TH") (str "max") (str "max")
    threshold (str "VNTC_UT_TH") (str "min") (str "max")
    threshold_alone (str "VNTC_SEVERE_OT_DELTA_TH") (str "max")
    threshold (str "OVC_THRESHOLDS") (str "max") (str "max")
    threshold_alone (str "PERSISTENT_OVC_THRESHOLDS") (str "max")
    threshold (str "SC_THRESHOLD") (str "max") (str "max")

  unfoldable pub set_up_bms : M (Unit {0})
  unfolding set_up_config set_up_identity set_up_thresholds
  set_up_bms = do set_up_config; set_up_identity; set_up_thresholds
