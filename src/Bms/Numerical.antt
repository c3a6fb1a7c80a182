-- ===== src/Bms/Numerical.antt =====
-- Quadruped_Bot_Actuation_Code/src/BMS_NumericalCommands.cpp: thresholds of the L9961. `atof` is the C
-- library's, which the commands take as a parameter.
use quad_bot_code_actuation.Prelude.{
  ℕ, ◌-◌, ◌^◌, Option, none, some, CString, str, strcmp_eq, strcasecmp_eq, bit_and, bit_or, shl,
  ltb, if◌then◌else◌,
}
use quad_bot_code_actuation.Prelude.Int.{ℤ, pos, negsuc, ltb_ℤ, eq_ℤ, to_unsigned, strtol}
use quad_bot_code_actuation.Float.{
  Float, nan, binary32, literal, of_int, add, sub, mul, div, lt, isnan, to_int, narrow,
}
use quad_bot_code_actuation.Board.{print, text, undefined, M, fail, ◌>>◌, done, call, say}
use quad_bot_code_actuation.Bms.Core.{vcell_res, vb_res, vntc_res, imax, sense_resistor}

abbrev pub int_min : ℤ
int_min = negsuc (2 ^ 31 - 1)

unfoldable pub parse_int_arg : Option CString → ℤ → ℤ → ℤ
unfolding strcasecmp_eq strtol
parse_int_arg none min_val max_val = min_val
parse_int_arg (some arg) min_val max_val =
    if strcasecmp_eq arg (str "max")
    then max_val
    else if strcasecmp_eq arg (str "min")
    then min_val
    else if strcasecmp_eq arg (str "default")
    then int_min
    else let val = strtol 10 arg in
      if ltb_ℤ val min_val then min_val else if ltb_ℤ max_val val then max_val else val

-- A value or its default in place of the sentinel.
abbrev or_default : ℤ → ℤ → ℤ
or_default default val = if eq_ℤ val int_min then default else val

-- A count of 1 to 15, by default 15.
unfoldable pub count_arg : Option CString → ℤ
unfolding parse_int_arg
count_arg arg = or_default (pos 15) (parse_int_arg arg (pos 1) (pos 15))

-- A conversion from `float` to `int`, held to 0 and `top`; none where it is undefined.
unfoldable pub clamped_code : ℕ → Float → Option ℕ
unfolding to_int
clamped_code top x = elim (to_int binary32 x) [
  | none ↦ none
  | some (pos n) ↦ some (if ltb top n then top else n)
  | some (negsuc n) ↦ some 0
]

abbrev one_half : Float
one_half = literal binary32 5 10

-- `(int)((x / step) + 0.5f)`, held to 0 and `top`.
unfoldable pub step_code : ℕ → Float → Float → Option ℕ
unfolding add div clamped_code
step_code top step x = clamped_code top (add binary32 (div binary32 x step) one_half)

-- `16 * res`
unfoldable pub sixteen : Float → Float
unfolding mul
sixteen res = mul binary32 (of_int binary32 (pos 16)) res

unfoldable pub vcell_code : Float → Option ℕ
unfolding sixteen step_code vcell_res
vcell_code voltage = step_code 0xff (sixteen vcell_res) voltage

unfoldable pub vb_code : Float → Option ℕ
unfolding sixteen step_code vb_res
vb_code voltage = step_code 0xff (sixteen vb_res) voltage

unfoldable pub ntc_code : Float → Option ℕ
unfolding step_code vntc_res
ntc_code voltage = step_code 0xfff vntc_res voltage

-- `(int)((current / Imax) * 255.0f + 0.5f)`, held to 0 and 0xFF.
unfoldable pub ovc_code : Float → Option ℕ
unfolding add mul div clamped_code imax
ovc_code current =
    clamped_code 0xff
      (add binary32 (mul binary32 (div binary32 current imax) (literal binary32 255 1)) one_half)

-- The lambda `currentToCode` of SC_THRESHOLD.
unfoldable pub current_to_code : Float → Option ℕ
unfolding add sub mul div lt clamped_code sense_resistor
current_to_code current =
    let min_voltage = literal binary32 4914 100000 in
    let step = literal binary32 1404 100000 in
    let max_voltage = add binary32 min_voltage (mul binary32 step (literal binary32 15 1)) in
    let min_current = div binary32 min_voltage sense_resistor in
    let max_current = div binary32 max_voltage sense_resistor in
    let raised = if lt current min_current then min_current else current in
    let held = if lt max_current raised then max_current else raised in
    let voltage = mul binary32 held sense_resistor in
    clamped_code 15 (add binary32 (div binary32 (sub binary32 voltage min_voltage) step) one_half)

-- `((high & mask) << k) | (low & mask_low)`
abbrev pack : ℕ → ℕ → ℕ → ℕ → ℕ → ℕ
pack hi hi_mask k lo lo_mask = bit_or (shl (bit_and hi hi_mask) k) (bit_and lo lo_mask)

-- The register and the data of a command; `undefined_value` where a conversion is undefined.
pub data Encoded : Type 0 where
  unknown undefined_value : Encoded
  encoded : ℕ → ℕ → Encoded

abbrev pub one_code : ℕ → ℕ → Option ℕ → Encoded
one_code reg mask none = undefined_value
one_code reg mask (some c) = encoded reg (bit_and c mask)

abbrev pub with_count : ℕ → ℕ → ℕ → ℤ → Option ℕ → Encoded
with_count reg k mask count none = undefined_value
with_count reg k mask count (some c) = encoded reg (pack (to_unsigned (2 ^ 32) count) 0xf k c mask)

-- Two codes of `k` bits, the one of `arg2` above the one of `arg1`.
abbrev pub two_codes : ℕ → ℕ → ℕ → Option ℕ → Option ℕ → Encoded
two_codes reg k mask none hi = undefined_value
two_codes reg k mask (some lo) none = undefined_value
two_codes reg k mask (some lo) (some hi) = encoded reg (pack hi mask k lo mask)

abbrev pub refuse : CString → M (Unit {0})
refuse command = do call (print (text (str "Numerical Command not recognized: "))); say command

module _ (atof : CString → Float) where
  unfoldable pub parse_float_arg : Option CString → Float → Float → Float
  unfolding strcasecmp_eq lt narrow
  parse_float_arg none min_val max_val = min_val
  parse_float_arg (some arg) min_val max_val =
      if strcasecmp_eq arg (str "max")
      then max_val
      else if strcasecmp_eq arg (str "min")
      then min_val
      else if strcasecmp_eq arg (str "default")
      then nan
      else let val = narrow (atof arg) in
        if lt val min_val then min_val else if lt max_val val then max_val else val

  -- The argument, or the default in place of NaN.
  unfoldable pub float_arg : Option CString → Float → Float → Float → Float
  unfolding parse_float_arg isnan
  float_arg arg min_val max_val default =
      let val = parse_float_arg arg min_val max_val in if isnan val then default else val

  abbrev pub zero_to : ℕ → ℕ → ℕ → ℕ → Option CString → Float
  zero_to top_m top_n default_m default_n arg =
      float_arg arg (literal binary32 0 1) (literal binary32 top_m top_n)
        (literal binary32 default_m default_n)

  abbrev pub zero_to_imax : Option CString → Float
  zero_to_imax arg = float_arg arg (literal binary32 0 1) imax imax

  -- Each command with its register, ranges and defaults.
  abbrev pub csa_gain_factor : Option CString → Encoded
  csa_gain_factor arg1 = encoded 0x05 (
      to_unsigned (2 ^ 16) (or_default (pos 0x8000) (parse_int_arg arg1 (pos 0x0000) (pos 0xffff))))

  abbrev pub vcell_ov_th : Option CString → Option CString → Encoded
  vcell_ov_th arg1 arg2 =
      with_count 0x06 8 0xff (count_arg arg2) (vcell_code (zero_to 5 1 43 10 arg1))

  abbrev pub vcell_uv_th : Option CString → Option CString → Encoded
  vcell_uv_th arg1 arg2 =
      with_count 0x07 8 0xff (count_arg arg2) (vcell_code (zero_to 5 1 22 10 arg1))

  abbrev pub vcell_severe_delta_thrs : Option CString → Option CString → Encoded
  vcell_severe_delta_thrs arg1 arg2 =
      two_codes 0x08 8 0xff (vcell_code (zero_to 5 1 2 10 arg1))
        (vcell_code (zero_to 5 1 2 10 arg2))

  abbrev pub vcell_bal_uv_delta_th : Option CString → Option CString → Encoded
  vcell_bal_uv_delta_th arg1 arg2 =
      with_count 0x09 8 0xff (count_arg arg2) (vcell_code (zero_to 5 1 2 10 arg1))

  abbrev pub vb_ov_th : Option CString → Option CString → Encoded
  vb_ov_th arg1 arg2 = with_count 0x0a 8 0xff (count_arg arg2) (vb_code (zero_to 25 1 23 1 arg1))

  abbrev pub vb_uv_th : Option CString → Option CString → Encoded
  vb_uv_th arg1 arg2 =
      with_count 0x0b 8 0xff (count_arg arg2) (vb_code (zero_to 25 1 1093 100 arg1))

  abbrev pub vb_sum_max_diff_th : Option CString → Encoded
  vb_sum_max_diff_th arg1 = one_code 0x0c 0xff (vb_code (zero_to 25 1 2 1 arg1))

  abbrev pub vntc_ot_th : Option CString → Option CString → Encoded
  vntc_ot_th arg1 arg2 = with_count 0x0d 12 0xfff (count_arg arg2) (
      ntc_code
        (float_arg arg1 (literal binary32 2 10) (literal binary32 33 10) (literal binary32 25 10)))

  abbrev pub vntc_ut_th : Option CString → Option CString → Encoded
  vntc_ut_th arg1 arg2 =
      with_count 0x0e 12 0xfff (count_arg arg2) (ntc_code (zero_to 33 10 5 10 arg1))

  abbrev pub vntc_severe_ot_delta_th : Option CString → Encoded
  vntc_severe_ot_delta_th arg1 = one_code 0x0f 0xfff (ntc_code (zero_to 33 10 5 10 arg1))

  abbrev pub ovc_thresholds : Option CString → Option CString → Encoded
  ovc_thresholds arg1 arg2 =
      two_codes 0x10 8 0xff (ovc_code (zero_to_imax arg1)) (ovc_code (zero_to_imax arg2))

  abbrev pub persistent_ovc_thresholds : Option CString → Encoded
  persistent_ovc_thresholds arg1 = one_code 0x11 0xff (ovc_code (zero_to_imax arg1))

  abbrev pub sc_threshold : Option CString → Option CString → Encoded
  sc_threshold arg1 arg2 =
      two_codes 0x12 4 0xf (current_to_code (zero_to 1000 1 100 1 arg1))
        (current_to_code (zero_to 1000 1 100 1 arg2))

  unfoldable pub encode : CString → Option CString → Option CString → Encoded
  unfolding float_arg count_arg parse_int_arg vcell_code vb_code ntc_code ovc_code current_to_code
      imax
  encode command arg1 arg2 =
      if strcmp_eq command (str "CSA_GAIN_FACTOR")
      then csa_gain_factor arg1
      else if strcmp_eq command (str "VCELL_OV_TH")
      then vcell_ov_th arg1 arg2
      else if strcmp_eq command (str "VCELL_UV_TH")
      then vcell_uv_th arg1 arg2
      else if strcmp_eq command (str "VCELL_SEVERE_DELTA_THRS")
      then vcell_severe_delta_thrs arg1 arg2
      else if strcmp_eq command (str "VCELL_BAL_UV_DELTA_TH")
      then vcell_bal_uv_delta_th arg1 arg2
      else if strcmp_eq command (str "VB_OV_TH")
      then vb_ov_th arg1 arg2
      else if strcmp_eq command (str "VB_UV_TH")
      then vb_uv_th arg1 arg2
      else if strcmp_eq command (str "VB_SUM_MAX_DIFF_TH")
      then vb_sum_max_diff_th arg1
      else if strcmp_eq command (str "VNTC_OT_TH")
      then vntc_ot_th arg1 arg2
      else if strcmp_eq command (str "VNTC_UT_TH")
      then vntc_ut_th arg1 arg2
      else if strcmp_eq command (str "VNTC_SEVERE_OT_DELTA_TH")
      then vntc_severe_ot_delta_th arg1
      else if strcmp_eq command (str "OVC_THRESHOLDS")
      then ovc_thresholds arg1 arg2
      else if strcmp_eq command (str "PERSISTENT_OVC_THRESHOLDS")
      then persistent_ovc_thresholds arg1
      else if strcmp_eq command (str "SC_THRESHOLD")
      then sc_threshold arg1 arg2
      else unknown

  -- The check, the write and the report stand behind the `return` of the last `else` branch, so that
  -- no command reaches them.
  unfoldable pub send_bms_numerical_command :
      CString → Option CString → Option CString → M (Unit {0})
  unfolding encode
  send_bms_numerical_command command arg1 arg2 env s = elim (encode command arg1 arg2) [
    | unknown ↦ refuse command env s
    | undefined_value ↦ fail undefined env s
    | encoded register_address value ↦ done env s
  ]
