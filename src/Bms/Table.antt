-- ===== src/Bms/Table.antt =====
-- The measurements of the chip as one table: register, width and conversion of each.
use quad_bot_code_actuation.Prelude.{
  ℕ, ◌-◌, ◌%◌, ◌^◌, ◌≡◌, sym, ap, bit_and, bit_and_low, arith, ◌<◌,
}
use quad_bot_code_actuation.Float.{Float, binary32, literal, div}
use quad_bot_code_actuation.Board.{M, History, State, Env, Ends, Ends-bind, pure, ◌>>=◌}
use quad_bot_code_actuation.Bms.Core.{bms_address, sense_resistor, read_bms_data}
use quad_bot_code_actuation.Bms.Read.{
  scale_reading, five_volts, signed, measured_voltage, die_temp, read_masked, read_v_cell1,
  read_v_cell2, read_v_cell3, read_v_cell4, read_v_cell5, read_v_cell_sum, read_vb, read_ntc_gpio,
  read_die_temp, read_current,
}
use quad_bot_code_actuation.Bms.Registers.{ReadBack, answered, listened, read_bms_data-ReadBack}

pub data Measurement : Type 0 where
  v_cell1 v_cell2 v_cell3 v_cell4 v_cell5 v_cell_sum vb ntc_gpio die current : Measurement

unfoldable pub measure : Measurement → M Float
measure v_cell1 = read_v_cell1
measure v_cell2 = read_v_cell2
measure v_cell3 = read_v_cell3
measure v_cell4 = read_v_cell4
measure v_cell5 = read_v_cell5
measure v_cell_sum = read_v_cell_sum
measure vb = read_vb
measure ntc_gpio = read_ntc_gpio
measure die = read_die_temp
measure current = read_current

-- The register map of the L9961.
abbrev pub register_of : Measurement → ℕ
register_of v_cell1 = 0x21
register_of v_cell2 = 0x22
register_of v_cell3 = 0x23
register_of v_cell4 = 0x24
register_of v_cell5 = 0x25
register_of v_cell_sum = 0x26
register_of vb = 0x27
register_of ntc_gpio = 0x28
register_of die = 0x29
register_of current = 0x2c

-- The bits of the register that are the measurement.
abbrev pub width : Measurement → ℕ
width v_cell_sum = 15
width current = 16
width _ = 12

-- 5 V, 25 V or 3.3 V on 4095 steps; 343.165 °C falling by 0.196 °C a step; or amperes.
abbrev pub convert : Measurement → ℕ → Float
convert vb = scale_reading (literal binary32 25 1)
convert ntc_gpio = scale_reading (literal binary32 33 10)
convert die = die_temp
convert current = λ n. div binary32 (measured_voltage (signed (2 ^ 16) n)) sense_resistor
convert _ = scale_reading five_volts

-- What a reading returns and leaves.
abbrev pub Measured : ℕ → ℕ → (ℕ → Float) → Env → State → Float → State → Type 0
Measured reg bits f env s d t =
    (v : ℕ) × ReadBack env bms_address reg v s t × (d ≡ f (v % 2 ^ bits))

masked-Measured :
    (reg bits : ℕ) (f : ℕ → Float) (env : Env) (s : State)
    → Ends
        ((read_masked reg (2 ^ bits - 1) >>= λ b. pure (f b)) env s)
        λ d t. Measured reg bits f env s d t
masked-Measured reg bits f env s =
    Ends-bind (read_masked reg (2 ^ bits - 1)) (λ b. pure (f b))
      (λ b t. (v : ℕ) × ReadBack env bms_address reg v s t × (b ≡ v % 2 ^ bits)) _ env s
      (Ends-bind (read_bms_data bms_address reg) (λ raw. pure (bit_and raw (2 ^ bits - 1))) _ _ env
        s (read_bms_data-ReadBack bms_address reg env s) λ v t r. (v, r, bit_and_low bits v))
      λ b t (v, r, e). (v, r, ap f e)

answered_small : (env : Env) (past : History) → answered env past < 2 ^ 16
answered_small env past = ground arith

current-Measured :
    (env : Env) (s : State)
    → Ends (read_current env s) λ d t. Measured 0x2c 16 (convert current) env s d t
unfolding read_current
current-Measured env s =
    Ends-bind (read_bms_data bms_address 0x2c) (λ raw. pure (convert current raw)) _ _ env s
      (read_bms_data-ReadBack bms_address 0x2c env s)
      λ v t r.
        let small : v % 2 ^ 16 ≡ v =
          omega (arith, r.value, answered_small env (listened bms_address 0x2c s.calls)) in
        (v, r, ap (convert current) (sym small))

-- Each measurement reads its register once, in one message to the chip, and returns the conversion of
-- as many low bits of the 16-bit answer as the measurement has.
pub measure-Measured :
    (m : Measurement) (env : Env) (s : State)
    → Ends (measure m env s) λ d t. Measured (register_of m) (width m) (convert m) env s d t
unfolding measure read_v_cell1 read_v_cell2 read_v_cell3 read_v_cell4 read_v_cell5 read_v_cell_sum
    read_vb read_ntc_gpio read_die_temp
measure-Measured v_cell1 env s = masked-Measured 0x21 12 (convert v_cell1) env s
measure-Measured v_cell2 env s = masked-Measured 0x22 12 (convert v_cell2) env s
measure-Measured v_cell3 env s = masked-Measured 0x23 12 (convert v_cell3) env s
measure-Measured v_cell4 env s = masked-Measured 0x24 12 (convert v_cell4) env s
measure-Measured v_cell5 env s = masked-Measured 0x25 12 (convert v_cell5) env s
measure-Measured v_cell_sum env s = masked-Measured 0x26 15 (convert v_cell_sum) env s
measure-Measured vb env s = masked-Measured 0x27 12 (convert vb) env s
measure-Measured ntc_gpio env s = masked-Measured 0x28 12 (convert ntc_gpio) env s
measure-Measured die env s = masked-Measured 0x29 12 (convert die) env s
measure-Measured current env s = current-Measured env s
