-- ===== src/Bms/Thresholds.antt =====
-- The numerical commands: every one has a register and a value, and none is ever sent.
use quad_bot_code_actuation.Prelude.{
  ℕ, ◌^◌, ◌≤◌, ◌<◌, ◌≡◌, refl, Bool, true, false, Option, [], CString, str, strcmp_eq, arith,
  if◌then◌else◌, leb, leb→le, bit_or, bit_and, bit_and_low, bit_or_pack, shl,
}
use quad_bot_code_actuation.Prelude.Int.{ℤ, to_unsigned}
use quad_bot_code_actuation.Float.{Float, num, binary32, literal}
use quad_bot_code_actuation.Float.Bounded.{AtMost}
use quad_bot_code_actuation.Float.Round.{rounding}
use quad_bot_code_actuation.Board.{State, Env, Ends, Run, done, fail, undefined}
use quad_bot_code_actuation.Board.Traffic.{messages}
use quad_bot_code_actuation.Bms.Core.{imax}
use quad_bot_code_actuation.Bms.Codes.{
  HasCode, steps, float_arg-AtMost, vcell_code-HasCode, vb_code-HasCode, ntc_code-HasCode,
  ovc_code-HasCode, current_to_code-HasCode,
}
use quad_bot_code_actuation.Bms.Numerical.{
  Encoded, unknown, undefined_value, encoded, one_code, with_count, two_codes, encode, float_arg,
  zero_to, zero_to_imax, send_bms_numerical_command, refuse, vcell_code, ntc_code, ovc_code,
  current_to_code,
}
use quad_bot_code_actuation.Bms.Traffic.{Sent}

-- No conversion was undefined, the register is one of the thresholds' and the value has 16 bits.
abbrev pub IsDefined : Encoded → Type 0
IsDefined unknown = Unit
IsDefined undefined_value = ⊥
IsDefined (encoded reg v) = (5 ≤ reg) × (reg ≤ 18) × (v < 65536)

choose : (b : Bool) (x y : Encoded) → IsDefined x → IsDefined y → IsDefined (if b then x else y)
choose true x y h k = h
choose false x y h k = k

-- The widths that occur: a field of 4 above one of 8 or 12, and two of 8 or 4.
pack8 : (hi lo : ℕ) → bit_or (shl (bit_and hi 0xf) 8) (bit_and lo 0xff) < 65536
pack8 hi lo = omega (
  arith,
  bit_or_pack 8 (bit_and hi 0xf) (bit_and lo 0xff) (omega (arith, bit_and_low 8 lo)),
  bit_and_low 4 hi,
  bit_and_low 8 lo,
)

pack12 : (hi lo : ℕ) → bit_or (shl (bit_and hi 0xf) 12) (bit_and lo 0xfff) < 65536
pack12 hi lo = omega (
  arith,
  bit_or_pack 12 (bit_and hi 0xf) (bit_and lo 0xfff) (omega (arith, bit_and_low 12 lo)),
  bit_and_low 4 hi,
  bit_and_low 12 lo,
)

pack_bytes : (hi lo : ℕ) → bit_or (shl (bit_and hi 0xff) 8) (bit_and lo 0xff) < 65536
pack_bytes hi lo = omega (
  arith,
  bit_or_pack 8 (bit_and hi 0xff) (bit_and lo 0xff) (omega (arith, bit_and_low 8 lo)),
  bit_and_low 8 hi,
  bit_and_low 8 lo,
)

pack_nibbles : (hi lo : ℕ) → bit_or (shl (bit_and hi 0xf) 4) (bit_and lo 0xf) < 65536
pack_nibbles hi lo = omega (
  arith,
  bit_or_pack 4 (bit_and hi 0xf) (bit_and lo 0xf) (omega (arith, bit_and_low 4 lo)),
  bit_and_low 4 hi,
  bit_and_low 4 lo,
)

one-IsDefined :
    (reg top mask : ℕ) (o : Option ℕ)
    → 5 ≤ reg
    → reg ≤ 18
    → ((c : ℕ) → bit_and c mask < 65536)
    → HasCode top o
    → IsDefined (one_code reg mask o)
one-IsDefined reg top mask o h k m (c, e, l) = rw e (h, k, m c)

count-IsDefined :
    (reg k top mask : ℕ) (n : ℤ) (o : Option ℕ)
    → 5 ≤ reg
    → reg ≤ 18
    → ((hi lo : ℕ) → bit_or (shl (bit_and hi 0xf) k) (bit_and lo mask) < 65536)
    → HasCode top o
    → IsDefined (with_count reg k mask n o)
count-IsDefined reg k top mask n o h q m (c, e, l) = rw e (h, q, m _ c)

two-IsDefined :
    (reg k top mask : ℕ) (o p : Option ℕ)
    → 5 ≤ reg
    → reg ≤ 18
    → ((hi lo : ℕ) → bit_or (shl (bit_and hi mask) k) (bit_and lo mask) < 65536)
    → HasCode top o
    → HasCode top p
    → IsDefined (two_codes reg k mask o p)
two-IsDefined reg k top mask o p h q m (c, e, l) (d, f, r) = rw (e, f) (h, q, m d c)

low8 : (c : ℕ) → bit_and c 0xff < 65536
low8 c = omega (arith, bit_and_low 8 c)

low12 : (c : ℕ) → bit_and c 0xfff < 65536
low12 c = omega (arith, bit_and_low 12 c)

word_bound : (z : ℤ) → to_unsigned (2 ^ 16) z < 65536
word_bound z = ground arith

module _ (atof : CString → Float) where
  -- An argument of the range 0 to m / n, by default p / q.
  zero_to-AtMost :
      (m n p q : ℕ) (arg : Option CString)
      → literal binary32 m n ≡ num false (steps (literal binary32 m n))
      → literal binary32 p q ≡ num false (steps (literal binary32 p q))
      → leb (steps (literal binary32 p q)) (steps (literal binary32 m n)) ≡ true
      → AtMost (steps (literal binary32 m n)) (zero_to atof m n p q arg)
  unfolding rounding
  zero_to-AtMost m n p q arg e f h =
      rw (e, f)
        (float_arg-AtMost atof arg 0 (steps (literal binary32 m n)) (steps (literal binary32 p q))
          (omega arith) (leb→le (steps (literal binary32 p q)) (steps (literal binary32 m n)) h))

  -- The codes of the arguments of each kind of command, by their defaults.
  vcell-HasCode : (arg : Option CString) → HasCode 0xff (vcell_code (zero_to atof 5 1 2 10 arg))
  unfolding rounding
  vcell-HasCode arg = vcell_code-HasCode _ (zero_to-AtMost 5 1 2 10 arg refl refl refl)

  imax-HasCode : (arg : Option CString) → HasCode 0xff (ovc_code (zero_to_imax atof arg))
  unfolding rounding imax
  imax-HasCode arg =
      ovc_code-HasCode _
        (float_arg-AtMost atof arg 0 (steps imax) (steps imax) (omega arith) (omega arith))

  sc-HasCode : (arg : Option CString) → HasCode 15 (current_to_code (zero_to atof 1000 1 100 1 arg))
  unfolding rounding
  sc-HasCode arg = current_to_code-HasCode _ (zero_to-AtMost 1000 1 100 1 arg refl refl refl)

  ot-HasCode :
      (arg : Option CString)
      → HasCode 0xfff (
          ntc_code (
            float_arg atof arg
              (literal binary32 2 10)
              (literal binary32 33 10)
              (literal binary32 25 10)))
  unfolding rounding
  ot-HasCode arg = ntc_code-HasCode _ (
      float_arg-AtMost atof arg (steps (literal binary32 2 10)) (steps (literal binary32 33 10))
        (steps (literal binary32 25 10))
        (leb→le (steps (literal binary32 2 10)) (steps (literal binary32 33 10)) refl)
        (leb→le (steps (literal binary32 25 10)) (steps (literal binary32 33 10)) refl))

  ut-HasCode : (arg : Option CString) → HasCode 0xfff (ntc_code (zero_to atof 33 10 5 10 arg))
  unfolding rounding
  ut-HasCode arg = ntc_code-HasCode _ (zero_to-AtMost 33 10 5 10 arg refl refl refl)

  -- Every command with any arguments, whatever `atof` makes of them, is unknown or has a register and
  -- a value of 16 bits: no conversion from `float` to `int` is undefined.
  pub encode-IsDefined : (c : CString) (a b : Option CString) → IsDefined (encode atof c a b)
  unfolding encode rounding
  encode-IsDefined c a b =
      choose (strcmp_eq c (str "CSA_GAIN_FACTOR")) _ _ (omega arith, omega arith, word_bound _)
        (choose (strcmp_eq c (str "VCELL_OV_TH")) _ _
          (count-IsDefined 6 8 0xff 0xff _ _ (omega arith) (omega arith) pack8
            (vcell_code-HasCode _ (zero_to-AtMost 5 1 43 10 a refl refl refl)))
          (choose (strcmp_eq c (str "VCELL_UV_TH")) _ _
            (count-IsDefined 7 8 0xff 0xff _ _ (omega arith) (omega arith) pack8
              (vcell_code-HasCode _ (zero_to-AtMost 5 1 22 10 a refl refl refl)))
            (choose (strcmp_eq c (str "VCELL_SEVERE_DELTA_THRS")) _ _
              (two-IsDefined 8 8 0xff 0xff _ _ (omega arith) (omega arith) pack_bytes
                (vcell-HasCode a) (vcell-HasCode b))
              (choose (strcmp_eq c (str "VCELL_BAL_UV_DELTA_TH")) _ _
                (count-IsDefined 9 8 0xff 0xff _ _ (omega arith) (omega arith) pack8
                  (vcell-HasCode a))
                (choose (strcmp_eq c (str "VB_OV_TH")) _ _
                  (count-IsDefined 10 8 0xff 0xff _ _ (omega arith) (omega arith) pack8
                    (vb_code-HasCode _ (zero_to-AtMost 25 1 23 1 a refl refl refl)))
                  (choose (strcmp_eq c (str "VB_UV_TH")) _ _
                    (count-IsDefined 11 8 0xff 0xff _ _ (omega arith) (omega arith) pack8
                      (vb_code-HasCode _ (zero_to-AtMost 25 1 1093 100 a refl refl refl)))
                    (choose (strcmp_eq c (str "VB_SUM_MAX_DIFF_TH")) _ _
                      (one-IsDefined 12 0xff 0xff _ (omega arith) (omega arith) low8
                        (vb_code-HasCode _ (zero_to-AtMost 25 1 2 1 a refl refl refl)))
                      (choose (strcmp_eq c (str "VNTC_OT_TH")) _ _
                        (count-IsDefined 13 12 0xfff 0xfff _ _ (omega arith) (omega arith) pack12
                          (ot-HasCode a))
                        (choose (strcmp_eq c (str "VNTC_UT_TH")) _ _
                          (count-IsDefined 14 12 0xfff 0xfff _ _ (omega arith) (omega arith) pack12
                            (ut-HasCode a))
                          (choose (strcmp_eq c (str "VNTC_SEVERE_OT_DELTA_TH")) _ _
                            (one-IsDefined 15 0xfff 0xfff _ (omega arith) (omega arith) low12
                              (ut-HasCode a))
                            (choose (strcmp_eq c (str "OVC_THRESHOLDS")) _ _
                              (two-IsDefined 16 8 0xff 0xff _ _ (omega arith) (omega arith)
                                pack_bytes (imax-HasCode a) (imax-HasCode b))
                              (choose (strcmp_eq c (str "PERSISTENT_OVC_THRESHOLDS")) _ _
                                (one-IsDefined 17 0xff 0xff _ (omega arith) (omega arith) low8
                                  (imax-HasCode a))
                                (choose (strcmp_eq c (str "SC_THRESHOLD")) _ _
                                  (two-IsDefined 18 4 15 0xf _ _ (omega arith) (omega arith)
                                    pack_nibbles (sc-HasCode a) (sc-HasCode b))
                                  tt)))))))))))))

  never :
      (e : Encoded) (c : CString) (env : Env) (s : State)
      → IsDefined e
      → Ends
          (elim e as (λ x. Run (Unit {0})) [
            | unknown ↦ refuse c env s
            | undefined_value ↦ fail undefined env s
            | encoded register_address value ↦ done env s
          ])
          λ _ t. Sent [] s.bms_conversion_active s t
  unfolding messages
  never unknown c env s h = record { traffic = refl; flag = refl }
  never undefined_value c env s h = absurd h
  never (encoded reg v) c env s h = record { traffic = refl; flag = refl }

  -- No numerical command, with any name and arguments, puts anything on the bus: it returns with every
  -- register of the chip as it was.
  pub send_bms_numerical_command-Sent :
      (c : CString) (a b : Option CString) (env : Env) (s : State)
      → Ends
          (send_bms_numerical_command atof c a b env s)
          λ _ t. Sent [] s.bms_conversion_active s t
  unfolding send_bms_numerical_command
  send_bms_numerical_command-Sent c a b env s =
      never (encode atof c a b) c env s (encode-IsDefined c a b)
