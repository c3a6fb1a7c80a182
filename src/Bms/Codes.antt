-- ===== src/Bms/Codes.antt =====
-- The codes of the thresholds are defined for every argument.
use quad_bot_code_actuation.Prelude.{
  ℕ, ◌+◌, ◌*◌, ◌/◌, ◌^◌, ◌≤◌, ◌<◌, ◌≡◌, refl, Bool, true, false, Option, none, some, CString, str,
  strcasecmp_eq, ltb, arith, if◌then◌else◌, ltb→lt, leb→le, Bool-cases, inl, inr,
}
use quad_bot_code_actuation.Prelude.Int.{ℤ, pos, negsuc}
use quad_bot_code_actuation.Float.{
  Float, nan, inf, num, binary32, literal, lt, isnan, to_int, add, sub, mul, div, narrow,
}
use quad_bot_code_actuation.Float.Round.{rounding}
use quad_bot_code_actuation.Float.Bounded.{
  AtMost, fits, div-AtMost, mul-AtMost, add-AtMost, sub-AtMost, to_int_defined,
}
use quad_bot_code_actuation.Bms.Core.{vcell_res, vb_res, vntc_res, imax, sense_resistor}
use quad_bot_code_actuation.Bms.Numerical.{
  clamped_code, step_code, sixteen, vcell_code, vb_code, ntc_code, ovc_code, current_to_code,
  parse_float_arg, float_arg,
}

-- The code exists, and is no more than the greatest.
abbrev pub HasCode : ℕ → Option ℕ → Type 0
HasCode top o = (c : ℕ) × (o ≡ some c) × (c ≤ top)

held : (top : ℕ) (z : ℤ) (x : Float) → to_int binary32 x ≡ some z → HasCode top (clamped_code top x)
unfolding clamped_code
held top (pos n) x e = (if ltb top n then top else n, rw (e, clamped_code) refl, ground arith)
held top (negsuc n) x e = (0, rw (e, clamped_code) refl, omega arith)

clamped_code-HasCode :
    (top a : ℕ) (x : Float)
    → AtMost a x
    → ltb (a / 2 ^ 149) (2 ^ 31) ≡ true
    → HasCode top (clamped_code top x)
clamped_code-HasCode top a x h f = let (z, e) = to_int_defined x a h f in held top z x e

clamp : (lo hi : ℕ) → Float → Float
clamp lo hi v =
    if lt v (num false lo) then num false lo else if lt (num false hi) v then num false hi else v

-- A finite number of at most k steps, or NaN.
abbrev AtMostOrNan : ℕ → Float → Type 0
AtMostOrNan k nan = Unit
AtMostOrNan k (inf s) = ⊥
AtMostOrNan k (num s n) = n ≤ k

clamp-AtMostOrNan : (lo hi : ℕ) (v : Float) → lo ≤ hi → AtMostOrNan hi (clamp lo hi v)
unfolding clamp lt
clamp-AtMostOrNan lo hi nan h = tt
clamp-AtMostOrNan lo hi (inf true) h = h
clamp-AtMostOrNan lo hi (inf false) h = omega arith
clamp-AtMostOrNan lo hi (num false n) h = ground arith
clamp-AtMostOrNan lo hi (num true n) h = ground arith

or_default-AtMost :
    (k d : ℕ) (v : Float) → d ≤ k → AtMostOrNan k v → AtMost k (if isnan v then num false d else v)
unfolding isnan
or_default-AtMost k d nan h p = h
or_default-AtMost k d (inf s) h p = p
or_default-AtMost k d (num s n) h p = p

module _ (atof : CString → Float) where
  parse_float_arg-AtMostOrNan :
      (arg : Option CString) (lo hi : ℕ)
      → lo ≤ hi
      → AtMostOrNan hi (parse_float_arg atof arg (num false lo) (num false hi))
  unfolding parse_float_arg clamp
  parse_float_arg-AtMostOrNan none lo hi h = h
  parse_float_arg-AtMostOrNan (some arg) lo hi h =
      elim (Bool-cases (strcasecmp_eq arg (str "max"))) [
        | inl q ↦ rw q (omega arith)
        | inr q ↦ elim (Bool-cases (strcasecmp_eq arg (str "min"))) [
          | inl r ↦ rw (q, r) h
          | inr r ↦ elim (Bool-cases (strcasecmp_eq arg (str "default"))) [
            | inl u ↦ rw (q, r, u) tt
            | inr u ↦ rw (q, r, u) (clamp-AtMostOrNan lo hi (narrow (atof arg)) h)
          ]
        ]
      ]

  -- An argument is finite and at most its greatest value, whatever `atof` makes of its text.
  pub float_arg-AtMost :
      (arg : Option CString) (lo hi d : ℕ)
      → lo ≤ hi
      → d ≤ hi
      → AtMost hi (float_arg atof arg (num false lo) (num false hi) (num false d))
  unfolding float_arg
  float_arg-AtMost arg lo hi d h k =
      or_default-AtMost hi d (parse_float_arg atof arg (num false lo) (num false hi)) k
        (parse_float_arg-AtMostOrNan arg lo hi h)

-- `(int)((x / step) + 0.5f)` of a value in range.
step_code-HasCode :
    (top : ℕ) (x : Float) (a b j half k : ℕ)
    → AtMost a x
    → 0 < b
    → fits (a * 2 ^ 149) b j ≡ true
    → fits (j + half) 1 k ≡ true
    → literal binary32 5 10 ≡ num false half
    → ltb (k / 2 ^ 149) (2 ^ 31) ≡ true
    → HasCode top (step_code top (num false b) x)
unfolding step_code
step_code-HasCode top x a b j half k h p f g e u =
    clamped_code-HasCode top k (add binary32 (div binary32 x (num false b)) (literal binary32 5 10))
      (rw e (
        add-AtMost (div binary32 x (num false b)) j half k false (div-AtMost x a b j false h p f)
          g))
      u

-- Constants in smallest steps.
abbrev pub volts : ℕ → ℕ
volts n = n * 2 ^ 149

abbrev pub steps : Float → ℕ
steps (num s n) = n
steps _ = 0

half_lem : literal binary32 5 10 ≡ num false (2 ^ 148)
unfolding rounding
half_lem = refl

-- A cell voltage of up to 5 V has a code of 8 bits.
pub vcell_code-HasCode : (x : Float) → AtMost (volts 5) x → HasCode 0xff (vcell_code x)
unfolding vcell_code fits
vcell_code-HasCode x h =
    step_code-HasCode 0xff x (volts 5) (steps (sixteen vcell_res)) (volts 512) (2 ^ 148)
      (volts 1024) h (ltb→lt 0 (steps (sixteen vcell_res)) refl) refl refl half_lem refl

-- A battery voltage of up to 25 V has a code of 8 bits.
pub vb_code-HasCode : (x : Float) → AtMost (volts 25) x → HasCode 0xff (vb_code x)
unfolding vb_code fits
vb_code-HasCode x h =
    step_code-HasCode 0xff x (volts 25) (steps (sixteen vb_res)) (volts 512) (2 ^ 148) (volts 1024)
      h (ltb→lt 0 (steps (sixteen vb_res)) refl) refl refl half_lem refl

-- A thermistor voltage of up to 3.3 V has a code of 12 bits.
pub ntc_code-HasCode :
    (x : Float) → AtMost (steps (literal binary32 33 10)) x → HasCode 0xfff (ntc_code x)
unfolding ntc_code fits
ntc_code-HasCode x h =
    step_code-HasCode 0xfff x (steps (literal binary32 33 10)) (steps vntc_res) (volts 8192)
      (2 ^ 148) (volts 16384) h (ltb→lt 0 (steps vntc_res) refl) refl refl half_lem refl

-- A current of up to Imax has a code of 8 bits.
pub ovc_code-HasCode : (x : Float) → AtMost (steps imax) x → HasCode 0xff (ovc_code x)
unfolding ovc_code fits imax
ovc_code-HasCode x h =
    clamped_code-HasCode 0xff (volts 1024)
      (add binary32 (mul binary32 (div binary32 x imax) (literal binary32 255 1))
        (literal binary32 5 10))
      (add-AtMost (mul binary32 (div binary32 x imax) (literal binary32 255 1)) (volts 512)
        (2 ^ 148) (volts 1024) false
        (mul-AtMost (div binary32 x imax) (volts 2) (volts 255) (volts 512) false
          (div-AtMost x (steps imax) (steps imax) (volts 2) false h (ltb→lt 0 (steps imax) refl)
            refl)
          refl)
        refl)
      refl

choose-AtMost :
    (k : ℕ) (b : Bool) (x y : Float) → AtMost k x → AtMost k y → AtMost k (if b then x else y)
choose-AtMost k true x y h l = h
choose-AtMost k false x y h l = l

-- The constants of `currentToCode`.
abbrev min_voltage : Float
min_voltage = literal binary32 4914 100000

abbrev sc_step : Float
sc_step = literal binary32 1404 100000

abbrev max_voltage : Float
max_voltage = add binary32 min_voltage (mul binary32 sc_step (literal binary32 15 1))

-- A short-circuit current of up to 1000 A has a code of 4 bits.
pub current_to_code-HasCode : (x : Float) → AtMost (volts 1000) x → HasCode 15 (current_to_code x)
unfolding current_to_code fits
current_to_code-HasCode x h =
    let min_current = div binary32 min_voltage sense_resistor in
    let max_current = div binary32 max_voltage sense_resistor in
    let raised = if lt x min_current then min_current else x in
    let bounded = if lt max_current raised then max_current else raised in
    let low : AtMost (volts 1000) raised =
      choose-AtMost (volts 1000) (lt x min_current) min_current x
        (leb→le (steps min_current) (volts 1000) refl) h in
    let both : AtMost (volts 1000) bounded =
      choose-AtMost (volts 1000) (lt max_current raised) max_current raised
        (leb→le (steps max_current) (volts 1000) refl) low in
    let v = mul binary32 bounded sense_resistor in
    let d = sub binary32 v min_voltage in
    let q = div binary32 d sc_step in
    clamped_code-HasCode 15 (volts 8192) (add binary32 q (literal binary32 5 10))
      (add-AtMost q (volts 4096) (2 ^ 148) (volts 8192) false
        (div-AtMost d (volts 32) (steps sc_step) (volts 4096) false
          (sub-AtMost v (volts 16) (steps min_voltage) (volts 32) false
            (mul-AtMost bounded (volts 1000) (steps sense_resistor) (volts 16) false both refl)
            refl)
          (ltb→lt 0 (steps sc_step) refl) refl)
        refl)
      refl
