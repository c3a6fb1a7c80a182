-- ===== src/Encoder/Position.antt =====
-- Positions, offsets and degrees.
use quad_bot_code_actuation.Prelude.{
  ℕ, ◌+◌, ◌-◌, ◌*◌, ◌/◌, ◌%◌, ◌^◌, ◌<◌, ◌≡◌, refl, ◌∙◌, ap, false, arith, bit_or, shl, shr,
  bit_and_low, bit_or_pack, u8, u16,
}
use quad_bot_code_actuation.Prelude.Int.{pos}
use quad_bot_code_actuation.Float.{num, of_int, literal, binary32, binary64, mul, div, narrow}
use quad_bot_code_actuation.Float.Exact.{rounded_exact, binary32-IsUsual, binary64-IsUsual}
use quad_bot_code_actuation.Float.Round.{rounding}
use quad_bot_code_actuation.Encoder.{relative, position_bits, to_degrees}

-- The 12-bit position in the middle of two bytes.
abbrev pub position : ℕ → ℕ → ℕ
position hi lo = (hi % 256 * 256 + lo % 256) / 4 % 4096

word : (hi lo : ℕ) → bit_or (u16 (shl (u8 hi) 8)) (u8 lo) ≡ hi % 256 * 256 + lo % 256
word hi lo =
    let e : u16 (shl (u8 hi) 8) ≡ u8 hi * 2 ^ 8 = omega arith in
    rw e (bit_or_pack 8 (u8 hi) (u8 lo) (omega arith))

pub position_bits_lem :
    (hi lo : ℕ) → position_bits (bit_or (u16 (shl (u8 hi) 8)) (u8 lo)) ≡ position hi lo
position_bits_lem hi lo = rw (word hi lo) (bit_and_low 12 (shr (hi % 256 * 256 + lo % 256) 2))

-- The offset is taken off around the circle.
pub relative_lem : (p o : ℕ) → p < 4096 → o < 4096 → relative p o ≡ (p + 4096 - o) % 4096
unfolding relative
relative_lem p o hp ho = ground arith

exact_int : (p : ℕ) → p < 4096 → of_int binary64 (pos p) ≡ num false (p * 2 ^ 1074)
exact_int p h =
    rounded_exact binary64 52 false (p * 2 ^ 1074) 1 p 1074 binary64-IsUsual (omega arith)
      (omega arith) (omega arith) (omega arith)

exact_product :
    (p : ℕ)
    → p < 4096
    → mul binary64 (num false (p * 2 ^ 1074)) (num false (360 * 2 ^ 1074))
      ≡ num false (p * 360 * 2 ^ 1074)
unfolding mul
exact_product p h =
    rounded_exact binary64 52 false (p * 2 ^ 1074 * (360 * 2 ^ 1074)) (2 ^ 1074) (p * 360) 1074
      binary64-IsUsual (omega arith) (omega arith) (omega arith) (omega arith)

exact_quotient :
    (p : ℕ)
    → p < 4096
    → div binary64 (num false (p * 360 * 2 ^ 1074)) (num false (4096 * 2 ^ 1074))
      ≡ num false (p * 360 * 2 ^ 1062)
unfolding div
exact_quotient p h =
    rounded_exact binary64 52 false (p * 360 * 2 ^ 1074 * 2 ^ 1074) (4096 * 2 ^ 1074) (p * 360) 1062
      binary64-IsUsual (omega arith) (omega arith) (omega arith) (omega arith)

exact_float :
    (p : ℕ) → p < 4096 → narrow (num false (p * 360 * 2 ^ 1062)) ≡ num false (p * 360 * 2 ^ 137)
unfolding narrow
exact_float p h =
    rounded_exact binary32 23 false (p * 360 * 2 ^ 1062) (2 ^ 925) (p * 360) 137 binary32-IsUsual
      (omega arith) (omega arith) (omega arith) (omega arith)

literal_turn : literal binary64 360 1 ≡ num false (360 * 2 ^ 1074)
unfolding rounding
literal_turn = refl

literal_steps : literal binary64 4096 1 ≡ num false (4096 * 2 ^ 1074)
unfolding rounding
literal_steps = refl

-- One step is 360 / 4096 degrees, without rounding: a float counts steps of 2 ^ -149.
pub to_degrees_exact : (p : ℕ) → p < 4096 → to_degrees p ≡ num false (p * 360 * 2 ^ 137)
unfolding to_degrees
to_degrees_exact p h =
    ap
      (λ x.
        narrow (div binary64 (mul binary64 x (literal binary64 360 1)) (literal binary64 4096 1)))
      (exact_int p h)
    ∙ ap
        (λ x.
          narrow
            (div binary64 (mul binary64 (num false (p * 2 ^ 1074)) x) (literal binary64 4096 1)))
        literal_turn
    ∙ ap (λ x. narrow (div binary64 x (literal binary64 4096 1))) (exact_product p h)
    ∙ ap (λ x. narrow (div binary64 (num false (p * 360 * 2 ^ 1074)) x)) literal_steps
    ∙ ap narrow (exact_quotient p h)
    ∙ exact_float p h
