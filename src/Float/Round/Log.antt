-- ===== src/Float/Round/Log.antt =====
-- The exponent of the highest digit, and powers of two.
use native.Mathlib.Nat.{
  pow-suc, one-le-pow, pow-le-pow_right, le-div_iff_mul-le, div-lt_iff_lt-mul, add-zero,
}
use quad_bot_code_actuation.Prelude.{
  ℕ, zero, suc, ◌+◌, ◌*◌, ◌/◌, ◌^◌, ◌≤◌, ◌<◌, ◌≡◌, refl, inl, inr, ap, arith, leb, Bool-cases,
  leb→le,
}
use quad_bot_code_actuation.Float.Round.{log2_below}

pub pow_add : (a b : ℕ) → 2 ^ (a + b) ≡ 2 ^ a * 2 ^ b
pow_add zero b = let e : zero + b ≡ b = omega arith in rw e (omega arith)
pow_add (suc a) b =
    let e : suc a + b ≡ suc (a + b) = omega arith in
    rw e (omega (arith, pow-suc 2 (a + b), pow_add a b, ap (λ (t : ℕ). t * 2 ^ b) (pow-suc 2 a)))

pub pow_pos : (a : ℕ) → 0 < 2 ^ a
pow_pos a = one-le-pow a 2 (omega arith)

pub pow_mono : (a b : ℕ) → a ≤ b → 2 ^ a ≤ 2 ^ b
pow_mono a b h = pow-le-pow_right (omega arith) h

-- `l` is the exponent of the highest digit of `n`.
pub record IsLog (l n : ℕ) : Type 0 where
  pub lower : 2 ^ l ≤ n
  pub upper : n < 2 * 2 ^ l

-- The digits above the lowest `e`.
IsLog-shift : (l e n : ℕ) → IsLog l (n / 2 ^ e) → IsLog (l + e) n
IsLog-shift l e n h = record {
  lower = rw (pow_add l e) ((le-div_iff_mul-le (pow_pos e)).0 h.lower);
  upper =
      rw (pow_add l e)
        (omega (arith, (div-lt_iff_lt-mul {x = n} {y = 2 * 2 ^ l} (pow_pos e)).0 h.upper));
}

square : (k : ℕ) → 2 ^ 2 ^ suc k ≡ 2 ^ 2 ^ k * 2 ^ 2 ^ k
square k =
    let e : 2 ^ suc k ≡ 2 ^ k + 2 ^ k = omega (arith, pow-suc 2 k) in rw e (pow_add (2 ^ k) (2 ^ k))

pub log2_below-IsLog : (k n : ℕ) → 0 < n → n < 2 ^ 2 ^ k → IsLog (log2_below k n) n
unfolding log2_below
log2_below-IsLog zero n h u = omega arith
log2_below-IsLog (suc k) n h u = elim (Bool-cases (leb (2 ^ 2 ^ k) n)) [
  | inl e ↦ rw e (
      IsLog-shift (log2_below k (n / 2 ^ 2 ^ k)) (2 ^ k) n (
        log2_below-IsLog k (n / 2 ^ 2 ^ k)
          ((le-div_iff_mul-le (pow_pos (2 ^ k))).1 (omega (arith, leb→le (2 ^ 2 ^ k) n e)))
          ((div-lt_iff_lt-mul (pow_pos (2 ^ k))).1 (omega (arith, square k)))))
  | inr e ↦ rw (e, add-zero) (log2_below-IsLog k n h (ground arith))
]

pub log2_below-zero : (k : ℕ) → log2_below k 0 ≡ 0
unfolding log2_below
log2_below-zero zero = refl
log2_below-zero (suc k) = elim (Bool-cases (leb (2 ^ 2 ^ k) 0)) [
  | inl e ↦ absurd (omega (arith, leb→le (2 ^ 2 ^ k) 0 e, pow_pos (2 ^ k)))
  | inr e ↦ rw (e, log2_below-zero k) (omega arith)
]
