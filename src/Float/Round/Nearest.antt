-- ===== src/Float/Round/Nearest.antt =====
-- Rounding to significant digits keeps order, and leaves alone what has few digits.
use native.Mathlib.Nat.{mul-le-mul_right, mul-le-mul_left, div-add-mod, lt-mul-div-succ, pow-suc}
use quad_bot_code_actuation.Prelude.{
  ℕ, suc, ◌+◌, ◌*◌, ◌/◌, ◌^◌, ◌≤◌, ◌<◌, ◌≡◌, ◌⊎◌, inl, inr, ap, arith,
}
use quad_bot_code_actuation.Float.Round.{log2_below, excess, nearest}
use quad_bot_code_actuation.Float.Round.Log.{
  IsLog, log2_below-IsLog, log2_below-zero, pow_add, pow_mono, pow_pos,
}
use quad_bot_code_actuation.Float.Round.Order.{nearest_int_mono, nearest_int_exact}

-- Quotients that `excess` measures.
abbrev pub huge : ℕ
huge = 2 ^ 2 ^ 13

pub log_mono : (a b x y : ℕ) → IsLog a x → IsLog b y → x ≤ y → a ≤ b
log_mono a b x y ha hb h = go (order a b)
  where
    order : (a b : ℕ) → (a ≤ b) ⊎ (suc b ≤ a)
    order a b = grind arith

    go : (a ≤ b) ⊎ (suc b ≤ a) → a ≤ b
    go (inl le) = le
    go (inr lt) = absurd (omega (arith, ha.lower, hb.upper, pow_mono (suc b) a lt, pow-suc 2 b))

top_of : (p k m n : ℕ) → 0 < n → m / n + 1 ≤ 2 ^ (p + k) → m < 2 ^ p * (n * 2 ^ k)
top_of p k m n pos h =
    omega (arith, lt-mul-div-succ m pos, mul-le-mul_left n h, ap (λ (t : ℕ). n * t) (pow_add p k))

bottom_of : (p k m n : ℕ) → 2 ^ (p + k) ≤ m / n → 2 ^ p * (n * 2 ^ k) ≤ m
bottom_of p k m n h =
    omega (arith, div-add-mod m n, mul-le-mul_left n h, ap (λ (t : ℕ). n * t) (pow_add p k))

module _ (p m n : ℕ) (pos_n : 0 < n) (bounded : m / n < huge) where
  pub IsLog-of : 0 < m / n → IsLog (log2_below 13 (m / n)) (m / n)
  IsLog-of h = log2_below-IsLog 13 (m / n) h bounded

  -- The quotient lies below 2 ^ (digits + excess), digits being suc p.
  below_top : m < 2 ^ suc p * (n * 2 ^ excess (suc p) m n)
  below_top = top_of (suc p) (excess (suc p) m n) m n pos_n (go (zero_or (m / n)))
    where
      zero_or : (q : ℕ) → (q ≡ 0) ⊎ (0 < q)
      zero_or q = grind arith

      go : (m / n ≡ 0) ⊎ (0 < m / n) → m / n + 1 ≤ 2 ^ (suc p + excess (suc p) m n)
      go (inl e) = omega (arith, e, pow_pos (suc p + excess (suc p) m n))
      go (inr h) = omega (
        arith,
        (IsLog-of h).upper,
        pow-suc 2 (log2_below 13 (m / n)),
        pow_mono (suc (log2_below 13 (m / n))) (suc p + excess (suc p) m n)
            (unfold excess in omega arith),
      )

  at_bottom : (k : ℕ) → excess (suc p) m n ≡ suc k → 2 ^ p * (n * 2 ^ suc k) ≤ m
  at_bottom k e = bottom_of p (suc k) m n (go (zero_or (m / n)))
    where
      zero_or : (q : ℕ) → (q ≡ 0) ⊎ (0 < q)
      zero_or q = grind arith

      exact : log2_below 13 (m / n) ≡ p + suc k
      exact = unfold excess in omega arith

      go : (m / n ≡ 0) ⊎ (0 < m / n) → 2 ^ (p + suc k) ≤ m / n
      go (inl z) = absurd (omega (arith, exact, ap (log2_below 13) z, log2_below-zero 13))
      go (inr h) = rw (← exact) (IsLog-of h).lower

  pub le_top : nearest (suc p) m n ≤ 2 ^ suc p * 2 ^ excess (suc p) m n
  unfolding nearest
  le_top =
      let k = excess (suc p) m n in
      let d_pos : 0 < n * 2 ^ k = positive_step k in
      mul-le-mul_right (2 ^ k) (
        omega (
          arith,
          nearest_int_mono m (2 ^ suc p * (n * 2 ^ k)) (n * 2 ^ k) d_pos (omega (arith, below_top)),
          nearest_int_exact (2 ^ suc p) (n * 2 ^ k) d_pos,
        ))
    where
      positive_step : (k : ℕ) → 0 < n * 2 ^ k
      positive_step k = grind (arith, pow_pos k)

  pub bottom_le : (k : ℕ) → excess (suc p) m n ≡ suc k → 2 ^ p * 2 ^ suc k ≤ nearest (suc p) m n
  unfolding nearest
  bottom_le k e = rw e (
      mul-le-mul_right (2 ^ suc k) (
        omega (
          arith,
          nearest_int_mono (2 ^ p * (n * 2 ^ suc k)) m (n * 2 ^ suc k) positive_step
              (at_bottom k e),
          nearest_int_exact (2 ^ p) (n * 2 ^ suc k) positive_step,
        )))
    where
      positive_step : 0 < n * 2 ^ suc k
      positive_step = grind (arith, pow_pos (suc k))
