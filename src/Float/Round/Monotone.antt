-- ===== src/Float/Round/Monotone.antt =====
-- Rounding to significant digits keeps order, and leaves alone what has few digits.
use native.Mathlib.Nat.{mul-le-mul_right, mul-div_cancel}
use quad_bot_code_actuation.Prelude.{
  ℕ, zero, suc, ◌+◌, ◌-◌, ◌*◌, ◌/◌, ◌^◌, ◌≤◌, ◌<◌, ◌≡◌, refl, sym, ◌⊎◌, inl, inr, ◌∙◌, ap, arith,
}
use quad_bot_code_actuation.Float.Round.{log2_below, nearest_int, excess, nearest}
use quad_bot_code_actuation.Float.Round.Log.{
  log2_below-zero, log2_below-IsLog, pow_add, pow_mono, pow_pos,
}
use quad_bot_code_actuation.Float.Round.Order.{nearest_int_mono, nearest_int_exact, div_mono}
use quad_bot_code_actuation.Float.Round.Nearest.{huge, log_mono, le_top, bottom_le}

zero_or : (q : ℕ) → (q ≡ 0) ⊎ (0 < q)
zero_or q = grind arith

excess_mono :
    (p m m' n : ℕ) → 0 < n → m ≤ m' → m' / n < huge → excess (suc p) m n ≤ excess (suc p) m' n
unfolding excess
excess_mono p m m' n pos h b = go (zero_or (m / n))
  where
    le : m / n ≤ m' / n
    le = div_mono m m' n pos h

    go :
        (m / n ≡ 0) ⊎ (0 < m / n)
        → log2_below 13 (m / n) + 1 - suc p ≤ log2_below 13 (m' / n) + 1 - suc p
    go (inl z) = omega (arith, ap (log2_below 13) z, log2_below-zero 13)
    go (inr q) = omega (
      arith,
      log_mono (log2_below 13 (m / n)) (log2_below 13 (m' / n)) (m / n) (m' / n)
          (log2_below-IsLog 13 (m / n) q (omega (arith, le)))
          (log2_below-IsLog 13 (m' / n) (omega (arith, le)) b) le,
    )

nearest_mono_same :
    (p m m' n : ℕ)
    → 0 < n
    → m ≤ m'
    → excess (suc p) m n ≡ excess (suc p) m' n
    → nearest (suc p) m n ≤ nearest (suc p) m' n
unfolding nearest
nearest_mono_same p m m' n pos h e = rw e (
    mul-le-mul_right (2 ^ excess (suc p) m' n) (
      nearest_int_mono m m' (n * 2 ^ excess (suc p) m' n)
        (grind (arith, pow_pos (excess (suc p) m' n))) h))

-- A greater ratio is not rounded to less.
pub nearest_mono :
    (p m m' n : ℕ) → 0 < n → m ≤ m' → m' / n < huge → nearest (suc p) m n ≤ nearest (suc p) m' n
nearest_mono p m m' n pos h b =
    go (excess (suc p) m n) (excess (suc p) m' n) refl refl (excess_mono p m m' n pos h b)
  where
    go :
        (j k : ℕ)
        → excess (suc p) m n ≡ j
        → excess (suc p) m' n ≡ k
        → j ≤ k
        → nearest (suc p) m n ≤ nearest (suc p) m' n
    go j zero ej ek le = nearest_mono_same p m m' n pos h (omega arith)
    go j (suc k) ej ek le = elim (split j k le) [
      | inl e ↦ nearest_mono_same p m m' n pos h (omega arith)
      | inr lt ↦ omega (
        arith,
        rw ej at (le_top p m n pos (omega (arith, div_mono m m' n pos h))),
        bottom_le p m' n pos b k ek,
        pow_add (suc p) j,
        pow_add p (suc k),
        pow_mono (suc p + j) (p + suc k) (omega arith),
      )
    ]
      where
        split : (j k : ℕ) → j ≤ suc k → (j ≡ suc k) ⊎ (j ≤ k)
        split j k h = grind arith

log_small : (p a j l : ℕ) → a < 2 ^ suc p → 2 ^ l ≤ a * 2 ^ j → l < suc p + j
log_small p a j l h low = go (order l (suc p + j))
  where
    order : (x y : ℕ) → (x < y) ⊎ (y ≤ x)
    order x y = grind arith

    go : (l < suc p + j) ⊎ (suc p + j ≤ l) → l < suc p + j
    go (inl lt) = lt
    go (inr le) = absurd (
        omega (
          arith,
          pow_mono (suc p + j) l le,
          pow_add (suc p) j,
          mul-le-mul_right (2 ^ j) h,
          pow_pos j,
        ))

excess-le :
    (p a j n : ℕ) → 0 < n → a < 2 ^ suc p → a * 2 ^ j < huge → excess (suc p) (a * 2 ^ j * n) n ≤ j
unfolding excess
excess-le p a j n pos h b = rw (mul-div_cancel (a * 2 ^ j) pos) (go (zero_or (a * 2 ^ j)))
  where
    go : (a * 2 ^ j ≡ 0) ⊎ (0 < a * 2 ^ j) → log2_below 13 (a * 2 ^ j) + 1 - suc p ≤ j
    go (inl z) = omega (arith, ap (log2_below 13) z, log2_below-zero 13)
    go (inr q) = omega (
      arith,
      log_small p a j (log2_below 13 (a * 2 ^ j)) h (log2_below-IsLog 13 (a * 2 ^ j) q b).lower,
    )

shifted :
    (a j k n : ℕ) → 0 < n → k ≤ j → nearest_int (a * 2 ^ j * n) (n * 2 ^ k) * 2 ^ k ≡ a * 2 ^ j
shifted a j k n pos h =
    let split : 2 ^ j ≡ 2 ^ (j - k) * 2 ^ k =
      rw (← pow_add (j - k) k) (ap (λ (t : ℕ). 2 ^ t) (omega arith)) in
    let whole : a * 2 ^ j ≡ a * 2 ^ (j - k) * 2 ^ k = omega (arith, ap (λ (t : ℕ). a * t) split) in
    let e : a * 2 ^ j * n ≡ a * 2 ^ (j - k) * (n * 2 ^ k) =
      omega (arith, ap (λ (t : ℕ). t * n) whole) in
    ap (λ (t : ℕ). nearest_int t (n * 2 ^ k) * 2 ^ k) e
    ∙ ap (λ (t : ℕ). t * 2 ^ k)
        (nearest_int_exact (a * 2 ^ (j - k)) (n * 2 ^ k) (grind (arith, pow_pos k)))
    ∙ sym whole

-- A whole number with few digits, but for zeros at the end, is not changed.
pub nearest_exact :
    (p a j n : ℕ)
    → 0 < n
    → a < 2 ^ suc p
    → a * 2 ^ j < huge
    → nearest (suc p) (a * 2 ^ j * n) n ≡ a * 2 ^ j
unfolding nearest
nearest_exact p a j n pos h b =
    shifted a j (excess (suc p) (a * 2 ^ j * n) n) n pos (excess-le p a j n pos h b)
