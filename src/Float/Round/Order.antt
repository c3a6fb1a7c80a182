-- ===== src/Float/Round/Order.antt =====
-- Rounding keeps order, and keeps what needs no rounding.
use native.Mathlib.Nat.{le-div_iff_mul-le, mul-div_cancel, div-add-mod, mul-mod_left}
use quad_bot_code_actuation.Prelude.{ℕ, ◌+◌, ◌*◌, ◌/◌, ◌≤◌, ◌<◌, ◌≡◌, ◌⊎◌, inl, inr, ap, arith}
use quad_bot_code_actuation.Float.Round.{nearest_int}

pub nearest_int-bounds : (m d : ℕ) → (m / d ≤ nearest_int m d) × (nearest_int m d ≤ m / d + 1)
unfolding nearest_int
nearest_int-bounds m d = ground arith

pub div_mono : (m n d : ℕ) → 0 < d → m ≤ n → m / d ≤ n / d
div_mono m n d p h = (le-div_iff_mul-le p).1 (omega (arith, div-add-mod m d))

apart : {a b : ℕ} → a ≤ b → (a < b) ⊎ (a ≡ b)
apart h = ground arith

nearest_int_mono_same :
    (m n d : ℕ) → 0 < d → m ≤ n → m / d ≡ n / d → nearest_int m d ≤ nearest_int n d
unfolding nearest_int
nearest_int_mono_same m n d p h e =
    ground (arith, div-add-mod m d, div-add-mod n d, ap (λ (t : ℕ). d * t) e)

pub nearest_int_mono : (m n d : ℕ) → 0 < d → m ≤ n → nearest_int m d ≤ nearest_int n d
nearest_int_mono m n d p h = elim (apart (div_mono m n d p h)) [
  | inl lt ↦ omega (arith, nearest_int-bounds m d, nearest_int-bounds n d)
  | inr e ↦ nearest_int_mono_same m n d p h e
]

pub nearest_int_exact : (a d : ℕ) → 0 < d → nearest_int (a * d) d ≡ a
unfolding nearest_int
nearest_int_exact a d p = rw (mul-div_cancel a p, mul-mod_left a d) (ground arith)
