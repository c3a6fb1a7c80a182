-- ===== src/Float/Exact.antt =====
-- Roundings that lose nothing.
use native.Mathlib.Nat.{le_trans}
use native.Mathlib.Bridge.{le_by_compare, IsLe}
use quad_bot_code_actuation.Prelude.{ℕ, suc, ◌*◌, ◌^◌, ◌≤◌, ◌<◌, ◌≡◌, refl, Bool, lt→ltb}
use quad_bot_code_actuation.Float.{num, Format, binary32, binary64, rounded}
use quad_bot_code_actuation.Float.Round.Nearest.{huge}
use quad_bot_code_actuation.Float.Round.Monotone.{nearest_exact}

-- The two formats, by the exponent of their last digit.
pub record IsUsual (f : Format) (p : ℕ) : Type 0 where
  pub digits : f.digits ≡ suc p
  pub limit : f.limit ≤ huge

pub binary32-IsUsual : IsUsual binary32 23
unfolding IsLe
binary32-IsUsual = record { digits = refl; limit = le_by_compare (2 ^ 277) huge tt }

pub binary64-IsUsual : IsUsual binary64 52
unfolding IsLe
binary64-IsUsual = record { digits = refl; limit = le_by_compare (2 ^ 2098) huge tt }

-- A quotient with few digits is itself.
pub rounded_exact :
    (f : Format) (p : ℕ) (s : Bool) (m n a j : ℕ)
    → IsUsual f p
    → 0 < n
    → a < 2 ^ suc p
    → a * 2 ^ j < f.limit
    → m ≡ a * 2 ^ j * n
    → rounded f s m n ≡ num s (a * 2 ^ j)
rounded_exact f p s m n a j u pos few fits e = rw (
  e,
  u.digits,
  nearest_exact p a j n pos few (le_trans fits u.limit),
  lt→ltb (a * 2 ^ j) f.limit fits,
)
