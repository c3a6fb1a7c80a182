-- ===== src/Float/Round.antt =====
-- Rounding a ratio of natural numbers to a number of significant binary digits.
pub mod Log
pub mod Monotone
pub mod Nearest
pub mod Order
use Prim.Native.Nat.{ℕ, zero, suc, ◌+◌, ◌-◌, ◌*◌, ◌/◌, ◌%◌, ◌^◌, ◌≤◌, ◌<◌}
use quad_bot_code_actuation.Prelude.{ltb, leb, if◌then◌else◌}

-- The exponent of the highest binary digit of n, for n below 2 ^ 2 ^ k: half of the digits at a time.
unfoldable pub log2_below : ℕ → ℕ → ℕ
log2_below zero n = 0
log2_below (suc k) n =
    let big = leb (2 ^ 2 ^ k) n in
    log2_below k (if big then n / 2 ^ 2 ^ k else n) + (if big then 2 ^ k else 0)

-- m / d to the nearest whole number, and to the even one of two.
unfoldable pub nearest_int : ℕ → ℕ → ℕ
nearest_int m d =
    let q = m / d in
    let r = m % d in if ltb (2 * r) d then q else if ltb d (2 * r) then q + 1 else q + q % 2

-- How many digits of the quotient m / n are too many.
unfoldable pub excess : ℕ → ℕ → ℕ → ℕ
excess p m n = log2_below 13 (m / n) + 1 - p

-- m / n with `p` significant digits, and whole where it is small.
unfoldable pub nearest : ℕ → ℕ → ℕ → ℕ
nearest p m n = let k = excess p m n in nearest_int m (n * 2 ^ k) * 2 ^ k

-- For runs: all that `nearest` calls.
unfoldable pub rounding : Unit {0}
unfolding nearest nearest_int excess log2_below
rounding = tt
