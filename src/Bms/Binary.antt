-- ===== src/Bms/Binary.antt =====
-- Configuration values that are given in binary, with any number of digits.
use quad_bot_code_actuation.Prelude.{
  ℕ, ◌+◌, ◌*◌, ◌%◌, ◌^◌, ◌-◌, Bool, true, false, List, [], ◌∷◌, CString, if◌then◌else◌,
}
use Prim.Native.Nat.{min}

-- The digits, and the number that they spell after a number in front.
abbrev pub digits : List Bool → CString
digits [] = []
digits (false ∷ bs) = b'0' ∷ digits bs
digits (true ∷ bs) = b'1' ∷ digits bs

abbrev pub number : ℕ → List Bool → ℕ
number before [] = before
number before (b ∷ bs) = number (before * 2 + (if b then 1 else 0)) bs

-- The 16 bits that are kept of a number: a `long` has 32, and takes the greatest one for more.
abbrev pub kept_bits : List Bool → ℕ
kept_bits bs = min (number 0 bs) (2 ^ 31 - 1) % 2 ^ 16
