-- ===== src/Prelude/Decimal.antt =====
-- Decimal numerals, and that `read_digits` reads them back.
use mathlib.Core.List.{append_assoc}
use Prim.Native.Nat.{ℕ, zero, suc, ◌+◌, ◌-◌, ◌*◌, ◌/◌, ◌%◌, ◌<◌}
use mathlib.Core.Path.{◌≡◌, refl, ap, ◌∙◌}
use mathlib.Core.Logic.{inl, inr}
use mathlib.Core.Bool.{Bool, true, false, ◌&&◌}
use mathlib.Core.List.{[], ◌∷◌, ◌++◌}
use native.Mathlib.Omega.{arith}
use quad_bot_code_actuation.Prelude.Tests.{ltb, ltb→lt, Bool-cases, if◌then◌else◌}
use quad_bot_code_actuation.Prelude.Text.{CString, read_digits, has_digit, is_digit}

-- The digits of a number, with more rounds than its value.
unfoldable pub digits : ℕ → ℕ → CString
digits zero n = []
digits (suc rounds) n =
    let before = digits rounds (n / 10) ++ ((b'0' + n % 10) ∷ []) in
    if ltb n 10 then (b'0' + n) ∷ [] else before

unfoldable pub decimal : ℕ → CString
unfolding digits
decimal n = digits (suc n) n

read_digit :
    (v d n : ℕ) (rest : CString)
    → d < 10
    → v * 10 + d ≡ n
    → read_digits 10 v ((b'0' + d) ∷ rest) ≡ read_digits 10 n rest
unfolding read_digits
read_digit v d n rest h e =
    let digit : is_digit 10 (b'0' + d) ≡ true = ground arith in
    let value : v * 10 + (b'0' + d - b'0') ≡ n = omega (arith, e) in rw (digit, value) refl

read_digits_more :
    (rounds n : ℕ) (rest : CString)
    → n < rounds
    → read_digits 10 0 (digits rounds n ++ rest) ≡ read_digits 10 n rest
unfolding digits
read_digits_more zero n rest h = absurd (omega arith)
read_digits_more (suc rounds) n rest h = elim (Bool-cases (ltb n 10)) [
  | inl e ↦ rw e (read_digit 0 n n rest (ltb→lt n 10 e) (omega arith))
  | inr e ↦
      rw (e, append_assoc (digits rounds (n / 10)) ((b'0' + n % 10) ∷ []) rest)
        (read_digits_more rounds (n / 10) ((b'0' + n % 10) ∷ rest) (ground (arith, e))
          ∙ read_digit (n / 10) (n % 10) n rest (omega arith) (omega arith))
]

read_digits_end :
    (n : ℕ) (rest : CString) → has_digit 10 rest ≡ false → read_digits 10 n rest ≡ (n, rest)
unfolding read_digits
read_digits_end n [] h = refl
read_digits_end n (c ∷ s) h = rw h refl

-- A numeral is read back with what follows it.
pub read_digits-decimal :
    (n : ℕ) (rest : CString)
    → has_digit 10 rest ≡ false
    → read_digits 10 0 (decimal n ++ rest) ≡ (n, rest)
unfolding decimal
read_digits-decimal n rest h =
    read_digits_more (suc n) n rest (omega arith) ∙ read_digits_end n rest h

-- A numeral starts with a digit.
digits_start :
    (rounds n : ℕ)
    → n < rounds
    → (c : ℕ) × (s : CString) × (digits rounds n ≡ c ∷ s) × (is_digit 10 c ≡ true)
unfolding digits
digits_start zero n h = absurd (omega arith)
digits_start (suc rounds) n h = elim (Bool-cases (ltb n 10)) [
  | inl e ↦ (b'0' + n, [], rw e refl, ground (arith, e))
  | inr e ↦
      let (c, s, q, d) = digits_start rounds (n / 10) (ground (arith, e)) in
      (c, s ++ ((b'0' + n % 10) ∷ []), rw e (ap (λ x. x ++ ((b'0' + n % 10) ∷ [])) q), d)
]

pub decimal_start : (n : ℕ) → (c : ℕ) × (s : CString) × (decimal n ≡ c ∷ s) × (is_digit 10 c ≡ true)
unfolding decimal
decimal_start n = digits_start (suc n) n (omega arith)

-- All bytes of a numeral are digits.
abbrev pub all_digits : CString → Bool
all_digits [] = true
all_digits (c ∷ s) = is_digit 10 c && all_digits s

all_digits-append :
    (s : CString) (c : ℕ)
    → all_digits s ≡ true
    → is_digit 10 c ≡ true
    → all_digits (s ++ (c ∷ [])) ≡ true
all_digits-append [] c h d = rw d refl
all_digits-append (x ∷ s) c h d = ground (arith, h, d, all_digits-append s c)

digits_all : (rounds n : ℕ) → all_digits (digits rounds n) ≡ true
unfolding digits
digits_all zero n = refl
digits_all (suc rounds) n = elim (Bool-cases (ltb n 10)) [
  | inl e ↦ rw e (ground (arith, e))
  | inr e ↦ rw e (
      all_digits-append (digits rounds (n / 10)) (b'0' + n % 10) (digits_all rounds (n / 10))
        (ground arith))
]

pub decimal_all : (n : ℕ) → all_digits (decimal n) ≡ true
unfolding decimal
decimal_all n = digits_all (suc n) n
