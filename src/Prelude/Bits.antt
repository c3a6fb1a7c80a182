-- ===== src/Prelude/Bits.antt =====
-- Bit operations at variables: a mask of low bits is a remainder, and `|` of disjoint fields is a sum.
use Prim.Native.Nat.{
  ℕ, zero, suc, ◌+◌, ◌-◌, ◌*◌, ◌/◌, ◌%◌, ◌^◌, ◌≤◌, ◌<◌, min, max, bit_and, bit_or,
}
use Prim.Native.Nat.{digits, bit_and-bitwise, bit_or-bitwise}
use quad_bot_code_actuation.Prelude.Tests.{leb, if◌then◌else◌}
use mathlib.Core.Path.{◌≡◌, refl, ap}
use native.Mathlib.Nat.{pow-suc, one-le-pow}
use native.Mathlib.Omega.{arith}

-- The count of digits that `digits` is given does not matter once it is large enough.
digits_enough :
    (z : ℕ → ℕ) (f : ℕ → ℕ → ℕ) (n m a b : ℕ) → a ≤ n → a ≤ m → digits z f n a b ≡ digits z f m a b
digits_enough z f zero zero a b p q = refl
digits_enough z f zero (suc m) zero b p q = refl
digits_enough z f zero (suc m) (suc a) b p q = absurd (omega arith)
digits_enough z f (suc n) zero zero b p q = refl
digits_enough z f (suc n) zero (suc a) b p q = absurd (omega arith)
digits_enough z f (suc n) (suc m) zero b p q = refl
digits_enough z f (suc n) (suc m) (suc a) b p q =
    omega (arith, digits_enough z f n m (suc a / 2) (b / 2) (omega arith) (omega arith))

zero-bit_and : (b : ℕ) → bit_and 0 b ≡ 0
zero-bit_and b = bit_and-bitwise 0 b

zero-bit_or : (b : ℕ) → bit_or 0 b ≡ b
zero-bit_or b = bit_or-bitwise 0 b

bit_and-halves : (a b : ℕ) → bit_and a b ≡ bit_and (a / 2) (b / 2) * 2 + min (a % 2) (b % 2)
bit_and-halves zero b = omega (arith, zero-bit_and b, zero-bit_and (b / 2))
bit_and-halves (suc a) b = omega (
  arith,
  bit_and-bitwise (suc a) b,
  bit_and-bitwise (suc a / 2) (b / 2),
  digits_enough (λ b. zero) min a (suc a / 2) (suc a / 2) (b / 2) (omega arith) (omega arith),
)

bit_or-halves : (a b : ℕ) → bit_or a b ≡ bit_or (a / 2) (b / 2) * 2 + max (a % 2) (b % 2)
bit_or-halves zero b = omega (arith, zero-bit_or b, zero-bit_or (b / 2))
bit_or-halves (suc a) b = omega (
  arith,
  bit_or-bitwise (suc a) b,
  bit_or-bitwise (suc a / 2) (b / 2),
  digits_enough (λ b. b) max a (suc a / 2) (suc a / 2) (b / 2) (omega arith) (omega arith),
)

bit_and-zero_below : (n a : ℕ) → a ≤ n → bit_and a 0 ≡ 0
bit_and-zero_below n zero h = zero-bit_and 0
bit_and-zero_below zero (suc a) h = absurd (omega arith)
bit_and-zero_below (suc n) (suc a) h =
    omega (arith, bit_and-halves (suc a) 0, bit_and-zero_below n (suc a / 2) (omega arith))

bit_or-zero_below : (n a : ℕ) → a ≤ n → bit_or a 0 ≡ a
bit_or-zero_below n zero h = zero-bit_or 0
bit_or-zero_below zero (suc a) h = absurd (omega arith)
bit_or-zero_below (suc n) (suc a) h =
    omega (arith, bit_or-halves (suc a) 0, bit_or-zero_below n (suc a / 2) (omega arith))

double_pow : (q k : ℕ) → q * 2 ^ suc k ≡ 2 * (q * 2 ^ k)
double_pow q k = omega (arith, ap (λ (t : ℕ). q * t) (pow-suc 2 k))

-- `(hi << k) | lo`, where `lo` fits in `k` bits.
pub bit_or_pack : (k hi lo : ℕ) → lo < 2 ^ k → bit_or (hi * 2 ^ k) lo ≡ hi * 2 ^ k + lo
bit_or_pack zero hi lo h = ground (arith, bit_or-zero_below (hi * 1) (hi * 1))
bit_or_pack (suc k) hi lo h = ground (
  arith,
  bit_or-halves (hi * 2 ^ suc k) lo,
  double_pow hi k,
  pow-suc 2 k,
  bit_or_pack k hi (lo / 2) (omega (arith, pow-suc 2 k)),
)

pub bit_or_pack_right : (k hi lo : ℕ) → lo < 2 ^ k → bit_or lo (hi * 2 ^ k) ≡ hi * 2 ^ k + lo
bit_or_pack_right zero hi zero h = omega (arith, zero-bit_or (hi * 1))
bit_or_pack_right zero hi (suc lo) h = absurd (omega arith)
bit_or_pack_right (suc k) hi lo h = ground (
  arith,
  bit_or-halves lo (hi * 2 ^ suc k),
  double_pow hi k,
  pow-suc 2 k,
  bit_or_pack_right k hi (lo / 2) (omega (arith, pow-suc 2 k)),
)

-- `a & (1 << k)`, where a has k + 1 bits.
pub bit_and_top :
    (k a : ℕ) → a < 2 ^ k + 2 ^ k → bit_and a (2 ^ k) ≡ (if leb (2 ^ k) a then 2 ^ k else 0)
bit_and_top zero zero h = zero-bit_and 1
bit_and_top zero (suc zero) h = refl
bit_and_top zero (suc (suc a)) h = absurd (omega arith)
bit_and_top (suc k) a h = ground (
  arith,
  bit_and-halves a (2 ^ suc k),
  pow-suc 2 k,
  bit_and_top k (a / 2) (omega (arith, pow-suc 2 k)),
)

bit_and_pack : (k hi lo : ℕ) → lo < 2 ^ k → bit_and (hi * 2 ^ k + lo) (2 ^ k - 1) ≡ lo
bit_and_pack zero hi lo h = ground (arith, bit_and-zero_below (hi * 1 + lo) (hi * 1 + lo))
bit_and_pack (suc k) hi lo h = ground (
  arith,
  bit_and-halves (hi * 2 ^ suc k + lo) (2 ^ suc k - 1),
  double_pow hi k,
  pow-suc 2 k,
  one-le-pow k 2,
  bit_and_pack k hi (lo / 2) (omega (arith, pow-suc 2 k)),
)

-- `a & mask`, where the mask is `k` ones.
pub bit_and_low : (k a : ℕ) → bit_and a (2 ^ k - 1) ≡ a % 2 ^ k
bit_and_low k a = ground (arith, one-le-pow k 2, bit_and_pack k (a / 2 ^ k) (a % 2 ^ k))

-- `x >> k`, `x << k`, and the conversions to `uint8_t`, `uint16_t` and `uint32_t`.
abbrev pub shr : ℕ → ℕ → ℕ
shr x k = x / 2 ^ k

abbrev pub shl : ℕ → ℕ → ℕ
shl x k = x * 2 ^ k

abbrev pub u8 : ℕ → ℕ
u8 x = x % 2 ^ 8

abbrev pub u16 : ℕ → ℕ
u16 x = x % 2 ^ 16

abbrev pub u32 : ℕ → ℕ
u32 x = x % 2 ^ 32
