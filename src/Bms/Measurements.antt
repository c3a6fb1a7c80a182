-- ===== src/Bms/Measurements.antt =====
-- What the read commands make of the chip's registers.
use quad_bot_code_actuation.Prelude.{
  ℕ, zero, suc, ◌+◌, ◌-◌, ◌*◌, ◌/◌, ◌^◌, ◌≤◌, ◌<◌, ◌≡◌, refl, Bool, true, false, ◌&&◌, ltb, ltb→lt,
  lt→ltb, arith, u32, shl, shr, bit_or, bit_and, bit_or_pack, bit_or_pack_right, bit_and_top, leb,
  all_below, all_below_at, ◌==◌, if◌then◌else◌, Bool-cases, inl, inr,
}
use quad_bot_code_actuation.Float.{Float, nan, inf, num, lt, literal, binary32}
use quad_bot_code_actuation.Float.Round.{rounding}
use quad_bot_code_actuation.Bms.Read.{scale_reading, accumulator, signed, five_volts}

acc_pack :
    (msb lsb : ℕ)
    → msb < 65536
    → lsb < 65536
    → bit_or (u32 (shl msb 8)) (shr lsb 8) ≡ msb * 256 + lsb / 256
acc_pack msb lsb h k =
    let e : u32 (shl msb 8) ≡ msb * 2 ^ 8 = omega arith in
    rw e (bit_or_pack 8 msb (lsb / 256) (omega arith))

extend : (a : ℕ) → a < 2 ^ 24 → bit_or a 0xff000000 ≡ 255 * 2 ^ 24 + a
extend a h = bit_or_pack_right 24 255 a h

sign_bit : (a : ℕ) → a < 2 ^ 24 → bit_and a 0x800000 ≡ (if leb (2 ^ 23) a then 2 ^ 23 else 0)
sign_bit a h = bit_and_top 23 a h

extended :
    (a : ℕ)
    → a < 2 ^ 24
    → signed (2 ^ 32) (if bit_and a 0x800000 == 0 then a else bit_or a 0xff000000)
      ≡ signed (2 ^ 24) a
extended a h =
    rw (sign_bit a h, extend a h)
      (elim (Bool-cases (leb (2 ^ 23) a)) [ inl e ↦ ground arith | inr e ↦ ground arith ])

-- The sign extension of the accumulator: its 32 bits stand for the number that its 24 bits stand for.
pub accumulator-signed :
    (msb lsb : ℕ)
    → msb < 65536
    → lsb < 65536
    → signed (2 ^ 32) (accumulator msb lsb) ≡ signed (2 ^ 24) (msb * 256 + lsb / 256)
unfolding accumulator
accumulator-signed msb lsb h k =
    rw (acc_pack msb lsb h k) (extended (msb * 256 + lsb / 256) (omega arith))

-- The size of a number, in smallest steps, and whether it has no sign.
abbrev size : Float → ℕ
size (num s n) = n
size _ = 0

abbrev is_plain : Float → Bool
is_plain (num false n) = true
is_plain _ = false

abbrev rises : (ℕ → Float) → ℕ → Bool
rises f n = is_plain (f n) && is_plain (f (suc n)) && ltb (size (f n)) (size (f (suc n)))

and_right : (a b : Bool) → (a && b) ≡ true → b ≡ true
and_right true b h = h
and_right false b h = cc

and_left : (a b : Bool) → (a && b) ≡ true → a ≡ true
and_left true b h = refl
and_left false b h = h

rise :
    (f : ℕ → Float) (top : ℕ)
    → all_below top (rises f) ≡ true
    → (m n : ℕ) → m < n
    → n ≤ top
    → size (f m) < size (f n)
rise f top h m zero l k = absurd (omega arith)
rise f top h m (suc n) l k =
    let step : size (f n) < size (f (suc n)) =
      ltb→lt (size (f n)) (size (f (suc n)))
        (and_right _ _ (all_below_at top (rises f) n h (omega arith))) in
    elim (Bool-cases (ltb m n)) [
      | inl e ↦ omega (arith, step, rise f top h m n (ltb→lt m n e) (omega arith))
      | inr e ↦ let same : m ≡ n = ground (arith, e) in rw same step
    ]

lt_of_size : (x y : Float) → is_plain x ≡ true → is_plain y ≡ true → size x < size y → lt x y ≡ true
unfolding lt
lt_of_size (num false a) (num false b) h k l = lt→ltb a b l
lt_of_size (num false a) (num true b) h k l = cc
lt_of_size (num false a) nan h k l = cc
lt_of_size (num false a) (inf t) h k l = cc
lt_of_size (num true a) y h k l = cc
lt_of_size nan y h k l = cc
lt_of_size (inf s) y h k l = cc

plain_at :
    (f : ℕ → Float) (top : ℕ)
    → all_below top (rises f) ≡ true
    → (n : ℕ) → n ≤ top
    → 0 < top
    → is_plain (f n) ≡ true
plain_at f top h n k p = elim (Bool-cases (ltb n top)) [
  | inl e ↦ and_left _ _ (and_left _ _ (all_below_at top (rises f) n h (ltb→lt n top e)))
  | inr e ↦
      let at : n ≡ suc (top - 1) = ground (arith, e, k, p) in
      rw at (and_right _ _ (and_left _ _ (all_below_at top (rises f) (top - 1) h (omega arith))))
]

increasing :
    (f : ℕ → Float) (top : ℕ)
    → all_below top (rises f) ≡ true
    → (m n : ℕ) → m < n
    → n ≤ top
    → lt (f m) (f n) ≡ true
increasing f top h m n l k =
    lt_of_size (f m) (f n) (plain_at f top h m (omega arith) (omega arith))
      (plain_at f top h n k (omega arith)) (rise f top h m n l k)

cell_table : all_below 4095 (rises (scale_reading five_volts)) ≡ true
unfolding scale_reading rounding
cell_table = refl

block_table : all_below 4095 (rises (scale_reading (literal binary32 25 1))) ≡ true
unfolding scale_reading rounding
block_table = refl

-- Cell and battery voltages rise with each of the 4096 readings, and run from 0 V to 5 V and 25 V.
pub scale_reading_range :
    (m n : ℕ)
    → m < n
    → n ≤ 4095
    → (lt (scale_reading five_volts m) (scale_reading five_volts n) ≡ true)
      × (lt (scale_reading (literal binary32 25 1) m) (scale_reading (literal binary32 25 1) n)
          ≡ true)
      × (scale_reading five_volts 0 ≡ num false 0)
      × (scale_reading five_volts 4095 ≡ five_volts)
      × (scale_reading (literal binary32 25 1) 4095 ≡ literal binary32 25 1)
unfolding scale_reading rounding
scale_reading_range m n l k = (
  increasing (scale_reading five_volts) 4095 cell_table m n l k,
  increasing (scale_reading (literal binary32 25 1)) 4095 block_table m n l k,
  refl,
  refl,
  refl,
)
