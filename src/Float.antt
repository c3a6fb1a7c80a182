-- ===== src/Float.antt =====
-- `float` and `double`: the language's IEEE 754 arithmetic, rounded to nearest with ties to even.
-- A finite number is a sign and a whole number of the format's smallest steps, so that numbers of one
-- format are compared and added as integers.
pub mod Round
pub mod Exact
pub mod Bounded
use quad_bot_code_actuation.Prelude.{
  ℕ, ◌+◌, ◌-◌, ◌*◌, ◌/◌, ◌%◌, ◌^◌, ◌≡◌, refl, Bool, true, false, not, ◌&&◌, Option, none, some, ltb,
  leb, ◌==◌, if◌then◌else◌,
}
use quad_bot_code_actuation.Prelude.Int.{ℤ, pos, negsuc, neg_part}
use Round.{nearest, rounding}

-- `digits` of significand; the smallest step is 2^-scale, and numbers stay below `limit` steps.
pub record Format : Type 0 where
  pub digits : ℕ
  pub scale : ℕ
  pub limit : ℕ

abbrev pub binary32 : Format
binary32 = record { digits = 24; scale = 149; limit = 2 ^ 277 }

abbrev pub binary64 : Format
binary64 = record { digits = 53; scale = 1074; limit = 2 ^ 2098 }

-- `num negative steps`
pub data Float : Type 0 where
  nan : Float
  inf : Bool → Float
  num : Bool → ℕ → Float

abbrev pub differ : Bool → Bool → Bool
differ true b = not b
differ false b = b

abbrev pub negate : Float → Float
negate nan = nan
negate (inf s) = inf (not s)
negate (num s n) = num (not s) n

module _ (f : Format) where
  abbrev checked : Bool → ℕ → Float
  checked s n = if ltb n f.limit then num s n else inf s

  -- m / n steps, rounded.
  abbrev pub rounded : Bool → ℕ → ℕ → Float
  rounded s m n = checked s (nearest f.digits m n)

  -- The literal m / n.
  abbrev pub literal : ℕ → ℕ → Float
  literal m n = rounded false (m * 2 ^ f.scale) n

  abbrev pub of_int : ℤ → Float
  of_int (pos n) = rounded false (n * 2 ^ f.scale) 1
  of_int (negsuc n) = rounded true ((n + 1) * 2 ^ f.scale) 1

  unfoldable pub add : Float → Float → Float
  unfolding rounding
  add nan y = nan
  add (inf s) nan = nan
  add (inf s) (inf t) = if differ s t then nan else inf s
  add (inf s) (num t b) = inf s
  add (num s a) nan = nan
  add (num s a) (inf t) = inf t
  add (num s a) (num t b) =
      if differ s t
      then (if a == b
          then num false 0
          else if ltb b a
          then rounded s (a - b) 1
          else rounded t (b - a) 1)
      else rounded s (a + b) 1

  unfoldable pub sub : Float → Float → Float
  unfolding add
  sub x y = add x (negate y)

  unfoldable pub mul : Float → Float → Float
  unfolding rounding
  mul nan y = nan
  mul (inf s) nan = nan
  mul (inf s) (inf t) = inf (differ s t)
  mul (inf s) (num t b) = if b == 0 then nan else inf (differ s t)
  mul (num s a) nan = nan
  mul (num s a) (inf t) = if a == 0 then nan else inf (differ s t)
  mul (num s a) (num t b) = rounded (differ s t) (a * b) (2 ^ f.scale)

  unfoldable pub div : Float → Float → Float
  unfolding rounding
  div nan y = nan
  div (inf s) nan = nan
  div (inf s) (inf t) = nan
  div (inf s) (num t b) = inf (differ s t)
  div (num s a) nan = nan
  div (num s a) (inf t) = num (differ s t) 0
  div (num s a) (num t b) =
      if b == 0
      then (if a == 0 then nan else inf (differ s t))
      else rounded (differ s t) (a * 2 ^ f.scale) b

  -- `(int) x` drops the fraction; it is undefined for what is no number and outside `int`.
  unfoldable pub to_int : Float → Option ℤ
  to_int nan = none
  to_int (inf s) = none
  to_int (num false n) = let k = n / 2 ^ f.scale in if ltb k (2 ^ 31) then some (pos k) else none
  to_int (num true n) =
      let k = n / 2 ^ f.scale in
      if k == 0 then some (pos 0) else if leb k (2 ^ 31) then some (negsuc (k - 1)) else none

-- `x < y`. A comparison with NaN is false.
unfoldable pub lt : Float → Float → Bool
lt nan y = false
lt (inf s) nan = false
lt (inf s) (inf t) = s && not t
lt (inf s) (num t b) = s
lt (num s a) nan = false
lt (num s a) (inf t) = not t
lt (num false a) (num false b) = ltb a b
lt (num false a) (num true b) = false
lt (num true a) (num false b) = not ((a == 0) && (b == 0))
lt (num true a) (num true b) = ltb b a

-- `x >= y`
unfoldable pub ge : Float → Float → Bool
unfolding lt
ge nan y = false
ge (inf s) nan = false
ge x y = not (lt x y)

unfoldable pub isnan : Float → Bool
isnan nan = true
isnan x = false

-- `(float) x` of a double, and a float where a double is expected.
unfoldable pub narrow : Float → Float
unfolding rounding
narrow nan = nan
narrow (inf s) = inf s
narrow (num s n) = rounded binary32 s n (2 ^ 925)

unfoldable pub widen : Float → Float
widen nan = nan
widen (inf s) = inf s
widen (num s n) = num s (n * 2 ^ 925)

-- `roundf`: to the nearest whole number, halves away from zero.
unfoldable pub roundf : Float → Float
roundf nan = nan
roundf (inf s) = inf s
roundf (num s n) = num s ((n + 2 ^ 148) / 2 ^ 149 * 2 ^ 149)
