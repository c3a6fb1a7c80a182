-- ===== src/Float/Bounded.antt =====
-- Bounds of `float` computations: how many steps the result of an operation has at most.
use quad_bot_code_actuation.Prelude.{
  ℕ, ◌+◌, ◌-◌, ◌*◌, ◌/◌, ◌^◌, ◌≤◌, ◌<◌, ◌≡◌, refl, Bool, true, false, ◌&&◌, some, ltb, leb, ◌==◌,
  arith, if◌then◌else◌, ltb→lt, lt→ltb, leb→le, Bool-cases, inl, inr, not, ◌⊎◌,
}
use quad_bot_code_actuation.Prelude.Int.{ℤ, pos, negsuc}
use quad_bot_code_actuation.Float.{
  Float, nan, inf, num, binary32, rounded, add, sub, mul, div, to_int, differ,
}
use quad_bot_code_actuation.Float.Round.{nearest, rounding}
use quad_bot_code_actuation.Float.Round.Nearest.{huge}
use quad_bot_code_actuation.Float.Round.Order.{div_mono}
use quad_bot_code_actuation.Float.Round.Monotone.{nearest_mono}

-- A finite number of at most k steps, of either sign.
abbrev pub AtMost : ℕ → Float → Type 0
AtMost k nan = ⊥
AtMost k (inf s) = ⊥
AtMost k (num s n) = n ≤ k

-- m / n rounds to at most k steps, which is no overflow.
unfoldable pub fits : ℕ → ℕ → ℕ → Bool
unfolding rounding
fits m n k = ltb 0 n && ltb (m / n) huge && leb (nearest 24 m n) k && ltb k (2 ^ 277)

and_left : (a b : Bool) → (a && b) ≡ true → a ≡ true
and_left true b h = refl
and_left false b h = h

and_right : (a b : Bool) → (a && b) ≡ true → b ≡ true
and_right true b h = h
and_right false b h = cc

in_range :
    (s : Bool) (r k limit : ℕ)
    → r ≤ k
    → k < limit
    → AtMost k (if ltb r limit then num s r else inf s)
in_range s r k limit h l = rw (lt→ltb r limit (omega arith)) h

le_trans : (a b c : ℕ) → a ≤ b → b ≤ c → a ≤ c
le_trans a b c h k = omega arith

lt_trans : (a b c : ℕ) → a ≤ b → b < c → a < c
lt_trans a b c h k = omega arith

lt→leb : (a b : ℕ) → a < b → leb a b ≡ true
lt→leb a b h = ground arith

rounded-AtMost :
    (s : Bool) (m top n k : ℕ) → m ≤ top → fits top n k ≡ true → AtMost k (rounded binary32 s m n)
unfolding fits
rounded-AtMost s m top n k h f =
    let below = and_right _ _ f in
    let f3 = and_left _ _ f in
    let near = and_right _ _ f3 in
    let f2 = and_left _ _ f3 in
    let big = and_right _ _ f2 in
    let positive = and_left _ _ f2 in
    in_range s (nearest 24 m n) k (2 ^ 277)
      (le_trans (nearest 24 m n) (nearest 24 top n) k
        (nearest_mono 23 m top n (ltb→lt 0 n positive) h (ltb→lt (top / n) huge big))
        (leb→le (nearest 24 top n) k near))
      (ltb→lt k (2 ^ 277) below)

not_zero : (b : ℕ) → 0 < b → (b == 0) ≡ false
not_zero b h = ground arith

pub div-AtMost :
    (x : Float) (a b k : ℕ) (t : Bool)
    → AtMost a x
    → 0 < b
    → fits (a * 2 ^ 149) b k ≡ true
    → AtMost k (div binary32 x (num t b))
unfolding div
div-AtMost nan a b k t h p f = absurd h
div-AtMost (inf s) a b k t h p f = absurd h
div-AtMost (num s m) a b k t h p f =
    rw (not_zero b p) (rounded-AtMost _ (m * 2 ^ 149) (a * 2 ^ 149) b k (omega (arith, h)) f)

times_mono : (m a b : ℕ) → m ≤ a → m * b ≤ a * b
times_mono m a b h = grind (arith, h)

pub mul-AtMost :
    (x : Float) (a b k : ℕ) (t : Bool)
    → AtMost a x
    → fits (a * b) (2 ^ 149) k ≡ true
    → AtMost k (mul binary32 x (num t b))
unfolding mul
mul-AtMost nan a b k t h f = absurd h
mul-AtMost (inf s) a b k t h f = absurd h
mul-AtMost (num s m) a b k t h f =
    rounded-AtMost _ (m * b) (a * b) (2 ^ 149) k (times_mono m a b h) f

pub add-AtMost :
    (x : Float) (a b k : ℕ) (t : Bool)
    → AtMost a x
    → fits (a + b) 1 k ≡ true
    → AtMost k (add binary32 x (num t b))
unfolding add
add-AtMost nan a b k t h f = absurd h
add-AtMost (inf s) a b k t h f = absurd h
add-AtMost (num s m) a b k t h f = elim (Bool-cases (differ s t)) [
  | inr e ↦ rw e (rounded-AtMost s (m + b) (a + b) 1 k (omega (arith, h)) f)
  | inl e ↦ rw e (apart (Bool-cases (m == b)) (Bool-cases (ltb b m)))
]
  where
    apart :
        ((m == b) ≡ true) ⊎ ((m == b) ≡ false)
        → (ltb b m ≡ true) ⊎ (ltb b m ≡ false)
        → AtMost k (
            if m == b
            then num false 0
            else if ltb b m
            then rounded binary32 s (m - b) 1
            else rounded binary32 t (b - m) 1)
    apart (inl e) q = rw e (omega arith)
    apart (inr e) (inl q) = rw (e, q) (rounded-AtMost s (m - b) (a + b) 1 k (omega (arith, h)) f)
    apart (inr e) (inr q) = rw (e, q) (rounded-AtMost t (b - m) (a + b) 1 k (omega (arith, h)) f)

pub sub-AtMost :
    (x : Float) (a b k : ℕ) (t : Bool)
    → AtMost a x
    → fits (a + b) 1 k ≡ true
    → AtMost k (sub binary32 x (num t b))
unfolding sub
sub-AtMost x a b k t h f = add-AtMost x a b k (not t) h f

whole : (m a : ℕ) → m ≤ a → ltb (a / 2 ^ 149) (2 ^ 31) ≡ true → m / 2 ^ 149 < 2 ^ 31
whole m a h f =
    lt_trans (m / 2 ^ 149) (a / 2 ^ 149) (2 ^ 31)
      (div_mono m a (2 ^ 149) (ltb→lt 0 (2 ^ 149) refl) h) (ltb→lt (a / 2 ^ 149) (2 ^ 31) f)

-- A conversion to `int` is defined for a number that an `int` reaches.
pub to_int_defined :
    (x : Float) (a : ℕ)
    → AtMost a x
    → ltb (a / 2 ^ 149) (2 ^ 31) ≡ true
    → (z : ℤ) × (to_int binary32 x ≡ some z)
unfolding to_int
to_int_defined nan a h f = absurd h
to_int_defined (inf s) a h f = absurd h
to_int_defined (num false m) a h f =
    (pos (m / 2 ^ 149), rw (lt→ltb (m / 2 ^ 149) (2 ^ 31) (whole m a h f)) refl)
to_int_defined (num true m) a h f = elim (Bool-cases (m / 2 ^ 149 == 0)) [
  | inl e ↦ (pos 0, rw e refl)
  | inr e ↦ (negsuc (m / 2 ^ 149 - 1), rw (e, lt→leb (m / 2 ^ 149) (2 ^ 31) (whole m a h f)) refl)
]
