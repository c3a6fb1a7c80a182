-- ===== src/Prelude/Text.antt =====
-- C strings: the bytes before the terminator. `strcmp(a, b) == 0` is `strcmp_eq a b`.
use Prim.Native.Char.{code}
use Prim.Native.Nat.{ℕ, ◌+◌, ◌-◌, ◌*◌}
use Prim.Native.String.{String}
use mathlib.Core.Path.{◌≡◌, refl}
use mathlib.Core.Bool.{Bool, true, false, ◌&&◌, ◌||◌}
use mathlib.Core.Option.{Option, none, some}
use mathlib.Core.List.{List, [], ◌∷◌}
use native.Mathlib.Omega.{arith}
use quad_bot_code_actuation.Prelude.Tests.{ltb, leb, ◌==◌, if◌then◌else◌}

abbrev pub CString : Type 0
CString = List ℕ

-- A literal of the program text, all of which is ASCII.
abbrev pub str : String → CString
str String.[] = []
str (String.◌∷◌ c s) = code c ∷ str s

unfoldable pub strcmp_eq : CString → CString → Bool
strcmp_eq [] [] = true
strcmp_eq [] (_ ∷ _) = false
strcmp_eq (_ ∷ _) [] = false
strcmp_eq (a ∷ s) (b ∷ t) = (a == b) && strcmp_eq s t

-- `tolower` of the C locale.
abbrev pub tolower : ℕ → ℕ
tolower c = if leb b'A' c && leb c b'Z' then c + 32 else c

unfoldable pub strcasecmp_eq : CString → CString → Bool
strcasecmp_eq [] [] = true
strcasecmp_eq [] (_ ∷ _) = false
strcasecmp_eq (_ ∷ _) [] = false
strcasecmp_eq (a ∷ s) (b ∷ t) = (tolower a == tolower b) && strcasecmp_eq s t

pub strcmp_eq_refl : (s : CString) → strcmp_eq s s ≡ true
unfolding strcmp_eq
strcmp_eq_refl [] = refl
strcmp_eq_refl (a ∷ s) = ground (arith, strcmp_eq_refl s)

pub eq_of_strcmp_eq : (s t : CString) → strcmp_eq s t ≡ true → s ≡ t
unfolding strcmp_eq
eq_of_strcmp_eq [] [] h = refl
eq_of_strcmp_eq [] (_ ∷ _) h = ground arith
eq_of_strcmp_eq (_ ∷ _) [] h = ground arith
eq_of_strcmp_eq (a ∷ s) (b ∷ t) h = ground (arith, eq_of_strcmp_eq s t)

-- `isspace` of the C locale.
abbrev pub isspace : ℕ → Bool
isspace c = (c == 32) || (leb 9 c && leb c 13)

abbrev pub is_digit : ℕ → ℕ → Bool
is_digit base c = leb b'0' c && ltb c (b'0' + base)

unfoldable pub skip_spaces : CString → CString
skip_spaces [] = []
skip_spaces (c ∷ s) = let rest = skip_spaces s in if isspace c then rest else c ∷ s

-- The value of the digits in front, and what follows them. The base is at most ten.
unfoldable pub read_digits : ℕ → ℕ → CString → ℕ × CString
read_digits base value [] = (value, [])
read_digits base value (c ∷ s) =
    let rest = read_digits base (value * base + (c - b'0')) s in
    if is_digit base c then rest else (value, c ∷ s)

-- Whether the text goes on with a digit.
abbrev pub has_digit : ℕ → CString → Bool
has_digit base [] = false
has_digit base (c ∷ s) = is_digit base c

-- A sign in front, and what follows it.
abbrev pub read_sign : CString → Bool × CString
read_sign [] = (false, [])
read_sign (c ∷ s) =
    if c == b'-' then (true, s) else if c == b'+' then (false, s) else (false, c ∷ s)

-- `strncmp(s, prefix, strlen(prefix)) == 0`, with the rest of `s`.
unfoldable pub strip_prefix : CString → CString → Option CString
strip_prefix [] s = some s
strip_prefix (p ∷ ps) [] = none
strip_prefix (p ∷ ps) (c ∷ s) = let rest = strip_prefix ps s in if p == c then rest else none
