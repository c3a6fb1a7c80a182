-- ===== src/Main/Scan.antt =====
-- `sscanf` with the formats "%s %d %d" and "%s %d %d %d %d", into `char cmd[16]`.
use quad_bot_code_actuation.Prelude.{
  ℕ, zero, suc, Bool, true, false, Option, none, some, List, [], ◌∷◌, CString, skip_spaces, isspace,
  read_digits, read_sign, has_digit, leb, length, if◌then◌else◌,
}
use quad_bot_code_actuation.Prelude.Int.{ℤ, pos, negsuc, fits_int}
use quad_bot_code_actuation.Board.{out_of_bounds, undefined, M, pure, fail}

-- What `sscanf` stores when it matches all its fields; else it stops early, writes past the end of
-- `cmd`, or meets a number that no `int` holds.
pub data Scan : Type 0 where
  matched : CString → List ℤ → Scan
  mismatch overflow out_of_range : Scan

-- The bytes up to the first space, and the rest.
unfoldable pub read_word : CString → CString × CString
read_word [] = ([], [])
read_word (c ∷ s) =
    let (word, rest) = read_word s in if isspace c then ([], c ∷ s) else (c ∷ word, rest)

abbrev to_signed : Bool → ℕ → ℤ
to_signed false n = pos n
to_signed true zero = pos zero
to_signed true (suc n) = negsuc n

abbrev pub cons_int : ℤ → Scan → Scan
cons_int n (matched w ns) = matched w (n ∷ ns)
cons_int n other = other

-- The `%d` fields that are left, after the word `word`.
unfoldable pub scan_ints : ℕ → CString → CString → Scan
unfolding skip_spaces read_digits
scan_ints zero word s = matched word []
scan_ints (suc n) word s =
    let (negative, digits) = read_sign (skip_spaces s) in
    let (value, rest) = read_digits 10 0 digits in
    let field = to_signed negative value in
    let more = scan_ints n word rest in
    if has_digit 10 digits
    then (if fits_int field then cons_int field more else out_of_range)
    else mismatch

abbrev pub cmd_size : ℕ
cmd_size = 16

-- The word takes a terminator too.
unfoldable pub scan : ℕ → CString → Scan
unfolding read_word scan_ints
scan n line =
    let (word, rest) = read_word (skip_spaces line) in
    if leb cmd_size (length word)
    then overflow
    else elim word [ [] ↦ mismatch | c ∷ s ↦ scan_ints n (c ∷ s) rest ]

-- The command word and the numbers, when all fields are matched.
unfoldable pub sscanf : ℕ → CString → M (Option (CString × List ℤ))
unfolding scan
sscanf n line = elim (scan n line) [
  | matched word ns ↦ pure (some (word, ns))
  | mismatch ↦ pure none
  | overflow ↦ fail out_of_bounds
  | out_of_range ↦ fail undefined
]
