-- ===== src/Main/Printing.antt =====
-- Command lines as an operator types them: a word and numbers, with one space before each number.
use mathlib.Core.List.{append-nil}
use quad_bot_code_actuation.Prelude.{
  ℕ, zero, suc, ◌^◌, ◌<◌, ◌≡◌, refl, sym, subst, ap, ◌∙◌, true, false, List, [], ◌∷◌, ◌++◌, map,
  take, CString, arith, length, ltb, lt→ltb, ◌==◌, if◌then◌else◌, skip_spaces, isspace, is_digit,
  read_digits, has_digit,
}
use quad_bot_code_actuation.Prelude.Int.{pos, fits_int}
use quad_bot_code_actuation.Prelude.Decimal.{decimal, decimal_start, read_digits-decimal}
use quad_bot_code_actuation.Main.Scan.{
  cons_int, scan, scan_ints, read_word, matched, mismatch, out_of_range,
}
use quad_bot_code_actuation.Main.Moves.{
  Word, word, move, stop, default_move, set_speeds, test_a, test_b, test_c, test_d, IsScanned,
}

abbrev pub arguments : List ℕ → CString
arguments [] = []
arguments (n ∷ ns) = b' ' ∷ (decimal n ++ arguments ns)

abbrev pub command_line : Word → List ℕ → CString
command_line w ns = word w ++ arguments ns

-- Numbers that an `int` holds.
abbrev pub AllFit : List ℕ → Type 0
AllFit [] = Unit
AllFit (n ∷ ns) = (n < 2 ^ 31) × AllFit ns

arguments_stop : (ns : List ℕ) → has_digit 10 (arguments ns) ≡ false
arguments_stop [] = refl
arguments_stop (n ∷ ns) = refl

-- One field of the format, from its first digit.
scan_field :
    (k n c : ℕ) (w s rest : CString)
    → is_digit 10 c ≡ true
    → read_digits 10 0 (c ∷ s) ≡ (n, rest)
    → n < 2 ^ 31
    → scan_ints (suc k) w (b' ' ∷ c ∷ s) ≡ cons_int (pos n) (scan_ints k w rest)
unfolding scan_ints skip_spaces
scan_field k n c w s rest d e h =
    let space : isspace c ≡ false = ground (arith, d) in
    let minus : (c == b'-') ≡ false = ground (arith, d) in
    let plus : (c == b'+') ≡ false = ground (arith, d) in
    let fits : ltb n (2 ^ 31) ≡ true = lt→ltb n (2 ^ 31) h in
    rw (space, minus, plus)
      (subst
        (λ r.
          (if is_digit 10 c
            then (if fits_int (pos r.0)
                then cons_int (pos r.0) (scan_ints k w r.1)
                else out_of_range)
            else mismatch)
          ≡ cons_int (pos n) (scan_ints k w rest))
        (sym e) (rw (d, fits) refl))

scan_argument :
    (k n : ℕ) (w rest : CString)
    → n < 2 ^ 31
    → has_digit 10 rest ≡ false
    → scan_ints (suc k) w (b' ' ∷ (decimal n ++ rest)) ≡ cons_int (pos n) (scan_ints k w rest)
scan_argument k n w rest h e =
    let (c, s, q, d) = decimal_start n in
    let starts : decimal n ++ rest ≡ c ∷ (s ++ rest) = ap (λ x. x ++ rest) q in
    ap (λ x. scan_ints (suc k) w (b' ' ∷ x)) starts
    ∙ scan_field k n c w (s ++ rest) rest d
        (ap (read_digits 10 0) (sym starts) ∙ read_digits-decimal n rest e) h

-- As many fields as the format has are read, and what follows them is left.
scan_arguments :
    (ns more : List ℕ) (w : CString)
    → AllFit ns
    → scan_ints (length ns) w (arguments (ns ++ more)) ≡ matched w (map pos ns)
unfolding scan_ints
scan_arguments [] more w h = refl
scan_arguments (n ∷ ns) more w h =
    scan_argument (length ns) n w (arguments (ns ++ more)) h.0 (arguments_stop (ns ++ more))
    ∙ ap (cons_int (pos n)) (scan_arguments ns more w h.1)

-- Too few numbers do not match.
scan_short :
    (k : ℕ) (ns : List ℕ) (w : CString)
    → AllFit ns
    → length ns < k
    → scan_ints k w (arguments ns) ≡ mismatch
unfolding scan_ints skip_spaces read_digits
scan_short zero ns w h l = absurd (omega arith)
scan_short (suc k) [] w h l = refl
scan_short (suc k) (n ∷ ns) w h l =
    scan_argument k n w (arguments ns) h.0 (arguments_stop ns)
    ∙ ap (cons_int (pos n)) (scan_short k ns w h.1 (omega arith))

-- The word is read off a line, whatever follows it.
scan-word :
    (v : Word) (k : ℕ) (ns : List ℕ)
    → scan (suc k) (command_line v ns) ≡ scan_ints (suc k) (word v) (arguments ns)
unfolding scan read_word skip_spaces
scan-word move k [] = refl
scan-word move k (n ∷ ns) = refl
scan-word stop k [] = refl
scan-word stop k (n ∷ ns) = refl
scan-word default_move k [] = refl
scan-word default_move k (n ∷ ns) = refl
scan-word set_speeds k [] = refl
scan-word set_speeds k (n ∷ ns) = refl
scan-word test_a k [] = refl
scan-word test_a k (n ∷ ns) = refl
scan-word test_b k [] = refl
scan-word test_b k (n ∷ ns) = refl
scan-word test_c k [] = refl
scan-word test_c k (n ∷ ns) = refl
scan-word test_d k [] = refl
scan-word test_d k (n ∷ ns) = refl

-- How many numbers each command has.
abbrev pub arity : Word → ℕ
arity stop = 2
arity test_a = 0
arity test_b = 0
arity test_c = 0
arity test_d = 0
arity _ = 4

first_two :
    (v : Word) (ns : List ℕ)
    → AllFit ns
    → length ns ≡ 4
    → scan 2 (command_line v ns) ≡ matched (word v) (take 2 (map pos ns))
first_two v [] h l = absurd (omega arith)
first_two v (a ∷ []) h l = absurd (omega arith)
first_two v (a ∷ b ∷ ns) h l =
    scan-word v 1 (a ∷ b ∷ ns) ∙ scan_arguments (a ∷ b ∷ []) ns (word v) (h.0, (h.1.0, tt))

scan_all :
    (v : Word) (k : ℕ) (ns : List ℕ)
    → AllFit ns
    → length ns ≡ suc k
    → scan (suc k) (command_line v ns) ≡ matched (word v) (map pos ns)
scan_all v k ns h l =
    scan-word v k ns
    ∙ ap (λ n. scan_ints n (word v) (arguments ns)) (sym l)
    ∙ ap (λ x. scan_ints (length ns) (word v) (arguments x)) (sym (append-nil ns))
    ∙ scan_arguments ns [] (word v) h

scan_none : (v : Word) (k : ℕ) → scan (suc k) (command_line v []) ≡ mismatch
scan_none v k = scan-word v k [] ∙ scan_short (suc k) [] (word v) tt (omega arith)

-- A printed command line is scanned back as its word and its numbers, when these are `int`s and as many
-- as the word takes.
pub command_line-IsScanned :
    (v : Word) (ns : List ℕ)
    → AllFit ns
    → length ns ≡ arity v
    → IsScanned v (command_line v ns) (map pos ns)
command_line-IsScanned move ns h l = scan_all move 3 ns h l
command_line-IsScanned stop ns h l =
    (scan-word stop 3 ns ∙ scan_short 4 ns (word stop) h (omega (arith, l)), scan_all stop 1 ns h l)
command_line-IsScanned default_move ns h l =
    (scan_all default_move 3 ns h l, first_two default_move ns h l)
command_line-IsScanned set_speeds ns h l =
    (scan_all set_speeds 3 ns h l, first_two set_speeds ns h l)
command_line-IsScanned test_a [] h l = (scan_none test_a 3, scan_none test_a 1, refl)
command_line-IsScanned test_a (n ∷ ns) h l = absurd (omega (arith, l))
command_line-IsScanned test_b [] h l = (scan_none test_b 3, scan_none test_b 1, refl)
command_line-IsScanned test_b (n ∷ ns) h l = absurd (omega (arith, l))
command_line-IsScanned test_c [] h l = (scan_none test_c 3, scan_none test_c 1, refl)
command_line-IsScanned test_c (n ∷ ns) h l = absurd (omega (arith, l))
command_line-IsScanned test_d [] h l = (scan_none test_d 3, scan_none test_d 1, refl)
command_line-IsScanned test_d (n ∷ ns) h l = absurd (omega (arith, l))
