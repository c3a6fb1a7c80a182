-- ===== src/Main/Plain.antt =====
-- Printed command lines are plain bytes: none is an end of line or a terminator.
use quad_bot_code_actuation.Prelude.{
  ℕ, ◌≡◌, refl, Bool, true, ◌&&◌, List, [], ◌∷◌, ◌++◌, CString, arith, leb, ltb,
}
use quad_bot_code_actuation.Prelude.Decimal.{decimal, decimal_all, all_digits}
use quad_bot_code_actuation.Main.Console.{c_string}
use quad_bot_code_actuation.Main.Moves.{
  Word, move, stop, default_move, set_speeds, test_a, test_b, test_c, test_d,
}
use quad_bot_code_actuation.Main.Printing.{arguments, command_line}

-- Bytes from the space on.
abbrev pub is_plain : ℕ → Bool
is_plain c = leb 32 c && ltb c 256

abbrev pub all_plain : CString → Bool
all_plain [] = true
all_plain (c ∷ s) = is_plain c && all_plain s

all_plain-append :
    (s t : CString) → all_plain s ≡ true → all_plain t ≡ true → all_plain (s ++ t) ≡ true
all_plain-append [] t h k = k
all_plain-append (c ∷ s) t h k = ground (arith, h, k, all_plain-append s t)

digits_plain : (s : CString) → all_digits s ≡ true → all_plain s ≡ true
digits_plain [] h = refl
digits_plain (c ∷ s) h = ground (arith, h, digits_plain s)

arguments_plain : (ns : List ℕ) → all_plain (arguments ns) ≡ true
arguments_plain [] = refl
arguments_plain (n ∷ ns) =
    all_plain-append (decimal n) (arguments ns) (digits_plain (decimal n) (decimal_all n))
      (arguments_plain ns)

pub command_line_plain : (w : Word) (ns : List ℕ) → all_plain (command_line w ns) ≡ true
command_line_plain move ns = arguments_plain ns
command_line_plain stop ns = arguments_plain ns
command_line_plain default_move ns = arguments_plain ns
command_line_plain set_speeds ns = arguments_plain ns
command_line_plain test_a ns = arguments_plain ns
command_line_plain test_b ns = arguments_plain ns
command_line_plain test_c ns = arguments_plain ns
command_line_plain test_d ns = arguments_plain ns

pub plain_c_string : (s : CString) → all_plain s ≡ true → c_string s ≡ s
unfolding c_string
plain_c_string [] h = refl
plain_c_string (c ∷ s) h = ground (arith, h, plain_c_string s)
