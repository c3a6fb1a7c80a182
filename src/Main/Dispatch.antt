-- ===== src/Main/Dispatch.antt =====
-- Which command a line is, and what happens to lines that are none.
use quad_bot_code_actuation.Prelude.{
  ℕ, ◌≤◌, ◌≡◌, refl, ap, Bool, true, false, ◌||◌, Option, none, some, List, [], ◌∷◌, CString, str,
  strcmp_eq, isspace, skip_spaces, read_digits, arith, length, if◌then◌else◌,
}
use quad_bot_code_actuation.Prelude.Int.{ℤ}
use quad_bot_code_actuation.Board.{
  ◌◂◌, println, text, State, Env, M, ok, fault, out_of_bounds, undefined, pure, fail,
}
use quad_bot_code_actuation.Main.Scan.{
  Scan, matched, mismatch, overflow, out_of_range, scan, sscanf, read_word, scan_ints,
}
use quad_bot_code_actuation.Main.Console.{run_line, run_test}

-- No byte is a space.
abbrev pub all_graphic : CString → Bool
all_graphic [] = true
all_graphic (c ∷ s) = let rest = all_graphic s in if isspace c then false else rest

skip_graphic : (s : CString) → all_graphic s ≡ true → skip_spaces s ≡ s
unfolding skip_spaces
skip_graphic [] h = refl
skip_graphic (c ∷ s) h = ground (arith, h)

read_graphic : (s : CString) → all_graphic s ≡ true → read_word s ≡ (s, [])
unfolding read_word
read_graphic [] h = refl
read_graphic (c ∷ s) h = ground (arith, h, read_graphic s)

scan_long :
    (n : ℕ) (line : CString) → all_graphic line ≡ true → 16 ≤ length line → scan n line ≡ overflow
unfolding scan
scan_long n line h k = rw (skip_graphic line h, read_graphic line h) (ground (arith, k))

sscanf_of :
    (n : ℕ) (line : CString) (r : Scan) (env : Env) (s : State)
    → scan n line ≡ r
    → sscanf n line env s
      ≡ (elim r as (λ x. M (Option (CString × List ℤ))) [
        | matched word ns ↦ pure (some (word, ns))
        | mismatch ↦ pure none
        | overflow ↦ fail out_of_bounds
        | out_of_range ↦ fail undefined
      ])
          env s
unfolding sscanf
sscanf_of n line r env s e =
    ap
      (λ x.
        (elim x as (λ x. M (Option (CString × List ℤ))) [
          | matched word ns ↦ pure (some (word, ns))
          | mismatch ↦ pure none
          | overflow ↦ fail out_of_bounds
          | out_of_range ↦ fail undefined
        ])
          env s)
      e

-- A line of 16 to 31 bytes without a space is written past the end of `cmd`.
pub run_line_overflow :
    (polls : ℕ) (line : CString) (env : Env) (s : State)
    → all_graphic line ≡ true
    → 16 ≤ length line
    → run_line polls line env s ≡ fault out_of_bounds
unfolding run_line
run_line_overflow polls line env s h k = rw (scan_long 4 line h k, run_line, sscanf) refl

-- The lines that `loop` compares as a whole.
abbrev pub is_test : CString → Bool
is_test line =
    strcmp_eq line (str "abc")
    || strcmp_eq line (str "a")
    || strcmp_eq line (str "b")
    || strcmp_eq line (str "c")
    || strcmp_eq line (str "d")

run_test_other :
    (polls : ℕ) (line : CString) (env : Env) (s : State)
    → is_test line ≡ false
    → run_test polls line env s ≡ ok tt s
unfolding run_test
run_test_other polls line env s h =
    let abc : strcmp_eq line (str "abc") ≡ false = ground (arith, h) in
    let a : strcmp_eq line (str "a") ≡ false = ground (arith, h) in
    let b : strcmp_eq line (str "b") ≡ false = ground (arith, h) in
    let c : strcmp_eq line (str "c") ≡ false = ground (arith, h) in
    let d : strcmp_eq line (str "d") ≡ false = ground (arith, h) in rw (abc, a, b, c, d) refl

-- A word that is none of some others.
abbrev not_among : CString → List CString → Bool
not_among w [] = true
not_among w (name ∷ names) =
    let rest = not_among w names in if strcmp_eq w name then false else rest

-- A scan that is none of the commands with some words.
abbrev pub refused : List CString → Scan → Bool
refused names mismatch = true
refused names (matched w ns) = not_among w names
refused names other = false

abbrev pub long_words : List CString
long_words = str "move" ∷ str "defaultmove" ∷ str "setspeeds" ∷ []

-- A line of another kind does nothing.
pub run_line_other :
    (polls : ℕ) (line : CString) (env : Env) (s : State)
    → refused long_words (scan 4 line) ≡ true
    → refused (str "stop" ∷ []) (scan 2 line) ≡ true
    → is_test line ≡ false
    → run_line polls line env s ≡ ok tt s
unfolding run_line
run_line_other polls line env s h k n = go (scan 4 line) (scan 2 line) refl refl h k
  where
    go :
        (r q : Scan)
        → scan 4 line ≡ r
        → scan 2 line ≡ q
        → refused long_words r ≡ true
        → refused (str "stop" ∷ []) q ≡ true
        → run_line polls line env s ≡ ok tt s
    go overflow q e f a b = cc
    go out_of_range q e f a b = cc
    go r overflow e f a b = cc
    go r out_of_range e f a b = cc
    go mismatch mismatch e f a b = rw (e, f, run_line, sscanf) (run_test_other polls line env s n)
    go mismatch (matched v ms) e f a b =
        let stops : strcmp_eq v (str "stop") ≡ false = ground (arith, b) in
        rw (e, f, stops, run_line, sscanf) (run_test_other polls line env s n)
    go (matched w ns) mismatch e f a b =
        let moves : strcmp_eq w (str "move") ≡ false = ground (arith, a) in
        let defaults : strcmp_eq w (str "defaultmove") ≡ false = ground (arith, a) in
        let sets : strcmp_eq w (str "setspeeds") ≡ false = ground (arith, a) in
        rw (e, f, moves, defaults, sets, run_line, sscanf) (run_test_other polls line env s n)
    go (matched w ns) (matched v ms) e f a b =
        let moves : strcmp_eq w (str "move") ≡ false = ground (arith, a) in
        let defaults : strcmp_eq w (str "defaultmove") ≡ false = ground (arith, a) in
        let sets : strcmp_eq w (str "setspeeds") ≡ false = ground (arith, a) in
        let stops : strcmp_eq v (str "stop") ≡ false = ground (arith, b) in
        rw (e, f, moves, stops, defaults, sets, run_line, sscanf)
          (run_test_other polls line env s n)

-- The line "abc" prints a message.
pub run_line_abc :
    (polls : ℕ) (env : Env) (s : State)
    → run_line polls (str "abc") env s
      ≡ ok tt (record s { calls = s.calls ◂ println (text (str "Running test for 'abc'!")) })
unfolding run_line run_test scan read_word scan_ints skip_spaces read_digits strcmp_eq
run_line_abc polls env s = refl
