-- ===== src/Main/Tests.antt =====
-- The serial line on concrete bytes.
use quad_bot_code_actuation.Prelude.{
  ℕ, ◌≡◌, refl, arith, true, false, List, [], ◌∷◌, length, str, take, skip_spaces, read_digits,
}
use quad_bot_code_actuation.Prelude.Int.{pos}
use quad_bot_code_actuation.Board.{Ends, History, fault, out_of_bounds, ◌>>◌}
use quad_bot_code_actuation.Board.Initial.{initial, answering}
use quad_bot_code_actuation.Board.Traffic.{messages, control}
use quad_bot_code_actuation.I2cMux.Selection.{IsInSync}
use quad_bot_code_actuation.MotorDriver.Registers.{Wrote}
use quad_bot_code_actuation.Main.Scan.{scan, scan_ints, read_word, matched}
use quad_bot_code_actuation.Main.Start.{setup-Started}
use quad_bot_code_actuation.Main.Standing.{Started}
use quad_bot_code_actuation.Main.Buses.{opens_within}
use quad_bot_code_actuation.Main.Setup.{setup}
use quad_bot_code_actuation.Float.{num}
use quad_bot_code_actuation.Main.Console.{run_line, on_char, c_string}
use quad_bot_code_actuation.Main.Typing.{IsBuffer}
use quad_bot_code_actuation.Main.Lines.{feed, clear, echoed, with_line, feed-run_line}
use quad_bot_code_actuation.Main.Dispatch.{run_line_overflow}
use quad_bot_code_actuation.Main.Moves.{default_move, effect_of, run_line-Wrote}

initial-IsBuffer : IsBuffer initial
initial-IsBuffer = record { size = refl; room = omega arith }

console-IsInSync : IsInSync initial
unfolding control messages
console-IsInSync = record { channel = refl; same = refl }

feed-run_line_example :
    (b : List ℕ) × (p : ℕ) × (length b ≡ 32)
    × ((feed 1 (str "stop 1 96") >> on_char 1 10) (answering 0) initial
        ≡ (run_line 1 (c_string (take 31 (str "stop 1 96"))) >> clear)
            (answering 0)
            (echoed (c_string (take 31 (str "stop 1 96"))) (with_line b p initial)))
feed-run_line_example =
    feed-run_line 1 10 (str "stop 1 96") (answering 0) initial initial-IsBuffer refl refl refl

run_line_overflow_example :
    run_line 1 (str "abcdefghijklmnop") (answering 0) initial ≡ fault out_of_bounds
run_line_overflow_example =
    run_line_overflow 1 (str "abcdefghijklmnop") (answering 0) initial refl (omega arith)

default_four :
    scan 4 (str "defaultmove 3 96 2 1")
    ≡ matched (str "defaultmove") (pos 3 ∷ pos 96 ∷ pos 2 ∷ pos 1 ∷ [])
unfolding scan read_word scan_ints skip_spaces read_digits
default_four = refl

default_two :
    scan 2 (str "defaultmove 3 96 2 1") ≡ matched (str "defaultmove") (pos 3 ∷ pos 96 ∷ [])
unfolding scan read_word scan_ints skip_spaces read_digits
default_two = refl

run_line-Wrote_example :
    Ends
      (run_line 1 (str "defaultmove 3 96 2 1") (answering 0) initial)
      λ _ t. Wrote 3 (effect_of default_move (pos 3 ∷ pos 96 ∷ pos 2 ∷ pos 1 ∷ [])) initial t
run_line-Wrote_example =
    run_line-Wrote default_move 1 (str "defaultmove 3 96 2 1") (pos 3 ∷ pos 96 ∷ pos 2 ∷ pos 1 ∷ [])
      (answering 0) initial (default_four, default_two) (omega arith) (λ e. omega arith)
      console-IsInSync tt

port-opens : (past : History) → opens_within 1 (answering 300) past ≡ true
unfolding opens_within
port-opens past = refl

setup-Started_example :
    Ends (setup (λ _. num false 0) 1 (answering 300) initial) λ _ t. Started (answering 300) t
setup-Started_example =
    setup-Started (λ _. num false 0) 1 (answering 300) port-opens λ past. omega arith
