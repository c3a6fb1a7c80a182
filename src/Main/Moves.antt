-- ===== src/Main/Moves.antt =====
-- What the motor commands of the serial line do to the motors' registers.
use quad_bot_code_actuation.Prelude.{
  subst, sym, refl, true, ℕ, ◌≤◌, ◌≡◌, ◌≢◌, true, false, List, take, CString, str, strcmp_eq,
}
use quad_bot_code_actuation.Prelude.Int.{ℤ}
use quad_bot_code_actuation.Board.{History, wire, State, Env, Ends}
use quad_bot_code_actuation.Board.Traffic.{i2c_mux_address}
use quad_bot_code_actuation.I2cMux.Selection.{IsInSync}
use quad_bot_code_actuation.MotorDriver.Registers.{Registers, Wrote}
use quad_bot_code_actuation.Main.Scan.{scan, matched, mismatch, sscanf}
use quad_bot_code_actuation.I2c.Waiting.{ready_within}
use quad_bot_code_actuation.Main.Console.{run_test, run_line, motor_driver_default_address, byte}
use quad_bot_code_actuation.Main.Actions.{
  moved, stopped, default_moved, speeds_set, regulated, run_test-Wrote, current-Wrote, limits-Wrote,
  do_move-Wrote, do_stop-Wrote, do_default_move-Wrote, do_set_speeds-Wrote,
}

-- The words of the four motor commands, and the two tests that switch a regulator.
pub data Word : Type 0 where
  move stop default_move set_speeds test_a test_b test_c test_d : Word

abbrev pub word : Word → CString
word move = str "move"
word stop = str "stop"
word default_move = str "defaultmove"
word set_speeds = str "setspeeds"
word test_a = str "a"
word test_b = str "b"
word test_c = str "c"
word test_d = str "d"

-- The channel and the chip of a command, from its numbers; the tests have their own.
abbrev pub channel_of : Word → List ℤ → ℕ
channel_of test_a ns = 7
channel_of test_b ns = 7
channel_of test_c ns = 7
channel_of test_d ns = 7
channel_of _ ns = byte 0 ns

abbrev pub chip_of : Word → List ℤ → ℕ
chip_of test_a ns = motor_driver_default_address
chip_of test_b ns = motor_driver_default_address
chip_of test_c ns = motor_driver_default_address
chip_of test_d ns = motor_driver_default_address
chip_of _ ns = byte 1 ns

-- The scans of the line that decide on each word. A "stop" line has two numbers.
abbrev pub IsScanned : Word → CString → List ℤ → Type 0
IsScanned move line ns = scan 4 line ≡ matched (str "move") ns
IsScanned stop line ns = (scan 4 line ≡ mismatch) × (scan 2 line ≡ matched (str "stop") ns)
IsScanned default_move line ns =
    (scan 4 line ≡ matched (str "defaultmove") ns)
    × (scan 2 line ≡ matched (str "defaultmove") (take 2 ns))
IsScanned set_speeds line ns =
    (scan 4 line ≡ matched (str "setspeeds") ns)
    × (scan 2 line ≡ matched (str "setspeeds") (take 2 ns))
IsScanned test_a line ns = (scan 4 line ≡ mismatch) × (scan 2 line ≡ mismatch) × (line ≡ str "a")
IsScanned test_b line ns = (scan 4 line ≡ mismatch) × (scan 2 line ≡ mismatch) × (line ≡ str "b")
IsScanned test_c line ns = (scan 4 line ≡ mismatch) × (scan 2 line ≡ mismatch) × (line ≡ str "c")
IsScanned test_d line ns = (scan 4 line ≡ mismatch) × (scan 2 line ≡ mismatch) × (line ≡ str "d")

abbrev pub effect_of : Word → List ℤ → Registers → Registers
effect_of move = moved
effect_of stop = stopped
effect_of default_move = default_moved
effect_of set_speeds = speeds_set
effect_of test_a = λ ns. regulated false
effect_of test_b = λ ns. regulated true
effect_of test_c = λ ns x. x
effect_of test_d = λ ns x. x

-- Whether the device behind a test that reads answers within some polls.
abbrev pub Answers : Word → ℕ → Env → Type 0
Answers test_c polls env = (past : History) → ready_within polls env wire past ≡ true
Answers test_d polls env = (past : History) → ready_within polls env wire past ≡ true
Answers _ polls env = Unit

-- A line that matches neither format is one of the tests.
tested :
    (polls : ℕ) (line : CString) (env : Env) (s : State)
    → scan 4 line ≡ mismatch
    → scan 2 line ≡ mismatch
    → run_line polls line env s ≡ run_test polls line env s
unfolding run_line
tested polls line env s h k = rw (h, k, run_line, sscanf) refl

-- A line with the word of a motor command and its numbers returns, and sets on the chip and channel
-- that it names the registers of that command, from its numbers cut to bytes, and no other register.
-- The lines "a" and "b" return too, and switch the regulator of the default chip on channel 7 off or
-- on; "c" and "d" return when that chip answers within the polls, and set no register.
-- The channel is at most 7, the chip is not the multiplexer, and the multiplexer has the channel that
-- is remembered.
pub run_line-Wrote :
    (w : Word) (polls : ℕ) (line : CString) (ns : List ℤ) (env : Env) (s : State)
    → IsScanned w line ns
    → channel_of w ns ≤ 7
    → chip_of w ns ≢ i2c_mux_address
    → IsInSync s
    → Answers w polls env
    → Ends (run_line polls line env s) λ _ t. Wrote (channel_of w ns) (effect_of w ns) s t
unfolding run_line strcmp_eq
run_line-Wrote move polls line ns env s h v o i r =
    rw (h, Ends, run_line, sscanf) (do_move-Wrote ns env s v o i)
run_line-Wrote stop polls line ns env s (h, k) v o i r =
    rw (h, k, Ends, run_line, sscanf) (do_stop-Wrote ns env s v o i)
run_line-Wrote default_move polls line ns env s (h, k) v o i r =
    rw (h, k, h, Ends, run_line, sscanf) (do_default_move-Wrote ns env s v o i)
run_line-Wrote set_speeds polls line ns env s (h, k) v o i r =
    rw (h, k, h, h, Ends, run_line, sscanf) (do_set_speeds-Wrote ns env s v o i)
run_line-Wrote test_a polls line ns env s (h, k, e) v o i r =
    rw (h, k, h, h, Ends, run_line, sscanf) (run_test-Wrote polls false line env s i e)
run_line-Wrote test_b polls line ns env s (h, k, e) v o i r =
    rw (h, k, h, h, Ends, run_line, sscanf) (run_test-Wrote polls true line env s i e)
run_line-Wrote test_c polls line ns env s (h, k, e) v o i r =
    subst (λ l. Ends l λ _ t. Wrote 7 (λ x. x) s t) (sym (tested polls line env s h k))
      (subst (λ l. Ends (run_test polls l env s) λ _ t. Wrote 7 (λ x. x) s t) (sym e)
        (current-Wrote polls env s i r))
run_line-Wrote test_d polls line ns env s (h, k, e) v o i r =
    subst (λ l. Ends l λ _ t. Wrote 7 (λ x. x) s t) (sym (tested polls line env s h k))
      (subst (λ l. Ends (run_test polls l env s) λ _ t. Wrote 7 (λ x. x) s t) (sym e)
        (limits-Wrote polls env s i r))
