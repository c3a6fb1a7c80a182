-- ===== src/Main/PowerOn.antt =====
-- `loop` of main.cpp after `setup`, with lines in the serial port.
use quad_bot_code_actuation.Prelude.{ℕ, ◌<◌, ◌≡◌, ap, true, CString, List, [], take, drop, length}
use quad_bot_code_actuation.Float.{Float}
use quad_bot_code_actuation.Board.{State, Env, History, Ends}
use quad_bot_code_actuation.Power.Sequence.{IsTenBit}
use quad_bot_code_actuation.Main.Console.{loop}
use quad_bot_code_actuation.Main.Buses.{opens_within}
use quad_bot_code_actuation.Main.Standing.{Started, set_up_registers}
use quad_bot_code_actuation.Main.Port.{waiting, IsPort}
use quad_bot_code_actuation.Main.InLine.{InLine}
use quad_bot_code_actuation.Main.Orders.{lines-InLine}
use quad_bot_code_actuation.Main.Entries.{AllAnswer, Line, AllLines, printed, effects}

module _ (atof : CString → Float) (polls : ℕ) (env : Env)
    (opens : (past : History) → opens_within polls env past ≡ true) (ten_bit : IsTenBit env)
    (ls : List Line) (port : IsPort (printed ls) env) (h : AllLines ls)
    (heard : AllAnswer ls polls env) (rounds : ℕ) (enough : length (printed ls) < rounds) where
  -- After `setup` the commands in the port are carried out.
  pub Started-effects :
      (s : State)
      → Started env s
      → Ends
          (loop rounds polls env s)
          λ _ t. InLine (printed ls) (effects ls set_up_registers) [] [] t
  unfolding waiting
  Started-effects s w =
      lines-InLine (printed ls) env port polls ls set_up_registers rounds s h heard
        (record {
          buffer = w.standing.up.buffer;
          sync = w.standing.set.sync;
          gathered = ap (λ p. take p s.input_buffer) w.standing.unread.empty;
          left = ap (λ n. drop n (printed ls)) w.standing.unread.unread;
          registers = w.standing.set.registers;
        })
        enough
