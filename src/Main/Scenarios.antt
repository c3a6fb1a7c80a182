-- ===== src/Main/Scenarios.antt =====
-- Lines in the serial port, on concrete bytes.
use quad_bot_code_actuation.Prelude.{
  str, strcmp_eq, skip_spaces, read_digits, set, ℕ, ◌<◌, ◌≤◌, ◌≡◌, refl, ap, true, List, [], ◌∷◌,
  arith, length, get_or,
}
use quad_bot_code_actuation.Board.{
  wire, State, ok, micros, ◌◂◌, Env, History, Ends, ◌>>◌, serial_available, serial_read,
}
use quad_bot_code_actuation.Board.Initial.{initial}
use quad_bot_code_actuation.Board.Traffic.{messages, control}
use quad_bot_code_actuation.MotorDriver.Registers.{registers_of}
use quad_bot_code_actuation.I2cMux.Selection.{IsInSync}
use quad_bot_code_actuation.Prelude.Decimal.{decimal}
use quad_bot_code_actuation.Main.Console.{loop}
use quad_bot_code_actuation.Main.Moves.{stop, default_move, test_b, test_c}
use quad_bot_code_actuation.Main.Printing.{command_line}
use quad_bot_code_actuation.Main.Typing.{IsBuffer}
use quad_bot_code_actuation.Main.Buses.{opens_within}
use quad_bot_code_actuation.Main.Port.{IsPort, reads, waiting}
use quad_bot_code_actuation.Main.InLine.{InLine}
use quad_bot_code_actuation.Main.Orders.{loop-effects}
use quad_bot_code_actuation.Main.Entries.{
  abc, AllAnswer, Line, order, other, IsOrder, IsText, AllLines, printed, effects,
}
use quad_bot_code_actuation.Main.Scan.{scan, read_word, scan_ints}
use quad_bot_code_actuation.Bms.Core.{on_bms_ready_rise}
use quad_bot_code_actuation.Main.Console.{on_char}
use quad_bot_code_actuation.I2c.Waiting.{ready_within}

-- A port that hands out some bytes; the other devices answer 300.
abbrev pub port_env : List ℕ → Env
port_env bytes (serial_available ∷ h) = length (waiting bytes h)
port_env bytes (serial_read ∷ h) = get_or (waiting bytes h) 0 0
port_env bytes _ = 300

pub port_env-IsPort : (bytes : List ℕ) → IsPort bytes (port_env bytes)
port_env-IsPort bytes = record {
  available = λ h. refl;
  read = λ h c cs w. ap (λ x. get_or x 0 0) w;
}

port_env-opens : (bytes : List ℕ) (past : History) → opens_within 1 (port_env bytes) past ≡ true
unfolding opens_within
port_env-opens bytes past = refl

-- "stop 3 96" with both ends of line, "defaultmove 2 96 3 1", "hello 1 2 3 4", "b", "abc" and "c"
abbrev pub seven_lines : List Line
seven_lines =
    record { entry = order stop (3 ∷ 96 ∷ []); ended = 13 }
    ∷ record { entry = other []; ended = 10 }
    ∷ record { entry = order default_move (2 ∷ 96 ∷ 3 ∷ 1 ∷ []); ended = 10 }
    ∷ record { entry = other (str "hello 1 2 3 4"); ended = 10 }
    ∷ record { entry = order test_b []; ended = 10 }
    ∷ record { entry = abc; ended = 10 }
    ∷ record { entry = order test_c []; ended = 10 }
    ∷ []

stop_short : length (command_line stop (3 ∷ 96 ∷ [])) ≤ 31
unfolding decimal
stop_short = omega arith

move_short : length (command_line default_move (2 ∷ 96 ∷ 3 ∷ 1 ∷ [])) ≤ 31
unfolding decimal
move_short = omega arith

stop-IsOrder : IsOrder stop (3 ∷ 96 ∷ [])
stop-IsOrder = record {
  fit = omega arith;
  all = refl;
  room = stop_short;
  channel = omega arith;
  chip = λ e. omega arith;
}

move-IsOrder : IsOrder default_move (2 ∷ 96 ∷ 3 ∷ 1 ∷ [])
move-IsOrder = record {
  fit = omega arith;
  all = refl;
  room = move_short;
  channel = omega arith;
  chip = λ e. omega arith;
}

test-IsOrder : IsOrder test_b []
test-IsOrder = record {
  fit = tt;
  all = refl;
  room = omega arith;
  channel = omega arith;
  chip = λ e. omega arith;
}

current-IsOrder : IsOrder test_c []
current-IsOrder = record {
  fit = tt;
  all = refl;
  room = omega arith;
  channel = omega arith;
  chip = λ e. omega arith;
}

empty-IsText : IsText []
unfolding scan read_word skip_spaces strcmp_eq
empty-IsText = record { plain = refl; room = omega arith; four = refl; two = refl; untested = refl }

hello-IsText : IsText (str "hello 1 2 3 4")
unfolding scan read_word scan_ints skip_spaces read_digits strcmp_eq
hello-IsText = record { plain = refl; room = omega arith; four = refl; two = refl; untested = refl }

pub seven_lines-AllLines : AllLines seven_lines
seven_lines-AllLines = (
  stop-IsOrder,
  refl,
  (
    empty-IsText,
    refl,
    (
      move-IsOrder,
      refl,
      (hello-IsText, refl, (test-IsOrder, refl, (tt, refl, (current-IsOrder, refl, tt)))),
    ),
  ),
)

port_env-ready :
    (bytes : List ℕ) (past : History) → ready_within 1 (port_env bytes) wire past ≡ true
unfolding ready_within
port_env-ready bytes past = refl

seven_lines-AllAnswer : AllAnswer seven_lines 1 (port_env (printed seven_lines))
seven_lines-AllAnswer =
    (tt, (tt, (tt, (tt, (tt, (tt, (port_env-ready (printed seven_lines), tt)))))))

pub enough_rounds : length (printed seven_lines) < 60
unfolding decimal
enough_rounds = omega arith

start-IsBuffer : IsBuffer initial
start-IsBuffer = record { size = refl; room = omega arith }

start-IsInSync : IsInSync initial
unfolding control messages
start-IsInSync = record { channel = refl; same = refl }

all_waiting : (bytes : List ℕ) → waiting bytes initial.calls ≡ bytes
unfolding waiting reads
all_waiting bytes = refl

loop-effects_example :
    Ends
      (loop 60 1 (port_env (printed seven_lines)) initial)
      λ _ t. InLine (printed seven_lines) (effects seven_lines (registers_of initial)) [] [] t
loop-effects_example =
    loop-effects seven_lines (printed seven_lines) (port_env (printed seven_lines)) 60 1 initial
      (port_env-IsPort (printed seven_lines)) seven_lines-AllLines seven_lines-AllAnswer
      start-IsBuffer refl start-IsInSync (all_waiting (printed seven_lines)) enough_rounds

-- After the ready signal one letter is typed.
abbrev signalled : State
signalled = record initial {
  calls = [] ◂ micros ◂ serial_available ◂ serial_read ◂ serial_available;
  bms_data_ready = true;
  bms_data_timestamp = 300;
  input_buffer = set initial.input_buffer 0 97;
  input_pos = 1;
}

one_letter : (on_bms_ready_rise >> loop 2 1) (port_env (97 ∷ [])) initial ≡ ok tt signalled
unfolding on_bms_ready_rise loop on_char waiting reads
one_letter = refl
