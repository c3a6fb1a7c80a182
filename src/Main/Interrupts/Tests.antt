-- ===== src/Main/Interrupts/Tests.antt =====
-- A ready signal after every call, while lines are carried out.
use quad_bot_code_actuation.Bms.Core.{is_bms_data_valid}
use quad_bot_code_actuation.Board.{micros}
use quad_bot_code_actuation.Main.Interrupts.{seen}
use quad_bot_code_actuation.Main.Interrupts.Effects.{latest}
use quad_bot_code_actuation.Main.Interrupts.Validity.{Reach-is_bms_data_valid}
use quad_bot_code_actuation.Prelude.{ltb, ◌-◌}
use quad_bot_code_actuation.Bms.Storing.{storing, storing-IsStoring}
use quad_bot_code_actuation.Bms.Identity.{serial_number, read_back}
use quad_bot_code_actuation.Main.Interrupts.Identity.{msb_of, lsb_of, Reach-read_back}
use quad_bot_code_actuation.Prelude.{◌+◌, ◌*◌}
use quad_bot_code_actuation.Prelude.{◌≡◌, refl, true, arith, []}
use quad_bot_code_actuation.Float.{Float, num}
use quad_bot_code_actuation.Prelude.{false, CString, ◌∷◌}
use quad_bot_code_actuation.Board.{State, Ends_result}
use quad_bot_code_actuation.Power.Sequence.{IsTenBit}
use quad_bot_code_actuation.Main.Start.{setup-Started}
use quad_bot_code_actuation.Main.Standing.{Started}
use quad_bot_code_actuation.Main.Robot.{started, served}
use quad_bot_code_actuation.Main.Interrupts.Robot.{IsServingNow, Reach-IsServingNow}
use quad_bot_code_actuation.Board.{Env, History, Ends, wire, serial_available, ◌◂◌, ok, ◌>>◌}
use quad_bot_code_actuation.Board.Initial.{initial}
use quad_bot_code_actuation.I2c.Waiting.{ready_within}
use quad_bot_code_actuation.Main.Setup.{setup}
use quad_bot_code_actuation.Main.Console.{loop}
use quad_bot_code_actuation.Main.Buses.{opens_within}
use quad_bot_code_actuation.Main.Entries.{AllAnswer, printed}
use quad_bot_code_actuation.Main.Scenarios.{
  port_env, port_env-IsPort, seven_lines, seven_lines-AllLines, enough_rounds,
}
use quad_bot_code_actuation.Main.Interrupts.{Schedule, heard, real}
use quad_bot_code_actuation.Main.Interrupts.Blind.{IsBlind}
use quad_bot_code_actuation.Main.Interrupts.Program.{setup-loop-IsBlind}
use quad_bot_code_actuation.Main.Interrupts.Effects.{Carried, setup-loop-Carried, heard-IsTenBit}

abbrev each_call : Schedule
each_call h = 1

abbrev lines_env : Env
lines_env = port_env (printed seven_lines)

lines-opens : (past : History) → opens_within 1 (heard each_call lines_env) past ≡ true
unfolding opens_within heard
lines-opens past = refl

lines-ready : (past : History) → ready_within 1 (heard each_call lines_env) wire past ≡ true
unfolding ready_within heard
lines-ready past = refl

seven_lines-AllAnswer : AllAnswer seven_lines 1 (heard each_call lines_env)
seven_lines-AllAnswer = (tt, (tt, (tt, (tt, (tt, (tt, (lines-ready, tt)))))))

setup-loop-Carried_example :
    Ends
      ((setup (λ _. num false 0) 1 >> loop 60 1) (heard each_call lines_env) initial)
      λ _ t. Carried each_call lines_env seven_lines t
setup-loop-Carried_example =
    setup-loop-Carried each_call (λ _. num false 0) 1 lines_env lines-opens (λ past. omega arith)
      seven_lines (port_env-IsPort (printed seven_lines)) seven_lines-AllLines seven_lines-AllAnswer
      60 enough_rounds

setup-loop-IsBlind_example : IsBlind (setup (λ _. num false 0) 2 >> loop 5 2)
setup-loop-IsBlind_example = setup-loop-IsBlind (λ _. num false 0) 2 5

-- Devices that answer 300, but nothing arrives on the serial line.
abbrev quiet : Env
quiet (serial_available ∷ h) = 0
quiet _ = 300

quiet-opens : (past : History) → opens_within 1 (heard each_call quiet) past ≡ true
unfolding opens_within heard
quiet-opens past = refl

heard_300 : IsTenBit (heard each_call quiet)
heard_300 = heard-IsTenBit each_call quiet λ past. omega arith

abbrev no_float : CString → Float
no_float s = num false 0

abbrev first_state :
    (a : Unit {0}) × (t : State) × (setup no_float 1 (heard each_call quiet) initial ≡ ok a t)
first_state =
    Ends_result (setup no_float 1 (heard each_call quiet) initial)
      (λ _ t. Started (heard each_call quiet) t)
      (setup-Started no_float 1 (heard each_call quiet) quiet-opens heard_300)

abbrev second_state : State
second_state = record (first_state.1) { calls = (first_state.1).calls ◂ serial_available }

one_loop : loop 1 1 (heard each_call quiet) first_state.1 ≡ ok tt second_state
unfolding loop heard
one_loop = refl

Reach-IsServingNow_example : IsServingNow each_call quiet second_state
Reach-IsServingNow_example =
    Reach-IsServingNow each_call no_float 1 quiet quiet-opens (λ past. omega arith)
      (served 1 (started first_state.2) one_loop)

storing-opens : (past : History) → opens_within 1 (heard each_call storing) past ≡ true
unfolding opens_within heard
storing-opens past = refl

storing-IsTenBit : IsTenBit storing
storing-IsTenBit past = omega arith

abbrev started_up :
    (a : Unit {0}) × (t : State) × (setup no_float 1 (heard each_call storing) initial ≡ ok a t)
started_up =
    Ends_result (setup no_float 1 (heard each_call storing) initial)
      (λ _ t. Started (heard each_call storing) t)
      (setup-Started no_float 1 (heard each_call storing) storing-opens
        (heard-IsTenBit each_call storing storing-IsTenBit))

Reach-read_back_example :
    Ends
      (read_back serial_number storing (real each_call storing started_up.1))
      λ v _. v ≡ msb_of serial_number * 65536 + lsb_of serial_number
Reach-read_back_example =
    Reach-read_back each_call no_float 1 storing storing-opens storing-IsTenBit started_up.1
      (started started_up.2) serial_number (storing-IsStoring 0x1b) (storing-IsStoring 0x1c)

latest-each_call : (h : History) → latest each_call storing h ≡ 0
unfolding latest seen
latest-each_call [] = refl
latest-each_call (c ∷ h) = refl

Reach-is_bms_data_valid_example :
    Ends (is_bms_data_valid storing (real each_call storing started_up.1)) λ valid _.
      valid
      ≡ ltb
          (storing ((real each_call storing started_up.1).calls ◂ micros)
            - latest each_call storing (started_up.1).calls)
          211580
Reach-is_bms_data_valid_example =
    let zero_point = latest-each_call (started_up.1).calls in
    Reach-is_bms_data_valid each_call no_float 1 storing storing-opens storing-IsTenBit started_up.1
      (started started_up.2) (omega (arith, zero_point)) (omega (arith, zero_point)) (omega arith)
