-- ===== src/MotorDriver/Tests.antt =====
-- The motor drivers on concrete commands.
use quad_bot_code_actuation.Board.{Past, println, text, ◌◂◌}
use quad_bot_code_actuation.Prelude.{
  ◌≡◌, refl, true, ℕ, ◌-◌, ◌/◌, ◌%◌, ◌<◌, ◌^◌, [], ◌∷◌, List, arith,
}
use quad_bot_code_actuation.Prelude.Int.{pos}
use quad_bot_code_actuation.Board.{
  State, Ends, History, end_transmission, begin_transmission, wire_write, wire,
}
use quad_bot_code_actuation.Board.Traffic.{messages, control}
use quad_bot_code_actuation.Board.Initial.{initial, answering}
use quad_bot_code_actuation.I2cMux.Selection.{IsInSync}
use quad_bot_code_actuation.I2c.Waiting.{ready_within}
use quad_bot_code_actuation.MotorDriver.{
  variable_motion_control, drive_value, to_amperes, read_limit_triggers, read_current_estimate,
}
use quad_bot_code_actuation.MotorDriver.Drive.{mode, code, drive_value_lem}
use quad_bot_code_actuation.MotorDriver.Reads.{
  Fetched, read_limit_triggers-Fetched, read_current_estimate-Fetched,
}
use quad_bot_code_actuation.MotorDriver.Registers.{registers_of, write, Wrote}
use quad_bot_code_actuation.MotorDriver.Commands.{
  Request, init, set_speeds, stop, perform_all, effects, perform_all-effects, AllValid,
}
use quad_bot_code_actuation.MotorDriver.Order.{SameLanes, perform_all-SameLanes}
use quad_bot_code_actuation.MotorDriver.Misdirected.{
  invalid_channel, variable_motion_control_misdirected,
}

initial-IsInSync : IsInSync initial
unfolding control messages
initial-IsInSync = record { channel = refl; same = refl }

abbrev requests : List Request
requests =
    record { channel = 0; chip = 0x60; command = init }
    ∷ record { channel = 7; chip = 0x61; command = set_speeds 10 200 }
    ∷ record { channel = 0; chip = 0x60; command = stop }
    ∷ []

requests-AllValid : AllValid requests
requests-AllValid = (
  record { channel = omega arith; chip = λ e. omega arith },
  (
    record { channel = omega arith; chip = λ e. omega arith },
    (record { channel = omega arith; chip = λ e. omega arith }, tt),
  ),
)

-- The chip on channel 7 comes last.
abbrev reordered : List Request
reordered =
    record { channel = 0; chip = 0x60; command = init }
    ∷ record { channel = 0; chip = 0x60; command = stop }
    ∷ record { channel = 7; chip = 0x61; command = set_speeds 10 200 }
    ∷ []

reordered-AllValid : AllValid reordered
reordered-AllValid = (
  record { channel = omega arith; chip = λ e. omega arith },
  (
    record { channel = omega arith; chip = λ e. omega arith },
    (record { channel = omega arith; chip = λ e. omega arith }, tt),
  ),
)

requests-SameLanes : SameLanes requests reordered
requests-SameLanes ctl chip = ground arith

perform_all-SameLanes_example :
    Ends (perform_all requests (answering 0) initial) λ _ t.
      Ends (perform_all reordered (answering 7) initial) λ _ u. registers_of t ≡ registers_of u
perform_all-SameLanes_example =
    perform_all-SameLanes requests reordered (answering 0) (answering 7) initial requests-SameLanes
      requests-AllValid reordered-AllValid initial-IsInSync

perform_all-effects_example :
    Ends
      (perform_all requests (answering 0) initial)
      λ _ t. IsInSync t × (registers_of t ≡ effects requests (registers_of initial))
perform_all-effects_example =
    perform_all-effects requests (answering 0) initial requests-AllValid initial-IsInSync

-- A channel of 9 after channel 3 was selected.
abbrev selected_three : State
selected_three = record initial {
  current_channel = pos 3;
  calls = end_transmission wire true ∷ wire_write wire 8 ∷ begin_transmission wire 0x70 ∷ [];
}

selected_three-IsInSync : IsInSync selected_three
unfolding control messages
selected_three-IsInSync = record { channel = omega arith; same = refl }

variable_motion_control_misdirected_example :
    Ends (variable_motion_control 9 0x60 100 true (answering 0) selected_three) λ _ t.
      Past (selected_three.calls ◂ println (text invalid_channel)) t.calls
      × Wrote 3
          (λ x. write (2 ^ 3) 0x60 0x07 0xc4 (write (2 ^ 3) 0x60 0x05 (255 - 100) x))
          selected_three
          t
variable_motion_control_misdirected_example =
    variable_motion_control_misdirected 9 3 0x60 100 true (answering 0) selected_three (omega arith)
      refl (λ e. omega arith) selected_three-IsInSync

abbrev two : ℕ
two = 2

drive_value_lem_example : (drive_value 2 true / 64 ≡ mode 2) × (drive_value 2 true % 64 ≡ code true)
drive_value_lem_example = drive_value_lem 2 true

one_ready : (past : History) → ready_within 1 (answering 1) wire past ≡ true
unfolding ready_within
one_ready past = refl

read_limit_triggers-Fetched_example :
    Ends
      (read_limit_triggers 1 7 0x60 (answering 1) initial)
      λ v t. (byte : ℕ) × Fetched (answering 1) 7 0x60 0x00 byte initial t × (v ≡ byte % 16)
read_limit_triggers-Fetched_example =
    read_limit_triggers-Fetched 1 7 0x60 (answering 1) initial (omega arith) (λ e. omega arith)
      initial-IsInSync one_ready

read_current_estimate-Fetched_example :
    Ends (read_current_estimate 1 7 0x60 (answering 1) initial) λ d t.
      (byte : ℕ) × Fetched (answering 1) 7 0x60 0x01 byte initial t
      × (d ≡ to_amperes (byte / 8))
      × (byte / 8 < 32)
read_current_estimate-Fetched_example =
    read_current_estimate-Fetched 1 7 0x60 (answering 1) initial (omega arith) (λ e. omega arith)
      initial-IsInSync one_ready
