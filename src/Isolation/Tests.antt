-- ===== src/Isolation/Tests.antt =====
-- Isolation at one operation.
use quad_bot_code_actuation.Prelude.{ℕ, refl, List, [], ◌∷◌, str, arith}
use quad_bot_code_actuation.Board.{Ends}
use quad_bot_code_actuation.Operations.{reset, position as position_of, config, ready_rise}
use quad_bot_code_actuation.Encoder.{read_encoder_position, reset_encoder}
use quad_bot_code_actuation.Encoder.Position.{position}
use quad_bot_code_actuation.Encoder.Offsets.{initial-HasOffsets, CountedFrom}
use quad_bot_code_actuation.Encoder.Reboot.{WasReset}
use quad_bot_code_actuation.Isolation.Steps.{Step, step, run_steps}
use quad_bot_code_actuation.Isolation.Resets.{reset-read_encoder_position}
use quad_bot_code_actuation.Board.Frames.{After, motors, graft, regraft}
use quad_bot_code_actuation.Board.{State}
use quad_bot_code_actuation.Board.Initial.{initial, answering}
use quad_bot_code_actuation.Isolation.{IsIsolated, perform-IsIsolated}
use quad_bot_code_actuation.Operations.{variable_move}
use quad_bot_code_actuation.Operations.{perform}
use quad_bot_code_actuation.Prelude.{true, ◌≡◌}

-- A state with another line, another encoder and other data of the battery.
abbrev elsewhere : State
elsewhere = record initial {
  mux_channel = 5;
  bms_conversion_active = 1;
  bms_data_ready = true;
  input_pos = 3;
}

perform-IsIsolated_example :
    (After
      (perform (variable_move 2 96 100 true) (answering 0) initial)
      λ _ t. IsIsolated motors initial t)
    × (perform (variable_move 2 96 100 true) (answering 0) (graft motors initial elsewhere)
        ≡ regraft motors elsewhere (perform (variable_move 2 96 100 true) (answering 0) initial))
perform-IsIsolated_example =
    perform-IsIsolated (variable_move 2 96 100 true) (answering 0) initial elsewhere

-- A motor command, a reset and a reading of another encoder, a configuration and a ready signal.
abbrev between : List Step
between =
    step (variable_move 3 0x60 100 true)
    ∷ step (reset 5)
    ∷ step (position_of 5)
    ∷ step (config (str "CURR_MSK") (str "default"))
    ∷ step ready_rise
    ∷ []

reset-read_encoder_position_example : Ends (reset_encoder 4 (answering 0x5a) initial) λ _ t.
    (hi : ℕ) × (lo : ℕ) × WasReset (answering 0x5a) 4 hi lo initial t
    × After (run_steps between (answering 0x5a) t) λ _ u.
      Ends
        (read_encoder_position 4 (answering 0x5a) u)
        λ d v. CountedFrom (position hi lo) (answering 0x5a) u d v
reset-read_encoder_position_example =
    reset-read_encoder_position 4 between (answering 0x5a) initial (omega arith) initial-HasOffsets
      (refl, (refl, (refl, (refl, (refl, tt)))))
