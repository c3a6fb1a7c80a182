-- ===== src/Encoder/Tests.antt =====
-- The encoders on concrete channels and answers.
use quad_bot_code_actuation.Board.Pins.{exchanges}
use quad_bot_code_actuation.Prelude.{◌∷◌, some}
use quad_bot_code_actuation.Prelude.{ℕ, ◌≡◌, refl, arith}
use quad_bot_code_actuation.Board.{Ends, fault, out_of_bounds}
use quad_bot_code_actuation.Board.Initial.{initial, answering}
use quad_bot_code_actuation.Encoder.{read_encoder_position, read_turns, reset_encoder}
use quad_bot_code_actuation.Encoder.Operations.{Reading, read_encoder_position-Reading}
use quad_bot_code_actuation.Encoder.Reset.{reset_encoder-WasReset}
use quad_bot_code_actuation.Encoder.Reboot.{WasReset}
use quad_bot_code_actuation.Encoder.Turns.{TurnsRead, read_turns-TurnsRead}
use quad_bot_code_actuation.Encoder.Offsets.{
  initial-HasOffsets, CountedFrom, read_encoder_position_degrees, encoder_out_of_bounds,
}

read_encoder_position-Reading_example :
    Ends
      (read_encoder_position 3 (answering 0x5a) initial)
      λ d t. (hi : ℕ) × (lo : ℕ) × Reading (answering 0x5a) 3 0 hi lo initial d t
read_encoder_position-Reading_example =
    read_encoder_position-Reading 3 0 (answering 0x5a) initial (omega arith) refl

read_encoder_position_degrees_example :
    Ends (read_encoder_position 15 (answering 0x5a) initial) λ d t.
      CountedFrom 0 (answering 0x5a) initial d t
      × (exchanges t.calls ≡ (some 15, 0) ∷ (some 15, 0) ∷ exchanges initial.calls)
      × (t.offsets ≡ initial.offsets)
read_encoder_position_degrees_example =
    read_encoder_position_degrees 15 0 (answering 0x5a) initial (omega arith) initial-HasOffsets
      refl

reset_encoder-WasReset_example :
    Ends
      (reset_encoder 4 (answering 0x5a) initial)
      λ _ t. (hi : ℕ) × (lo : ℕ) × WasReset (answering 0x5a) 4 hi lo initial t
reset_encoder-WasReset_example =
    reset_encoder-WasReset 4 0 (answering 0x5a) initial (omega arith) refl

encoder_out_of_bounds_example :
    (read_encoder_position 16 (answering 0) initial ≡ fault out_of_bounds)
    × (reset_encoder 16 (answering 0) initial ≡ fault out_of_bounds)
encoder_out_of_bounds_example =
    encoder_out_of_bounds 16 (answering 0) initial (omega arith) initial-HasOffsets

read_turns-TurnsRead_example :
    Ends (read_turns 15 (answering 0) initial) λ v t. TurnsRead (answering 0) 15 initial v t
read_turns-TurnsRead_example = read_turns-TurnsRead 15 (answering 0) initial (omega arith)
