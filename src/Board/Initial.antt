-- ===== src/Board/Initial.antt =====
-- The global variables as the program starts, by their initialisers; nothing has been called.
use quad_bot_code_actuation.Prelude.{ℕ, zero, suc, false, List, [], ◌∷◌}
use quad_bot_code_actuation.Prelude.Int.{negsuc}
use quad_bot_code_actuation.Float.{num}
use quad_bot_code_actuation.Board.{State, Env}

abbrev pub zeros : ℕ → List ℕ
zeros zero = []
zeros (suc n) = 0 ∷ zeros n

abbrev pub initial : State
initial = record {
  calls = [];
  mux_channel = 0;
  current_channel = negsuc 0;
  offsets = zeros 16;
  bms_conversion_active = 0;
  bms_data_ready = false;
  bms_data_timestamp = 0;
  total_coulombs = num false 0;
  total_sample_count = 0;
  input_buffer = zeros 32;
  input_pos = 0;
}

-- Devices that answer every call with the same number.
abbrev pub answering : ℕ → Env
answering n h = n
