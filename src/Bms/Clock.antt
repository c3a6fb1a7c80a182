-- ===== src/Bms/Clock.antt =====
-- The ready signal and the window in which the data of a conversion are valid.
use quad_bot_code_actuation.Prelude.{◌+◌, ◌^◌, ◌≤◌, ◌<◌, ◌≡◌, refl, false, ltb, arith}
use quad_bot_code_actuation.Board.{State, Env, Ends, micros, ◌◂◌}
use quad_bot_code_actuation.Bms.Core.{is_bms_data_valid, valid_window}

-- The window of 31 cycles of 10 ms less six filters of 16.67 ms, and 1.6 ms: 211580 microseconds.
window_lem : valid_window ≡ 211580
window_lem = refl

-- Data are valid for 211580 microseconds after the ready signal, when the clock does not wrap around
-- in that time.
pub is_bms_data_valid_window :
    (env : Env) (s : State)
    → s.bms_data_timestamp + 211580 < 2 ^ 32
    → env (s.calls ◂ micros) < 2 ^ 32
    → Ends
        (is_bms_data_valid env s)
        λ valid t. valid ≡ ltb (env (s.calls ◂ micros)) (s.bms_data_timestamp + 211580)
unfolding is_bms_data_valid
is_bms_data_valid_window env s h k = ground arith

-- In the last 211580 microseconds before the 32-bit clock wraps around, data are reported as expired
-- from the moment of the ready signal on.
pub is_bms_data_valid_wraps :
    (env : Env) (s : State)
    → s.bms_data_timestamp < 2 ^ 32
    → 2 ^ 32 ≤ s.bms_data_timestamp + 211580
    → s.bms_data_timestamp ≤ env (s.calls ◂ micros)
    → env (s.calls ◂ micros) < 2 ^ 32
    → Ends (is_bms_data_valid env s) λ valid t. valid ≡ false
unfolding is_bms_data_valid
is_bms_data_valid_wraps env s h k l m = ground arith
