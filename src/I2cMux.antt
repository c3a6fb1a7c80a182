-- ===== src/I2cMux.antt =====
-- Quadruped_Bot_Actuation_Code/src/I2C_MUX.cpp: the PCA9548A, which puts one of eight motor drivers
-- on the first I2C bus.
pub mod Selection
pub mod Sequence
mod Tests
use quad_bot_code_actuation.Prelude.{ℕ, ltb, str, shl, if◌then◌else◌}
use quad_bot_code_actuation.Prelude.Int.{pos, negsuc, eq_ℤ}
use quad_bot_code_actuation.Board.{print, text, dec, M, ◌>>=◌, ◌>>◌, get, modify, call, say}
use quad_bot_code_actuation.I2c.{i2c_wr}

unfoldable pub i2c_select_channel : ℕ → ℕ → M (Unit {0})
unfolding i2c_wr
i2c_select_channel mux_address channel =
    if ltb 7 channel
    then say (str "\nError: Invalid channel requested! Must be between 0 and 7.")
    else do
      active ← get λ s. s.current_channel
      if eq_ℤ active (pos channel)
          then (do
            call (print (text (str "\nI2C Multiplexer: Channel ")))
            call (print (dec (pos channel)))
            say (str " is already active. No action taken."))
          else do
            let control_byte = shl 1 channel
            i2c_wr mux_address control_byte
            modify λ s. record s { current_channel = pos channel }
            call (print (text (str "\nI2C Multiplexer: Channel ")))
            call (print (dec (pos channel)))
            say (str " selected.")

unfoldable pub i2c_disable_all_channels : ℕ → M (Unit {0})
unfolding i2c_wr
i2c_disable_all_channels mux_address = do
  i2c_wr mux_address 0
  modify λ s. record s { current_channel = negsuc 0 }
  say (str "\nI2C Multiplexer: All channels disabled.")
