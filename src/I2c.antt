-- ===== src/I2c.antt =====
-- Quadruped_Bot_Actuation_Code/src/I2C_FCT.cpp: bytes and registers of devices on the two I2C buses.
pub mod Waiting
pub mod Reading
mod Tests
use quad_bot_code_actuation.Prelude.{ℕ, zero, suc, true, false, ◌==◌, u8}
use quad_bot_code_actuation.Board.{
  Bus, wire, wire1, begin_transmission, wire_write, end_transmission, request_from, wire_available,
  wire_read, hangs, M, pure, fail, ◌>>=◌, ◌>>◌, done, call, ask,
}

-- `while (!Wire.available()) {}`, given up after `polls` polls.
unfoldable pub wait_available : ℕ → Bus → M (Unit {0})
wait_available zero b = fail hangs
wait_available (suc polls) b = do
  n ← ask (wire_available b)
  elim (n == 0) [ true ↦ wait_available polls b | false ↦ done ]

unfoldable pub i2c_wr : ℕ → ℕ → M (Unit {0})
i2c_wr chip value = do
  call (begin_transmission wire chip)
  call (wire_write wire value)
  call (end_transmission wire true)

unfoldable pub i2c_wr_register : ℕ → ℕ → ℕ → M (Unit {0})
i2c_wr_register chip reg value = do
  call (begin_transmission wire chip)
  call (wire_write wire reg)
  call (wire_write wire value)
  call (end_transmission wire true)

unfoldable pub i2c_rd : ℕ → ℕ → M ℕ
unfolding wait_available
i2c_rd polls chip = do
  call (begin_transmission wire chip)
  call (end_transmission wire false)
  call (request_from wire chip 1)
  wait_available polls wire
  v ← ask (wire_read wire)
  pure (u8 v)

unfoldable pub i2c_rd_register : ℕ → ℕ → ℕ → M ℕ
unfolding wait_available
i2c_rd_register polls chip reg = do
  call (begin_transmission wire chip)
  call (wire_write wire reg)
  call (end_transmission wire false)
  call (request_from wire chip 1)
  wait_available polls wire
  v ← ask (wire_read wire)
  pure (u8 v)

unfoldable pub i2c_wr1 : ℕ → ℕ → M (Unit {0})
i2c_wr1 chip value = do
  call (begin_transmission wire1 chip)
  call (wire_write wire1 value)
  call (end_transmission wire1 true)

unfoldable pub i2c_wr1_register : ℕ → ℕ → ℕ → M (Unit {0})
i2c_wr1_register chip reg value = do
  call (begin_transmission wire1 chip)
  call (wire_write wire1 reg)
  call (wire_write wire1 value)
  call (end_transmission wire1 true)

unfoldable pub i2c_rd1 : ℕ → ℕ → M ℕ
unfolding wait_available
i2c_rd1 polls chip = do
  call (begin_transmission wire1 chip)
  call (end_transmission wire1 false)
  call (request_from wire1 chip 1)
  wait_available polls wire1
  v ← ask (wire_read wire1)
  pure (u8 v)

unfoldable pub i2c_rd1_register : ℕ → ℕ → ℕ → M ℕ
unfolding wait_available
i2c_rd1_register polls chip reg = do
  call (begin_transmission wire1 chip)
  call (wire_write wire1 reg)
  call (end_transmission wire1 false)
  call (request_from wire1 chip 1)
  wait_available polls wire1
  v ← ask (wire_read wire1)
  pure (u8 v)
