-- ===== src/SpiMux.antt =====
-- Quadruped_Bot_Actuation_Code/src/SPI_MUX.cpp: the multiplexer of the encoders' chip selects.
pub mod Selection
use quad_bot_code_actuation.Prelude.{ℕ, ltb, str, shr, bit_and, if◌then◌else◌}
use quad_bot_code_actuation.Board.{
  digital_write, delay, delay_microseconds, M, ◌>>=◌, ◌>>◌, get, modify, call, say,
}
use quad_bot_code_actuation.Board.Pins.{strobe, cs_1, cs_2, cs_3, cs_4, inhibit, low, high}

unfoldable pub spi_cs_mux : ℕ → M (Unit {0})
spi_cs_mux new_channel =
    if ltb 15 new_channel
    then say (str "Error: Invalid channel requested! Must be between 0 and 15")
    else do
      modify λ s. record s { mux_channel = new_channel }
      channel ← get λ s. s.mux_channel
      call (digital_write cs_1 (bit_and channel 1))
      call (digital_write cs_2 (bit_and (shr channel 1) 1))
      call (digital_write cs_3 (bit_and (shr channel 2) 1))
      call (digital_write cs_4 (bit_and (shr channel 3) 1))

unfoldable pub activate_mux : ℕ → M (Unit {0})
unfolding spi_cs_mux
activate_mux channel = do
  spi_cs_mux channel
  call (digital_write strobe high)
  call (delay 10)
  call (digital_write strobe low)
  call (delay 10)
  call (digital_write inhibit low)
  call (delay_microseconds 3)

unfoldable pub deactivate_mux : M (Unit {0})
deactivate_mux = do call (digital_write inhibit high); call (delay_microseconds 3)
