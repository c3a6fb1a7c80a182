-- ===== src/Encoder.antt =====
-- Quadruped_Bot_Actuation_Code/src/SPI_NCDR_FCT.cpp: sixteen rotary encoders on the SPI bus.
pub mod Position
pub mod Operations
pub mod Turns
pub mod Reboot
pub mod Reset
pub mod Offsets
pub mod Frames
mod Tests
use quad_bot_code_actuation.Prelude.{
  ℕ, ◌+◌, ◌-◌, ◌^◌, none, some, str, bit_and, bit_or, shr, shl, u8, u16, leb, get_elem?, set,
  if◌then◌else◌,
}
use quad_bot_code_actuation.Prelude.Int.{pos}
use quad_bot_code_actuation.Float.{Float, binary64, literal, of_int, mul, div, narrow}
use quad_bot_code_actuation.Board.{
  delay, delay_microseconds, begin_transaction, transfer, end_transaction, print, println, text,
  dec, out_of_bounds, M, pure, fail, ◌>>=◌, ◌>>◌, modify, call, ask,
}
use quad_bot_code_actuation.SpiMux.{activate_mux, deactivate_mux}

abbrev spi_clock : ℕ
spi_clock = 100000

-- `offsets[channel]`, which is undefined outside the array.
unfoldable pub offset_at : ℕ → M ℕ
offset_at channel env s = elim (get_elem? s.offsets channel) [
  | none ↦ fail out_of_bounds env s
  | some v ↦ pure v env s
]

unfoldable pub set_offset : ℕ → ℕ → M (Unit {0})
unfolding offset_at
set_offset channel v = do
  old ← offset_at channel
  modify λ s. record s { offsets = set s.offsets channel v }

-- The middle twelve of sixteen bits.
abbrev pub position_bits : ℕ → ℕ
position_bits w = bit_and (shr w 2) 0x0fff

-- Sends two zero bytes and reads sixteen bits.
unfoldable pub read_raw : ℕ → M ℕ
unfolding activate_mux deactivate_mux
read_raw channel = do
  activate_mux channel
  call (delay_microseconds 3)
  call (begin_transaction spi_clock)
  hi ← ask (transfer 0)
  call (delay_microseconds 3)
  lo ← ask (transfer 0)
  call (delay_microseconds 3)
  call end_transaction
  pure (bit_or (u16 (shl (u8 hi) 8)) (u8 lo))

-- The position against the offset of the channel, both 12-bit.
unfoldable pub relative : ℕ → ℕ → ℕ
relative position offset =
    if leb offset position then position - offset else u16 (4096 + position + 2 ^ 16 - offset)

-- `(position * 360.0) / 4096.0`
unfoldable pub to_degrees : ℕ → Float
unfolding mul div narrow
to_degrees position = narrow (
    div binary64 (mul binary64 (of_int binary64 (pos position)) (literal binary64 360 1))
      (literal binary64 4096 1))

unfoldable pub read_encoder_position : ℕ → M Float
unfolding read_raw relative to_degrees offset_at
read_encoder_position channel = do
  w ← read_raw channel
  call (delay_microseconds 3)
  deactivate_mux
  offset ← offset_at channel
  pure (to_degrees (relative (position_bits w) offset))

unfoldable pub read_turns : ℕ → M ℕ
unfolding activate_mux deactivate_mux
read_turns channel = do
  activate_mux channel
  call (delay_microseconds 3)
  call (begin_transaction spi_clock)
  _ ← ask (transfer 0)
  call (delay_microseconds 3)
  _ ← ask (transfer 0xa0)
  call (delay_microseconds 40)
  hi ← ask (transfer 0)
  call (delay_microseconds 3)
  lo ← ask (transfer 0)
  call (delay_microseconds 3)
  call end_transaction
  deactivate_mux
  pure (position_bits (bit_or (u16 (shl (u8 hi) 8)) (u8 lo)))

unfoldable pub reset_encoder : ℕ → M (Unit {0})
unfolding read_raw set_offset
reset_encoder channel = do
  activate_mux channel
  call (delay_microseconds 3)
  call (begin_transaction spi_clock)
  _ ← ask (transfer 0)
  call (delay_microseconds 3)
  _ ← ask (transfer 0x60)
  call (delay_microseconds 3)
  call end_transaction
  deactivate_mux
  set_offset channel 0
  call (delay 200)
  w ← read_raw channel
  deactivate_mux
  set_offset channel (position_bits w)
  call (print (text (str "Encoder on channel ")))
  call (print (dec (pos channel)))
  call (print (text (str " has been rebooted. Offset set to: ")))
  offset ← offset_at channel
  call (println (dec (pos offset)))
