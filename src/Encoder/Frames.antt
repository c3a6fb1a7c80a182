-- ===== src/Encoder/Frames.antt =====
-- The encoders use the select pins, the SPI bus, the offsets and the selected channel, and nothing
-- else.
use quad_bot_code_actuation.Prelude.{arith, ℕ, refl}
use quad_bot_code_actuation.Prelude.{str}
use quad_bot_code_actuation.Prelude.Int.{pos}
use quad_bot_code_actuation.Board.{
  M, call, ask, delay, delay_microseconds, print, println, text, dec, begin_transaction, transfer,
  end_transaction, ◌>>=◌, ◌>>◌,
}
use quad_bot_code_actuation.Board.Frames.{encoders, same, more, Keeps, ◌⨾◌, Keeps-pure, Keeps-call}
use quad_bot_code_actuation.SpiMux.{activate_mux, deactivate_mux}
use quad_bot_code_actuation.Encoder.{
  offset_at, set_offset, position_bits, read_raw, relative, to_degrees, read_encoder_position,
  read_turns, reset_encoder,
}

activate_mux-Keeps : (channel : ℕ) → Keeps encoders (activate_mux channel)
unfolding activate_mux
activate_mux-Keeps channel = record {
  run = λ env s. grind (arith, more, same);
  local = λ env s v. ground arith;
}

read_raw-Keeps : (channel : ℕ) → Keeps encoders (read_raw channel)
unfolding read_raw
read_raw-Keeps channel = activate_mux-Keeps channel ⨾ λ _. record {
  run = λ env s. record { calls = search (more, same) depth 25; kept = refl };
  local = λ env s v. refl;
}

offset_at-Keeps : (channel : ℕ) → Keeps encoders (offset_at channel)
unfolding offset_at
offset_at-Keeps channel = record {
  run = λ env s. grind (arith, same);
  local = λ env s v. ground arith;
}

set_offset-Keeps : (channel v : ℕ) → Keeps encoders (set_offset channel v)
unfolding set_offset
set_offset-Keeps channel v = record {
  run = λ env s. grind (arith, same);
  local = λ env s v. ground arith;
}

pub read_turns-Keeps : (channel : ℕ) → Keeps encoders (read_turns channel)
unfolding read_turns
read_turns-Keeps channel = activate_mux-Keeps channel ⨾ λ _. record {
  run = λ env s. record { calls = search (more, same) depth 25; kept = refl };
  local = λ env s v. refl;
}

deactivate_mux-Keeps : Keeps encoders deactivate_mux
unfolding deactivate_mux
deactivate_mux-Keeps = record {
  run = λ env s. record { calls = search (more, same); kept = refl };
  local = λ env s v. refl;
}

wait_inactive : Keeps encoders (call (delay_microseconds 3) >> deactivate_mux)
unfolding deactivate_mux
wait_inactive = record {
  run = λ env s. record { calls = search (more, same); kept = refl };
  local = λ env s v. refl;
}

abbrev announce : ℕ → M (Unit {0})
announce channel = do
  call (print (text (str "Encoder on channel ")))
  call (print (dec (pos channel)))
  call (print (text (str " has been rebooted. Offset set to: ")))

announce-Keeps : (channel : ℕ) → Keeps encoders (announce channel)
announce-Keeps channel = record {
  run = λ env s. record { calls = search (more, same); kept = refl };
  local = λ env s v. refl;
}

abbrev rebooting : M (Unit {0})
rebooting = do
  call (delay_microseconds 3)
  call (begin_transaction 100000)
  _ ← ask (transfer 0)
  call (delay_microseconds 3)
  _ ← ask (transfer 0x60)
  call (delay_microseconds 3)
  call end_transaction
  deactivate_mux

pub read_encoder_position-Keeps : (channel : ℕ) → Keeps encoders (read_encoder_position channel)
unfolding read_encoder_position
read_encoder_position-Keeps channel = read_raw-Keeps channel ⨾ λ w. wait_inactive ⨾ λ _.
    offset_at-Keeps channel ⨾ λ o. Keeps-pure (to_degrees (relative (position_bits w) o))

reboot-Keeps : (channel : ℕ) → Keeps encoders (rebooting)
unfolding deactivate_mux
reboot-Keeps channel = record {
  run = λ env s. record { calls = search (more, same) depth 25; kept = refl };
  local = λ env s v. refl;
}

pub reset_encoder-Keeps : (channel : ℕ) → Keeps encoders (reset_encoder channel)
unfolding reset_encoder
reset_encoder-Keeps channel = activate_mux-Keeps channel ⨾ λ _. reboot-Keeps channel ⨾ λ _.
    set_offset-Keeps channel 0 ⨾ λ _. Keeps-call (delay 200) refl ⨾ λ _.
    read_raw-Keeps channel ⨾ λ w. deactivate_mux-Keeps ⨾ λ _.
    set_offset-Keeps channel (position_bits w) ⨾ λ _. announce-Keeps channel ⨾ λ _.
    offset_at-Keeps channel ⨾ λ offset. Keeps-call (println (dec (pos offset))) refl
