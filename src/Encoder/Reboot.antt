-- ===== src/Encoder/Reboot.antt =====
-- The steps of resetEncoder of Quadruped_Bot_Actuation_Code/src/SPI_NCDR_FCT.cpp.
use quad_bot_code_actuation.Prelude.{
  ℕ, str, bit_and, shr, ◌≤◌, ◌≡◌, refl, ap, none, some, ◌∷◌, arith, get_elem?, set,
}
use quad_bot_code_actuation.Board.{
  State, Env, M, ok, fault, call, print, println, text, dec, delay, delay_microseconds,
  digital_write, begin_transaction, transfer, end_transaction, ◌◂◌, ◌>>=◌, ◌>>◌,
}
use quad_bot_code_actuation.Prelude.Int.{pos}
use quad_bot_code_actuation.SpiMux.{activate_mux, deactivate_mux}
use quad_bot_code_actuation.Board.Pins.{
  selected, exchanges, answers, cs_1, cs_2, cs_3, cs_4, strobe, inhibit, low, high,
}
use quad_bot_code_actuation.SpiMux.Selection.{four_bits}
use quad_bot_code_actuation.Encoder.{position_bits, offset_at, set_offset, spi_clock}
use quad_bot_code_actuation.Encoder.Position.{position}
use quad_bot_code_actuation.Encoder.Operations.{not_above, offset_at_known}

-- What a reset of a channel leaves, when the bytes hi and lo were the last to come back.
pub record WasReset (env : Env) (channel hi lo : ℕ) (s t : State) : Type 0 where
  pub before_first : ℕ
  pub before_last : ℕ
  pub heard : answers env t.calls ≡ lo ∷ hi ∷ before_last ∷ before_first ∷ answers env s.calls
  pub sent :
      exchanges t.calls
      ≡ (some channel, 0)
        ∷ (some channel, 0)
        ∷ (some channel, 0x60)
        ∷ (some channel, 0)
        ∷ exchanges s.calls
  pub stored : t.offsets ≡ set s.offsets channel (position hi lo)
  pub released : selected t.calls ≡ none
  pub flag : t.bms_conversion_active ≡ s.bms_conversion_active

pub set_offset_known :
    (channel v o : ℕ) (env : Env) (s : State)
    → get_elem? s.offsets channel ≡ some o
    → set_offset channel v env s ≡ ok tt (record s { offsets = set s.offsets channel v })
unfolding set_offset
set_offset_known channel v o env s e =
    ap
      (λ r. elim r [
        | ok a t ↦ ok tt (record t { offsets = set t.offsets channel v })
        | fault x ↦ fault x
      ])
      (offset_at_known channel o env s e)

-- The state after `ACTIVATE_MUX(channel)`.
abbrev pub activated : ℕ → State → State
activated channel s = record s {
  mux_channel = channel;
  calls =
      s.calls
      ◂ digital_write cs_1 (bit_and channel 1)
      ◂ digital_write cs_2 (bit_and (shr channel 1) 1)
      ◂ digital_write cs_3 (bit_and (shr channel 2) 1)
      ◂ digital_write cs_4 (bit_and (shr channel 3) 1)
      ◂ digital_write strobe high
      ◂ delay 10
      ◂ digital_write strobe low
      ◂ delay 10
      ◂ digital_write inhibit low
      ◂ delay_microseconds 3;
}

pub activate_known :
    (channel : ℕ) (env : Env) (s : State)
    → channel ≤ 15
    → activate_mux channel env s ≡ ok tt (activated channel s)
unfolding activate_mux
activate_known channel env s h = rw (not_above channel 15 h) refl

-- The state after the reboot command.
abbrev pub rebooted : ℕ → State → State
rebooted channel s = record (activated channel s) {
  calls =
      (activated channel s).calls
      ◂ delay_microseconds 3
      ◂ begin_transaction spi_clock
      ◂ transfer 0
      ◂ delay_microseconds 3
      ◂ transfer 0x60
      ◂ delay_microseconds 3
      ◂ end_transaction
      ◂ digital_write inhibit high
      ◂ delay_microseconds 3;
}

-- The reboot sends its two bytes to the encoder of the channel, and the offset is cleared after it.
abbrev pub cleared : ℕ → State → State
cleared channel s = record (rebooted channel s) { offsets = set s.offsets channel 0 }

abbrev pub waited : ℕ → State → State
waited channel s = record (cleared channel s) { calls = (rebooted channel s).calls ◂ delay 200 }

pub waited_exchanges :
    (channel : ℕ) (s : State)
    → channel ≤ 15
    → exchanges (waited channel s).calls
      ≡ (some channel, 0x60) ∷ (some channel, 0) ∷ exchanges s.calls
unfolding exchanges
waited_exchanges channel s h = ground (arith, four_bits channel)

-- The report at the end.
abbrev pub report : ℕ → M (Unit {0})
report channel = do
  call (print (text (str "Encoder on channel ")))
  call (print (dec (pos channel)))
  call (print (text (str " has been rebooted. Offset set to: ")))
  offset ← offset_at channel
  call (println (dec (pos offset)))

-- What follows the reading.
abbrev pub store : ℕ → ℕ → M (Unit {0})
store channel w = do deactivate_mux; set_offset channel (position_bits w); report channel

abbrev announced : ℕ → State → State
announced channel s = record s {
  calls =
      s.calls
      ◂ print (text (str "Encoder on channel "))
      ◂ print (dec (pos channel))
      ◂ print (text (str " has been rebooted. Offset set to: "));
}

abbrev pub reported : ℕ → ℕ → State → State
reported channel o s = record s { calls = (announced channel s).calls ◂ println (dec (pos o)) }

pub report_known :
    (channel o : ℕ) (env : Env) (s : State)
    → get_elem? s.offsets channel ≡ some o
    → report channel env s ≡ ok tt (reported channel o s)
report_known channel o env s e =
    ap
      (λ r. elim r [
        | ok a t ↦ ok tt (record t { calls = t.calls ◂ println (dec (pos a)) })
        | fault x ↦ fault x
      ])
      (offset_at_known channel o env (announced channel s) e)

-- The state after `DEACTIVATE_MUX()`.
abbrev pub deselected : State → State
deselected t = record t { calls = t.calls ◂ digital_write inhibit high ◂ delay_microseconds 3 }

abbrev pub stored : ℕ → ℕ → State → State
stored channel p t = record (deselected t) { offsets = set t.offsets channel p }
