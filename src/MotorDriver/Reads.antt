-- ===== src/MotorDriver/Reads.antt =====
-- What is read from a motor driver: the limit triggers and the current.
use quad_bot_code_actuation.Prelude.{
  ℕ, zero, suc, ◌/◌, ◌%◌, ◌^◌, ◌≤◌, ◌<◌, ◌≡◌, ◌≢◌, refl, sym, subst, ap, ◌∙◌, true, false, ◌==◌,
  ==_iff, List, [], ◌∷◌, arith, u8, shr, bit_and, all_below, all_below_at,
}
use quad_bot_code_actuation.Board.{
  State, Env, M, History, wire, begin_transmission, wire_write, end_transmission, request_from,
  wire_available, wire_read, ◌◂◌, Ends, Ends-bind, ◌>>=◌, pure, ask,
}
use quad_bot_code_actuation.Board.Traffic.{
  messages, message, Message, control, register, i2c_mux_address,
}
use quad_bot_code_actuation.I2c.{i2c_rd_register, wait_available}
use quad_bot_code_actuation.I2c.Waiting.{ready_within, polled, wait_available_ready}
use quad_bot_code_actuation.I2cMux.{i2c_select_channel}
use quad_bot_code_actuation.I2cMux.Selection.{IsInSync, control_of}
use quad_bot_code_actuation.MotorDriver.{read_limit_triggers, read_current_estimate, to_amperes}
use quad_bot_code_actuation.MotorDriver.Registers.{registers_of, Wrote, select-Wrote}

-- The byte v was read by the last call, when the last message on the bus was the register's number, to
-- the chip, with the multiplexer at the channel; no register has changed.
pub record Fetched (env : Env) (channel chip reg v : ℕ) (s t : State) : Type 0 where
  pub past : History
  pub value : v ≡ env (past ◂ wire_read wire) % 256
  pub last : t.calls ≡ past ◂ wire_read wire
  pub before : List Message
  pub asked : messages wire past ≡ message chip (reg ∷ []) ∷ before
  pub through : control before ≡ 2 ^ channel
  pub wrote : Wrote channel (λ x. x) s t

-- The state when `I2C_RD` starts to wait.
abbrev requested : ℕ → ℕ → State → State
requested chip reg s = record s {
  calls =
      s.calls
      ◂ begin_transmission wire chip
      ◂ wire_write wire reg
      ◂ end_transmission wire false
      ◂ request_from wire chip 1;
}

messages-polled : (k : ℕ) (past : History) → messages wire (polled k wire past) ≡ messages wire past
unfolding messages
messages-polled zero past = refl
messages-polled (suc k) past = messages-polled k (past ◂ wire_available wire)

abbrev finished : ℕ → State → State
finished k s = record s { calls = polled k wire s.calls ◂ wire_read wire }

messages-requested :
    (chip reg : ℕ) (s : State)
    → messages wire (requested chip reg s).calls ≡ message chip (reg ∷ []) ∷ messages wire s.calls
unfolding messages
messages-requested chip reg s = refl

finished-Wrote :
    (channel chip reg k : ℕ) (s t : State)
    → chip ≢ i2c_mux_address
    → Wrote channel (λ x. x) s t
    → Wrote channel (λ x. x) s (finished k (requested chip reg t))
unfolding messages registers_of register control
finished-Wrote channel chip reg k s t n w =
    let seen = messages-polled k (requested chip reg t).calls ∙ messages-requested chip reg t in
    record {
      sync = record {
        channel = w.sync.channel;
        same = ap control seen ∙ ground (arith, w.sync.same);
      };
      selected = w.selected;
      registers = ap (λ m c a q. register c a q m) seen ∙ w.registers;
    }

top_table : all_below 256 (λ v. shr (bit_and v 0b1111_1000) 3 == v / 8) ≡ true
top_table = refl

top_bits : (v : ℕ) → v < 256 → shr (bit_and v 0b1111_1000) 3 ≡ v / 8
top_bits v h =
    (==_iff (shr (bit_and v 0b1111_1000) 3) (v / 8)).0
      (all_below_at 256 (λ n. shr (bit_and n 0b1111_1000) 3 == n / 8) v top_table h)

low_table : all_below 256 (λ v. bit_and 0b1111 v == v % 16) ≡ true
low_table = refl

low_bits : (v : ℕ) → v < 256 → bit_and 0b1111 v ≡ v % 16
low_bits v h =
    (==_iff (bit_and 0b1111 v) (v % 16)).0
      (all_below_at 256 (λ n. bit_and 0b1111 n == n % 16) v low_table h)

abbrev fetch : M ℕ
fetch = do v ← ask (wire_read wire); pure (u8 v)

module _ (polls channel chip : ℕ) (env : Env) (s : State) (valid : channel ≤ 7)
    (other : chip ≢ i2c_mux_address) (sync : IsInSync s)
    (ready : (past : History) → ready_within polls env wire past ≡ true) where
  read-Fetched :
      (reg : ℕ) (t : State)
      → Wrote channel (λ x. x) s t
      → Ends (i2c_rd_register polls chip reg env t) λ v u. Fetched env channel chip reg v s u
  unfolding i2c_rd_register
  read-Fetched reg t w =
      let r = requested chip reg t in
      Ends-bind (wait_available polls wire) (λ _. fetch) _ _ env r
        (wait_available_ready polls wire env r (ready r.calls))
        λ _ u (k, q).
          subst (λ x. Ends (fetch env x) λ v y. Fetched env channel chip reg v s y) (sym q)
            (record {
              past = polled k wire r.calls;
              value = refl;
              last = refl;
              before = messages wire t.calls;
              asked = messages-polled k r.calls ∙ messages-requested chip reg t;
              through = w.sync.same ∙ ap control_of w.selected;
              wrote = finished-Wrote channel chip reg k s t other w;
            })

  -- On a channel up to 7, for a chip that is not the multiplexer, with the remembered channel and the
  -- multiplexer in step and data found within the polls wherever they start: the reading of the limit
  -- triggers returns the low four bits of the byte that came when register 0 of the chip was asked for
  -- through the channel, and no register has changed.
  pub read_limit_triggers-Fetched :
      Ends
        (read_limit_triggers polls channel chip env s)
        λ v t. (byte : ℕ) × Fetched env channel chip 0x00 byte s t × (v ≡ byte % 16)
  unfolding read_limit_triggers
  read_limit_triggers-Fetched =
      Ends-bind (i2c_select_channel i2c_mux_address channel)
        (λ _. do v ← i2c_rd_register polls chip 0x00; pure (bit_and 0b1111 v)) _ _ env s
        (select-Wrote channel env s valid sync)
        λ _ t w.
          Ends-bind (i2c_rd_register polls chip 0x00) (λ v. pure (bit_and 0b1111 v)) _ _ env t
            (read-Fetched 0x00 t w) λ v u f. (v, f, low_bits v (omega (arith, f.value)))

  -- On a channel up to 7, for a chip that is not the multiplexer, with the remembered channel and the
  -- multiplexer in step and data found within the polls wherever they start: the reading of the current
  -- returns the scaled value of the top five bits of the byte that came when register 1 of the chip was
  -- asked for through the channel, and no register has changed.
  pub read_current_estimate-Fetched : Ends (read_current_estimate polls channel chip env s) λ d t.
      (byte : ℕ) × Fetched env channel chip 0x01 byte s t
      × (d ≡ to_amperes (byte / 8))
      × (byte / 8 < 32)
  unfolding read_current_estimate
  read_current_estimate-Fetched =
      Ends-bind (i2c_select_channel i2c_mux_address channel)
        (λ _. do
          v ← i2c_rd_register polls chip 0x01
          pure (to_amperes (shr (bit_and v 0b1111_1000) 3)))
        _ _ env s (select-Wrote channel env s valid sync)
        λ _ t w.
          Ends-bind (i2c_rd_register polls chip 0x01)
            (λ v. pure (to_amperes (shr (bit_and v 0b1111_1000) 3))) _ _ env t
            (read-Fetched 0x01 t w)
            λ v u f.
              let small : v < 256 = omega (arith, f.value) in
              (v, f, ap to_amperes (top_bits v small), omega arith)
