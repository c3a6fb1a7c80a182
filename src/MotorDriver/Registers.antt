-- ===== src/MotorDriver/Registers.antt =====
-- The motor drivers as a file of registers: what each operation writes, and that it writes nothing
-- else.
use mathlib.Core.Path.{fun_ext}
use quad_bot_code_actuation.Prelude.{
  ℕ, ◌^◌, ◌≤◌, ◌≡◌, ◌≢◌, ap, ◌∙◌, ◌&&◌, Option, some, arith, ◌==◌, if◌then◌else◌,
}
use quad_bot_code_actuation.Prelude.Int.{pos}
use quad_bot_code_actuation.Board.{
  State, Env, delay, ◌◂◌, wire, Ends, Ends_weaken, Ends_both, Ends_all,
}
use quad_bot_code_actuation.Board.Traffic.{messages, control, register, i2c_mux_address}
use quad_bot_code_actuation.I2c.{i2c_wr_register}
use quad_bot_code_actuation.I2cMux.{i2c_select_channel}
use quad_bot_code_actuation.I2cMux.Selection.{IsInSync, select-IsInSync}

-- The byte at a control byte of the multiplexer, a chip address and a register.
abbrev pub Registers : Type 0
Registers = ℕ → ℕ → ℕ → Option ℕ

unfoldable pub registers_of : State → Registers
registers_of s ctl chip reg = register ctl chip reg (messages wire s.calls)

-- Sets one register.
abbrev pub write : ℕ → ℕ → ℕ → ℕ → Registers → Registers
write ctl chip reg v f c a q = if (chip == a) && (reg == q) && (ctl == c) then some v else f c a q

-- The state after work on one channel: its registers are `f` of those before.
pub record Wrote (channel : ℕ) (f : Registers → Registers) (s t : State) : Type 0 where
  pub sync : IsInSync t
  pub selected : t.current_channel ≡ pos channel
  pub registers : registers_of t ≡ f (registers_of s)

select_registers :
    (channel : ℕ) (env : Env) (s : State) (k : ℕ × ℕ × ℕ)
    → channel ≤ 7
    → Ends
        (i2c_select_channel i2c_mux_address channel env s)
        λ _ t. registers_of t k.0 k.1 k.2 ≡ registers_of s k.0 k.1 k.2
unfolding i2c_select_channel registers_of messages register
select_registers channel env s k h = ground arith

pub select-Wrote :
    (channel : ℕ) (env : Env) (s : State)
    → channel ≤ 7
    → IsInSync s
    → Ends (i2c_select_channel i2c_mux_address channel env s) λ _ t. Wrote channel (λ f. f) s t
select-Wrote channel env s h i =
    let r = i2c_select_channel i2c_mux_address channel env s in
    Ends_weaken r _ _
      (λ _ t p. record {
        sync = p.0.0;
        selected = p.0.1;
        registers = fun_ext λ c. fun_ext λ a. fun_ext λ q. p.1 (c, a, q);
      })
      (Ends_both r _ _ (select-IsInSync channel env s h i)
        (Ends_all r _ (0, 0, 0) λ k. select_registers channel env s k h))

module _ (channel chip : ℕ) (other : chip ≢ i2c_mux_address) (s : State) where
  pub delay-Wrote :
      (ms : ℕ) (f : Registers → Registers) (t : State)
      → Wrote channel f s t
      → Wrote channel f s (record t { calls = t.calls ◂ delay ms })
  unfolding registers_of messages
  delay-Wrote ms f t w = record {
    sync = record { channel = w.sync.channel; same = w.sync.same };
    selected = w.selected;
    registers = w.registers;
  }

  write_registers :
      (reg v : ℕ) (env : Env) (t : State) (c a q : ℕ)
      → IsInSync t
      → t.current_channel ≡ pos channel
      → Ends
          (i2c_wr_register chip reg v env t)
          λ _ u. registers_of u c a q ≡ write (2 ^ channel) chip reg v (registers_of t) c a q
  unfolding i2c_wr_register registers_of messages register
  write_registers reg v env t c a q i e = ground arith

  pub write-Wrote :
      (reg v : ℕ) (env : Env) (f : Registers → Registers) (t : State)
      → Wrote channel f s t
      → Ends
          (i2c_wr_register chip reg v env t)
          λ _ u. Wrote channel (λ x. write (2 ^ channel) chip reg v (f x)) s u
  unfolding i2c_wr_register messages control
  write-Wrote reg v env f t w = record {
    sync = record { channel = w.sync.channel; same = ground (arith, w.sync.same) };
    selected = w.selected;
    registers =
        (fun_ext λ c. fun_ext λ a. fun_ext λ q. write_registers reg v env t c a q w.sync w.selected)
        ∙ ap (write (2 ^ channel) chip reg v) w.registers;
  }
