-- ===== src/I2cMux/Sequence.antt =====
-- Any sequence of operations on the I2C multiplexer.
use quad_bot_code_actuation.Prelude.{
  ℕ, ◌≤◌, ◌≡◌, refl, sym, ap, ◌∙◌, true, ltb, List, [], ◌∷◌, if◌then◌else◌, arith, Bool-cases, inl,
  inr,
}
use quad_bot_code_actuation.Prelude.Int.{ℤ, pos, negsuc}
use quad_bot_code_actuation.Board.{
  State, Env, M, Ends, Ends-bind, Ends_weaken, Ends_both, Ends_all, done, wire, ◌>>◌,
}
use quad_bot_code_actuation.Board.Traffic.{messages, control, register, i2c_mux_address}
use quad_bot_code_actuation.I2cMux.{i2c_select_channel, i2c_disable_all_channels}
use quad_bot_code_actuation.I2cMux.Selection.{IsInSync, select-IsInSync}

pub data Command : Type 0 where
  select : ℕ → Command
  disable : Command

unfoldable pub perform : Command → M (Unit {0})
perform (select c) = i2c_select_channel i2c_mux_address c
perform disable = i2c_disable_all_channels i2c_mux_address

unfoldable pub perform_all : List Command → M (Unit {0})
unfolding perform
perform_all [] = done
perform_all (c ∷ cs) = perform c >> perform_all cs

-- The channel that is open after the commands; one that does not exist changes nothing.
abbrev pub channel_after : List Command → ℤ → ℤ
channel_after [] at = at
channel_after (select c ∷ cs) at = channel_after cs (if ltb 7 c then at else pos c)
channel_after (disable ∷ cs) at = channel_after cs (negsuc 0)

pub record Switched (at : ℤ) (s t : State) : Type 0 where
  pub sync : IsInSync t
  pub channel : t.current_channel ≡ at
  pub registers :
      (ctl chip reg : ℕ)
      → register ctl chip reg (messages wire t.calls)
        ≡ register ctl chip reg (messages wire s.calls)

refused :
    (c : ℕ) (env : Env) (s : State)
    → ltb 7 c ≡ true
    → IsInSync s
    → Ends (i2c_select_channel i2c_mux_address c env s) λ _ t. Switched s.current_channel s t
unfolding i2c_select_channel messages
refused c env s h i = rw h (record {
  sync = record { channel = i.channel; same = i.same };
  channel = refl;
  registers = λ ctl chip reg. refl;
})

disable-Switched :
    (env : Env) (s : State)
    → Ends (i2c_disable_all_channels i2c_mux_address env s) λ _ t. Switched (negsuc 0) s t
unfolding i2c_disable_all_channels messages control register
disable-Switched env s = record {
  sync = record { channel = refl; same = refl };
  channel = refl;
  registers = λ ctl chip reg. refl;
}

select_register :
    (c : ℕ) (env : Env) (s : State) (k : ℕ × ℕ × ℕ)
    → c ≤ 7
    → Ends (i2c_select_channel i2c_mux_address c env s) λ _ t.
      register k.0 k.1 k.2 (messages wire t.calls) ≡ register k.0 k.1 k.2 (messages wire s.calls)
unfolding i2c_select_channel messages register
select_register c env s k h = ground arith

select-Switched :
    (c : ℕ) (env : Env) (s : State)
    → c ≤ 7
    → IsInSync s
    → Ends (i2c_select_channel i2c_mux_address c env s) λ _ t. Switched (pos c) s t
select-Switched c env s h i =
    let r = i2c_select_channel i2c_mux_address c env s in
    Ends_weaken r _ _
      (λ _ t p. record {
        sync = p.0.0;
        channel = p.0.1;
        registers = λ ctl chip reg. p.1 (ctl, chip, reg);
      })
      (Ends_both r _ _ (select-IsInSync c env s h i)
        (Ends_all r _ (0, 0, 0) λ k. select_register c env s k h))

perform-Switched :
    (c : Command) (env : Env) (s : State)
    → IsInSync s
    → Ends (perform c env s) λ _ t. Switched (channel_after (c ∷ []) s.current_channel) s t
unfolding perform
perform-Switched disable env s i = disable-Switched env s
perform-Switched (select c) env s i = elim (Bool-cases (ltb 7 c)) [
  | inl e ↦ rw e (refused c env s e i)
  | inr e ↦ rw e (select-Switched c env s (ground (arith, e)) i)
]

channel_after-cons :
    (c : Command) (cs : List Command) (at : ℤ)
    → channel_after (c ∷ cs) at ≡ channel_after cs (channel_after (c ∷ []) at)
channel_after-cons (select c) cs at = refl
channel_after-cons disable cs at = refl

-- Any sequence of selections, of channels that exist or not, and of disabling all channels returns, when
-- the remembered channel and the multiplexer are in step before it. It keeps them in step, at the channel
-- that was last selected and exists, or none after disabling, and leaves the registers of all chips.
pub perform_all-Switched :
    (cs : List Command) (env : Env) (s : State)
    → IsInSync s
    → Ends (perform_all cs env s) λ _ t. Switched (channel_after cs s.current_channel) s t
unfolding perform_all
perform_all-Switched [] env s i = record {
  sync = i;
  channel = refl;
  registers = λ ctl chip reg. refl;
}
perform_all-Switched (c ∷ cs) env s i =
    Ends-bind (perform c) (λ _. perform_all cs) _ _ env s (perform-Switched c env s i)
      λ _ t w.
        Ends_weaken (perform_all cs env t) _ _
          (λ _ u v. record {
            sync = v.sync;
            channel =
                v.channel
                ∙ ap (channel_after cs) w.channel
                ∙ sym (channel_after-cons c cs s.current_channel);
            registers = λ ctl chip reg. v.registers ctl chip reg ∙ w.registers ctl chip reg;
          })
          (perform_all-Switched cs env t w.sync)
