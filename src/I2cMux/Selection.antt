-- ===== src/I2cMux/Selection.antt =====
-- The channel that I2C_MUX.cpp remembers is the one that the multiplexer has open.
use quad_bot_code_actuation.Prelude.{ℕ, ◌^◌, ◌≤◌, ◌≡◌, inl, inr, true, arith, Bool-cases}
use quad_bot_code_actuation.Prelude.Int.{ℤ, pos, negsuc, eq_ℤ}
use quad_bot_code_actuation.Board.{State, Env, wire, Ends}
use quad_bot_code_actuation.Board.Traffic.{messages, control, i2c_mux_address}
use quad_bot_code_actuation.I2cMux.{i2c_select_channel}

-- The control byte of a remembered channel.
abbrev pub control_of : ℤ → ℕ
control_of (pos c) = 2 ^ c
control_of (negsuc n) = 0

abbrev pub IsChannel : ℤ → Type 0
IsChannel (pos c) = c ≤ 7
IsChannel (negsuc n) = n ≡ 0

pub record IsInSync (s : State) : Type 0 where
  pub channel : IsChannel s.current_channel
  pub same : control (messages wire s.calls) ≡ control_of s.current_channel

eq_of_eq_ℤ : (a b : ℤ) → eq_ℤ a b ≡ true → a ≡ b
eq_of_eq_ℤ a b h = ground arith

pub select-IsInSync :
    (channel : ℕ) (env : Env) (s : State)
    → channel ≤ 7
    → IsInSync s
    → Ends
        (i2c_select_channel i2c_mux_address channel env s)
        λ _ t. IsInSync t × (t.current_channel ≡ pos channel)
unfolding i2c_select_channel messages control
select-IsInSync channel env s h i = elim (Bool-cases (eq_ℤ s.current_channel (pos channel))) [
  | inl e ↦ ground (arith, eq_of_eq_ℤ s.current_channel (pos channel))
  | inr e ↦ ground arith
]
