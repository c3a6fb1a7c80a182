-- ===== src/MotorDriver/Commands.antt =====
-- Any sequence of motor operations against the register file.
use quad_bot_code_actuation.Prelude.{
  ℕ, ◌-◌, ◌^◌, ◌≤◌, ◌≡◌, ◌≢◌, ◌∙◌, ap, refl, Bool, List, [], ◌∷◌, if◌then◌else◌,
}
use quad_bot_code_actuation.Board.{State, Env, M, ◌>>◌, done, Ends, Ends-bind, Ends_weaken}
use quad_bot_code_actuation.Board.Traffic.{i2c_mux_address}
use quad_bot_code_actuation.I2cMux.Selection.{IsInSync}
use quad_bot_code_actuation.MotorDriver.{
  motor_driver_init, motor_driver_reg_control, variable_motion_control, set_motion_control,
  default_motion_control, motor_driver_stop, drive_value,
}
use quad_bot_code_actuation.MotorDriver.Registers.{Registers, registers_of, write, Wrote}
use quad_bot_code_actuation.MotorDriver.Operations.{
  motor_driver_init-Wrote, motor_driver_reg_control-Wrote, variable_motion_control-Wrote,
  set_motion_control-Wrote, default_motion_control-Wrote, motor_driver_stop-Wrote,
}

-- The operations that write.
pub data Command : Type 0 where
  init stop : Command
  regulate : Bool → Command
  variable_move default_move : ℕ → Bool → Command
  set_speeds : ℕ → ℕ → Command

pub record Request : Type 0 where
  pub channel : ℕ
  pub chip : ℕ
  pub command : Command

-- The channel exists, and the chip is not the multiplexer itself.
pub record IsValid (r : Request) : Type 0 where
  pub channel : r.channel ≤ 7
  pub chip : r.chip ≢ i2c_mux_address

unfoldable pub perform : Command → ℕ → ℕ → M (Unit {0})
perform init channel chip = motor_driver_init channel chip
perform stop channel chip = motor_driver_stop channel chip
perform (regulate b) channel chip = motor_driver_reg_control channel chip b
perform (variable_move speed d) channel chip = variable_motion_control channel chip speed d
perform (default_move level d) channel chip = default_motion_control channel chip level d
perform (set_speeds one two) channel chip = set_motion_control channel chip one two

-- What a command sets, by the register map of the LP3943: 2 and 4 prescalers, 3 and 5 duty cycles,
-- 7 and 8 output selectors.
abbrev pub effect : Command → (ℕ → ℕ → Registers → Registers) → Registers → Registers
effect init set x = set 0x07 0x55 (set 0x04 0x00 (set 0x03 0x80 (set 0x02 0x00 x)))
effect stop set x = set 0x07 0x55 x
effect (regulate b) set x = set 0x08 (if b then 0x05 else 0x00) (if b then set 0x08 0x15 x else x)
effect (variable_move speed d) set x =
    set 0x07 (if d then 0xc4 else 0xd1) (set 0x05 (255 - speed) x)
effect (default_move level d) set x = set 0x07 (drive_value level d) x
effect (set_speeds one two) set x = set 0x05 (255 - two) (set 0x03 (255 - one) x)

abbrev pub effect_of : Request → Registers → Registers
effect_of r = effect r.command (write (2 ^ r.channel) r.chip)

perform-Wrote :
    (r : Request) (env : Env) (s : State)
    → IsValid r
    → IsInSync s
    → Ends (perform r.command r.channel r.chip env s) λ _ t. Wrote r.channel (effect_of r) s t
unfolding perform
perform-Wrote r env s v i = go r.command
  where
    go :
        (c : Command)
        → Ends
            (perform c r.channel r.chip env s)
            λ _ t. Wrote r.channel (effect c (write (2 ^ r.channel) r.chip)) s t
    go init = motor_driver_init-Wrote r.channel r.chip env s v.channel v.chip i
    go stop = motor_driver_stop-Wrote r.channel r.chip env s v.channel v.chip i
    go (regulate b) = motor_driver_reg_control-Wrote r.channel r.chip env s v.channel v.chip i b
    go (variable_move speed d) =
        variable_motion_control-Wrote r.channel r.chip env s v.channel v.chip i speed d
    go (default_move level d) =
        default_motion_control-Wrote r.channel r.chip env s v.channel v.chip i level d
    go (set_speeds one two) =
        set_motion_control-Wrote r.channel r.chip env s v.channel v.chip i one two

unfoldable pub perform_all : List Request → M (Unit {0})
unfolding perform
perform_all [] = done
perform_all (r ∷ rs) = perform r.command r.channel r.chip >> perform_all rs

abbrev pub effects : List Request → Registers → Registers
effects [] x = x
effects (r ∷ rs) x = effects rs (effect_of r x)

abbrev pub AllValid : List Request → Type 0
AllValid [] = Unit
AllValid (r ∷ rs) = IsValid r × AllValid rs

-- Any sequence of valid requests returns, keeps the remembered channel and the multiplexer in step,
-- and leaves the registers of all chips on all channels as the register file has them: each request
-- sets its own registers and no others.
pub perform_all-effects :
    (rs : List Request) (env : Env) (s : State)
    → AllValid rs
    → IsInSync s
    → Ends (perform_all rs env s) λ _ t. IsInSync t × (registers_of t ≡ effects rs (registers_of s))
unfolding perform_all
perform_all-effects [] env s v i = (i, refl)
perform_all-effects (r ∷ rs) env s v i =
    Ends-bind (perform r.command r.channel r.chip) (λ _. perform_all rs) _ _ env s
      (perform-Wrote r env s v.0 i)
      λ _ t w.
        Ends_weaken (perform_all rs env t) _ _ (λ _ u p. (p.0, p.1 ∙ ap (effects rs) w.registers))
          (perform_all-effects rs env t v.1 w.sync)
