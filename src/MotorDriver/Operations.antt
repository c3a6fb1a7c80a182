-- ===== src/MotorDriver/Operations.antt =====
-- What each operation of MotorDriver_LP3943.cpp writes, for the channels that the multiplexer has.
use quad_bot_code_actuation.Prelude.{
  ℕ, ◌-◌, ◌^◌, ◌≤◌, ◌≢◌, Bool, true, false, List, [], ◌∷◌, if◌then◌else◌,
}
use quad_bot_code_actuation.Board.{State, Env, M, ◌>>◌, Ends, Ends-bind, delay, call}
use quad_bot_code_actuation.Board.Traffic.{i2c_mux_address}
use quad_bot_code_actuation.I2c.{i2c_wr_register}
use quad_bot_code_actuation.I2cMux.{i2c_select_channel}
use quad_bot_code_actuation.I2cMux.Selection.{IsInSync}
use quad_bot_code_actuation.MotorDriver.{
  motor_driver_init, motor_driver_reg_control, variable_motion_control, set_motion_control,
  default_motion_control, motor_driver_stop, drive_value, write_all, init_registers, init_values,
}
use quad_bot_code_actuation.MotorDriver.Registers.{
  Registers, write, Wrote, select-Wrote, delay-Wrote, write-Wrote,
}

-- The registers after the writes of `write_all`.
abbrev write_each : ℕ → ℕ → List ℕ → List ℕ → Registers → Registers
write_each channel chip [] vs x = x
write_each channel chip (r ∷ rs) [] x = x
write_each channel chip (r ∷ rs) (v ∷ vs) x =
    write_each channel chip rs vs (write (2 ^ channel) chip r v x)

module _ (channel chip : ℕ) (env : Env) (s : State) (valid : channel ≤ 7)
    (other : chip ≢ i2c_mux_address) (sync : IsInSync s) where
  -- Selects the channel and goes on.
  after_select :
      (k : M (Unit {0})) (f : Registers → Registers)
      → ((t : State) → Wrote channel (λ x. x) s t → Ends (k env t) (λ _ u. Wrote channel f s u))
      → Ends ((i2c_select_channel i2c_mux_address channel >> k) env s) (λ _ u. Wrote channel f s u)
  after_select k f next =
      Ends-bind (i2c_select_channel i2c_mux_address channel) (λ _. k) _ _ env s
        (select-Wrote channel env s valid sync) (λ _. next)

  -- Writes a register and goes on.
  after_write :
      (reg v : ℕ) (k : M (Unit {0})) (f g : Registers → Registers) (t : State)
      → Wrote channel f s t
      → ((u : State)
          → Wrote channel (λ x. write (2 ^ channel) chip reg v (f x)) s u
          → Ends (k env u) (λ _ z. Wrote channel g s z))
      → Ends ((i2c_wr_register chip reg v >> k) env t) (λ _ z. Wrote channel g s z)
  after_write reg v k f g t w next =
      Ends-bind (i2c_wr_register chip reg v) (λ _. k) _ _ env t
        (write-Wrote channel chip other s reg v env f t w) (λ _. next)

  -- A move at a variable speed sets PWM1 to the complement of the speed and the drive register to
  -- its direction code, on the selected channel's chip, and no other register of any chip.
  pub variable_motion_control-Wrote :
      (speed : ℕ) (direction : Bool)
      → Ends (variable_motion_control channel chip speed direction env s) λ _ t.
        Wrote channel
          (λ x.
            write
              (2 ^ channel)
              chip
              0x07
              (if direction then 0xc4 else 0xd1)
              (write (2 ^ channel) chip 0x05 (255 - speed) x))
          s
          t
  unfolding variable_motion_control
  variable_motion_control-Wrote speed true =
      after_select (i2c_wr_register chip 0x05 (255 - speed) >> i2c_wr_register chip 0x07 0xc4) _
        λ t w.
          after_write 0x05 (255 - speed) (i2c_wr_register chip 0x07 0xc4) _ _ t w
            λ u v. write-Wrote channel chip other s 0x07 0xc4 env _ u v
  variable_motion_control-Wrote speed false =
      after_select (i2c_wr_register chip 0x05 (255 - speed) >> i2c_wr_register chip 0x07 0xd1) _
        λ t w.
          after_write 0x05 (255 - speed) (i2c_wr_register chip 0x07 0xd1) _ _ t w
            λ u v. write-Wrote channel chip other s 0x07 0xd1 env _ u v

  pub set_motion_control-Wrote :
      (speed_one speed_two : ℕ)
      → Ends (set_motion_control channel chip speed_one speed_two env s) λ _ t.
        Wrote channel
          (λ x.
            write
              (2 ^ channel)
              chip
              0x05
              (255 - speed_two)
              (write (2 ^ channel) chip 0x03 (255 - speed_one) x))
          s
          t
  unfolding set_motion_control
  set_motion_control-Wrote speed_one speed_two =
      after_select
        (i2c_wr_register chip 0x03 (255 - speed_one) >> i2c_wr_register chip 0x05 (255 - speed_two))
        _
        λ t w.
          after_write 0x03 (255 - speed_one) (i2c_wr_register chip 0x05 (255 - speed_two)) _ _ t w
            λ u v. write-Wrote channel chip other s 0x05 (255 - speed_two) env _ u v

  pub default_motion_control-Wrote :
      (level : ℕ) (direction : Bool)
      → Ends
          (default_motion_control channel chip level direction env s)
          λ _ t. Wrote channel (write (2 ^ channel) chip 0x07 (drive_value level direction)) s t
  unfolding default_motion_control
  default_motion_control-Wrote level direction =
      after_select (i2c_wr_register chip 0x07 (drive_value level direction)) _
        λ t w. write-Wrote channel chip other s 0x07 (drive_value level direction) env _ t w

  pub motor_driver_stop-Wrote :
      Ends
        (motor_driver_stop channel chip env s)
        λ _ t. Wrote channel (write (2 ^ channel) chip 0x07 0x55) s t
  unfolding motor_driver_stop
  motor_driver_stop-Wrote =
      after_select (i2c_wr_register chip 0x07 0x55) _
        λ t w. write-Wrote channel chip other s 0x07 0x55 env _ t w

  pub motor_driver_reg_control-Wrote :
      (enable : Bool)
      → Ends (motor_driver_reg_control channel chip enable env s) λ _ t.
        Wrote channel
          (λ x.
            write
              (2 ^ channel)
              chip
              0x08
              (if enable then 0x05 else 0x00)
              (if enable then write (2 ^ channel) chip 0x08 0x15 x else x))
          s
          t
  unfolding motor_driver_reg_control
  motor_driver_reg_control-Wrote true =
      after_select (i2c_wr_register chip 0x08 0x15 >> i2c_wr_register chip 0x08 0x05) _ λ t w.
        after_write 0x08 0x15 (i2c_wr_register chip 0x08 0x05) _ _ t w
          λ u v. write-Wrote channel chip other s 0x08 0x05 env _ u v
  motor_driver_reg_control-Wrote false =
      after_select (i2c_wr_register chip 0x08 0x00) _
        λ t w. write-Wrote channel chip other s 0x08 0x00 env _ t w

  write_all-Wrote :
      (rs vs : List ℕ) (f : Registers → Registers) (t : State)
      → Wrote channel f s t
      → Ends
          (write_all chip rs vs env t)
          λ _ u. Wrote channel (λ x. write_each channel chip rs vs (f x)) s u
  unfolding write_all
  write_all-Wrote [] vs f t w = w
  write_all-Wrote (r ∷ rs) [] f t w = w
  write_all-Wrote (r ∷ rs) (v ∷ vs) f t w =
      after_write r v (call (delay 2) >> write_all chip rs vs) f _ t w λ u x.
        write_all-Wrote rs vs (λ y. write (2 ^ channel) chip r v (f y)) _
          (delay-Wrote channel chip other s 2 _ u x)

  pub motor_driver_init-Wrote : Ends (motor_driver_init channel chip env s) λ _ t.
      Wrote channel
        (λ x. write (2 ^ channel) chip 0x07 0x55 (
          write
            (2 ^ channel)
            chip
            0x04
            0x00
            (write (2 ^ channel) chip 0x03 0x80 (write (2 ^ channel) chip 0x02 0x00 x))))
        s
        t
  unfolding motor_driver_init
  motor_driver_init-Wrote =
      after_select (write_all chip init_registers init_values) _
        λ t w. write_all-Wrote init_registers init_values (λ x. x) t w
