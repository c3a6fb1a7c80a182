-- ===== src/Main/Steps.antt =====
-- The steps of `setup` of main.cpp that come before the battery.
use quad_bot_code_actuation.Prelude.{ℕ, ◌≤◌, ◌≡◌, refl, ap, ◌∙◌, true, List, [], ◌∷◌, arith}
use quad_bot_code_actuation.Board.{State, Env, History, Ends, Ends-bind, Ends_weaken}
use quad_bot_code_actuation.Board.Frames.{buses, motors, encoders, Stays, Ends_after}
use quad_bot_code_actuation.Board.Traffic.{messages, control, register, i2c_mux_address}
use quad_bot_code_actuation.I2cMux.{i2c_disable_all_channels}
use quad_bot_code_actuation.MotorDriver.{motor_driver_init}
use quad_bot_code_actuation.MotorDriver.Registers.{Registers, registers_of}
use quad_bot_code_actuation.MotorDriver.Operations.{motor_driver_init-Wrote}
use quad_bot_code_actuation.MotorDriver.Commands.{effects}
use quad_bot_code_actuation.MotorDriver.Frames.{
  motor_driver_init-Keeps, i2c_disable_all_channels-Keeps,
}
use quad_bot_code_actuation.Encoder.{reset_encoder}
use quad_bot_code_actuation.Encoder.Frames.{reset_encoder-Keeps}
use quad_bot_code_actuation.Encoder.Operations.{offset_of}
use quad_bot_code_actuation.Encoder.Reset.{reset_encoder-WasReset}
use quad_bot_code_actuation.Encoder.Offsets.{WasReset-HasOffsets}
use quad_bot_code_actuation.Main.Console.{motor_driver_default_address}
use quad_bot_code_actuation.Main.Ready.{
  IsOther, Stays-IsUp, HasOffsets-eq, Stays-IsUnread, IsBuffer-eq, HasRegisters, Stays-HasRegisters,
}
use quad_bot_code_actuation.Main.Setup.{start_buses, init_motors, reset_encoders}
use quad_bot_code_actuation.Main.Buses.{
  IsReady, AllUpTo, inits, other, opens_within, start_buses-Stays,
}

IsOther-buses : IsOther buses
IsOther-buses = record {
  flag = λ s t e. ap (λ u. u.bms_conversion_active) e;
  bus = refl;
  precharging = refl;
  discharging = refl;
  charging = refl;
}

IsOther-motors : IsOther motors
IsOther-motors = record {
  flag = λ s t e. ap (λ u. u.bms_conversion_active) e;
  bus = refl;
  precharging = refl;
  discharging = refl;
  charging = refl;
}

IsOther-encoders : IsOther encoders
IsOther-encoders = record {
  flag = λ s t e. ap (λ u. u.bms_conversion_active) e;
  bus = refl;
  precharging = refl;
  discharging = refl;
  charging = refl;
}

disabled :
    {x : Registers} (env : Env) (s : State)
    → HasRegisters x s
    → Ends (i2c_disable_all_channels i2c_mux_address env s) λ _ t. HasRegisters x t
unfolding i2c_disable_all_channels registers_of messages control register
disabled env s w = record { sync = record { channel = refl; same = refl }; registers = w.registers }

module _ {x : Registers} (env : Env) (s : State) (w : IsReady x s) where
  pub start_buses-IsReady :
      (polls : ℕ)
      → ((past : History) → opens_within polls env past ≡ true)
      → Ends (start_buses polls env s) λ _ t. IsReady x t
  start_buses-IsReady polls h =
      Ends_weaken (start_buses polls env s) _ _
        (λ _ t k. record {
          up =
              Stays-IsUp buses s t IsOther-buses k
                (HasOffsets-eq s t (ap (λ u. u.offsets) k.kept) w.up.offsets)
                (IsBuffer-eq s t (ap (λ u. u.input_buffer) k.kept) (ap (λ u. u.input_pos) k.kept)
                  w.up.buffer)
                w.up;
          set = Stays-HasRegisters buses s t refl (ap (λ u. u.current_channel) k.kept) k w.set;
          unread = Stays-IsUnread buses s t refl (ap (λ u. u.input_pos) k.kept) k w.unread;
        })
        (start_buses-Stays polls env s h)

  motors-IsReady : {y : Registers} (t : State) → Stays motors s t → HasRegisters y t → IsReady y t
  motors-IsReady t k i = record {
    up =
        Stays-IsUp motors s t IsOther-motors k
          (HasOffsets-eq s t (ap (λ u. u.offsets) k.kept) w.up.offsets)
          (IsBuffer-eq s t (ap (λ u. u.input_buffer) k.kept) (ap (λ u. u.input_pos) k.kept)
            w.up.buffer)
          w.up;
    set = i;
    unread = Stays-IsUnread motors s t refl (ap (λ u. u.input_pos) k.kept) k w.unread;
  }

  pub mux-IsReady : Ends (i2c_disable_all_channels i2c_mux_address env s) λ _ t. IsReady x t
  mux-IsReady =
      Ends_weaken (i2c_disable_all_channels i2c_mux_address env s) _ _
        (λ _ t p. motors-IsReady t p.1 p.0)
        (Ends_after (i2c_disable_all_channels i2c_mux_address env s) _ _ (disabled env s w.set)
          (i2c_disable_all_channels-Keeps.run env s))

  pub motor-IsReady :
      (channel : ℕ)
      → channel ≤ 7
      → Ends
          (motor_driver_init channel motor_driver_default_address env s)
          λ _ t. IsReady (effects (inits (channel ∷ [])) x) t
  motor-IsReady channel h =
      let m = motor_driver_init channel motor_driver_default_address in
      Ends_weaken (m env s) _ _
        (λ _ t p. motors-IsReady t p.1 (record {
          sync = p.0.sync;
          registers = p.0.registers ∙ ap (effects (inits (channel ∷ []))) w.set.registers;
        }))
        (Ends_after (m env s) _ _
          (motor_driver_init-Wrote channel motor_driver_default_address env s h other w.set.sync)
          ((motor_driver_init-Keeps channel motor_driver_default_address).run env s))

  pub encoder-IsReady :
      (channel : ℕ) → channel ≤ 15 → Ends (reset_encoder channel env s) λ _ t. IsReady x t
  encoder-IsReady channel h =
      let (o, e) = offset_of s.offsets channel (omega (arith, w.up.offsets.count, h)) in
      Ends_weaken (reset_encoder channel env s) _ _
        (λ _ t ((hi, lo, r), k). record {
          up =
              Stays-IsUp encoders s t IsOther-encoders k
                (WasReset-HasOffsets env channel hi lo s t w.up.offsets r)
                (IsBuffer-eq s t (ap (λ u. u.input_buffer) k.kept) (ap (λ u. u.input_pos) k.kept)
                  w.up.buffer)
                w.up;
          set = Stays-HasRegisters encoders s t refl (ap (λ u. u.current_channel) k.kept) k w.set;
          unread = Stays-IsUnread encoders s t refl (ap (λ u. u.input_pos) k.kept) k w.unread;
        })
        (Ends_after (reset_encoder channel env s) _ _ (reset_encoder-WasReset channel o env s h e)
          ((reset_encoder-Keeps channel).run env s))

pub init_motors-IsReady :
    (cs : List ℕ) (x : Registers) (env : Env) (s : State)
    → AllUpTo 7 cs
    → IsReady x s
    → Ends (init_motors cs env s) λ _ t. IsReady (effects (inits cs) x) t
unfolding init_motors
init_motors-IsReady [] x env s h w = w
init_motors-IsReady (c ∷ cs) x env s h w =
    Ends-bind (motor_driver_init c motor_driver_default_address) (λ _. init_motors cs) _ _ env s
      (motor-IsReady env s w c h.0)
      λ _ t v. init_motors-IsReady cs (effects (inits (c ∷ [])) x) env t h.1 v

pub reset_encoders-IsReady :
    {x : Registers} (cs : List ℕ) (env : Env) (s : State)
    → AllUpTo 15 cs
    → IsReady x s
    → Ends (reset_encoders cs env s) λ _ t. IsReady x t
unfolding reset_encoders
reset_encoders-IsReady [] env s h w = w
reset_encoders-IsReady (c ∷ cs) env s h w =
    Ends-bind (reset_encoder c) (λ _. reset_encoders cs) _ _ env s (encoder-IsReady env s w c h.0)
      λ _ t v. reset_encoders-IsReady cs env t h.1 v
