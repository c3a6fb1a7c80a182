-- ===== src/Main/Start.antt =====
-- `setup` of main.cpp from its first call to its last.
use quad_bot_code_actuation.Prelude.{
  ℕ, ◌≡◌, refl, ap, ◌∙◌, true, List, [], ◌∷◌, ◌++◌, CString, str, arith,
}
use quad_bot_code_actuation.Prelude.Int.{pos}
use quad_bot_code_actuation.Float.{Float}
use quad_bot_code_actuation.Board.{
  State, Env, M, History, ◌◂◌, Bus, Call, wire, wire1, Ends, Ends-bind, Ends_weaken,
  attach_interrupt, delay, call, ◌>>◌,
}
use quad_bot_code_actuation.Board.Frames.{Ends_after}
use quad_bot_code_actuation.Board.Pins.{level, rdy, pre_dsg_en, dsg_en, chg_en, low}
use quad_bot_code_actuation.Board.Traffic.{Message, messages, control, register, i2c_mux_address}
use quad_bot_code_actuation.Board.Initial.{initial}
use quad_bot_code_actuation.I2cMux.{i2c_disable_all_channels}
use quad_bot_code_actuation.MotorDriver.Registers.{registers_of}
use quad_bot_code_actuation.Power.{precharge}
use quad_bot_code_actuation.Power.Sequence.{IsTenBit, precharge-Precharged}
use quad_bot_code_actuation.Power.Frames.{precharge-Keeps}
use quad_bot_code_actuation.Bms.Core.{
  set_bms_conversion_state, conversion_register, conversion_on_value,
}
use quad_bot_code_actuation.Bms.Traffic.{write_message, conversion_on-Sent}
use quad_bot_code_actuation.Bms.Frames.{set_bms_conversion_state-Keeps}
use quad_bot_code_actuation.Bms.SetUpBms.{set_up_bms}
use quad_bot_code_actuation.Bms.StartUp.{config_messages, identity_messages, set_up_bms-Sent}
use quad_bot_code_actuation.Bms.StartFrames.{set_up_bms-Keeps}
use quad_bot_code_actuation.Main.Setup.{
  start_buses, set_up_pins, init_motors, reset_encoders, setup, motors, encoders,
}
use quad_bot_code_actuation.Main.Ready.{HasOffsets-eq, IsBuffer-eq}
use quad_bot_code_actuation.Main.Port.{reads}
use quad_bot_code_actuation.Main.Steps.{
  start_buses-IsReady, mux-IsReady, init_motors-IsReady, reset_encoders-IsReady,
}
use quad_bot_code_actuation.Main.Buses.{IsReady, unset, opens_within, pins-IsReady}
use quad_bot_code_actuation.Main.Standing.{
  set_up_registers, IsStanding, battery-IsStanding, Started, charged,
}

-- `setup` from the ready signal on, from the battery chip on, and so on back to the buses.
abbrev finish : M (Unit {0})
finish = do
  call (attach_interrupt rdy)
  set_bms_conversion_state (str "CONVERSION_ON")
  call (delay 100)
  precharge (pos 1)

abbrev from_bms : (CString → Float) → M (Unit {0})
from_bms atof = do set_up_bms atof; finish

abbrev from_encoders : (CString → Float) → M (Unit {0})
from_encoders atof = do reset_encoders encoders; from_bms atof

abbrev from_motors : (CString → Float) → M (Unit {0})
from_motors atof = do init_motors motors; from_encoders atof

abbrev from_buses : (CString → Float) → ℕ → M (Unit {0})
from_buses atof polls = do
  start_buses polls
  i2c_disable_all_channels i2c_mux_address
  from_motors atof

-- A call that neither the buses nor the pins show.
module _ {told : List Message} {active dsg : ℕ} (c : Call)
    (bus : (b : Bus) (h : History) → messages b (h ◂ c) ≡ messages b h)
    (pin : (p : ℕ) (h : History) → level p (h ◂ c) ≡ level p h)
    (port : (h : History) → reads (h ◂ c) ≡ reads h) where
  silent-IsStanding :
      (s : State)
      → IsStanding told active dsg s
      → IsStanding told active dsg (record s { calls = s.calls ◂ c })
  unfolding registers_of
  silent-IsStanding s w =
      let t = record s { calls = s.calls ◂ c } in
      record {
        up = record {
          offsets = HasOffsets-eq s t refl w.up.offsets;
          buffer = IsBuffer-eq s t refl refl w.up.buffer;
          flag = w.up.flag;
          heard = bus wire1 s.calls ∙ w.up.heard;
          precharging = pin pre_dsg_en s.calls ∙ w.up.precharging;
          discharging = pin dsg_en s.calls ∙ w.up.discharging;
          charging = pin chg_en s.calls ∙ w.up.charging;
        };
        set = record {
          sync = record {
            channel = w.set.sync.channel;
            same = ap control (bus wire s.calls) ∙ w.set.sync.same;
          };
          registers = ap (λ m ctl a q. register ctl a q m) (bus wire s.calls) ∙ w.set.registers;
        };
        unread = record { empty = w.unread.empty; unread = port s.calls ∙ w.unread.unread };
      }

module _ (atof : CString → Float) (env : Env) (a : IsTenBit env) where
  finish-Started :
      (s : State)
      → IsStanding (identity_messages ++ config_messages) 0 low s
      → Ends (finish env s) λ _ t. Started env t
  unfolding messages level reads
  finish-Started s w =
      let u = record s { calls = s.calls ◂ attach_interrupt rdy } in
      Ends-bind (set_bms_conversion_state (str "CONVERSION_ON"))
        (λ _. call (delay 100) >> precharge (pos 1)) _ _ env u
        (Ends_after (set_bms_conversion_state (str "CONVERSION_ON") env u) _ _
          (conversion_on-Sent env u)
          ((set_bms_conversion_state-Keeps (str "CONVERSION_ON")).run env u))
        λ _ v p.
          let x = record v { calls = v.calls ◂ delay 100 } in
          Ends_weaken (precharge (pos 1) env x) _ _
            (λ _ t q.
              charged env x t
                (silent-IsStanding (delay 100) (λ b h. refl) (λ q h. refl) (λ h. refl) v
                  (battery-IsStanding (write_message conversion_register conversion_on_value ∷ []) 1
                    u v
                    (silent-IsStanding (attach_interrupt rdy) (λ b h. refl) (λ q h. refl)
                      (λ h. refl) s w)
                    p.1 p.0))
                q.1 q.0)
            (Ends_after (precharge (pos 1) env x) _ _ (precharge-Precharged 1 env x (omega arith) a)
              ((precharge-Keeps (pos 1)).run env x))

  from_bms-Started :
      (s : State) → IsReady set_up_registers s → Ends (from_bms atof env s) λ _ t. Started env t
  from_bms-Started s w =
      Ends-bind (set_up_bms atof) (λ _. finish) _ _ env s
        (Ends_after (set_up_bms atof env s) _ _ (set_up_bms-Sent atof env s w.up.flag)
          ((set_up_bms-Keeps atof).run env s))
        λ _ t p. finish-Started t (
          battery-IsStanding (identity_messages ++ config_messages) 0 s t
            (record { up = w.up; set = w.set; unread = w.unread }) p.1 p.0)

  from_encoders-Started :
      (s : State)
      → IsReady set_up_registers s
      → Ends (from_encoders atof env s) λ _ t. Started env t
  from_encoders-Started s w =
      Ends-bind (reset_encoders encoders) (λ _. from_bms atof) _ _ env s
        (reset_encoders-IsReady encoders env s (ground arith) w) λ _ t v. from_bms-Started t v

  from_motors-Started :
      (s : State) → IsReady unset s → Ends (from_motors atof env s) λ _ t. Started env t
  from_motors-Started s w =
      Ends-bind (init_motors motors) (λ _. from_encoders atof) _ _ env s
        (init_motors-IsReady motors unset env s (ground arith) w) λ _ t v. from_encoders-Started t v

  from_buses-Started :
      (polls : ℕ) (s : State)
      → ((past : History) → opens_within polls env past ≡ true)
      → IsReady unset s
      → Ends (from_buses atof polls env s) λ _ t. Started env t
  from_buses-Started polls s h w =
      Ends-bind (start_buses polls)
        (λ _. i2c_disable_all_channels i2c_mux_address >> from_motors atof) _ _ env s
        (start_buses-IsReady env s w polls h)
        λ _ t k.
          Ends-bind (i2c_disable_all_channels i2c_mux_address) (λ _. from_motors atof) _ _ env t
            (mux-IsReady env t k) λ _ u l. from_motors-Started u l

-- When the serial port opens within its tests and the converter has 10 bits, `setup` returns from the
-- state in which the program starts, whatever the devices answer: no array is left, no wait lasts
-- forever. It leaves all eight motor drivers with their start-up registers, sixteen offsets of
-- 12 bits, a battery chip that was sent its configuration, its identity and then the start of its
-- conversions and nothing else, the precharge and charge paths closed, and the discharge path open
-- exactly when the pack was read at 259 or more (10 volts).
pub setup-Started :
    (atof : CString → Float) (polls : ℕ) (env : Env)
    → ((past : History) → opens_within polls env past ≡ true)
    → IsTenBit env
    → Ends (setup atof polls env initial) λ _ t. Started env t
unfolding setup
setup-Started atof polls env h a =
    Ends-bind set_up_pins (λ _. from_buses atof polls) (λ _ t. IsReady unset t)
      (λ _ t. Started env t) env initial (pins-IsReady env)
      λ _ t k. from_buses-Started atof env a polls t h k
