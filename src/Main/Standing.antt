-- ===== src/Main/Standing.antt =====
-- The robot with its motors set up, and what the battery part of `setup` of main.cpp does to it.
use quad_bot_code_actuation.Prelude.{ℕ, refl, ap, ◌∙◌, List, ◌∷◌, ◌++◌, leb, if◌then◌else◌}
use quad_bot_code_actuation.Board.{State, Env, History, Past, ◌◂◌, wire1, analog_read}
use quad_bot_code_actuation.Board.Frames.{battery, power, Stays}
use quad_bot_code_actuation.Board.Devices.{Extends-messages, Extends-level}
use quad_bot_code_actuation.Board.Pins.{level, pre_dsg_en, dsg_en, chg_en, pack_sns, low, high}
use quad_bot_code_actuation.Board.Traffic.{Message}
use quad_bot_code_actuation.MotorDriver.Registers.{Registers}
use quad_bot_code_actuation.MotorDriver.Commands.{effects}
use quad_bot_code_actuation.Power.Sequence.{Precharged}
use quad_bot_code_actuation.Bms.Core.{conversion_register, conversion_on_value}
use quad_bot_code_actuation.Bms.Traffic.{Sent, write_message}
use quad_bot_code_actuation.Bms.StartUp.{config_messages, identity_messages}
use quad_bot_code_actuation.Main.Setup.{motors}
use quad_bot_code_actuation.Main.Ready.{
  IsUp, IsUnread, Stays-IsUnread, HasOffsets-eq, IsBuffer-eq, HasRegisters, Stays-HasRegisters,
}
use quad_bot_code_actuation.Main.Buses.{unset, inits}

-- The registers of the eight motor drivers, once they are initialised.
abbrev pub set_up_registers : Registers
set_up_registers = effects (inits motors) unset

-- All that the battery chip is sent, the newest first.
abbrev pub set_up_messages : List Message
set_up_messages =
    write_message conversion_register conversion_on_value ∷ (identity_messages ++ config_messages)

-- The robot with its motors set up, and nothing read from the serial port.
pub record IsStanding (told : List Message) (active dsg : ℕ) (s : State) : Type 0 where
  pub up : IsUp told active dsg s
  pub set : HasRegisters set_up_registers s
  pub unread : IsUnread s

pub battery-IsStanding :
    {told : List Message} {active dsg : ℕ} (more : List Message) (new : ℕ) (s t : State)
    → IsStanding told active dsg s
    → Stays battery s t
    → Sent more new s t
    → IsStanding (more ++ told) new dsg t
battery-IsStanding more new s t w k p = record {
  up = record {
    offsets = HasOffsets-eq s t (ap (λ u. u.offsets) k.kept) w.up.offsets;
    buffer =
        IsBuffer-eq s t (ap (λ u. u.input_buffer) k.kept) (ap (λ u. u.input_pos) k.kept)
          w.up.buffer;
    flag = p.flag;
    heard = p.traffic ∙ ap (◌++◌ more) w.up.heard;
    precharging = Extends-level battery pre_dsg_en s.calls refl k.calls ∙ w.up.precharging;
    discharging = Extends-level battery dsg_en s.calls refl k.calls ∙ w.up.discharging;
    charging = Extends-level battery chg_en s.calls refl k.calls ∙ w.up.charging;
  };
  set = Stays-HasRegisters battery s t refl (ap (λ u. u.current_channel) k.kept) k w.set;
  unread = Stays-IsUnread battery s t refl (ap (λ u. u.input_pos) k.kept) k w.unread;
}

-- How `setup` ends: the discharge path follows what the pack was read at.
pub record Started (env : Env) (t : State) : Type 0 where
  pub during : History
  pub reading : Past (during ◂ analog_read pack_sns) t.calls
  pub standing :
      IsStanding set_up_messages 1
        (if leb 259 (env (during ◂ analog_read pack_sns)) then high else low)
        t

pub charged :
    (env : Env) (s t : State)
    → IsStanding set_up_messages 1 low s
    → Stays power s t
    → Precharged env 1 s t
    → Started env t
unfolding level
charged env s t w k p = record {
  during = p.during;
  reading = p.reading;
  standing = record {
    up = record {
      offsets = HasOffsets-eq s t (ap (λ u. u.offsets) k.kept) w.up.offsets;
      buffer =
          IsBuffer-eq s t (ap (λ u. u.input_buffer) k.kept) (ap (λ u. u.input_pos) k.kept)
            w.up.buffer;
      flag = ap (λ u. u.bms_conversion_active) k.kept ∙ w.up.flag;
      heard = Extends-messages power wire1 s.calls refl k.calls ∙ w.up.heard;
      precharging = p.closed;
      discharging =
          p.opened
          ∙ ap (λ v. if leb 259 (env (p.during ◂ analog_read pack_sns)) then high else v)
              w.up.discharging;
      charging = p.charging ∙ w.up.charging;
    };
    set = Stays-HasRegisters power s t refl (ap (λ u. u.current_channel) k.kept) k w.set;
    unread = Stays-IsUnread power s t refl (ap (λ u. u.input_pos) k.kept) k w.unread;
  };
}
