-- ===== src/Main/Ready.antt =====
-- What holds of the robot from a point of `setup` of main.cpp on, and which steps keep it.
use quad_bot_code_actuation.Prelude.{ℕ, ◌≡◌, sym, subst, ap, ◌∙◌, false, List, arith, length}
use quad_bot_code_actuation.Board.{State, wire, wire1, serial_read}
use quad_bot_code_actuation.Board.Frames.{Part, allowed, others, owns, drives, Stays}
use quad_bot_code_actuation.Board.Devices.{Extends-messages, Extends-level}
use quad_bot_code_actuation.Board.Pins.{level, pre_dsg_en, dsg_en, chg_en, low}
use quad_bot_code_actuation.Board.Traffic.{Message, messages, register, control}
use quad_bot_code_actuation.I2cMux.Selection.{IsInSync, IsChannel, control_of}
use quad_bot_code_actuation.MotorDriver.Registers.{Registers, registers_of}
use quad_bot_code_actuation.Encoder.Operations.{HasOffsets, AllBelow}
use quad_bot_code_actuation.Main.Typing.{IsBuffer}
use quad_bot_code_actuation.Main.Port.{reads, Extends-reads}

-- Sixteen offsets and a sound line buffer; a battery chip that has been sent `told` and nothing else,
-- with the conversion flag `active`; the precharge path and the charge path closed, and the discharge
-- path at level `dsg`.
pub record IsUp (told : List Message) (active dsg : ℕ) (s : State) : Type 0 where
  pub offsets : HasOffsets s
  pub buffer : IsBuffer s
  pub flag : s.bms_conversion_active ≡ active
  pub heard : messages wire1 s.calls ≡ told
  pub precharging : level pre_dsg_en s.calls ≡ low
  pub discharging : level dsg_en s.calls ≡ dsg
  pub charging : level chg_en s.calls ≡ low

-- The parts whose work the battery chip and the current paths do not notice.
pub record IsOther (p : Part) : Type 0 where
  pub flag :
      (s t : State) → others p t ≡ others p s → t.bms_conversion_active ≡ s.bms_conversion_active
  pub bus : owns p wire1 ≡ false
  pub precharging : drives p pre_dsg_en ≡ false
  pub discharging : drives p dsg_en ≡ false
  pub charging : drives p chg_en ≡ false

pub Stays-IsUp :
    {told : List Message} {active dsg : ℕ} (p : Part) (s t : State)
    → IsOther p
    → Stays p s t
    → HasOffsets t
    → IsBuffer t
    → IsUp told active dsg s
    → IsUp told active dsg t
Stays-IsUp p s t n k o b w = record {
  offsets = o;
  buffer = b;
  flag = n.flag s t k.kept ∙ w.flag;
  heard = Extends-messages p wire1 s.calls n.bus k.calls ∙ w.heard;
  precharging = Extends-level p pre_dsg_en s.calls n.precharging k.calls ∙ w.precharging;
  discharging = Extends-level p dsg_en s.calls n.discharging k.calls ∙ w.discharging;
  charging = Extends-level p chg_en s.calls n.charging k.calls ∙ w.charging;
}

pub HasOffsets-eq : (s t : State) → t.offsets ≡ s.offsets → HasOffsets s → HasOffsets t
HasOffsets-eq s t e w = record {
  count = ap length e ∙ w.count;
  range = subst (AllBelow 4096) (sym e) w.range;
}

pub IsBuffer-eq :
    (s t : State)
    → t.input_buffer ≡ s.input_buffer
    → t.input_pos ≡ s.input_pos
    → IsBuffer s
    → IsBuffer t
IsBuffer-eq s t e f w = record { size = ap length e ∙ w.size; room = omega (arith, f, w.room) }

-- The motor drivers have the registers `x`, and the multiplexer the channel that is remembered.
pub record HasRegisters (x : Registers) (s : State) : Type 0 where
  pub sync : IsInSync s
  pub registers : registers_of s ≡ x

-- The parts that leave the motors alone.
pub Stays-HasRegisters :
    {x : Registers} (p : Part) (s t : State)
    → owns p wire ≡ false
    → t.current_channel ≡ s.current_channel
    → Stays p s t
    → HasRegisters x s
    → HasRegisters x t
unfolding registers_of
Stays-HasRegisters p s t o c k w =
    let e = Extends-messages p wire s.calls o k.calls in
    record {
      sync = record {
        channel = subst IsChannel (sym c) w.sync.channel;
        same = ap control e ∙ w.sync.same ∙ ap control_of (sym c);
      };
      registers = ap (λ m ctl a q. register ctl a q m) e ∙ w.registers;
    }

-- Nothing has been taken from the serial port, and the line is empty.
pub record IsUnread (s : State) : Type 0 where
  pub empty : s.input_pos ≡ 0
  pub unread : reads s.calls ≡ 0

-- The parts that do not read the serial port.
pub Stays-IsUnread :
    (p : Part) (s t : State)
    → allowed p serial_read ≡ false
    → t.input_pos ≡ s.input_pos
    → Stays p s t
    → IsUnread s
    → IsUnread t
Stays-IsUnread p s t o e k w = record {
  empty = e ∙ w.empty;
  unread = Extends-reads p s.calls o k.calls ∙ w.unread;
}
