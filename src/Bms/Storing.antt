-- ===== src/Bms/Storing.antt =====
-- Devices for the examples: an L9961 that keeps its registers, and a serial port that is open.
use quad_bot_code_actuation.Prelude.{
  ℕ, Option, none, some, ap, ◌∙◌, ◌+◌, ◌*◌, ◌/◌, ◌%◌, [], ◌∷◌, arith,
}
use quad_bot_code_actuation.Board.{serial_ready, wire_available, wire_read, History, wire1, Env}
use quad_bot_code_actuation.Board.Traffic.{messages, pending, register16}
use quad_bot_code_actuation.Bms.Identity.{IsStoring}

abbrev pub or_zero : Option ℕ → ℕ
or_zero none = 0
or_zero (some v) = v

-- A chip that answers with what the register that was named was last set to.
abbrev pub named : History → Option ℕ
named h = elim (messages wire1 h) [
  | [] ↦ none
  | m ∷ ms ↦ elim m.bytes [ r ∷ [] ↦ register16 m.to r ms | _ ↦ none ]
]

abbrev pub storing : Env
storing (serial_ready ∷ h) = 1
storing (wire_available wire1 ∷ h) = 2
storing (wire_read wire1 ∷ wire_read wire1 ∷ h) = or_zero (named h) % 256
storing (wire_read wire1 ∷ h) = or_zero (named h) / 256
storing _ = 0

pub storing-IsStoring : (reg : ℕ) → IsStoring reg storing
unfolding messages pending
storing-IsStoring reg = record {
  answers = λ past v b e.
      ap (λ o. or_zero o / 256 % 256 * 256 + or_zero o % 256 % 256) e ∙ omega (arith, b);
}
