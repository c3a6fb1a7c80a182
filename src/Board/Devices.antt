-- ===== src/Board/Devices.antt =====
-- What the calls of one part leave as it was: the messages on a bus and the level of a pin that are
-- not the part's own.
use quad_bot_code_actuation.Prelude.{
  ℕ, ◌≡◌, refl, sym, ap, ◌∙◌, true, false, ◌==◌, arith, Bool-cases, inl, inr,
}
use quad_bot_code_actuation.Board.{
  Bus, wire, wire1, Call, digital_write, transfer, end_transmission, History, ◌◂◌,
}
use quad_bot_code_actuation.Board.Pins.{level, exchanges}
use quad_bot_code_actuation.Board.Traffic.{messages, same_bus}
use quad_bot_code_actuation.Board.Frames.{Part, owns, drives, allowed, Extends, same, more}

other_bus : (p : Part) (b c : Bus) → owns p b ≡ false → owns p c ≡ true → same_bus b c ≡ false
other_bus p wire wire h k = cc
other_bus p wire wire1 h k = refl
other_bus p wire1 wire h k = refl
other_bus p wire1 wire1 h k = cc

call-messages :
    (p : Part) (b : Bus) (c : Call) (h : History)
    → owns p b ≡ false
    → allowed p c ≡ true
    → messages b (h ◂ c) ≡ messages b h
unfolding messages
call-messages p b (end_transmission d stop) h o a = rw (other_bus p b d o a) refl
call-messages p b c h o a = refl

pub Extends-messages :
    (p : Part) (b : Bus) (h : History) {k : History}
    → owns p b ≡ false
    → Extends p h k
    → messages b k ≡ messages b h
Extends-messages p b h o same = refl
Extends-messages p b h o (more {c} {k} a e) = call-messages p b c k o a ∙ Extends-messages p b h o e

call-level :
    (p : Part) (pin : ℕ) (c : Call) (h : History)
    → drives p pin ≡ false
    → allowed p c ≡ true
    → level pin (h ◂ c) ≡ level pin h
unfolding level
call-level p pin (digital_write q v) h d a = elim (Bool-cases (q == pin)) [
  | inl e ↦
      let same_pin : q ≡ pin = ground (arith, e) in
      let no : true ≡ false = sym a ∙ ap (drives p) same_pin ∙ d in cc
  | inr e ↦ rw e refl
]
call-level p pin c h d a = refl

pub Extends-level :
    (p : Part) (pin : ℕ) (h : History) {k : History}
    → drives p pin ≡ false
    → Extends p h k
    → level pin k ≡ level pin h
Extends-level p pin h d same = refl
Extends-level p pin h d (more {c} {k} a e) = call-level p pin c k d a ∙ Extends-level p pin h d e

call-exchanges :
    (p : Part) (c : Call) (h : History)
    → allowed p (transfer 0) ≡ false
    → allowed p c ≡ true
    → exchanges (h ◂ c) ≡ exchanges h
unfolding exchanges
call-exchanges p (transfer b) h d a = let no : true ≡ false = sym a ∙ d in cc
call-exchanges p c h d a = refl

-- A part that does not own the SPI bus sends nothing to the encoders.
pub Extends-exchanges :
    (p : Part) (h : History) {k : History}
    → allowed p (transfer 0) ≡ false
    → Extends p h k
    → exchanges k ≡ exchanges h
Extends-exchanges p h d same = refl
Extends-exchanges p h d (more {c} {k} a e) = call-exchanges p c k d a ∙ Extends-exchanges p h d e
