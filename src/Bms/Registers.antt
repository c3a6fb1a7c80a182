-- ===== src/Bms/Registers.antt =====
-- What a command leaves in the registers of the L9961.
use quad_bot_code_actuation.Prelude.{
  ℕ, ◌+◌, ◌*◌, ◌%◌, ◌<◌, ◌≡◌, refl, sym, ap, ◌∙◌, true, [], ◌∷◌, arith, if◌then◌else◌, bit_and,
  bit_and_low, shr, Bool-cases, u8, u16, shl, bit_or, bit_or_pack, inl, inr, leb,
}
use quad_bot_code_actuation.Board.{
  State, Env, Ends, wire1, wire_available, wire_read, History, ◌◂◌, begin_transmission, wire_write,
  end_transmission, delay_microseconds, request_from, Past,
}
use quad_bot_code_actuation.Board.Traffic.{message, messages, pending}
use quad_bot_code_actuation.Bms.Core.{read_bms_data}

pub two_bytes : (v : ℕ) → v < 65536 → bit_and (shr v 8) 0xff * 256 + bit_and v 0xff ≡ v
two_bytes v h = omega (arith, bit_and_low 8 (shr v 8), bit_and_low 8 v)

-- The calls of a read up to the request.
abbrev pub listened : ℕ → ℕ → History → History
listened chip reg past =
    past
    ◂ begin_transmission wire1 chip
    ◂ wire_write wire1 reg
    ◂ end_transmission wire1 true
    ◂ delay_microseconds 3
    ◂ request_from wire1 chip 2

abbrev pub both : Env → History → ℕ
both env past =
    env (past ◂ wire_read wire1) % 256 * 256 + env (past ◂ wire_read wire1 ◂ wire_read wire1) % 256

-- The 16 bits that a device answers: two bytes, the high one first, or 0 when fewer than two come.
abbrev pub answered : Env → History → ℕ
answered env past =
    if leb 2 (env (past ◂ wire_available wire1)) then both env (past ◂ wire_available wire1) else 0

pub record ReadBack (env : Env) (chip reg v : ℕ) (s t : State) : Type 0 where
  pub value : v ≡ answered env (listened chip reg s.calls)
  pub during : Past (listened chip reg s.calls) t.calls
  pub asked : messages wire1 t.calls ≡ message chip (reg ∷ []) ∷ messages wire1 s.calls
  pub flag : t.bms_conversion_active ≡ s.bms_conversion_active

word16 : (hi lo : ℕ) → u16 (bit_or (shl (u8 hi) 8) (u8 lo)) ≡ hi % 256 * 256 + lo % 256
word16 hi lo = omega (arith, bit_or_pack 8 (u8 hi) (u8 lo) (omega arith))

-- A read asks for its register alone, and returns the two bytes that come, the high one first, or 0
-- when fewer than two come.
pub read_bms_data-ReadBack :
    (chip reg : ℕ) (env : Env) (s : State)
    → Ends (read_bms_data chip reg env s) λ v t. ReadBack env chip reg v s t
unfolding read_bms_data messages pending
read_bms_data-ReadBack chip reg env s =
    let past = listened chip reg s.calls in
    elim (Bool-cases (leb 2 (env (past ◂ wire_available wire1)))) [
      | inl e ↦ rw e (record {
        value =
            word16 _ _ ∙ ap (λ b. if b then both env (past ◂ wire_available wire1) else 0) (sym e);
        during = (wire_read wire1 ∷ wire_read wire1 ∷ wire_available wire1 ∷ [], refl);
        asked = refl;
        flag = refl;
      })
      | inr e ↦ rw e (record {
        value = ap (λ b. if b then both env (past ◂ wire_available wire1) else 0) (sym e);
        during = (wire_available wire1 ∷ [], refl);
        asked = refl;
        flag = refl;
      })
    ]
