-- ===== src/Power/Sequence.antt =====
-- `precharge`: the order of the two paths, and when the discharge path opens.
use quad_bot_code_actuation.Prelude.{
  ℕ, ◌+◌, ◌*◌, ◌^◌, ◌<◌, ◌≤◌, ◌≡◌, refl, sym, ap, true, ◌&&◌, str, [], ◌∷◌, leb, arith, inl, inr,
  Bool-cases, if◌then◌else◌,
}
use quad_bot_code_actuation.Prelude.Int.{pos, ◌+ℤ◌, ◌*ℤ◌, fits_int, to_unsigned}
use quad_bot_code_actuation.Board.{
  Past, State, Env, Ends, History, analog_read, digital_write, println, text, delay, ◌◂◌,
}
use quad_bot_code_actuation.Board.Pins.{level, pre_dsg_en, dsg_en, pack_sns, chg_en, low, high}
use quad_bot_code_actuation.Power.{precharge, base_time_ms}
use quad_bot_code_actuation.Power.Threshold.{enough_lem}

-- The pack is read after (k + 1) * 100 ms with the precharge path open and the discharge path as it
-- was; the precharge path is closed in the end; the discharge path is open when the reading was 259
-- or more, and as it was when it was less; the charge path stays as it was.
pub record Precharged (env : Env) (k : ℕ) (s t : State) : Type 0 where
  pub during : History
  pub waited : during ≡ s.calls ◂ digital_write pre_dsg_en high ◂ delay ((k + 1) * 100)
  pub closed : level pre_dsg_en t.calls ≡ low
  pub opened :
      level dsg_en t.calls
      ≡ (if leb 259 (env (during ◂ analog_read pack_sns)) then high else level dsg_en s.calls)
  pub charging : level chg_en t.calls ≡ level chg_en s.calls
  pub reading : Past (during ◂ analog_read pack_sns) t.calls

-- The documented range of the 10-bit converter.
abbrev pub IsTenBit : Env → Type 0
IsTenBit env = (past : History) → env (past ◂ analog_read pack_sns) < 1024

has_duration :
    (k : ℕ)
    → k ≤ 21474835
    → (fits_int (pos k *ℤ base_time_ms) && fits_int (pos k *ℤ base_time_ms +ℤ pos 100)) ≡ true
unfolding ◌+ℤ◌ ◌*ℤ◌
has_duration k h = ground arith

wait_time :
    (k : ℕ) → k ≤ 21474835 → to_unsigned (2 ^ 32) (pos k *ℤ base_time_ms +ℤ pos 100) ≡ (k + 1) * 100
unfolding ◌+ℤ◌ ◌*ℤ◌
wait_time k h = ground arith

-- What follows the reading of the pack, with the newest call first.
abbrev after_opening : History
after_opening = digital_write pre_dsg_en low ∷ delay 100 ∷ digital_write dsg_en high ∷ []

abbrev after_refusal : History
after_refusal =
    println (text (str "\n Warning: Pack voltage too low. Discharge FETs not enabled."))
    ∷ println (text (str "\n Precharge resistor deactivated."))
    ∷ digital_write pre_dsg_en low
    ∷ []

-- A precharge for up to 21474835 capacitors, with a 10-bit converter, returns as `Precharged` says.
-- The discharge path is opened only when the pack was read at 259 or more, which is 10 volts.
pub precharge-Precharged :
    (k : ℕ) (env : Env) (s : State)
    → k ≤ 21474835
    → IsTenBit env
    → Ends (precharge (pos k) env s) λ _ t. Precharged env k s t
unfolding precharge level
precharge-Precharged k env s h w =
    let seen = s.calls ◂ digital_write pre_dsg_en high ◂ delay ((k + 1) * 100) in
    let raw = env (seen ◂ analog_read pack_sns) in
    rw (has_duration k h, wait_time k h, enough_lem raw (w seen))
      (elim (Bool-cases (leb 259 raw)) [
        | inl e ↦ rw e (record {
          during = seen;
          waited = refl;
          closed = refl;
          opened = ap (λ b. if b then high else level dsg_en s.calls) (sym e);
          charging = refl;
          reading = (after_opening, refl);
        })
        | inr e ↦ rw e (record {
          during = seen;
          waited = refl;
          closed = refl;
          opened = ap (λ b. if b then high else level dsg_en s.calls) (sym e);
          charging = refl;
          reading = (after_refusal, refl);
        })
      ])
