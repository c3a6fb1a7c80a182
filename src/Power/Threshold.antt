-- ===== src/Power/Threshold.antt =====
-- Which readings of the pack voltage are at the threshold of 10 volts or above.
use quad_bot_code_actuation.Prelude.{
  ℕ, Bool, true, ◌<◌, ◌≡◌, refl, leb, all_below, all_below_at, same, eq_of_same,
}
use quad_bot_code_actuation.Float.{ge}
use quad_bot_code_actuation.Float.Round.{rounding}
use quad_bot_code_actuation.Power.{pack_voltage, min_voltage_threshold}

abbrev pub enough : ℕ → Bool
enough raw = ge (pack_voltage raw) min_voltage_threshold

table : all_below 1024 (λ raw. same (enough raw) (leb 259 raw)) ≡ true
unfolding pack_voltage ge rounding
table = refl

-- Of the readings of a 10-bit converter, those from 259 on are at the threshold.
pub enough_lem : (raw : ℕ) → raw < 1024 → enough raw ≡ leb 259 raw
enough_lem raw h =
    eq_of_same (enough raw) (leb 259 raw)
      (all_below_at 1024 (λ n. same (enough n) (leb 259 n)) raw table h)
