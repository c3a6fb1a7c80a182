-- ===== src/Power/Frames.antt =====
-- The current paths: their three pins and the converter are used, and nothing else.
use quad_bot_code_actuation.Prelude.{str, ◌&&◌, ◌^◌, refl, Bool}
use quad_bot_code_actuation.Prelude.Int.{ℤ, pos, fits_int, to_unsigned, ◌+ℤ◌, ◌*ℤ◌}
use quad_bot_code_actuation.Float.{ge}
use quad_bot_code_actuation.Board.Pins.{dsg_en, pre_dsg_en, low, high}
use quad_bot_code_actuation.Board.{call, digital_write, delay, say, ◌>>◌}
use quad_bot_code_actuation.Board.Frames.{
  power, same, more, Keeps, ◌⨾◌, Keeps-call, Keeps-if, Keeps-require,
}
use quad_bot_code_actuation.Power.{
  set_dsg, set_chg, read_pack_sense, precharge, base_time_ms, min_voltage_threshold,
}

pub set_dsg-Keeps : (state : Bool) → Keeps power (set_dsg state)
unfolding set_dsg
set_dsg-Keeps state = record {
  run = λ env s. record { calls = more refl same; kept = refl };
  local = λ env s v. refl;
}

pub set_chg-Keeps : (state : Bool) → Keeps power (set_chg state)
unfolding set_chg
set_chg-Keeps state = record {
  run = λ env s. record { calls = more refl same; kept = refl };
  local = λ env s v. refl;
}

pub read_pack_sense-Keeps : Keeps power read_pack_sense
unfolding read_pack_sense
read_pack_sense-Keeps = record {
  run = λ env s. record { calls = more refl same; kept = refl };
  local = λ env s v. refl;
}

enough-Keeps :
    Keeps power
      do call (digital_write dsg_en high); call (delay 100); call (digital_write pre_dsg_en low)
enough-Keeps = record {
  run = λ env s. record { calls = search (more, same); kept = refl };
  local = λ env s v. refl;
}

too_low-Keeps : Keeps power do
  call (digital_write pre_dsg_en low)
  say (str "\n Precharge resistor deactivated.")
  say (str "\n Warning: Pack voltage too low. Discharge FETs not enabled.")
too_low-Keeps = record {
  run = λ env s. record { calls = search (more, same); kept = refl };
  local = λ env s v. refl;
}

pub precharge-Keeps : (num_capacitors : ℤ) → Keeps power (precharge num_capacitors)
unfolding precharge
precharge-Keeps num_capacitors =
    let product = num_capacitors *ℤ base_time_ms in
    let precharge_duration = product +ℤ pos 100 in
    Keeps-require (fits_int product && fits_int precharge_duration) ⨾ λ _.
    Keeps-call (digital_write pre_dsg_en high) refl ⨾ λ _.
    Keeps-call (delay (to_unsigned (2 ^ 32) precharge_duration)) refl ⨾ λ _.
    read_pack_sense-Keeps ⨾ λ pack.
    Keeps-if (ge pack min_voltage_threshold) enough-Keeps too_low-Keeps
