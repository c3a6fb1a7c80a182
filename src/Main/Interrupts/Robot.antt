-- ===== src/Main/Interrupts/Robot.antt =====
-- The whole program with the ready signal of the battery chip coming at any moment.
use quad_bot_code_actuation.Prelude.{ℕ, zero, suc, ◌≡◌, refl, ap, ◌∙◌, true, CString, [], ◌∷◌, ◌++◌}
use quad_bot_code_actuation.Float.{Float}
use quad_bot_code_actuation.Board.{State, Env, History, Past, Call, analog_read, micros, ◌◂◌, wire1}
use quad_bot_code_actuation.Board.Pins.{pack_sns, pre_dsg_en, dsg_en, chg_en}
use quad_bot_code_actuation.Board.Traffic.{register16}
use quad_bot_code_actuation.Power.Sequence.{IsTenBit}
use quad_bot_code_actuation.Bms.Core.{bms_address}
use quad_bot_code_actuation.Main.Buses.{opens_within}
use quad_bot_code_actuation.Main.Ready.{HasOffsets-eq, IsBuffer-eq}
use quad_bot_code_actuation.Main.Robot.{Reach, IsServing, Reach-IsServing}
use quad_bot_code_actuation.Main.Interrupts.{Schedule, risen, seen, heard, real}
use quad_bot_code_actuation.Main.Interrupts.Quiet.{seen-messages, seen-level}
use quad_bot_code_actuation.Main.Interrupts.Effects.{
  signalled, latest, seen-ready, seen-timestamp, heard-IsTenBit,
}

-- A call that was made before some signals was made before what they end in.
risen-Past :
    (n : ℕ) (env : Env) (h : History) (s : State) → Past h s.calls → Past h (risen n env s).calls
risen-Past zero env h s p = p
risen-Past (suc n) env h s (rest, e) = risen-Past n env h _ (rest ◂ micros, ap (λ k. k ◂ micros) e)

seen-Past :
    (sched : Schedule) (env : Env) (c : Call) (h rest : History)
    → Past ((seen sched env h).calls ◂ c) (seen sched env (rest ++ (c ∷ h))).calls
unfolding seen
seen-Past sched env c h [] = risen-Past (sched (c ∷ h)) env _ _ ([], refl)
seen-Past sched env c h (d ∷ rest) =
    let (more, e) = seen-Past sched env c h rest in
    risen-Past (sched (d ∷ (rest ++ (c ∷ h)))) env _ _ (more ◂ d, ap (λ k. k ◂ d) e)

-- The robot at work, and what the signal's variables say.
pub record IsServingNow (sched : Schedule) (env : Env) (t : State) : Type 0 where
  pub serving : IsServing env (real sched env t)
  pub ready : (real sched env t).bms_data_ready ≡ signalled sched t.calls
  pub since : (real sched env t).bms_data_timestamp ≡ latest sched env t.calls

real-IsServing :
    (sched : Schedule) (env : Env) (t : State)
    → IsServing (heard sched env) t
    → IsServingNow sched env t
unfolding heard
real-IsServing sched env t w = record {
  serving = record {
    during = (seen sched env w.during).calls;
    reading =
        let (rest, e) = w.reading in
        let (more, f) = seen-Past sched env (analog_read pack_sns) w.during rest in
        (more, ap (λ h. (seen sched env h).calls) e ∙ f);
    up = record {
      offsets = HasOffsets-eq t (real sched env t) refl w.up.offsets;
      buffer = IsBuffer-eq t (real sched env t) refl refl w.up.buffer;
      flag = w.up.flag;
      heard = seen-messages sched env t.calls wire1 ∙ w.up.heard;
      precharging = seen-level sched env t.calls pre_dsg_en ∙ w.up.precharging;
      discharging = seen-level sched env t.calls dsg_en ∙ w.up.discharging;
      charging = seen-level sched env t.calls chg_en ∙ w.up.charging;
    };
    chip = λ q. ap (register16 bms_address q) (seen-messages sched env t.calls wire1) ∙ w.chip q;
  };
  ready = seen-ready sched env t.calls;
  since = seen-timestamp sched env t.calls;
}

-- In every state that the program reaches between its calls of `loop`, whatever was typed, and with the
-- ready signal coming after any of the calls before, any number of times: the offsets are sixteen numbers
-- of 12 bits; the line buffer has its 32 bytes with room for the terminator; the battery chip was sent its
-- configuration, its identity and the start of its conversions, has exactly these in its registers, and
-- was sent nothing since; the precharge and charge paths are closed; the discharge path is open exactly
-- when the pack was read at 259 or more (10 volts) in the precharge of `setup`; and the signal's variables
-- say whether a signal has come, and the clock at the last one. The serial port is assumed to open within
-- its tests, as the main program sees it, and the converter to have 10 bits.
pub Reach-IsServingNow :
    (sched : Schedule) (atof : CString → Float) (polls : ℕ) (env : Env)
    → ((past : History) → opens_within polls (heard sched env) past ≡ true)
    → IsTenBit env
    → {t : State} → Reach atof polls (heard sched env) t
    → IsServingNow sched env t
Reach-IsServingNow sched atof polls env opens ten_bit {t} r =
    real-IsServing sched env t
      (Reach-IsServing atof polls (heard sched env) opens (heard-IsTenBit sched env ten_bit) r)
