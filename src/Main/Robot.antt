-- ===== src/Main/Robot.antt =====
-- The whole program: `setup`, then any number of calls of `loop`.
use quad_bot_code_actuation.Prelude.{ℕ, ◌≡◌, refl, ap, subst, true, CString, leb, if◌then◌else◌}
use quad_bot_code_actuation.Float.{Float}
use quad_bot_code_actuation.Board.{State, Env, Run, Ends, History, Past, ok, analog_read, ◌◂◌}
use quad_bot_code_actuation.Board.Frames.{console, Extends-Past, of_After}
use quad_bot_code_actuation.Board.Pins.{pack_sns, low, high}
use quad_bot_code_actuation.Board.Traffic.{messages, register16}
use quad_bot_code_actuation.Bms.Core.{bms_address, conversion_register, conversion_on_value}
use quad_bot_code_actuation.Bms.Chip.{assigns, register16-write_messages}
use quad_bot_code_actuation.Bms.StartUp.{identity_values, config_values}
use quad_bot_code_actuation.Prelude.{Option, none, [], ◌∷◌, ◌++◌, ◌∙◌}
use quad_bot_code_actuation.Board.{wire1}
use quad_bot_code_actuation.Board.Initial.{initial}
use quad_bot_code_actuation.Power.Sequence.{IsTenBit}
use quad_bot_code_actuation.Main.Setup.{setup}
use quad_bot_code_actuation.Main.Console.{loop}
use quad_bot_code_actuation.Main.Ready.{IsUp, IsOther, Stays-IsUp, HasOffsets-eq}
use quad_bot_code_actuation.Main.Buses.{opens_within}
use quad_bot_code_actuation.Main.Start.{setup-Started}
use quad_bot_code_actuation.Main.Standing.{Started, set_up_messages}
use quad_bot_code_actuation.Main.Serving.{Served, loop-Served}

-- The states between the calls.
pub data Reach (atof : CString → Float) (polls : ℕ) (env : Env) : State → Type 0 where
  started : {s : State} → setup atof polls env initial ≡ ok tt s → Reach atof polls env s
  served :
      {s t : State} (rounds : ℕ)
      → Reach atof polls env s
      → loop rounds polls env s ≡ ok tt t
      → Reach atof polls env t

-- What the registers of the battery chip were last set to.
abbrev pub programmed : ℕ → Option ℕ
programmed =
    assigns ((conversion_register, conversion_on_value) ∷ (identity_values ++ config_values))
      (λ q. none)

-- The robot at work, the discharge path as the pack was read at the precharge.
pub record IsServing (env : Env) (t : State) : Type 0 where
  pub during : History
  pub reading : Past (during ◂ analog_read pack_sns) t.calls
  pub up :
      IsUp set_up_messages 1 (if leb 259 (env (during ◂ analog_read pack_sns)) then high else low) t
  pub chip : (q : ℕ) → register16 bms_address q (messages wire1 t.calls) ≡ programmed q

IsOther-console : IsOther console
IsOther-console = record {
  flag = λ s t e. ap (λ u. u.bms_conversion_active) e;
  bus = refl;
  precharging = refl;
  discharging = refl;
  charging = refl;
}

-- What a run ends in, when it is known to return.
of_Ends :
    {A : Type 0} (r : Run A) (P : A → State → Type 0) (a : A) (t : State)
    → Ends r P
    → r ≡ ok a t
    → P a t
of_Ends r P a t h e = subst (λ x. Ends x P) e h

IsUp-programmed :
    {dsg : ℕ} (t : State)
    → IsUp set_up_messages 1 dsg t
    → (q : ℕ) → register16 bms_address q (messages wire1 t.calls) ≡ programmed q
unfolding register16
IsUp-programmed t w q =
    ap (register16 bms_address q) w.heard
    ∙ register16-write_messages
        ((conversion_register, conversion_on_value) ∷ (identity_values ++ config_values)) q []

Served-IsServing : (env : Env) (s t : State) → IsServing env s → Served s t → IsServing env t
Served-IsServing env s t w v =
    let up =
      Stays-IsUp console s t IsOther-console v.stays
        (HasOffsets-eq s t (ap (λ u. u.offsets) v.stays.kept) w.up.offsets) v.buffer w.up in
    record {
      during = w.during;
      reading = Extends-Past console (w.during ◂ analog_read pack_sns) w.reading v.stays.calls;
      up = up;
      chip = IsUp-programmed t up;
    }

module _ (atof : CString → Float) (polls : ℕ) (env : Env)
    (opens : (past : History) → opens_within polls env past ≡ true) (ten_bit : IsTenBit env) where
  -- Every state that the program reaches, as the main program sees it.
  pub Reach-IsServing : {t : State} → Reach atof polls env t → IsServing env t
  Reach-IsServing (started {s} e) =
      let w =
        of_Ends (setup atof polls env initial) (λ _ t. Started env t) tt s
          (setup-Started atof polls env opens ten_bit) e in
      record {
        during = w.during;
        reading = w.reading;
        up = w.standing.up;
        chip = IsUp-programmed s w.standing.up;
      }
  Reach-IsServing (served {s} {t} rounds r e) =
      let w = Reach-IsServing r in
      Served-IsServing env s t w (
        of_After (loop rounds polls env s) (λ _ u. Served s u) tt t
          (loop-Served rounds polls env s w.up.buffer) e)
