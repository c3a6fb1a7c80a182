-- ===== src/Main/Interrupts/Validity.antt =====
-- Whether the data of the battery chip are valid, asked while the robot is at work.
use quad_bot_code_actuation.Prelude.{
  ℕ, ◌+◌, ◌-◌, ◌≤◌, ◌^◌, ◌<◌, ◌≡◌, ap, ◌∙◌, true, ltb, CString, arith,
}
use quad_bot_code_actuation.Float.{Float}
use quad_bot_code_actuation.Board.{State, Env, History, Ends, Ends_weaken, micros, ◌◂◌}
use quad_bot_code_actuation.Power.Sequence.{IsTenBit}
use quad_bot_code_actuation.Bms.Core.{is_bms_data_valid}
use quad_bot_code_actuation.Bms.Clock.{is_bms_data_valid_window}
use quad_bot_code_actuation.Main.Buses.{opens_within}
use quad_bot_code_actuation.Main.Robot.{Reach}
use quad_bot_code_actuation.Main.Interrupts.{Schedule, heard, real}
use quad_bot_code_actuation.Main.Interrupts.Effects.{latest}
use quad_bot_code_actuation.Main.Interrupts.Robot.{Reach-IsServingNow}

elapsed : (now start : ℕ) → start ≤ now → ltb now (start + 211580) ≡ ltb (now - start) 211580
elapsed now start h = ground arith

-- In every state that the program reaches between its calls of `loop`, whatever was typed and with the
-- ready signal coming after any call, the data are reported as valid exactly when the clock, as it is
-- read, is less than 211580 microseconds after its value at the last signal, or after 0 when no signal has
-- come. The value at the signal is more than 211580 below 2 ^ 32, and the 32-bit clock that is read has not
-- wrapped around to less than that value. The serial port opens within its tests, as the main program sees
-- it, and the converter has 10 bits.
pub Reach-is_bms_data_valid :
    (sched : Schedule) (atof : CString → Float) (polls : ℕ) (env : Env)
    → ((past : History) → opens_within polls (heard sched env) past ≡ true)
    → IsTenBit env
    → (t : State) → Reach atof polls (heard sched env) t
    → latest sched env t.calls + 211580 < 2 ^ 32
    → latest sched env t.calls ≤ env ((real sched env t).calls ◂ micros)
    → env ((real sched env t).calls ◂ micros) < 2 ^ 32
    → Ends (is_bms_data_valid env (real sched env t)) λ valid _.
      valid ≡ ltb (env ((real sched env t).calls ◂ micros) - latest sched env t.calls) 211580
Reach-is_bms_data_valid sched atof polls env opens ten_bit t r h l k =
    let since = (Reach-IsServingNow sched atof polls env opens ten_bit r).since in
    let now = env ((real sched env t).calls ◂ micros) in
    Ends_weaken (is_bms_data_valid env (real sched env t)) _ _
      (λ valid _ q.
        q ∙ ap (λ m. ltb now (m + 211580)) since ∙ elapsed now (latest sched env t.calls) l)
      (is_bms_data_valid_window env (real sched env t) (omega (arith, since, h)) k)
