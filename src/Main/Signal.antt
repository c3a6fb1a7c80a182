-- ===== src/Main/Signal.antt =====
-- The ready signal of the battery chip, calls of `loop` of main.cpp, and the test whether the data are
-- still valid.
use quad_bot_code_actuation.Prelude.{ℕ, ◌+◌, ◌^◌, ◌<◌, ◌≡◌, refl, ap, ◌∙◌, ltb, u32, true, arith}
use quad_bot_code_actuation.Board.{State, Env, Ends, Ends_weaken, micros, ◌◂◌, ok, ◌>>◌}
use quad_bot_code_actuation.Board.Frames.{After, After_weaken, of_After}
use quad_bot_code_actuation.Bms.Core.{on_bms_ready_rise, is_bms_data_valid}
use quad_bot_code_actuation.Bms.Clock.{is_bms_data_valid_window}
use quad_bot_code_actuation.Main.Console.{loop}
use quad_bot_code_actuation.Main.Typing.{IsBuffer}
use quad_bot_code_actuation.Main.Ready.{IsBuffer-eq}
use quad_bot_code_actuation.Main.Serving.{Served, loop-Served}

-- The signal is remembered.
record Signalled (moment : ℕ) (t : State) : Type 0 where
  ready : t.bms_data_ready ≡ true
  since : t.bms_data_timestamp ≡ moment

loop-Signalled :
    (rounds polls : ℕ) (env : Env) (s : State)
    → IsBuffer s
    → After
        ((on_bms_ready_rise >> loop rounds polls) env s)
        λ _ t. Signalled (u32 (env (s.calls ◂ micros))) t
unfolding on_bms_ready_rise
loop-Signalled rounds polls env s b =
    let u = record s {
      calls = s.calls ◂ micros;
      bms_data_ready = true;
      bms_data_timestamp = u32 (env (s.calls ◂ micros));
    } in
    After_weaken (loop rounds polls env u) (λ _ t. Served u t) _
      (λ _ t w. record {
        ready = ap (λ v. v.bms_data_ready) w.stays.kept;
        since = ap (λ v. v.bms_data_timestamp) w.stays.kept;
      })
      (loop-Served rounds polls env u (IsBuffer-eq s u refl refl b))

-- After a ready signal and then a call of `loop` with whatever arrives on the serial port, the data are
-- reported as valid exactly while less than 211580 microseconds have passed since the signal, and the
-- signal is still remembered. The call of `loop` returns, and the 32-bit clock does not wrap around in
-- the window.
pub signal-is_bms_data_valid :
    (rounds polls : ℕ) (env : Env) (s t : State)
    → IsBuffer s
    → (on_bms_ready_rise >> loop rounds polls) env s ≡ ok tt t
    → env (s.calls ◂ micros) + 211580 < 2 ^ 32
    → env (t.calls ◂ micros) < 2 ^ 32
    → Ends (is_bms_data_valid env t) λ valid u.
      (valid ≡ ltb (env (t.calls ◂ micros)) (env (s.calls ◂ micros) + 211580))
      × (t.bms_data_ready ≡ true)
signal-is_bms_data_valid rounds polls env s t b e h k =
    let w =
      of_After ((on_bms_ready_rise >> loop rounds polls) env s)
        (λ _ t. Signalled (u32 (env (s.calls ◂ micros))) t) tt t
        (loop-Signalled rounds polls env s b) e in
    let moment : t.bms_data_timestamp ≡ env (s.calls ◂ micros) = omega (arith, w.since, h) in
    Ends_weaken (is_bms_data_valid env t) _ _
      (λ valid u q. (q ∙ ap (λ m. ltb (env (t.calls ◂ micros)) (m + 211580)) moment, w.ready))
      (is_bms_data_valid_window env t (omega (arith, moment, h)) k)
