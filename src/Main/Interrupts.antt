-- ===== src/Main/Interrupts.antt =====
-- The ready signal of the battery chip at any moment: between any two calls of the main program its
-- service routine (onBMSReadyRise of src/Bms_CoreCommands.cpp) may run, any number of times.

pub mod Quiet
pub mod Blind
pub mod Program
pub mod Effects
pub mod Robot
pub mod Identity
pub mod Validity
mod Tests
use quad_bot_code_actuation.Prelude.{
  ℕ, zero, suc, ◌≡◌, refl, sym, ap, ◌∙◌, true, u32, List, [], ◌∷◌,
}
use quad_bot_code_actuation.Board.{
  Call, micros, History, ◌◂◌, State, Env, M, Run, ok, fault, call, ask, pure, done, ◌>>=◌, ◌>>◌,
}
use quad_bot_code_actuation.Board.Initial.{initial}
use quad_bot_code_actuation.Board.Frames.{signal, graft}
use quad_bot_code_actuation.Bms.Core.{on_bms_ready_rise}

-- How many signals follow the newest call of the main program.
abbrev pub Schedule : Type 0
Schedule = History → ℕ

unfoldable pub signals : ℕ → M (Unit {0})
unfolding on_bms_ready_rise
signals zero = done
signals (suc n) = on_bms_ready_rise >> signals n

-- The state after some signals.
abbrev pub risen : ℕ → Env → State → State
risen zero env s = s
risen (suc n) env s = risen n env (record s {
  calls = s.calls ◂ micros;
  bms_data_ready = true;
  bms_data_timestamp = u32 (env (s.calls ◂ micros));
})

-- What the main program's calls and the signals between them have made of the calls and of the
-- signal's variables.
unfoldable pub seen : Schedule → Env → History → State
seen sched env [] = initial
seen sched env (c ∷ h) =
    let u = seen sched env h in risen (sched (c ∷ h)) env (record u { calls = u.calls ◂ c })

-- What the main program is answered: its calls come after the signals before them.
unfoldable pub heard : Schedule → Env → Env
unfolding seen
heard sched env [] = env []
heard sched env (c ∷ h) = env ((seen sched env h).calls ◂ c)

-- The state in which the main program's state `s` stands when the signals are counted in.
abbrev pub real : Schedule → Env → State → State
real sched env s = graft signal (seen sched env s.calls) s

signals-risen : (n : ℕ) (env : Env) (s : State) → signals n env s ≡ ok tt (risen n env s)
unfolding signals
signals-risen zero env s = refl
signals-risen (suc n) env s = signals-risen n env _

-- Signals change their own variables only.
risen-graft :
    (n : ℕ) (env : Env) (u s : State)
    → risen n env (graft signal u s) ≡ graft signal (risen n env u) s
risen-graft zero env u s = refl
risen-graft (suc n) env u s = risen-graft n env _ s

-- What follows the signals goes on from there.
signals_then :
    {A : Type 0} (n : ℕ) (a : A) (env : Env) (u s : State)
    → (signals n >> pure a) env (graft signal u s) ≡ ok a (graft signal (risen n env u) s)
signals_then {A} n a env u s =
    ap (λ r. elim r as (λ x. Run A) [ ok b t ↦ ok a t | fault x ↦ fault x ])
      (signals-risen n env (graft signal u s))
    ∙ ap (ok a) (risen-graft n env u s)

module _ (sched : Schedule) (env : Env) (c : Call) (s : State) where
  -- The main program and the signals in lockstep: from the real state (signals counted in), a call of the
  -- main program and then the signals that the schedule puts after it, each run as the service routine,
  -- give the answer that the main program hears, and the real state after that call.
  pub ask-real :
      (ask c >>= λ n. signals (sched (s.calls ◂ c)) >> pure n) env (real sched env s)
      ≡ ok (heard sched env (s.calls ◂ c)) (real sched env (record s { calls = s.calls ◂ c }))
  unfolding heard seen
  ask-real =
      let u = seen sched env s.calls in
      signals_then (sched (s.calls ◂ c)) (env (u.calls ◂ c)) env (record u { calls = u.calls ◂ c })
        s

  pub call-real :
      (call c >> signals (sched (s.calls ◂ c)) >> done) env (real sched env s)
      ≡ ok tt (real sched env (record s { calls = s.calls ◂ c }))
  unfolding seen
  call-real =
      let u = seen sched env s.calls in
      signals_then (sched (s.calls ◂ c)) tt env (record u { calls = u.calls ◂ c }) s
