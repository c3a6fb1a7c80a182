-- ===== src/Main/Interrupts/Effects.antt =====
-- From power on to the registers, with the ready signal coming at any moment.
use quad_bot_code_actuation.Prelude.{
  ℕ, zero, suc, ◌<◌, ◌≡◌, refl, ap, ◌∙◌, Bool, true, false, ◌==◌, u32, List, [], ◌∷◌, CString,
  length, if◌then◌else◌, arith,
}
use quad_bot_code_actuation.Float.{Float}
use quad_bot_code_actuation.Board.{
  State, Env, History, micros, ◌◂◌, wire, wire1, Ends, Ends-bind, Ends_weaken, ◌>>◌,
}
use quad_bot_code_actuation.Board.Frames.{console, Ends_after}
use quad_bot_code_actuation.Board.Devices.{Extends-messages}
use quad_bot_code_actuation.Board.Traffic.{messages, register}
use quad_bot_code_actuation.Board.Initial.{initial}
use quad_bot_code_actuation.Power.Sequence.{IsTenBit}
use quad_bot_code_actuation.MotorDriver.Registers.{registers_of}
use quad_bot_code_actuation.Main.Setup.{setup}
use quad_bot_code_actuation.Main.Console.{loop}
use quad_bot_code_actuation.Main.Lines.{content}
use quad_bot_code_actuation.Main.Buses.{opens_within}
use quad_bot_code_actuation.Main.Standing.{Started, set_up_registers, set_up_messages}
use quad_bot_code_actuation.Main.Start.{setup-Started}
use quad_bot_code_actuation.Main.Serving.{Served, loop-Served}
use quad_bot_code_actuation.Main.Port.{waiting, IsPort}
use quad_bot_code_actuation.Main.InLine.{InLine}
use quad_bot_code_actuation.Main.Entries.{Line, AllLines, AllAnswer, printed, effects}
use quad_bot_code_actuation.Main.PowerOn.{Started-effects}
use quad_bot_code_actuation.Main.Interrupts.{Schedule, risen, seen, heard, real}
use quad_bot_code_actuation.Main.Interrupts.Quiet.{seen-messages, seen-waiting}

-- Whether a signal came after one of the calls, and the clock at the last one.
unfoldable pub signalled : Schedule → History → Bool
signalled sched [] = false
signalled sched (c ∷ h) =
    let before = signalled sched h in if sched (c ∷ h) == 0 then before else true

unfoldable pub latest : Schedule → Env → History → ℕ
unfolding seen
latest sched env [] = 0
latest sched env (c ∷ h) =
    let before = latest sched env h in
    if sched (c ∷ h) == 0 then before else u32 (env (seen sched env (c ∷ h)).calls)

risen-ready :
    (n : ℕ) (env : Env) (s : State)
    → (risen n env s).bms_data_ready ≡ (if n == 0 then s.bms_data_ready else true)
risen-ready zero env s = refl
risen-ready (suc zero) env s = refl
risen-ready (suc (suc n)) env s = ground (
  arith,
  risen-ready (suc n) env (record s {
    calls = s.calls ◂ micros;
    bms_data_ready = true;
    bms_data_timestamp = u32 (env (s.calls ◂ micros));
  }),
)

risen-timestamp :
    (n : ℕ) (env : Env) (s : State)
    → (risen n env s).bms_data_timestamp
      ≡ (if n == 0 then s.bms_data_timestamp else u32 (env (risen n env s).calls))
risen-timestamp zero env s = refl
risen-timestamp (suc zero) env s = refl
risen-timestamp (suc (suc n)) env s = ground (
  arith,
  risen-timestamp (suc n) env (record s {
    calls = s.calls ◂ micros;
    bms_data_ready = true;
    bms_data_timestamp = u32 (env (s.calls ◂ micros));
  }),
)

pub seen-ready :
    (sched : Schedule) (env : Env) (h : History)
    → (seen sched env h).bms_data_ready ≡ signalled sched h
unfolding seen signalled
seen-ready sched env [] = refl
seen-ready sched env (c ∷ h) =
    risen-ready (sched (c ∷ h)) env _
    ∙ ap (λ b. if sched (c ∷ h) == 0 then b else true) (seen-ready sched env h)

pub seen-timestamp :
    (sched : Schedule) (env : Env) (h : History)
    → (seen sched env h).bms_data_timestamp ≡ latest sched env h
unfolding seen latest
seen-timestamp sched env [] = refl
seen-timestamp sched env (c ∷ h) =
    risen-timestamp (sched (c ∷ h)) env _
    ∙ ap (λ n. if sched (c ∷ h) == 0 then n else u32 (env (seen sched env (c ∷ h)).calls))
        (seen-timestamp sched env h)

heard-IsPort :
    (sched : Schedule) (bytes : List ℕ) (env : Env)
    → IsPort bytes env
    → IsPort bytes (heard sched env)
unfolding heard
heard-IsPort sched bytes env p = record {
  available =
      λ h. p.available (seen sched env h).calls ∙ ap length (seen-waiting sched env h bytes);
  read = λ h c cs w. p.read (seen sched env h).calls c cs (seen-waiting sched env h bytes ∙ w);
}

pub heard-IsTenBit : (sched : Schedule) (env : Env) → IsTenBit env → IsTenBit (heard sched env)
unfolding heard
heard-IsTenBit sched env h past = h (seen sched env past).calls

-- The real state when every line is carried out.
pub record Carried (sched : Schedule) (env : Env) (ls : List Line) (t : State) : Type 0 where
  pub registers : registers_of (real sched env t) ≡ effects ls set_up_registers
  pub told : messages wire1 (real sched env t).calls ≡ set_up_messages
  pub left : waiting (printed ls) (real sched env t).calls ≡ []
  pub empty : content (real sched env t) ≡ []
  pub ready : (real sched env t).bms_data_ready ≡ signalled sched t.calls
  pub since : (real sched env t).bms_data_timestamp ≡ latest sched env t.calls

module _ (sched : Schedule) (atof : CString → Float) (polls : ℕ) (env : Env)
    (opens : (past : History) → opens_within polls (heard sched env) past ≡ true)
    (ten_bit : IsTenBit env) (ls : List Line) (port : IsPort (printed ls) env) (h : AllLines ls)
    (answers : AllAnswer ls polls (heard sched env)) (rounds : ℕ)
    (enough : length (printed ls) < rounds) where
  carried :
      (s t : State)
      → Started (heard sched env) s
      → InLine (printed ls) (effects ls set_up_registers) [] [] t
      → Served s t
      → Carried sched env ls t
  unfolding registers_of
  carried s t w i v = record {
    registers =
        ap (λ m ctl a q. register ctl a q m) (seen-messages sched env t.calls wire) ∙ i.registers;
    told =
        seen-messages sched env t.calls wire1
        ∙ Extends-messages console wire1 s.calls refl v.stays.calls
        ∙ w.standing.up.heard;
    left = seen-waiting sched env t.calls (printed ls) ∙ i.left;
    empty = i.gathered;
    ready = seen-ready sched env t.calls;
    since = seen-timestamp sched env t.calls;
  }

  -- The ready signal may come after any call of the main program, any number of times. Whenever it comes,
  -- `setup` and then one call of `loop` return from the state in which the program starts, with lines in
  -- the serial port: motor commands and the tests "a" to "d" as they are printed, "abc", and other text of
  -- bytes from the space on that is no test and in which the two scans find no command, no word of more
  -- than 15 bytes and no number that no `int` holds. In the real state, signals counted in, each motor driver has exactly the
  -- registers of its start-up changed by the commands one after the other; the battery chip was sent its
  -- configuration, its identity and the start of its conversions and nothing else; every byte is taken
  -- and the line is empty; and the signal's variables say whether a signal has come, and the clock at the
  -- last one. The serial port opens within its tests, and a chip that is read answers within the polls, as
  -- the main program sees it; the converter has 10 bits; `loop` has more rounds than there are bytes; each
  -- command has the numbers that its word takes, each an `int`, a channel up to 7 and a chip that is not
  -- the multiplexer; and each line has at most 31 bytes and ends with `\n` or `\r`.
  pub setup-loop-Carried :
      Ends
        ((setup atof polls >> loop rounds polls) (heard sched env) initial)
        λ _ t. Carried sched env ls t
  setup-loop-Carried =
      let e = heard sched env in
      let ten = heard-IsTenBit sched env ten_bit in
      Ends-bind (setup atof polls) (λ _. loop rounds polls) (λ _ s. Started e s) _ e initial
        (setup-Started atof polls e opens ten)
        λ _ s w.
          Ends_weaken (loop rounds polls e s) _ _ (λ _ t x. carried s t w x.0 x.1)
            (Ends_after (loop rounds polls e s) _ _
              (Started-effects atof polls e opens ten ls (heard-IsPort sched (printed ls) env port)
                h answers rounds enough s w)
              (loop-Served rounds polls e s w.standing.up.buffer))
