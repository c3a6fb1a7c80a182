-- ===== src/Main/Interrupts/Quiet.antt =====
-- What the devices receive does not show the signals.
use quad_bot_code_actuation.Prelude.{
  ℕ, zero, suc, ◌≡◌, refl, ap, ◌∙◌, Bool, true, false, drop, List, [], ◌∷◌, ◌++◌, ◌+◌, ◌*◌, Option,
  none, some, ◌==◌, if◌then◌else◌,
}
use quad_bot_code_actuation.Board.{
  Bus, Call, History, ◌◂◌, micros, Env, State, digital_write, begin_transmission, wire_write,
  end_transmission, transfer, serial_read,
}
use quad_bot_code_actuation.Board.Traffic.{Message, message, messages, pending, same_bus}
use quad_bot_code_actuation.Board.Pins.{
  cs_value, level, latched, exchanges, strobe, cs_1, cs_2, cs_3, cs_4, inhibit,
}
use quad_bot_code_actuation.Main.Port.{reads, waiting}
use quad_bot_code_actuation.Main.Interrupts.{Schedule, risen, seen}

-- A view of the calls that no reading of the clock changes, and that each call changes the same way
-- whatever calls it was taken of.
record IsView {X : Type 0} (f : History → X) : Type 0 where
  quiet : (h : History) → f (h ◂ micros) ≡ f h
  steps : (c : Call) (h k : History) → f h ≡ f k → f (h ◂ c) ≡ f (k ◂ c)

module _ {X : Type 0} (f : History → X) (v : IsView f) where
  risen-view : (n : ℕ) (env : Env) (s : State) → f (risen n env s).calls ≡ f s.calls
  risen-view zero env s = refl
  risen-view (suc n) env s = risen-view n env _ ∙ v.quiet s.calls

  seen-view : (sched : Schedule) (env : Env) (h : History) → f (seen sched env h).calls ≡ f h
  unfolding seen
  seen-view sched env [] = refl
  seen-view sched env (c ∷ h) =
      risen-view (sched (c ∷ h)) env _
      ∙ v.steps c (seen sched env h).calls h (seen-view sched env h)

reads-IsView : IsView reads
unfolding reads
reads-IsView = record { quiet = λ h. refl; steps = steps }
  where
    steps : (c : Call) (h k : History) → reads h ≡ reads k → reads (h ◂ c) ≡ reads (k ◂ c)
    steps serial_read h k e = ap suc e
    steps c h k e = e

level-IsView : (pin : ℕ) → IsView (level pin)
unfolding level
level-IsView pin = record { quiet = λ h. refl; steps = steps }
  where
    steps :
        (c : Call) (h k : History)
        → level pin h ≡ level pin k
        → level pin (h ◂ c) ≡ level pin (k ◂ c)
    steps (digital_write p v) h k e = rw e refl
    steps c h k e = e

-- The message in the making and the messages sent.
abbrev traffic : Bus → History → Message × List Message
traffic b h = (pending b h, messages b h)

traffic-IsView : (b : Bus) → IsView (traffic b)
unfolding messages
traffic-IsView b = record { quiet = λ h. refl; steps = steps }
  where
    steps :
        (c : Call) (h k : History)
        → traffic b h ≡ traffic b k
        → traffic b (h ◂ c) ≡ traffic b (k ◂ c)
    steps (begin_transmission d a) h k e =
        ap (λ x. (if same_bus b d then message a [] else x.0, x.1)) e
    steps (wire_write d v) h k e =
        ap (λ x. (if same_bus b d then message (x.0).to ((x.0).bytes ++ (v ∷ [])) else x.0, x.1)) e
    steps (end_transmission d stop) h k e =
        ap (λ x. (x.0, if same_bus b d then x.0 ∷ x.1 else x.1)) e
    steps c h k e = e

-- The level of each pin, the channel that the select pins latched, and the bytes sent to encoders.
abbrev wiring : History → (ℕ → ℕ) × ℕ × List (Option ℕ × ℕ)
wiring h = (λ pin. level pin h, latched h, exchanges h)

latch : (ℕ → ℕ) → ℕ → ℕ
latch g before = if g strobe == 1 then g cs_1 + 2 * g cs_2 + 4 * g cs_3 + 8 * g cs_4 else before

twice : (b : Bool) (x y : ℕ) → (if b then x else if b then x else y) ≡ (if b then x else y)
twice true x y = refl
twice false x y = refl

-- The multiplexer has settled after each call.
settled : (h : History) → latch (λ pin. level pin h) (latched h) ≡ latched h
unfolding latch latched
settled [] = refl
settled (c ∷ h) = twice (level strobe (c ∷ h) == 1) (cs_value (c ∷ h)) (latched h)

wiring-IsView : IsView wiring
unfolding exchanges latch
wiring-IsView = record {
  quiet = λ h. ap (λ n. ((λ pin. level pin h), n, exchanges h)) (settled h);
  steps = steps;
}
  where
    set_pin : ℕ → ℕ → (ℕ → ℕ) → ℕ → ℕ
    set_pin p v g pin = if p == pin then v else g pin

    steps : (c : Call) (h k : History) → wiring h ≡ wiring k → wiring (h ◂ c) ≡ wiring (k ◂ c)
    steps (digital_write p v) h k e =
        ap (λ x. (set_pin p v x.0, latch (set_pin p v x.0) x.1, x.2)) e
    steps (transfer b) h k e =
        ap (λ x. (x.0, latch x.0 x.1, ((if x.0 inhibit == 0 then some x.1 else none), b) ∷ x.2)) e
    steps c h k e = ap (λ x. (x.0, latch x.0 x.1, x.2)) e

-- With the signals counted in, each bus has had the same messages, each pin has the same level, each
-- encoder has had the same bytes, and the same bytes wait in the serial port.
module _ (sched : Schedule) (env : Env) (h : History) where
  pub seen-messages : (b : Bus) → messages b (seen sched env h).calls ≡ messages b h
  seen-messages b = ap (λ x. x.1) (seen-view (traffic b) (traffic-IsView b) sched env h)

  pub seen-level : (pin : ℕ) → level pin (seen sched env h).calls ≡ level pin h
  seen-level pin = seen-view (level pin) (level-IsView pin) sched env h

  pub seen-exchanges : exchanges (seen sched env h).calls ≡ exchanges h
  seen-exchanges = ap (λ x. x.2) (seen-view wiring wiring-IsView sched env h)

  pub seen-waiting : (bytes : List ℕ) → waiting bytes (seen sched env h).calls ≡ waiting bytes h
  unfolding waiting
  seen-waiting bytes = ap (λ n. drop n bytes) (seen-view reads reads-IsView sched env h)
