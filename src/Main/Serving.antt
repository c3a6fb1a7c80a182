-- ===== src/Main/Serving.antt =====
-- `loop` of main.cpp, whatever arrives on the serial port.
use quad_bot_code_actuation.Prelude.{
  ℕ, zero, suc, ◌≡◌, refl, sym, subst, ap, ◌∙◌, Bool, true, false, ◌==◌, u8, CString, List, [], set,
  arith, length-set, Bool-cases, inl, inr,
}
use quad_bot_code_actuation.Board.{
  Bus, wire, wire1, begin_transmission, wire_write, end_transmission, request_from, wire_available,
  wire_read, Call, History, State, Env, M, ◌◂◌, ask, done, serial_available, serial_read, ◌>>=◌,
  ◌>>◌,
}
use quad_bot_code_actuation.Board.Frames.{
  motors, console, owns, allowed, Extends, same, more, Stays, Stays-trans, After, After_then,
  After_weaken,
}
use quad_bot_code_actuation.Main.Console.{on_char, loop, run_line, c_string}
use quad_bot_code_actuation.Main.Typing.{
  IsBuffer, is_end, typed, typed-IsBuffer, on_char-typed, put_byte_known,
}
use quad_bot_code_actuation.Main.Lines.{content, clear, echoed, with_line, typed_only, on_char-end}
use quad_bot_code_actuation.Main.Ready.{IsBuffer-eq}
use quad_bot_code_actuation.Main.Frames.{run_line-Keeps}

-- The line buffer is sound, and only the console's variables and calls have changed.
pub record Served (s t : State) : Type 0 where
  pub buffer : IsBuffer t
  pub stays : Stays console s t

bus : (b : Bus) → owns motors b ≡ true → owns console b ≡ true
bus wire h = refl
bus wire1 h = h

-- The motors' calls are the console's too.
motors-allowed : (c : Call) → allowed motors c ≡ true → allowed console c ≡ true
motors-allowed (wire_read b) h = bus b h
motors-allowed (wire_available b) h = bus b h
motors-allowed (request_from b a n) h = bus b h
motors-allowed (end_transmission b stop) h = bus b h
motors-allowed (wire_write b v) h = bus b h
motors-allowed (begin_transmission b a) h = bus b h
motors-allowed c h = ground arith

Extends-console : {h k : History} → Extends motors h k → Extends console h k
Extends-console same = same
Extends-console (more {c} a e) = more (motors-allowed c a) (Extends-console e)

Stays-console : (s t : State) → Stays motors s t → Stays console s t
Stays-console s t k = record {
  calls = Extends-console k.calls;
  kept = ap {A = State} {B = State} (λ u. record u { input_buffer = []; input_pos = 0 }) k.kept;
}

Stays-with_line : (b : List ℕ) (p : ℕ) (s : State) → Stays console s (with_line b p s)
Stays-with_line b p s = record { calls = same; kept = refl }

typed-Served : (c : ℕ) (s : State) → IsBuffer s → Served s (typed c s)
typed-Served c s b =
    let (buf, p, e) = typed_only c s in
    record {
      buffer = typed-IsBuffer c s b;
      stays = subst (Stays console s) (sym e) (Stays-with_line buf p s);
    }

-- `inputPos = 0; inputBuffer[0] = 0`
clear-Served : (env : Env) (s : State) → IsBuffer s → After (clear env s) λ _ t. Served s t
clear-Served env s b =
    let u = record s { input_pos = 0 } in
    subst (λ r. After r λ _ t. Served s t) (sym (put_byte_known 0 0 env u (omega (arith, b.size))))
      (record {
        buffer = record { size = length-set s.input_buffer 0 0 ∙ b.size; room = omega arith };
        stays = record { calls = same; kept = refl };
      })

line-Served :
    (polls : ℕ) (line : CString) (env : Env) (s : State)
    → IsBuffer s
    → After ((run_line polls line >> clear) env s) λ _ t. Served s t
line-Served polls line env s b =
    After_then (run_line polls line env s) (λ _ t. clear env t) (λ _ t. Stays motors s t)
      (λ _ t. Served s t) ((run_line-Keeps polls line).run env s)
      λ _ t k.
        After_weaken (clear env t) (λ _ u. Served t u) (λ _ u. Served s u)
          (λ _ u v. record {
            buffer = v.buffer;
            stays = Stays-trans s t u (Stays-console s t k) v.stays;
          })
          (clear-Served env t
            (IsBuffer-eq s t (ap (λ u. u.input_buffer) k.kept) (ap (λ u. u.input_pos) k.kept) b))

pub on_char-Served :
    (polls c : ℕ) (env : Env) (s : State)
    → IsBuffer s
    → After (on_char polls c env s) λ _ t. Served s t
on_char-Served polls c env s b = elim (Bool-cases (is_end c)) [
  | inl e ↦
      let line = c_string (content s) in
      let t = with_line (set s.input_buffer s.input_pos 0) s.input_pos s in
      let u = echoed line t in
      let stored : IsBuffer u = record {
        size = length-set s.input_buffer s.input_pos 0 ∙ b.size;
        room = b.room;
      } in
      subst (λ r. After r λ _ v. Served s v) (sym (on_char-end polls c env s b e))
        (After_weaken ((run_line polls line >> clear) env u) (λ _ v. Served u v) (λ _ v. Served s v)
          (λ _ v w. record {
            buffer = w.buffer;
            stays =
                Stays-trans s u v (record { calls = more refl (more refl same); kept = refl })
                  w.stays;
          })
          (line-Served polls line env u stored))
  | inr e ↦
      subst (λ r. After r λ _ v. Served s v) (sym (on_char-typed polls c env s b e))
        (typed-Served c s b)
]

-- Any number of bytes leave the line buffer sound, and change nothing but it, the motors and the
-- remembered channel.
pub loop-Served :
    (rounds polls : ℕ) (env : Env) (s : State)
    → IsBuffer s
    → After (loop rounds polls env s) λ _ t. Served s t
unfolding loop
loop-Served zero polls env s b = tt
loop-Served (suc rounds) polls env s b =
    let t = record s { calls = s.calls ◂ serial_available } in
    let asked : Served s t = record {
      buffer = IsBuffer-eq s t refl refl b;
      stays = record { calls = more refl same; kept = refl };
    } in
    split (env t.calls == 0) t asked (
      let u = record t { calls = t.calls ◂ serial_read } in
      After_then (on_char polls (u8 (env u.calls)) env u) (λ _ v. loop rounds polls env v)
        (λ _ v. Served s v) (λ _ v. Served s v)
        (After_weaken (on_char polls (u8 (env u.calls)) env u) (λ _ v. Served u v)
          (λ _ v. Served s v)
          (λ _ v w. record {
            buffer = w.buffer;
            stays =
                Stays-trans s u v (record { calls = more refl (more refl same); kept = refl })
                  w.stays;
          })
          (on_char-Served polls (u8 (env u.calls)) env u (IsBuffer-eq s u refl refl b)))
        λ _ v w.
          After_weaken (loop rounds polls env v) (λ _ x. Served v x) (λ _ x. Served s x)
            (λ _ x y. record { buffer = y.buffer; stays = Stays-trans s v x w.stays y.stays })
            (loop-Served rounds polls env v w.buffer))
  where
    split :
        (e : Bool) (t : State)
        → Served s t
        → After
            ((do c ← ask serial_read; on_char polls (u8 c); loop rounds polls) env t)
            (λ _ v. Served s v)
        → After
            ((elim e as (λ x. M (Unit {0})) [
              | true ↦ done
              | false ↦ do c ← ask serial_read; on_char polls (u8 c); loop rounds polls
            ])
              env t)
            (λ _ v. Served s v)
    split true t h k = h
    split false t h k = k
