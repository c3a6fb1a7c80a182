-- ===== src/Main/InLine.antt =====
-- A line that is being typed, while more bytes wait in the serial port.
use mathlib.Core.List.{append_assoc, append-nil}
use quad_bot_code_actuation.Prelude.{
  ℕ, zero, suc, ◌+◌, ◌≤◌, ◌<◌, ◌≡◌, sym, subst, ap, ◌∙◌, true, false, ltb, List, [], ◌∷◌, ◌++◌,
  arith, length, length-append,
}
use quad_bot_code_actuation.Board.{State, Env, ok, fault, Run}
use quad_bot_code_actuation.Board.Traffic.{messages}
use quad_bot_code_actuation.I2cMux.Selection.{IsInSync}
use quad_bot_code_actuation.MotorDriver.Registers.{Registers, registers_of}
use quad_bot_code_actuation.Main.Console.{loop}
use quad_bot_code_actuation.Main.Typing.{IsBuffer, is_end, typed, on_char-typed, typed-IsBuffer}
use quad_bot_code_actuation.Main.Lines.{content, length-content, content-typed, typed_only}
use quad_bot_code_actuation.Main.Plain.{all_plain}
use quad_bot_code_actuation.Main.Port.{waiting, IsPort, taken, taken-waiting, loop_byte}

-- In the middle of a line: what has been typed of it, what waits in the port, and the registers.
pub record InLine (bytes : List ℕ) (x : Registers) (line rest : List ℕ) (s : State) : Type 0 where
  pub buffer : IsBuffer s
  pub sync : IsInSync s
  pub gathered : content s ≡ line
  pub left : waiting bytes s.calls ≡ rest
  pub registers : registers_of s ≡ x

module _ (bytes : List ℕ) (env : Env) (port : IsPort bytes env) (polls : ℕ) where
  pub taken-InLine :
      (x : Registers) (line : List ℕ) (c : ℕ) (rest : List ℕ) (rounds : ℕ) (s : State)
      → InLine bytes x line (c ∷ rest) s
      → InLine bytes x line rest (taken bytes env port rounds polls s)
  unfolding messages registers_of
  taken-InLine x line c rest rounds s i = record {
    buffer = record { size = i.buffer.size; room = i.buffer.room };
    sync = record { channel = i.sync.channel; same = i.sync.same };
    gathered = i.gathered;
    left = taken-waiting bytes env port rounds polls s c rest i.left;
    registers = i.registers;
  }

  typed-InLine :
      (x : Registers) (line : List ℕ) (c : ℕ) (rest : List ℕ) (s : State)
      → InLine bytes x line rest s
      → length line < 31
      → InLine bytes x (line ++ (c ∷ [])) rest (typed c s)
  unfolding registers_of
  typed-InLine x line c rest s i l =
      let full =
        length-content s.input_pos s.input_buffer (omega (arith, i.buffer.size, i.buffer.room)) in
      let at : s.input_pos ≡ length line = sym full ∙ ap length i.gathered in
      let room : ltb s.input_pos 31 ≡ true = ground (arith, at, l) in
      let (b, p, q) = typed_only c s in
      record {
        buffer = typed-IsBuffer c s i.buffer;
        sync = subst IsInSync (sym q) (record { channel = i.sync.channel; same = i.sync.same });
        gathered = content-typed c s i.buffer room ∙ ap (λ y. y ++ (c ∷ [])) i.gathered;
        left = ap (λ t. waiting bytes t.calls) q ∙ i.left;
        registers = ap registers_of q ∙ i.registers;
      }

  -- Plain bytes are gathered, a round of the loop for each.
  pub gather :
      (x : Registers) (line cs rest : List ℕ) (rounds n : ℕ) (s : State)
      → InLine bytes x line (cs ++ rest) s
      → all_plain cs ≡ true
      → length line + length cs ≤ 31
      → n ≡ length cs + rounds
      → (t : State) × (InLine bytes x (line ++ cs) rest t)
        × (loop n polls env s ≡ loop rounds polls env t)
  gather x line [] rest rounds n s i h l e = (
    s,
    subst (λ y. InLine bytes x y rest s) (sym (append-nil line)) i,
    ap (λ k. loop k polls env s) (omega (arith, e)),
  )
  gather x line (c ∷ cs) rest rounds zero s i h l e = absurd (omega (arith, e))
  gather x line (c ∷ cs) rest rounds (suc n) s i h l e =
      let u = taken bytes env port n polls s in
      let j = taken-InLine x line c (cs ++ rest) n s i in
      let inside : is_end c ≡ false = ground (arith, h) in
      let (t, k, q) =
        gather x (line ++ (c ∷ [])) cs rest rounds n (typed c u)
          (typed-InLine x line c (cs ++ rest) u j (omega (arith, l))) (ground (arith, h))
          (omega (arith, l, length-append line (c ∷ []))) (omega (arith, e)) in
      (
        t,
        subst (λ y. InLine bytes x y rest t) (append_assoc line (c ∷ []) cs) k,
        loop_byte bytes env port n polls s c (cs ++ rest) i.left (ground (arith, h))
            ∙ ap
                (λ r. elim r as (λ x. Run (Unit {0})) [
                  | ok a t ↦ loop n polls env t
                  | fault x ↦ fault x
                ])
                (on_char-typed polls c env u j.buffer inside)
            ∙ q,
      )
