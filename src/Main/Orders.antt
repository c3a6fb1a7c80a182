-- ===== src/Main/Orders.antt =====
-- Lines that wait in the serial port: `loop` reads, gathers and carries out every one.
use quad_bot_code_actuation.Prelude.{
  str, ℕ, zero, suc, ◌<◌, ◌≡◌, refl, sym, subst, ap, ◌∙◌, List, [], ◌∷◌, map, set, take, drop,
  arith, length, length-append, length-set, ◌-◌, true,
}
use quad_bot_code_actuation.Prelude.Int.{pos}
use quad_bot_code_actuation.Board.{println, text, ◌◂◌, State, Env, Ends, Ends-bind, Ends_step, ◌>>◌}
use quad_bot_code_actuation.Board.Frames.{motors, Ends_after}
use quad_bot_code_actuation.Board.Traffic.{messages}
use quad_bot_code_actuation.I2cMux.Selection.{IsInSync}
use quad_bot_code_actuation.MotorDriver.Registers.{Registers, registers_of}
use quad_bot_code_actuation.Main.Console.{run_line, on_char, loop, c_string}
use quad_bot_code_actuation.Main.Typing.{IsBuffer, is_end, put_byte_known}
use quad_bot_code_actuation.Main.Lines.{content, clear, echoed, with_line, on_char-end}
use quad_bot_code_actuation.Main.Frames.{run_line-Keeps}
use quad_bot_code_actuation.Main.Moves.{effect_of, run_line-Wrote}
use quad_bot_code_actuation.Main.Printing.{command_line, command_line-IsScanned}
use quad_bot_code_actuation.Main.Plain.{plain_c_string}
use quad_bot_code_actuation.Main.Dispatch.{run_line_abc, run_line_other}
use quad_bot_code_actuation.Main.Port.{
  reads, waiting, IsPort, taken, loop_byte, loop_none, Extends-reads,
}
use quad_bot_code_actuation.Main.InLine.{InLine, taken-InLine, gather}
use quad_bot_code_actuation.Main.Entries.{
  HasAnswer, AllAnswer, abc, Entry, Line, IsEntry, AllLines, written, printed, effect, effects,
  written_plain, written_room, end_small, order, other,
}

module _ (bytes : List ℕ) (env : Env) (port : IsPort bytes env) (polls : ℕ) where
  -- The line is emptied after it is carried out.
  cleared-InLine :
      (x : Registers) (rest : List ℕ) (t : State)
      → length t.input_buffer ≡ 32
      → waiting bytes t.calls ≡ rest
      → IsInSync t
      → registers_of t ≡ x
      → Ends (clear env t) λ _ u. InLine bytes x [] rest u
  unfolding messages registers_of waiting
  cleared-InLine x rest t size w i r =
      subst (λ y. Ends y λ _ u. InLine bytes x [] rest u)
        (sym (put_byte_known 0 0 env (record t { input_pos = 0 }) (omega (arith, size))))
        (record {
          buffer = record { size = length-set t.input_buffer 0 0 ∙ size; room = omega arith };
          sync = record { channel = i.channel; same = i.same };
          gathered = refl;
          left = w;
          registers = r;
        })

  -- What a line does, once it is gathered.
  entry-InLine :
      (e : Entry) (x : Registers) (rest : List ℕ) (s : State)
      → IsEntry e
      → length s.input_buffer ≡ 32
      → waiting bytes s.calls ≡ rest
      → IsInSync s
      → registers_of s ≡ x
      → HasAnswer e polls env
      → Ends
          ((run_line polls (written e) >> clear) env s)
          λ _ t. InLine bytes (effect e x) [] rest t
  unfolding messages registers_of waiting reads
  entry-InLine (order w ns) x rest s h size left i r heard =
      Ends-bind (run_line polls (command_line w ns)) (λ _. clear) _ _ env s
        (Ends_after (run_line polls (command_line w ns) env s) _ _
          (run_line-Wrote w polls (command_line w ns) (map pos ns) env s
            (command_line-IsScanned w ns h.fit h.all) h.channel h.chip i heard)
          ((run_line-Keeps polls (command_line w ns)).run env s))
        λ _ t (e, k).
          cleared-InLine (effect_of w (map pos ns) x) rest t
            (ap (λ u. length u.input_buffer) k.kept ∙ size)
            (ap (λ n. drop n bytes) (Extends-reads motors s.calls refl k.calls) ∙ left) e.sync
            (e.registers ∙ ap (effect_of w (map pos ns)) r)
  entry-InLine abc x rest s h size left i r heard =
      let t = record s { calls = s.calls ◂ println (text (str "Running test for 'abc'!")) } in
      Ends_step (run_line polls (str "abc")) (λ _. clear) (λ _ u. InLine bytes x [] rest u) env s t
        tt (run_line_abc polls env s)
        (cleared-InLine x rest t size left (record { channel = i.channel; same = i.same }) r)
  entry-InLine (other l) x rest s h size left i r heard =
      Ends_step (run_line polls l) (λ _. clear) (λ _ t. InLine bytes x [] rest t) env s s tt
        (run_line_other polls l env s h.four h.two h.untested)
        (cleared-InLine x rest s size left i r)

  -- The end of a line.
  end-InLine :
      (e : Entry) (x : Registers) (c : ℕ) (rest : List ℕ) (s : State)
      → IsEntry e
      → is_end c ≡ true
      → InLine bytes x (written e) rest s
      → HasAnswer e polls env
      → Ends (on_char polls c env s) λ _ t. InLine bytes (effect e x) [] rest t
  unfolding messages registers_of waiting reads
  end-InLine e x c rest s h end i heard =
      let text : c_string (content s) ≡ written e =
        ap c_string i.gathered ∙ plain_c_string (written e) (written_plain e h) in
      let t = with_line (set s.input_buffer s.input_pos 0) s.input_pos s in
      subst (λ r. Ends r λ _ t. InLine bytes (effect e x) [] rest t)
        (sym (
          on_char-end polls c env s i.buffer end
          ∙ ap (λ y. (run_line polls y >> clear) env (echoed y t)) text))
        (entry-InLine e x rest (echoed (written e) t) h
          (length-set s.input_buffer s.input_pos 0 ∙ i.buffer.size) i.left
          (record { channel = i.sync.channel; same = i.sync.same }) i.registers heard)

  pub lines-InLine :
      (ls : List Line) (x : Registers) (rounds : ℕ) (s : State)
      → AllLines ls
      → AllAnswer ls polls env
      → InLine bytes x [] (printed ls) s
      → length (printed ls) < rounds
      → Ends (loop rounds polls env s) λ _ t. InLine bytes (effects ls x) [] [] t
  unfolding messages registers_of waiting reads
  lines-InLine ls x zero s h a i l = absurd (omega (arith, l))
  lines-InLine [] x (suc rounds) s h a i l =
      subst (λ r. Ends r λ _ t. InLine bytes x [] [] t)
        (sym (loop_none bytes env port rounds polls s i.left))
        (record {
          buffer = record { size = i.buffer.size; room = i.buffer.room };
          sync = record { channel = i.sync.channel; same = i.sync.same };
          gathered = i.gathered;
          left = i.left;
          registers = i.registers;
        })
  lines-InLine (o ∷ os) x (suc rounds) s (h, e, hs) (a, later_answers) i l =
      let line = written o.entry in
      let size = length-append line (o.ended ∷ printed os) in
      let later = rounds - length line in
      let (t, j, q) =
        gather bytes env port polls x [] line (o.ended ∷ printed os) (suc later) (suc rounds) s i
          (written_plain o.entry h) (omega (arith, written_room o.entry h))
          (omega (arith, l, size)) in
      let k = taken-InLine bytes env port polls x line o.ended (printed os) later t j in
      subst (λ r. Ends r λ _ u. InLine bytes (effects (o ∷ os) x) [] [] u)
        (sym (
          q
          ∙ loop_byte bytes env port later polls t o.ended (printed os) j.left
              (end_small o.ended e)))
        (Ends-bind (on_char polls o.ended) (λ _. loop later polls) _ _ env
          (taken bytes env port later polls t)
          (end-InLine o.entry x o.ended (printed os) (taken bytes env port later polls t) h e k a)
          λ _ u m.
            lines-InLine os (effect o.entry x) later u hs later_answers m (omega (arith, l, size)))

-- Lines wait in the serial port and are all that waits: motor commands and the tests "a" to "d" as
-- they are printed, each command with the numbers that its word takes, each an `int`, a channel up to 7
-- and a chip that is not the multiplexer; the test "abc"; and other text of bytes from the space on,
-- empty lines among it, that is no test and in which the two scans find no command, no word of more than
-- 15 bytes and no number that no `int` holds. Each has at most 31 bytes and ends with `\n` or `\r`. The chip that "c" and
-- "d" read answers within the polls; the line buffer is sound and empty, and the multiplexer has the
-- channel that is remembered. One call of `loop`, with more rounds than there are bytes, returns with
-- every byte taken, the line empty again, and exactly the registers that the commands set one after the
-- other, whatever the devices answer.
pub loop-effects :
    (ls : List Line) (bytes : List ℕ) (env : Env) (rounds polls : ℕ) (s : State)
    → IsPort bytes env
    → AllLines ls
    → AllAnswer ls polls env
    → IsBuffer s
    → s.input_pos ≡ 0
    → IsInSync s
    → waiting bytes s.calls ≡ printed ls
    → length (printed ls) < rounds
    → Ends (loop rounds polls env s) λ _ t. InLine bytes (effects ls (registers_of s)) [] [] t
loop-effects ls bytes env rounds polls s port h a b z i w l =
    lines-InLine bytes env port polls ls (registers_of s) rounds s h a
      (record {
        buffer = b;
        sync = i;
        gathered = ap (λ p. take p s.input_buffer) z;
        left = w;
        registers = refl;
      })
      l
