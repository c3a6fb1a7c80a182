-- ===== src/Main/Entries.antt =====
-- What an operator types: lines of the serial port, and what each does to the motors' registers.
use quad_bot_code_actuation.Prelude.{
  refl, str, ℕ, ◌≤◌, ◌≡◌, ◌≢◌, List, [], ◌∷◌, ◌++◌, map, arith, length, CString, true, false, ltb,
}
use quad_bot_code_actuation.Prelude.Int.{pos}
use quad_bot_code_actuation.Board.{Env}
use quad_bot_code_actuation.Board.Traffic.{i2c_mux_address}
use quad_bot_code_actuation.MotorDriver.Registers.{Registers}
use quad_bot_code_actuation.Main.Typing.{is_end}
use quad_bot_code_actuation.Main.Moves.{Answers, Word, channel_of, chip_of, effect_of}
use quad_bot_code_actuation.Main.Printing.{command_line, arity, AllFit}
use quad_bot_code_actuation.Main.Plain.{all_plain, command_line_plain}
use quad_bot_code_actuation.Main.Scan.{scan}
use quad_bot_code_actuation.Main.Dispatch.{refused, long_words, is_test}

-- A line of the serial port: a motor command or test with its numbers, the test "abc", or some other
-- text.
pub data Entry : Type 0 where
  order : Word → List ℕ → Entry
  abc : Entry
  other : CString → Entry

-- A line, and the end of line that follows it (`\n` or `\r`).
pub record Line : Type 0 where
  pub entry : Entry
  pub ended : ℕ

-- A command has as many numbers as its word takes, they are `int`s, and with it the line fits the
-- buffer; its channel is at most 7 and its chip is not the multiplexer.
pub record IsOrder (w : Word) (ns : List ℕ) : Type 0 where
  pub fit : AllFit ns
  pub all : length ns ≡ arity w
  pub room : length (command_line w ns) ≤ 31
  pub channel : channel_of w (map pos ns) ≤ 7
  pub chip : chip_of w (map pos ns) ≢ i2c_mux_address

-- Some other text of plain bytes that fits the buffer: an empty line, a word that is no command with
-- or without numbers, or a command with too few numbers. Neither scan of it meets a word of more than 15
-- bytes, which `cmd` does not hold, or a number that no `int` holds.
pub record IsText (l : CString) : Type 0 where
  pub plain : all_plain l ≡ true
  pub room : length l ≤ 31
  pub four : refused long_words (scan 4 l) ≡ true
  pub two : refused (str "stop" ∷ []) (scan 2 l) ≡ true
  pub untested : is_test l ≡ false

abbrev pub IsEntry : Entry → Type 0
IsEntry (order w ns) = IsOrder w ns
IsEntry abc = Unit
IsEntry (other l) = IsText l

-- Whether the device that an entry reads answers within some polls.
abbrev pub HasAnswer : Entry → ℕ → Env → Type 0
HasAnswer (order w ns) polls env = Answers w polls env
HasAnswer _ polls env = Unit

abbrev pub AllAnswer : List Line → ℕ → Env → Type 0
AllAnswer [] polls env = Unit
AllAnswer (l ∷ ls) polls env = HasAnswer l.entry polls env × AllAnswer ls polls env

abbrev pub AllLines : List Line → Type 0
AllLines [] = Unit
AllLines (l ∷ ls) = IsEntry l.entry × (is_end l.ended ≡ true) × AllLines ls

abbrev pub written : Entry → CString
written (order w ns) = command_line w ns
written abc = str "abc"
written (other l) = l

abbrev pub printed : List Line → List ℕ
printed [] = []
printed (l ∷ ls) = written l.entry ++ (l.ended ∷ printed ls)

-- The register writes of the lines, in their order; other text writes nothing.
abbrev pub effect : Entry → Registers → Registers
effect (order w ns) x = effect_of w (map pos ns) x
effect abc x = x
effect (other l) x = x

abbrev pub effects : List Line → Registers → Registers
effects [] x = x
effects (l ∷ ls) x = effects ls (effect l.entry x)

pub written_plain : (e : Entry) → IsEntry e → all_plain (written e) ≡ true
written_plain (order w ns) h = command_line_plain w ns
written_plain abc h = refl
written_plain (other l) h = h.plain

pub written_room : (e : Entry) → IsEntry e → length (written e) ≤ 31
written_room (order w ns) h = h.room
written_room abc h = omega arith
written_room (other l) h = h.room

pub end_small : (c : ℕ) → is_end c ≡ true → ltb c 256 ≡ true
end_small c h = ground (arith, h)
