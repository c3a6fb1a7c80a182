-- ===== src/Main/Console.antt =====
-- `loop` of main.cpp: lines from the serial port are gathered in `inputBuffer` and carried out.
use quad_bot_code_actuation.Prelude.{
  ℕ, zero, suc, ◌+◌, ◌-◌, ◌^◌, Bool, true, false, not, ◌||◌, Option, none, some, List, [], ◌∷◌,
  CString, str, strcmp_eq, u8, ltb, ◌==◌, get_elem?, get_or, set, if◌then◌else◌,
}
use quad_bot_code_actuation.Prelude.Int.{ℤ, pos, eq_ℤ, to_unsigned}
use quad_bot_code_actuation.Board.{
  delay, serial_available, serial_read, print, println, text, dec, hex, bin, decimals,
  out_of_bounds, hangs, M, fail, ◌>>=◌, ◌>>◌, done, get, modify, call, ask, say,
}
use quad_bot_code_actuation.MotorDriver.{
  variable_motion_control, motor_driver_stop, default_motion_control, set_motion_control,
  motor_driver_reg_control, read_current_estimate, read_limit_triggers,
}
use quad_bot_code_actuation.Main.Scan.{sscanf}

abbrev pub motor_driver_default_address : ℕ
motor_driver_default_address = 0x60

abbrev pub buffer_size : ℕ
buffer_size = 32

-- `inputBuffer[i] = v`, which is undefined outside the array.
abbrev pub put_byte : ℕ → ℕ → M (Unit {0})
put_byte i v env s = elim (get_elem? s.input_buffer i) [
  | none ↦ fail out_of_bounds env s
  | some old ↦ modify (λ s. record s { input_buffer = set s.input_buffer i v }) env s
]

-- The C string that an array begins with.
unfoldable pub c_string : List ℕ → CString
c_string [] = []
c_string (c ∷ s) = let rest = c_string s in if c == 0 then [] else c ∷ rest

-- The `i`th number of a match; a number that is passed on as a byte.
abbrev pub field : ℕ → List ℤ → ℤ
field i ns = get_or ns i (pos 0)

abbrev pub byte : ℕ → List ℤ → ℕ
byte i ns = to_unsigned (2 ^ 8) (field i ns)

abbrev pub is_set : ℕ → List ℤ → Bool
is_set i ns = not (eq_ℤ (field i ns) (pos 0))

abbrev pub show : CString → M (Unit {0})
show t = call (print (text t))

abbrev pub show_bool : Bool → M (Unit {0})
show_bool b = if b then say (str "true") else say (str "false")

abbrev pub show_target : CString → List ℤ → M (Unit {0})
show_target label ns = do show label; call (print (dec (field 0 ns))); show (str ", chip address ")

unfoldable pub do_move : List ℤ → M (Unit {0})
unfolding variable_motion_control
do_move ns = do
  variable_motion_control (byte 0 ns) (byte 1 ns) (byte 2 ns) (is_set 3 ns)
  show_target (str "Moving motor on mux channel ") ns
  call (print (hex (field 1 ns)))
  show (str ", speed ")
  call (print (dec (field 2 ns)))
  show (str ", direction ")
  show_bool (is_set 3 ns)

unfoldable pub do_stop : List ℤ → M (Unit {0})
unfolding motor_driver_stop
do_stop ns = do
  motor_driver_stop (byte 0 ns) (byte 1 ns)
  show_target (str "Stopped motor on mux channel ") ns
  call (println (hex (field 1 ns)))

unfoldable pub do_default_move : List ℤ → M (Unit {0})
unfolding default_motion_control
do_default_move ns = do
  default_motion_control (byte 0 ns) (byte 1 ns) (byte 2 ns) (is_set 3 ns)
  show_target (str "Default move on mux channel ") ns
  call (print (hex (field 1 ns)))
  show (str ", speed level ")
  call (print (dec (field 2 ns)))
  show (str ", direction ")
  show_bool (is_set 3 ns)

unfoldable pub do_set_speeds : List ℤ → M (Unit {0})
unfolding set_motion_control
do_set_speeds ns = do
  set_motion_control (byte 0 ns) (byte 1 ns) (byte 2 ns) (byte 3 ns)
  show_target (str "Set speeds on mux channel ") ns
  call (print (hex (field 1 ns)))
  show (str ", speedOne ")
  call (print (dec (field 2 ns)))
  show (str ", speedTwo ")
  call (println (dec (field 3 ns)))

-- The commands that are a whole line. The last message stands in the branch of "d".
unfoldable pub run_test : ℕ → CString → M (Unit {0})
unfolding motor_driver_reg_control read_current_estimate read_limit_triggers
run_test polls line =
    if strcmp_eq line (str "abc")
    then say (str "Running test for 'abc'!")
    else if strcmp_eq line (str "a")
    then (do
      say (str "Running test A...")
      motor_driver_reg_control 7 motor_driver_default_address false
      call (delay 1000))
    else if strcmp_eq line (str "b")
    then (do
      say (str "Running test B...")
      motor_driver_reg_control 7 motor_driver_default_address true
      call (delay 1000))
    else if strcmp_eq line (str "c")
    then (do
      say (str "Running test C...")
      current ← read_current_estimate polls 7 motor_driver_default_address
      show (str "Current estimate: ")
      call (print (decimals current 4))
      say (str " A"))
    else if strcmp_eq line (str "d")
    then (do
      say (str "Running test D...")
      limits ← read_limit_triggers polls 7 motor_driver_default_address
      show (str "Limit triggers: 0b")
      call (println (bin (pos limits)))
      say (str "Unknown command."))
    else done

-- `sscanf(...) == n && strcmp(cmd, name) == 0`, and what is done then or else.
abbrev pub on_match :
    CString → Option (CString × List ℤ) → (List ℤ → M (Unit {0})) → M (Unit {0}) → M (Unit {0})
on_match name none action other = other
on_match name (some (word, ns)) action other = if strcmp_eq word name then action ns else other

unfoldable pub run_line : ℕ → CString → M (Unit {0})
unfolding sscanf do_move do_stop do_default_move do_set_speeds run_test
run_line polls line = do
  four ← sscanf 4 line
  on_match (str "move") four do_move do
    two ← sscanf 2 line
    on_match (str "stop") two do_stop do
      again ← sscanf 4 line
      on_match (str "defaultmove") again do_default_move do
        last ← sscanf 4 line
        on_match (str "setspeeds") last do_set_speeds (run_test polls line)

-- One byte of the serial line.
unfoldable pub on_char : ℕ → ℕ → M (Unit {0})
unfolding run_line c_string
on_char polls c = do
  at ← get λ s. s.input_pos
  if (c == 10) || (c == 13)
      then (do
        put_byte at 0
        show (str "Received command: ")
        line ← get λ s. c_string s.input_buffer
        say line
        run_line polls line
        modify λ s. record s { input_pos = 0 }
        put_byte 0 0)
      else if ltb at (buffer_size - 1)
      then (do put_byte at c; modify λ s. record s { input_pos = u8 (at + 1) })
      else done

-- `while (Serial.available() > 0)`, for at most `rounds` bytes.
unfoldable pub loop : ℕ → ℕ → M (Unit {0})
unfolding on_char
loop zero polls = fail hangs
loop (suc rounds) polls = do
  n ← ask serial_available
  elim (n == 0) [
    | true ↦ done
    | false ↦ do c ← ask serial_read; on_char polls (u8 c); loop rounds polls
  ]
