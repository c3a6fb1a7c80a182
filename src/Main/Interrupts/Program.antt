-- ===== src/Main/Interrupts/Program.antt =====
-- `setup` and `loop` of main.cpp, blind to the ready signal.
use quad_bot_code_actuation.Prelude.{
  ℕ, zero, suc, ◌≡◌, refl, ◌==◌, ◌||◌, ltb, ◌-◌, ◌+◌, u8, set, Option, none, some, get_elem?, List,
  [], ◌∷◌, CString, str,
}
use quad_bot_code_actuation.Prelude.Int.{pos}
use quad_bot_code_actuation.Float.{Float}
use quad_bot_code_actuation.Board.{
  serial_ready, serial_available, serial_read, delay, attach_interrupt, println, serial_begin,
  wire_begin, wire, wire1, spi_begin, digital_write, State, Run, ok, fault, get, modify, call, ask,
  done, say, hangs, print, text, ◌>>=◌, ◌>>◌, out_of_bounds,
}
use quad_bot_code_actuation.Board.Pins.{rdy, en_pin, nreset, low, high}
use quad_bot_code_actuation.Board.Frames.{
  motors as motors_part, encoders as encoders_part, battery, power,
}
use quad_bot_code_actuation.Main.Console.{
  put_byte, on_char, loop, c_string, buffer_size, motor_driver_default_address,
}
use quad_bot_code_actuation.Main.Setup.{
  set_up_pins, wait_serial, start_buses, init_motors, reset_encoders, setup, motors, encoders,
}
use quad_bot_code_actuation.Main.Frames.{run_line-Keeps}
use quad_bot_code_actuation.MotorDriver.Frames.{
  motor_driver_init-Keeps, i2c_disable_all_channels-Keeps,
}
use quad_bot_code_actuation.Encoder.Frames.{reset_encoder-Keeps}
use quad_bot_code_actuation.Bms.StartFrames.{set_up_bms-Keeps}
use quad_bot_code_actuation.Bms.Frames.{set_bms_conversion_state-Keeps}
use quad_bot_code_actuation.Power.Frames.{precharge-Keeps}
use quad_bot_code_actuation.Main.Interrupts.Blind.{
  noted, renoted, IsBlind, ◌▸◌, IsBlind-pure, IsBlind-fail, IsBlind-call, IsBlind-ask, IsBlind-if,
  IsBlind-elim, Keeps-IsBlind,
}

put_byte-IsBlind : (i v : ℕ) → IsBlind (put_byte i v)
put_byte-IsBlind i v = record { runs = λ env s w. stored s w (get_elem? s.input_buffer i) }
  where
    stored :
        (s w : State) (o : Option ℕ)
        → (elim o as (λ x. Run (Unit {0})) [
          | none ↦ fault out_of_bounds
          | some old ↦ ok tt (record (noted s w) { input_buffer = set s.input_buffer i v })
        ])
          ≡ renoted w (elim o as (λ x. Run (Unit {0})) [
            | none ↦ fault out_of_bounds
            | some old ↦ ok tt (record s { input_buffer = set s.input_buffer i v })
          ])
    stored s w none = refl
    stored s w (some old) = refl

position-IsBlind : IsBlind (get λ s. s.input_pos)
position-IsBlind = record { runs = λ env s v. refl }

buffer-IsBlind : IsBlind (get λ s. c_string s.input_buffer)
buffer-IsBlind = record { runs = λ env s v. refl }

moved-IsBlind : (n : ℕ) → IsBlind (modify λ s. record s { input_pos = n })
moved-IsBlind n = record { runs = λ env s v. refl }

on_char-IsBlind : (polls c : ℕ) → IsBlind (on_char polls c)
unfolding on_char
on_char-IsBlind polls c = position-IsBlind ▸ λ at.
    IsBlind-if ((c == 10) || (c == 13))
      (put_byte-IsBlind at 0 ▸ λ _. IsBlind-call (print (text (str "Received command: "))) ▸ λ _.
        buffer-IsBlind ▸ λ line. IsBlind-call (println (text line)) ▸ λ _.
        Keeps-IsBlind motors_part refl (run_line-Keeps polls line) ▸ λ _.
        moved-IsBlind 0 ▸ λ _. put_byte-IsBlind 0 0)
      (IsBlind-if (ltb at (buffer_size - 1))
        (put_byte-IsBlind at c ▸ λ _. moved-IsBlind (u8 (at + 1))) (IsBlind-pure tt))

pub loop-IsBlind : (rounds polls : ℕ) → IsBlind (loop rounds polls)
unfolding loop
loop-IsBlind zero polls = IsBlind-fail hangs
loop-IsBlind (suc rounds) polls = IsBlind-ask serial_available ▸ λ n.
    IsBlind-elim done (ask serial_read >>= λ c. on_char polls (u8 c) >> loop rounds polls) (n == 0)
      (IsBlind-pure tt)
      (IsBlind-ask serial_read ▸ λ c. on_char-IsBlind polls (u8 c) ▸ λ _. loop-IsBlind rounds polls)

set_up_pins-IsBlind : IsBlind set_up_pins
unfolding set_up_pins
set_up_pins-IsBlind = record { runs = λ env s v. refl }

wait_serial-IsBlind : (polls : ℕ) → IsBlind (wait_serial polls)
unfolding wait_serial
wait_serial-IsBlind zero = IsBlind-fail hangs
wait_serial-IsBlind (suc polls) = IsBlind-ask serial_ready ▸ λ ready.
    IsBlind-elim (call (delay 10) >> wait_serial polls) done (ready == 0)
      (IsBlind-call (delay 10) ▸ λ _. wait_serial-IsBlind polls) (IsBlind-pure tt)

-- The rest of the start of the buses.
resets-IsBlind : IsBlind do
  say (str "\nI2C Initialized")
  call (delay 100)
  call spi_begin
  call (delay 100)
  say (str "\nSPI Initialized")
  call (digital_write en_pin high)
  call (delay 10)
  call (digital_write nreset low)
  call (delay 10)
  call (digital_write nreset high)
  call (delay 10)
resets-IsBlind = record { runs = λ env s v. refl }

start_buses-IsBlind : (polls : ℕ) → IsBlind (start_buses polls)
unfolding start_buses
start_buses-IsBlind polls = IsBlind-call (delay 1000) ▸ λ _. IsBlind-call (serial_begin 9600) ▸ λ _.
    IsBlind-call (wire_begin wire) ▸ λ _.
    IsBlind-call (wire_begin wire1) ▸ λ _. wait_serial-IsBlind polls ▸ λ _. resets-IsBlind

init_motors-IsBlind : (cs : List ℕ) → IsBlind (init_motors cs)
unfolding init_motors
init_motors-IsBlind [] = IsBlind-pure tt
init_motors-IsBlind (c ∷ cs) =
    Keeps-IsBlind motors_part refl (motor_driver_init-Keeps c motor_driver_default_address) ▸ λ _.
    init_motors-IsBlind cs

reset_encoders-IsBlind : (cs : List ℕ) → IsBlind (reset_encoders cs)
unfolding reset_encoders
reset_encoders-IsBlind [] = IsBlind-pure tt
reset_encoders-IsBlind (c ∷ cs) =
    Keeps-IsBlind encoders_part refl (reset_encoder-Keeps c) ▸ λ _. reset_encoders-IsBlind cs

setup-IsBlind : (atof : CString → Float) (polls : ℕ) → IsBlind (setup atof polls)
unfolding setup
setup-IsBlind atof polls = set_up_pins-IsBlind ▸ λ _. start_buses-IsBlind polls ▸ λ _.
    Keeps-IsBlind motors_part refl i2c_disable_all_channels-Keeps ▸ λ _.
    init_motors-IsBlind motors ▸ λ _. reset_encoders-IsBlind encoders ▸ λ _.
    Keeps-IsBlind battery refl (set_up_bms-Keeps atof) ▸ λ _.
    IsBlind-call (attach_interrupt rdy) ▸ λ _.
    Keeps-IsBlind battery refl (set_bms_conversion_state-Keeps (str "CONVERSION_ON")) ▸ λ _.
    IsBlind-call (delay 100) ▸ λ _. Keeps-IsBlind power refl (precharge-Keeps (pos 1))

-- `setup` and a call of `loop` with any number of rounds neither read nor write the two variables of the
-- ready signal: from any other values of these, whatever the devices answer, they do the same and leave
-- those values.
pub setup-loop-IsBlind :
    (atof : CString → Float) (polls rounds : ℕ) → IsBlind (setup atof polls >> loop rounds polls)
setup-loop-IsBlind atof polls rounds = setup-IsBlind atof polls ▸ λ _. loop-IsBlind rounds polls
