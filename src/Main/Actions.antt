-- ===== src/Main/Actions.antt =====
-- What carrying out each command of main.cpp does to the motors' registers.
use quad_bot_code_actuation.Prelude.{
  ℕ, ◌-◌, ◌^◌, ◌≤◌, ◌≡◌, ◌≢◌, refl, sym, subst, ap, ◌∙◌, Bool, true, false, List, CString, str,
  strcmp_eq, if◌then◌else◌, arith,
}
use quad_bot_code_actuation.Prelude.Int.{ℤ, pos}
use quad_bot_code_actuation.Board.{
  State, Env, M, Ends, Ends-bind, ◌>>◌, call, say, decimals, bin, Item, delay, ◌◂◌, text, print,
  println, hex, dec, wire, History,
}
use quad_bot_code_actuation.Board.Traffic.{i2c_mux_address, messages, control, register}
use quad_bot_code_actuation.I2cMux.Selection.{IsInSync}
use quad_bot_code_actuation.MotorDriver.{
  variable_motion_control, motor_driver_stop, default_motion_control, set_motion_control,
  drive_value, motor_driver_reg_control, read_current_estimate, read_limit_triggers,
}
use quad_bot_code_actuation.MotorDriver.Registers.{Registers, registers_of, write, Wrote}
use quad_bot_code_actuation.MotorDriver.Operations.{
  variable_motion_control-Wrote, motor_driver_stop-Wrote, default_motion_control-Wrote,
  set_motion_control-Wrote, motor_driver_reg_control-Wrote,
}
use quad_bot_code_actuation.I2c.Waiting.{ready_within}
use quad_bot_code_actuation.MotorDriver.Reads.{
  read_current_estimate-Fetched, read_limit_triggers-Fetched,
}
use quad_bot_code_actuation.Main.Console.{
  run_test, motor_driver_default_address, do_move, do_stop, do_default_move, do_set_speeds, byte,
  field, is_set, show, show_bool, show_target,
}

-- Calls that put nothing on the first bus keep what was written.
silent-Wrote :
    (channel : ℕ) (f : Registers → Registers) (c : History) (s t : State)
    → Wrote channel f s t
    → messages wire c ≡ messages wire t.calls
    → Wrote channel f s (record t { calls = c })
unfolding registers_of
silent-Wrote channel f c s t w e = record {
  sync = record { channel = w.sync.channel; same = ap control e ∙ w.sync.same };
  selected = w.selected;
  registers = ap (λ m ctl a q. register ctl a q m) e ∙ w.registers;
}

-- The register writes of each command.
abbrev pub moved : List ℤ → Registers → Registers
moved ns x =
    write (2 ^ byte 0 ns) (byte 1 ns) 0x07 (if is_set 3 ns then 0xc4 else 0xd1)
      (write (2 ^ byte 0 ns) (byte 1 ns) 0x05 (255 - byte 2 ns) x)

abbrev pub stopped : List ℤ → Registers → Registers
stopped ns = write (2 ^ byte 0 ns) (byte 1 ns) 0x07 0x55

abbrev pub default_moved : List ℤ → Registers → Registers
default_moved ns = write (2 ^ byte 0 ns) (byte 1 ns) 0x07 (drive_value (byte 2 ns) (is_set 3 ns))

abbrev pub speeds_set : List ℤ → Registers → Registers
speeds_set ns x =
    write (2 ^ byte 0 ns) (byte 1 ns) 0x05 (255 - byte 3 ns)
      (write (2 ^ byte 0 ns) (byte 1 ns) 0x03 (255 - byte 2 ns) x)

-- The regulator of the default chip on channel 7, off or on.
abbrev pub regulated : Bool → Registers → Registers
regulated enable x =
    write (2 ^ 7) motor_driver_default_address 0x08 (if enable then 0x05 else 0x00)
      (if enable then write (2 ^ 7) motor_driver_default_address 0x08 0x15 x else x)

abbrev reported : CString → CString → CString → List ℤ → Bool → M (Unit {0})
reported label speed direction ns b = do
  show_target label ns
  call (print (hex (field 1 ns)))
  show speed
  call (print (dec (field 2 ns)))
  show direction
  show_bool b

reported-Wrote :
    (label speed direction : CString) (ns : List ℤ) (b : Bool) (channel : ℕ)
    (f : Registers → Registers) (env : Env) (s t : State)
    → Wrote channel f s t
    → Ends (reported label speed direction ns b env t) λ _ u. Wrote channel f s u
unfolding messages
reported-Wrote label speed direction ns true channel f env s t w =
    silent-Wrote channel f _ s t w refl
reported-Wrote label speed direction ns false channel f env s t w =
    silent-Wrote channel f _ s t w refl

module _ (ns : List ℤ) (env : Env) (s : State) (valid : byte 0 ns ≤ 7)
    (other : byte 1 ns ≢ i2c_mux_address) (sync : IsInSync s) where
  pub do_move-Wrote : Ends (do_move ns env s) λ _ t. Wrote (byte 0 ns) (moved ns) s t
  unfolding do_move
  do_move-Wrote =
      Ends-bind (variable_motion_control (byte 0 ns) (byte 1 ns) (byte 2 ns) (is_set 3 ns))
        (λ _.
          reported (str "Moving motor on mux channel ") (str ", speed ") (str ", direction ") ns
            (is_set 3 ns))
        _ _ env s
        (variable_motion_control-Wrote (byte 0 ns) (byte 1 ns) env s valid other sync (byte 2 ns)
          (is_set 3 ns))
        λ _ t w. reported-Wrote _ _ _ ns (is_set 3 ns) _ (moved ns) env s t w

  pub do_default_move-Wrote :
      Ends (do_default_move ns env s) λ _ t. Wrote (byte 0 ns) (default_moved ns) s t
  unfolding do_default_move
  do_default_move-Wrote =
      Ends-bind (default_motion_control (byte 0 ns) (byte 1 ns) (byte 2 ns) (is_set 3 ns))
        (λ _.
          reported (str "Default move on mux channel ") (str ", speed level ") (str ", direction ")
            ns (is_set 3 ns))
        _ _ env s
        (default_motion_control-Wrote (byte 0 ns) (byte 1 ns) env s valid other sync (byte 2 ns)
          (is_set 3 ns))
        λ _ t w. reported-Wrote _ _ _ ns (is_set 3 ns) _ (default_moved ns) env s t w

  pub do_stop-Wrote : Ends (do_stop ns env s) λ _ t. Wrote (byte 0 ns) (stopped ns) s t
  unfolding do_stop messages
  do_stop-Wrote =
      Ends-bind (motor_driver_stop (byte 0 ns) (byte 1 ns))
        (λ _.
          show_target (str "Stopped motor on mux channel ") ns >> call (println (hex (field 1 ns))))
        _ _ env s (motor_driver_stop-Wrote (byte 0 ns) (byte 1 ns) env s valid other sync)
        λ _ t w. silent-Wrote _ (stopped ns) _ s t w refl

  pub do_set_speeds-Wrote :
      Ends (do_set_speeds ns env s) λ _ t. Wrote (byte 0 ns) (speeds_set ns) s t
  unfolding do_set_speeds messages
  do_set_speeds-Wrote =
      Ends-bind (set_motion_control (byte 0 ns) (byte 1 ns) (byte 2 ns) (byte 3 ns))
        (λ _. do
          show_target (str "Set speeds on mux channel ") ns
          call (print (hex (field 1 ns)))
          show (str ", speedOne ")
          call (print (dec (field 2 ns)))
          show (str ", speedTwo ")
          call (println (dec (field 3 ns))))
        _ _ env s
        (set_motion_control-Wrote (byte 0 ns) (byte 1 ns) env s valid other sync (byte 2 ns)
          (byte 3 ns))
        λ _ t w. silent-Wrote _ (speeds_set ns) _ s t w refl

-- Calls before an operation that put nothing on the first bus.
Wrote-past :
    (channel : ℕ) (f : Registers → Registers) (c : History) (s t : State)
    → messages wire c ≡ messages wire s.calls
    → Wrote channel f (record s { calls = c }) t
    → Wrote channel f s t
unfolding registers_of
Wrote-past channel f c s t e w = record {
  sync = w.sync;
  selected = w.selected;
  registers = w.registers ∙ ap f (ap (λ m ctl a q. register ctl a q m) e);
}

-- What follows the message of such a line.
switched-Wrote :
    (item : Item) (enable : Bool) (env : Env) (s : State)
    → IsInSync s
    → Ends
        ((motor_driver_reg_control 7 motor_driver_default_address enable >> call (delay 1000)) env
          (record s { calls = s.calls ◂ println item }))
        λ _ t. Wrote 7 (regulated enable) s t
unfolding messages
switched-Wrote item enable env s i =
    let u = record s { calls = s.calls ◂ println item } in
    Ends-bind (motor_driver_reg_control 7 motor_driver_default_address enable)
      (λ _. call (delay 1000)) _ _ env u
      (motor_driver_reg_control-Wrote 7 motor_driver_default_address env u (omega arith)
        (λ e. omega arith) (record { channel = i.channel; same = i.same }) enable)
      λ _ t w.
        Wrote-past 7 (regulated enable) u.calls s _ refl
          (silent-Wrote 7 (regulated enable) _ u t w refl)

-- The lines "a" and "b" switch the regulator of the motors on channel 7.
pub run_test-Wrote :
    (polls : ℕ) (enable : Bool) (line : CString) (env : Env) (s : State)
    → IsInSync s
    → line ≡ (if enable then str "b" else str "a")
    → Ends (run_test polls line env s) λ _ t. Wrote 7 (regulated enable) s t
unfolding run_test strcmp_eq
run_test-Wrote polls enable line env s i e =
    subst (λ l. Ends (run_test polls l env s) λ _ t. Wrote 7 (regulated enable) s t) (sym e)
      (go enable)
  where
    go :
        (b : Bool)
        → Ends
            (run_test polls (if b then str "b" else str "a") env s)
            λ _ t. Wrote 7 (regulated b) s t
    go false = switched-Wrote (text (str "Running test A...")) false env s i
    go true = switched-Wrote (text (str "Running test B...")) true env s i

-- The lines "c" and "d" read a register of the default chip on channel 7, and set none.
module _ (polls : ℕ) (env : Env) (s : State) (i : IsInSync s)
    (ready : (past : History) → ready_within polls env wire past ≡ true) where
  pub current-Wrote : Ends (run_test polls (str "c") env s) λ _ t. Wrote 7 (λ x. x) s t
  unfolding run_test strcmp_eq messages
  current-Wrote =
      let u = record s { calls = s.calls ◂ println (text (str "Running test C...")) } in
      Ends-bind (read_current_estimate polls 7 motor_driver_default_address)
        (λ current. do
          show (str "Current estimate: ")
          call (print (decimals current 4))
          say (str " A"))
        _ _ env u
        (read_current_estimate-Fetched polls 7 motor_driver_default_address env u (omega arith)
          (λ e. omega arith) (record { channel = i.channel; same = i.same }) ready)
        λ _ t (byte, f, e, b).
          Wrote-past 7 (λ x. x) u.calls s _ refl (silent-Wrote 7 (λ x. x) _ u t f.wrote refl)

  pub limits-Wrote : Ends (run_test polls (str "d") env s) λ _ t. Wrote 7 (λ x. x) s t
  unfolding run_test strcmp_eq messages
  limits-Wrote =
      let u = record s { calls = s.calls ◂ println (text (str "Running test D...")) } in
      Ends-bind (read_limit_triggers polls 7 motor_driver_default_address)
        (λ limits. do
          show (str "Limit triggers: 0b")
          call (println (bin (pos limits)))
          say (str "Unknown command."))
        _ _ env u
        (read_limit_triggers-Fetched polls 7 motor_driver_default_address env u (omega arith)
          (λ e. omega arith) (record { channel = i.channel; same = i.same }) ready)
        λ _ t (byte, f, e).
          Wrote-past 7 (λ x. x) u.calls s _ refl (silent-Wrote 7 (λ x. x) _ u t f.wrote refl)
