-- ===== src/Main/Frames.antt =====
-- A line of the serial port reaches the motors and nothing else.
use quad_bot_code_actuation.Prelude.{
  ℕ, refl, Bool, true, false, Option, none, some, List, CString, str, strcmp_eq,
}
use quad_bot_code_actuation.Prelude.Int.{ℤ, pos}
use quad_bot_code_actuation.Float.{Float}
use quad_bot_code_actuation.Board.{
  M, call, print, println, text, hex, dec, bin, decimals, delay, fail, pure, say, out_of_bounds,
  undefined, ◌>>◌,
}
use quad_bot_code_actuation.Board.Frames.{
  motors, same, more, Keeps, ◌⨾◌, Keeps-pure, Keeps-fail, Keeps-call, Keeps-if,
}
use quad_bot_code_actuation.MotorDriver.Frames.{
  motor_driver_reg_control-Keeps, variable_motion_control-Keeps, set_motion_control-Keeps,
  default_motion_control-Keeps, motor_driver_stop-Keeps, read_limit_triggers-Keeps,
  read_current_estimate-Keeps,
}
use quad_bot_code_actuation.Main.Scan.{
  Scan, scan, matched, mismatch, overflow, out_of_range, sscanf,
}
use quad_bot_code_actuation.Main.Console.{
  motor_driver_default_address, run_line, run_test, do_move, do_stop, do_default_move,
  do_set_speeds, byte, field, is_set, show, show_bool, show_target, on_match,
}

abbrev reported : CString → CString → CString → List ℤ → Bool → M (Unit {0})
reported label speed direction ns b = do
  show_target label ns
  call (print (hex (field 1 ns)))
  show speed
  call (print (dec (field 2 ns)))
  show direction
  show_bool b

reported-Keeps :
    (label speed direction : CString) (ns : List ℤ) (b : Bool)
    → Keeps motors (reported label speed direction ns b)
reported-Keeps label speed direction ns true = record {
  run = λ env s. record { calls = search (more, same) depth 10; kept = refl };
  local = λ env s v. refl;
}
reported-Keeps label speed direction ns false = record {
  run = λ env s. record { calls = search (more, same) depth 10; kept = refl };
  local = λ env s v. refl;
}

module _ (ns : List ℤ) where
  do_move-Keeps : Keeps motors (do_move ns)
  unfolding do_move
  do_move-Keeps =
      variable_motion_control-Keeps (byte 0 ns) (byte 1 ns) (byte 2 ns) (is_set 3 ns) ⨾ λ _.
      reported-Keeps (str "Moving motor on mux channel ") (str ", speed ") (str ", direction ") ns
        (is_set 3 ns)

  do_default_move-Keeps : Keeps motors (do_default_move ns)
  unfolding do_default_move
  do_default_move-Keeps =
      default_motion_control-Keeps (byte 0 ns) (byte 1 ns) (byte 2 ns) (is_set 3 ns) ⨾ λ _.
      reported-Keeps (str "Default move on mux channel ") (str ", speed level ")
        (str ", direction ") ns (is_set 3 ns)

  do_stop-Keeps : Keeps motors (do_stop ns)
  unfolding do_stop
  do_stop-Keeps = motor_driver_stop-Keeps (byte 0 ns) (byte 1 ns) ⨾ λ _. record {
    run = λ env s. record { calls = search (more, same); kept = refl };
    local = λ env s v. refl;
  }

  do_set_speeds-Keeps : Keeps motors (do_set_speeds ns)
  unfolding do_set_speeds
  do_set_speeds-Keeps =
      set_motion_control-Keeps (byte 0 ns) (byte 1 ns) (byte 2 ns) (byte 3 ns) ⨾ λ _. record {
        run = λ env s. record { calls = search (more, same) depth 12; kept = refl };
        local = λ env s v. refl;
      }

show_current-Keeps :
    (current : Float)
    → Keeps motors
        do show (str "Current estimate: "); call (print (decimals current 4)); say (str " A")
show_current-Keeps current = record {
  run = λ env s. record { calls = search (more, same); kept = refl };
  local = λ env s v. refl;
}

show_limits-Keeps :
    (limits : ℕ)
    → Keeps motors do
      show (str "Limit triggers: 0b")
      call (println (bin (pos limits)))
      say (str "Unknown command.")
show_limits-Keeps limits = record {
  run = λ env s. record { calls = search (more, same); kept = refl };
  local = λ env s v. refl;
}

run_test-Keeps : (polls : ℕ) (line : CString) → Keeps motors (run_test polls line)
unfolding run_test
run_test-Keeps polls line = Keeps-if (strcmp_eq line (str "abc")) (Keeps-call _ refl) (
    Keeps-if (strcmp_eq line (str "a"))
      (Keeps-call (println (text (str "Running test A..."))) refl ⨾ λ _.
        motor_driver_reg_control-Keeps 7 motor_driver_default_address false ⨾ λ _.
        Keeps-call (delay 1000) refl)
      (Keeps-if (strcmp_eq line (str "b"))
        (Keeps-call (println (text (str "Running test B..."))) refl ⨾ λ _.
          motor_driver_reg_control-Keeps 7 motor_driver_default_address true ⨾ λ _.
          Keeps-call (delay 1000) refl)
        (Keeps-if (strcmp_eq line (str "c"))
          (Keeps-call (println (text (str "Running test C..."))) refl ⨾ λ _.
            read_current_estimate-Keeps polls 7 motor_driver_default_address ⨾ show_current-Keeps)
          (Keeps-if (strcmp_eq line (str "d"))
            (Keeps-call (println (text (str "Running test D..."))) refl ⨾ λ _.
              read_limit_triggers-Keeps polls 7 motor_driver_default_address ⨾ show_limits-Keeps)
            (Keeps-pure tt)))))

sscanf-Keeps : (n : ℕ) (line : CString) → Keeps motors (sscanf n line)
unfolding sscanf
sscanf-Keeps n line = go (scan n line)
  where
    go :
        (r : Scan)
        → Keeps motors {A = Option (CString × List ℤ)} (elim r [
          | matched word ns ↦ pure (some (word, ns))
          | mismatch ↦ pure none
          | overflow ↦ fail out_of_bounds
          | out_of_range ↦ fail undefined
        ])
    go (matched word ns) = Keeps-pure _
    go mismatch = Keeps-pure _
    go overflow = Keeps-fail _
    go out_of_range = Keeps-fail _

on_match-Keeps :
    {action : List ℤ → M (Unit {0})} {other : M (Unit {0})} (name : CString)
    (r : Option (CString × List ℤ))
    → ((ns : List ℤ) → Keeps motors (action ns))
    → Keeps motors other
    → Keeps motors (on_match name r action other)
on_match-Keeps name none h k = k
on_match-Keeps name (some (word, ns)) h k = Keeps-if (strcmp_eq word name) (h ns) k

-- Whatever a line is, carrying it out uses the motors' bus and the remembered channel alone.
pub run_line-Keeps : (polls : ℕ) (line : CString) → Keeps motors (run_line polls line)
unfolding run_line
run_line-Keeps polls line = sscanf-Keeps 4 line ⨾ λ four.
    on_match-Keeps (str "move") four do_move-Keeps (
      sscanf-Keeps 2 line ⨾ λ two. on_match-Keeps (str "stop") two do_stop-Keeps (
        sscanf-Keeps 4 line ⨾ λ again.
        on_match-Keeps (str "defaultmove") again do_default_move-Keeps (
          sscanf-Keeps 4 line ⨾ λ last.
          on_match-Keeps (str "setspeeds") last do_set_speeds-Keeps (run_test-Keeps polls line))))
