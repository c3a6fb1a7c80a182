-- ===== src/Bms/Frames.antt =====
-- The battery chip: its commands and reads use the second I2C bus, the clock and the variables of the
-- BMS files, and nothing else.
use quad_bot_code_actuation.Prelude.{arith, [], ℕ, ◌≡◌, refl, Bool, Option, CString, str, ◌==◌}
use quad_bot_code_actuation.Float.{Float}
use quad_bot_code_actuation.Board.{
  State, Env, Run, fail, undefined, call, delay, print, text, say, done, ◌>>◌,
}
use quad_bot_code_actuation.Board.Frames.{
  battery, signal, same, more, Stays, graft, regraft, After, Keeps, ◌⨾◌, Keeps-call, Keeps-if,
  Keeps-when, Keeps-option,
}
use quad_bot_code_actuation.Bms.Core.{
  bms_address, write_bms_data, read_bms_data, set_bms_conversion_state, on_bms_ready_rise,
  is_bms_data_valid,
}
use quad_bot_code_actuation.Bms.Setup.{
  ConfigEntry, config_entry, config_value, nvm_command, identity_register, real_time_command,
  print_bits, write_stopped, report, send_register, send_config, send_bms_config_command,
  rw_bms_nvm, send_bms_identity_command, send_bms_real_time_command,
}
use quad_bot_code_actuation.Bms.Numerical.{
  Encoded, unknown, undefined_value, encoded, encode, send_bms_numerical_command, refuse,
}

pub on_bms_ready_rise-Keeps : Keeps signal on_bms_ready_rise
unfolding on_bms_ready_rise
on_bms_ready_rise-Keeps = record {
  run = λ env s. record { calls = search (more, same); kept = refl };
  local = λ env s v. refl;
}

pub is_bms_data_valid-Keeps : Keeps signal is_bms_data_valid
unfolding is_bms_data_valid
is_bms_data_valid-Keeps = record {
  run = λ env s. record { calls = search (more, same); kept = refl };
  local = λ env s v. refl;
}

pub write_bms_data-Keeps : (reg v : ℕ) → Keeps battery (write_bms_data bms_address reg v)
unfolding write_bms_data
write_bms_data-Keeps reg v = record {
  run = λ env s. grind (arith, more, same);
  local = λ env s v. ground arith;
}

pub read_bms_data-Keeps : (reg : ℕ) → Keeps battery (read_bms_data bms_address reg)
unfolding read_bms_data
read_bms_data-Keeps reg = record {
  run = λ env s. grind (arith, more, same);
  local = λ env s v. ground arith;
}

pub set_bms_conversion_state-Keeps :
    (state : CString) → Keeps battery (set_bms_conversion_state state)
unfolding set_bms_conversion_state
set_bms_conversion_state-Keeps state = record {
  run = λ env s. grind (arith, more, same);
  local = λ env s v. ground arith;
}

write_stopped-Keeps : (reg v : ℕ) → Keeps battery (write_stopped reg v)
unfolding write_stopped
write_stopped-Keeps reg v = record {
  run = λ env s. grind (arith, more, same);
  local = λ env s v. ground arith;
}

report-Keeps : (label command : CString) (v : ℕ) → Keeps battery (report label command v)
report-Keeps label command v = record {
  run = λ env s. record { calls = search (more, same); kept = refl };
  local = λ env s v. refl;
}

send_register-Keeps :
    (label command : CString) (reg v : ℕ) → Keeps battery (send_register label command reg v)
unfolding send_register
send_register-Keeps label command reg v =
    write_stopped-Keeps reg v ⨾ λ _. report-Keeps label command v

warn-Keeps :
    (command value_str : CString) (max : ℕ)
    → Keeps battery do
      call (print (text (str "Warning: Value ")))
      call (print (text value_str))
      call (print (text (str " exceeds max allowed for ")))
      call (print (text command))
      call (print (text (str ". Capping to 0b")))
      print_bits 16 max
      say []
unfolding print_bits
warn-Keeps command value_str max = record {
  run = λ env s. record { calls = search (more, same) depth 30; kept = refl };
  local = λ env s v. refl;
}

send_config-Keeps :
    (command value_str : CString) (e : ConfigEntry) (v : ℕ) (capped : Bool)
    → Keeps battery (send_config command value_str e v capped)
unfolding send_config
send_config-Keeps command value_str e v capped =
    Keeps-when capped (warn-Keeps command value_str e.max_data) ⨾ λ _.
    write_stopped-Keeps e.register_address v ⨾ λ _. record {
      run = λ env s. record { calls = search (more, same) depth 30; kept = refl };
      local = λ env s v. refl;
    }

pub send_bms_config_command-Keeps :
    (command value_str : CString) → Keeps battery (send_bms_config_command command value_str)
unfolding send_bms_config_command
send_bms_config_command-Keeps command value_str =
    Keeps-option (say (str "Unknown Config command.")) _ (config_entry command) (Keeps-call _ refl)
      λ e.
        Keeps-option _ _ (config_value e value_str) (Keeps-call _ refl)
          λ d. send_config-Keeps command value_str e d.0 d.1

pub rw_bms_nvm-Keeps : (command : CString) → Keeps battery (rw_bms_nvm command)
unfolding rw_bms_nvm
rw_bms_nvm-Keeps command =
    Keeps-option _ _ (nvm_command command) (Keeps-call _ refl)
      λ d. send_register-Keeps _ command d.0 d.1 ⨾ λ _. Keeps-call (delay 100) refl

pub send_bms_identity_command-Keeps :
    (command : CString) (v : ℕ) → Keeps battery (send_bms_identity_command command v)
unfolding send_bms_identity_command
send_bms_identity_command-Keeps command v =
    Keeps-if (v == 0)
      (record {
        run = λ env s. record { calls = search (more, same); kept = refl };
        local = λ env s v. refl;
      })
      (Keeps-option _ _ (identity_register command) (Keeps-call _ refl)
        λ reg. send_register-Keeps _ command reg v)

pub send_bms_real_time_command-Keeps :
    (command : CString) → Keeps battery (send_bms_real_time_command command)
unfolding send_bms_real_time_command
send_bms_real_time_command-Keeps command =
    Keeps-option _ _ (real_time_command command) (Keeps-call _ refl)
      λ d. send_register-Keeps _ command d.0 d.1

module _ (atof : CString → Float) where
  pub send_bms_numerical_command-Keeps :
      (command : CString) (arg1 arg2 : Option CString)
      → Keeps battery (send_bms_numerical_command atof command arg1 arg2)
  unfolding send_bms_numerical_command
  send_bms_numerical_command-Keeps command arg1 arg2 = record {
    run = λ env s. refused command env s (encode atof command arg1 arg2);
    local = λ env s v. refused_local command env s v (encode atof command arg1 arg2);
  }
    where
      refused :
          (command : CString) (env : Env) (s : State) (e : Encoded)
          → After
              (elim e as (λ x. Run (Unit {0})) [
                | unknown ↦ refuse command env s
                | undefined_value ↦ fail undefined env s
                | encoded register_address value ↦ done env s
              ])
              λ _ t. Stays battery s t
      refused command env s unknown = record { calls = more refl (more refl same); kept = refl }
      refused command env s undefined_value = tt
      refused command env s (encoded r v) = record { calls = same; kept = refl }

      refused_local :
          (command : CString) (env : Env) (s v : State) (e : Encoded)
          → (elim e as (λ x. Run (Unit {0})) [
            | unknown ↦ refuse command env (graft battery s v)
            | undefined_value ↦ fail undefined env (graft battery s v)
            | encoded register_address value ↦ done env (graft battery s v)
          ])
            ≡ regraft battery v (elim e as (λ x. Run (Unit {0})) [
              | unknown ↦ refuse command env s
              | undefined_value ↦ fail undefined env s
              | encoded register_address value ↦ done env s
            ])
      refused_local command env s v unknown = refl
      refused_local command env s v undefined_value = refl
      refused_local command env s v (encoded r w) = refl
