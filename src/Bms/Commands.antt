-- ===== src/Bms/Commands.antt =====
-- The set-up commands of the L9961 with any text: what each writes, and when it writes nothing.
use quad_bot_code_actuation.Prelude.{
  ℕ, refl, Bool, Option, none, some, List, [], ◌∷◌, CString, str, ◌==◌, if◌then◌else◌, Bool-cases,
  inl, inr,
}
use quad_bot_code_actuation.Board.{State, Env, Ends, Ends-bind, call, say, delay, Run}
use quad_bot_code_actuation.Board.Traffic.{Message, messages}
use quad_bot_code_actuation.Bms.Setup.{
  ConfigEntry, config_entry, config_value, nvm_command, identity_register, real_time_command,
  send_config, send_register, send_nvm, refuse_zero, send_bms_config_command, rw_bms_nvm,
  send_bms_identity_command, send_bms_real_time_command,
}
use quad_bot_code_actuation.Bms.Traffic.{
  Sent, write_message, stop_messages, after_stop, send_register-Sent,
}
use quad_bot_code_actuation.Bms.SendConfig.{send_config-Sent}

-- The register and the value of a configuration command, if it names a register and has a value.
abbrev pub config_write : CString → CString → Option (ℕ × ℕ)
config_write c v = elim (config_entry c) [
  | none ↦ none
  | some e ↦ elim (config_value e v) [ none ↦ none | some x ↦ some (e.register_address, x.0) ]
]

abbrev pub identity_write : CString → ℕ → Option (ℕ × ℕ)
identity_write c v =
    if v == 0 then none else elim (identity_register c) [ none ↦ none | some r ↦ some (r, v) ]

-- The messages of a write with the conversion stopped first; none where nothing is written.
abbrev pub guarded_messages : ℕ → Option (ℕ × ℕ) → List Message
guarded_messages active none = []
guarded_messages active (some w) = write_message w.0 w.1 ∷ stop_messages active

abbrev pub guarded_flag : ℕ → Option (ℕ × ℕ) → ℕ
guarded_flag active none = active
guarded_flag active (some w) = after_stop active

abbrev pub Guarded : Option (ℕ × ℕ) → State → State → Type 0
Guarded w s t =
    Sent (guarded_messages s.bms_conversion_active w) (guarded_flag s.bms_conversion_active w) s t

said : (c : CString) (env : Env) (s : State) → Ends (say c env s) λ _ t. Guarded none s t
unfolding messages
said c env s = record { traffic = refl; flag = refl }

-- A configuration command writes the register that it names, after it has stopped a running
-- conversion; an unknown name or a value in no known form writes nothing.
pub send_bms_config_command-Guarded :
    (c v : CString) (env : Env) (s : State)
    → Ends (send_bms_config_command c v env s) λ _ t. Guarded (config_write c v) s t
unfolding send_bms_config_command
send_bms_config_command-Guarded c v env s = by_entry (config_entry c)
  where
    by_value :
        (e : ConfigEntry) (o : Option (ℕ × Bool))
        → Ends
            (elim o as (λ x. Run (Unit {0})) [
              | none ↦
                  say
                    (str "Error: Value must be \"default\" or a binary string like \"0b101010\".")
                    env
                    s
              | some (value, capped) ↦ send_config c v e value capped env s
            ])
            λ _ t.
              Guarded
                (elim o as (λ x. Option (ℕ × ℕ)) [
                  | none ↦ none
                  | some x ↦ some (e.register_address, x.0)
                ])
                s
                t
    by_value e none = said _ env s
    by_value e (some (value, capped)) = send_config-Sent c v e value capped env s

    by_entry :
        (o : Option ConfigEntry)
        → Ends
            (elim o as (λ x. Run (Unit {0})) [
              | none ↦ say (str "Unknown Config command.") env s
              | some e ↦ elim (config_value e v) as (λ x. Run (Unit {0})) [
                | none ↦
                    say
                      (str "Error: Value must be \"default\" or a binary string like \"0b101010\".")
                      env
                      s
                | some (value, capped) ↦ send_config c v e value capped env s
              ]
            ])
            λ _ t.
              Guarded
                (elim o as (λ x. Option (ℕ × ℕ)) [
                  | none ↦ none
                  | some e ↦ elim (config_value e v) as (λ x. Option (ℕ × ℕ)) [
                    | none ↦ none
                    | some x ↦ some (e.register_address, x.0)
                  ]
                ])
                s
                t
    by_entry none = said _ env s
    by_entry (some e) = by_value e (config_value e v)

-- A memory command writes its value to register 0x20, after it has stopped a running conversion; an
-- unknown name writes nothing.
pub rw_bms_nvm-Guarded :
    (c : CString) (env : Env) (s : State)
    → Ends (rw_bms_nvm c env s) λ _ t. Guarded (nvm_command c) s t
unfolding rw_bms_nvm messages
rw_bms_nvm-Guarded c env s = go (nvm_command c)
  where
    go :
        (o : Option (ℕ × ℕ))
        → Ends
            (elim o as (λ x. Run (Unit {0})) [
              | none ↦ say (str "Unknown NVM command.") env s
              | some (reg, value) ↦ send_nvm c reg value env s
            ])
            λ _ t. Guarded o s t
    go none = said _ env s
    go (some (reg, value)) =
        Ends-bind (send_register (str "NVM Command sent: ") c reg value) (λ _. call (delay 100)) _ _
          env s (send_register-Sent (str "NVM Command sent: ") c reg value env s)
          λ _ t p. record { traffic = p.traffic; flag = p.flag }

-- A real-time command writes its register and value, after it has stopped a running conversion; an
-- unknown name writes nothing.
pub send_bms_real_time_command-Guarded :
    (c : CString) (env : Env) (s : State)
    → Ends (send_bms_real_time_command c env s) λ _ t. Guarded (real_time_command c) s t
unfolding send_bms_real_time_command
send_bms_real_time_command-Guarded c env s = go (real_time_command c)
  where
    go :
        (o : Option (ℕ × ℕ))
        → Ends
            (elim o as (λ x. Run (Unit {0})) [
              | none ↦ say (str "Unknown Real Time command.") env s
              | some (reg, value) ↦ send_register (str "BMS Command sent: ") c reg value env s
            ])
            λ _ t. Guarded o s t
    go none = said _ env s
    go (some (reg, value)) = send_register-Sent (str "BMS Command sent: ") c reg value env s

-- An identity command writes the register that it names with a value other than 0, after it has
-- stopped a running conversion; the value 0 and an unknown name write nothing.
pub send_bms_identity_command-Guarded :
    (c : CString) (v : ℕ) (env : Env) (s : State)
    → Ends (send_bms_identity_command c v env s) λ _ t. Guarded (identity_write c v) s t
unfolding send_bms_identity_command messages
send_bms_identity_command-Guarded c v env s = elim (Bool-cases (v == 0)) [
  | inl e ↦ rw e (refused c env s)
  | inr e ↦ rw e (go (identity_register c))
]
  where
    refused :
        (c : CString) (env : Env) (s : State) → Ends (refuse_zero c env s) λ _ t. Guarded none s t
    refused c env s = record { traffic = refl; flag = refl }

    go :
        (o : Option ℕ)
        → Ends
            (elim o as (λ x. Run (Unit {0})) [
              | none ↦ say (str "Unknown identity command.") env s
              | some reg ↦ send_register (str "Identity Command sent: ") c reg v env s
            ])
            λ _ t.
              Guarded (elim o as (λ x. Option (ℕ × ℕ)) [ none ↦ none | some r ↦ some (r, v) ]) s t
    go none = said _ env s
    go (some reg) = send_register-Sent (str "Identity Command sent: ") c reg v env s
