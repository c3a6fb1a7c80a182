-- ===== src/Bms/Chip.antt =====
-- The L9961 as a file of 16-bit registers, and what each command does to it.
use quad_bot_code_actuation.Prelude.{
  ℕ, ◌+◌, ◌*◌, ◌%◌, ◌≡◌, refl, ap, ◌∙◌, Option, none, some, List, [], ◌∷◌, ◌++◌, CString, str,
  strcmp_eq, ◌==◌, if◌then◌else◌, Bool-cases, inl, inr, arith, bit_and, bit_and_low, shr,
}
use quad_bot_code_actuation.Float.{Float}
use quad_bot_code_actuation.Board.{State, Env, Ends, Ends-bind, Ends_weaken, wire1}
use quad_bot_code_actuation.Board.Traffic.{Message, messages, register16}
use quad_bot_code_actuation.Bms.Core.{
  bms_address, set_bms_conversion_state, conversion_register, conversion_on_value,
}
use quad_bot_code_actuation.Bms.Setup.{
  nvm_command, real_time_command, send_bms_config_command, rw_bms_nvm, send_bms_identity_command,
  send_bms_real_time_command,
}
use quad_bot_code_actuation.Bms.Numerical.{send_bms_numerical_command}
use quad_bot_code_actuation.Bms.Thresholds.{send_bms_numerical_command-Sent}
use quad_bot_code_actuation.Bms.Traffic.{
  Sent, write_message, conversion_off-Sent, conversion_on-Sent,
}
use quad_bot_code_actuation.Bms.Commands.{
  Guarded, guarded_messages, guarded_flag, config_write, identity_write,
  send_bms_config_command-Guarded, rw_bms_nvm-Guarded, send_bms_real_time_command-Guarded,
  send_bms_identity_command-Guarded,
}
use quad_bot_code_actuation.Bms.Guard.{
  Command, config, nvm, real_time, conversion, identity, numerical, perform, perform_all,
}

-- What each register was last set to, and whether the firmware takes the conversions to run.
pub record Chip : Type 0 where
  pub registers : ℕ → Option ℕ
  pub active : ℕ

abbrev pub chip : List Message → ℕ → Chip
chip ms a = record { registers = λ q. register16 bms_address q ms; active = a }

abbrev pub chip_of : State → Chip
chip_of s = chip (messages wire1 s.calls) s.bms_conversion_active

abbrev pub assign : ℕ → ℕ → (ℕ → Option ℕ) → ℕ → Option ℕ
assign reg v x q = if reg == q then some (v % 65536) else x q

-- A running conversion is stopped.
abbrev pub stopped : Chip → Chip
stopped x = record {
  registers = if x.active == 1 then assign conversion_register 0 x.registers else x.registers;
  active = if x.active == 1 then 0 else x.active;
}

-- A write with the conversions stopped first.
abbrev pub put : Option (ℕ × ℕ) → Chip → Chip
put none x = x
put (some w) x = record {
  registers = assign w.0 w.1 (stopped x).registers;
  active = (stopped x).active;
}

abbrev pub switch : CString → Chip → Chip
switch c x =
    if strcmp_eq c (str "CONVERSION_OFF")
    then record { registers = assign conversion_register 0 x.registers; active = 0 }
    else if strcmp_eq c (str "CONVERSION_ON")
    then record {
      registers = assign conversion_register conversion_on_value x.registers;
      active = 1;
    }
    else x

-- Every command as it changes the chip.
abbrev pub effect : Command → Chip → Chip
effect (config c v) = put (config_write c v)
effect (nvm c) = put (nvm_command c)
effect (real_time c) = put (real_time_command c)
effect (conversion c) = switch c
effect (identity c v) = put (identity_write c v)
effect (numerical c a b) = λ x. x

abbrev pub effects : List Command → Chip → Chip
effects [] x = x
effects (c ∷ cs) x = effects cs (effect c x)

halves : (v : ℕ) → bit_and (shr v 8) 0xff * 256 + bit_and v 0xff ≡ v % 65536
halves v = omega (arith, bit_and_low 8 (shr v 8), bit_and_low 8 v)

register16-write :
    (reg v q : ℕ) (ms : List Message)
    → register16 bms_address q (write_message reg v ∷ ms)
      ≡ assign reg v (λ r. register16 bms_address r ms) q
unfolding register16
register16-write reg v q ms =
    ap (λ x. if reg == q then some x else register16 bms_address q ms) (halves v)

chip-write :
    (reg v a : ℕ) (ms : List Message)
    → chip (write_message reg v ∷ ms) a
      ≡ record { registers = assign reg v (chip ms a).registers; active = a }
chip-write reg v a ms = λ i. record { registers = λ q. register16-write reg v q ms i; active = a }

-- Registers written one after the other, the newest first.
abbrev pub assigns : List (ℕ × ℕ) → (ℕ → Option ℕ) → ℕ → Option ℕ
assigns [] x = x
assigns ((reg, v) ∷ ws) x = assign reg v (assigns ws x)

abbrev pub write_messages : List (ℕ × ℕ) → List Message
write_messages [] = []
write_messages ((reg, v) ∷ ws) = write_message reg v ∷ write_messages ws

pub register16-write_messages :
    (ws : List (ℕ × ℕ)) (q : ℕ) (ms : List Message)
    → register16 bms_address q (write_messages ws ++ ms)
      ≡ assigns ws (λ r. register16 bms_address r ms) q
register16-write_messages [] q ms = refl
register16-write_messages ((reg, v) ∷ ws) q ms =
    register16-write reg v q (write_messages ws ++ ms)
    ∙ ap (λ o. if reg == q then some (v % 65536) else o) (register16-write_messages ws q ms)

-- A guarded write on the register file.
chip-guarded :
    (w : Option (ℕ × ℕ)) (a : ℕ) (ms : List Message)
    → chip (guarded_messages a w ++ ms) (guarded_flag a w) ≡ put w (chip ms a)
chip-guarded none a ms = refl
chip-guarded (some w) a ms = elim (Bool-cases (a == 1)) [
  | inl e ↦ rw e (
      chip-write w.0 w.1 0 (write_message conversion_register 0 ∷ ms)
      ∙ ap (put (some w)) (chip-write conversion_register 0 0 ms))
  | inr e ↦ rw e (chip-write w.0 w.1 a ms)
]

Sent-chip :
    (ms : List Message) (a : ℕ) (s t : State)
    → Sent ms a s t
    → chip_of t ≡ chip (ms ++ messages wire1 s.calls) a
Sent-chip ms a s t p = λ i. chip (p.traffic i) (p.flag i)

pub Guarded-put : (w : Option (ℕ × ℕ)) (s t : State) → Guarded w s t → chip_of t ≡ put w (chip_of s)
Guarded-put w s t p =
    Sent-chip _ _ s t p ∙ chip-guarded w s.bms_conversion_active (messages wire1 s.calls)

switched :
    (c : CString) (env : Env) (s : State)
    → Ends (set_bms_conversion_state c env s) λ _ t. chip_of t ≡ switch c (chip_of s)
unfolding set_bms_conversion_state strcmp_eq conversion_on_value messages
switched c env s = elim (Bool-cases (strcmp_eq c (str "CONVERSION_OFF"))) [
  | inl e ↦ rw e (
      Ends_weaken (set_bms_conversion_state (str "CONVERSION_OFF") env s) _ _
        (λ _ t p. Sent-chip _ _ s t p ∙ chip-write conversion_register 0 0 _)
        (conversion_off-Sent env s))
  | inr e ↦ elim (Bool-cases (strcmp_eq c (str "CONVERSION_ON"))) [
    | inl q ↦
        rw (e, q)
          (Ends_weaken (set_bms_conversion_state (str "CONVERSION_ON") env s) _ _
            (λ _ t p. Sent-chip _ _ s t p ∙ chip-write conversion_register conversion_on_value 1 _)
            (conversion_on-Sent env s))
    | inr q ↦ rw (e, q) refl
  ]
]

perform-effect :
    (atof : CString → Float) (c : Command) (env : Env) (s : State)
    → Ends (perform atof c env s) λ _ t. chip_of t ≡ effect c (chip_of s)
unfolding perform
perform-effect atof (config c v) env s =
    Ends_weaken (send_bms_config_command c v env s) _ _ (λ _ t. Guarded-put _ s t)
      (send_bms_config_command-Guarded c v env s)
perform-effect atof (nvm c) env s =
    Ends_weaken (rw_bms_nvm c env s) _ _ (λ _ t. Guarded-put _ s t) (rw_bms_nvm-Guarded c env s)
perform-effect atof (real_time c) env s =
    Ends_weaken (send_bms_real_time_command c env s) _ _ (λ _ t. Guarded-put _ s t)
      (send_bms_real_time_command-Guarded c env s)
perform-effect atof (conversion c) env s = switched c env s
perform-effect atof (identity c v) env s =
    Ends_weaken (send_bms_identity_command c v env s) _ _ (λ _ t. Guarded-put _ s t)
      (send_bms_identity_command-Guarded c v env s)
perform-effect atof (numerical c a b) env s =
    Ends_weaken (send_bms_numerical_command atof c a b env s) _ _ (λ _ t p. Sent-chip _ _ s t p)
      (send_bms_numerical_command-Sent atof c a b env s)

-- Any sequence of commands, with any text and values, returns, and changes the registers of the L9961
-- and the flag of the conversions as the commands do it one after the other.
pub perform_all-chip_of :
    (atof : CString → Float) (cs : List Command) (env : Env) (s : State)
    → Ends (perform_all atof cs env s) λ _ t. chip_of t ≡ effects cs (chip_of s)
unfolding perform_all
perform_all-chip_of atof [] env s = refl
perform_all-chip_of atof (c ∷ cs) env s =
    Ends-bind (perform atof c) (λ _. perform_all atof cs) _ _ env s (perform-effect atof c env s)
      λ _ t p.
        Ends_weaken (perform_all atof cs env t) _ _ (λ _ u q. q ∙ ap (effects cs) p)
          (perform_all-chip_of atof cs env t)
