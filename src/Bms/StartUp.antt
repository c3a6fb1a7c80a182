-- ===== src/Bms/StartUp.antt =====
-- What the start-up sequence of the L9961 sends.
use quad_bot_code_actuation.Prelude.{
  ℕ, ◌≡◌, refl, ap, subst, ◌∙◌, Option, none, some, List, [], ◌∷◌, ◌++◌, CString, str, strcmp_eq,
}
use quad_bot_code_actuation.Float.{Float}
use quad_bot_code_actuation.Board.{State, Env, M, Ends, Ends-bind, Ends_weaken, ◌>>◌, wire1}
use quad_bot_code_actuation.Board.Traffic.{Message, messages}
use quad_bot_code_actuation.Bms.Setup.{
  config_entry, config_value, identity_register, send_bms_config_command, send_bms_identity_command,
}
use quad_bot_code_actuation.Bms.SetUpBms.{
  set_up_config, set_up_identity, set_up_thresholds, set_up_bms,
}
use quad_bot_code_actuation.Bms.Traffic.{Sent, Sent-then, write_message, stop_messages, after_stop}
use quad_bot_code_actuation.Bms.Chip.{write_messages}
use quad_bot_code_actuation.Bms.Commands.{
  Guarded, config_write, identity_write, send_bms_config_command-Guarded,
  send_bms_identity_command-Guarded,
}
use quad_bot_code_actuation.Bms.Numerical.{send_bms_numerical_command}
use quad_bot_code_actuation.Bms.Thresholds.{send_bms_numerical_command-Sent}

-- A part of the sequence: from a state with the conversion off it sends these messages.
record Sends (m : M (Unit {0})) (ms : List Message) (env : Env) : Type 0 where
  run : (s : State) → s.bms_conversion_active ≡ 0 → Ends (m env s) λ _ t. Sent ms 0 s t

follow :
    {m k : M (Unit {0})} {xs ys : List Message} {env : Env}
    → Sends m xs env
    → Sends k ys env
    → Sends (m >> k) (ys ++ xs) env
follow {m = m} {k = k} {xs = xs} {ys = ys} {env = env} h next = record {
  run = λ s z.
      Ends-bind m (λ _. k) _ _ env s (h.run s z)
        λ _ t p.
          Ends_weaken (k env t) _ _ (λ _ u q. Sent-then xs ys 0 0 s t u p q) (next.run t p.flag);
}

Guarded-at :
    (w : ℕ × ℕ) (s t : State)
    → s.bms_conversion_active ≡ 0
    → Guarded (some w) s t
    → Sent (write_message w.0 w.1 ∷ []) 0 s t
Guarded-at w s t z p = record {
  traffic =
      p.traffic ∙ ap (λ a. write_message w.0 w.1 ∷ (stop_messages a ++ messages wire1 s.calls)) z;
  flag = p.flag ∙ ap after_stop z;
}

config-Sends :
    (c : CString) (w : ℕ × ℕ) (env : Env)
    → config_write c (str "default") ≡ some w
    → Sends (send_bms_config_command c (str "default")) (write_message w.0 w.1 ∷ []) env
config-Sends c w env e = record {
  run = λ s z.
      Ends_weaken (send_bms_config_command c (str "default") env s) _ _
        (λ _ t p. Guarded-at w s t z (subst (λ x. Guarded x s t) e p))
        (send_bms_config_command-Guarded c (str "default") env s);
}

identity-Sends :
    (c : CString) (v : ℕ) (w : ℕ × ℕ) (env : Env)
    → identity_write c v ≡ some w
    → Sends (send_bms_identity_command c v) (write_message w.0 w.1 ∷ []) env
identity-Sends c v w env e = record {
  run = λ s z.
      Ends_weaken (send_bms_identity_command c v env s) _ _
        (λ _ t p. Guarded-at w s t z (subst (λ x. Guarded x s t) e p))
        (send_bms_identity_command-Guarded c v env s);
}

-- The defaults of the configuration registers, the newest first.
abbrev pub config_values : List (ℕ × ℕ)
config_values =
    (0x2f, 0x0000)
    ∷ (0x2b, 0x0000)
    ∷ (0x2a, 0x0000)
    ∷ (0x16, 0x0fff)
    ∷ (0x15, 0x0fff)
    ∷ (0x14, 0x007f)
    ∷ (0x13, 0x7fff)
    ∷ (0x04, 0x19ff)
    ∷ []

abbrev pub config_messages : List Message
config_messages = write_messages config_values

set_up_config-Sends : (env : Env) → Sends set_up_config config_messages env
unfolding set_up_config config_entry config_value strcmp_eq
set_up_config-Sends env = follow (config-Sends (str "CFG2_ENABLES") (0x04, 0x19ff) env refl) (
    follow (config-Sends (str "TO_PRDV_BAL_MSK") (0x13, 0x7fff) env refl) (
      follow (config-Sends (str "TO_FUSE_RST_MSK") (0x14, 0x007f) env refl) (
        follow (config-Sends (str "TO_FAULTN_MSK") (0x15, 0x0fff) env refl) (
          follow (config-Sends (str "CURR_MSK") (0x16, 0x0fff) env refl) (
            follow (config-Sends (str "DIAG_OV_OT_UT") (0x2a, 0x0000) env refl) (
              follow (config-Sends (str "DIAG_UV") (0x2b, 0x0000) env refl)
                (config-Sends (str "DIAG_CURR") (0x2f, 0x0000) env refl)))))))

-- The identity of the chip, the newest first.
abbrev pub identity_values : List (ℕ × ℕ)
identity_values =
    (0x1e, 0x2468)
    ∷ (0x1d, 0x1357)
    ∷ (0x1c, 0xef01)
    ∷ (0x1b, 0xabcd)
    ∷ (0x1a, 0x2025)
    ∷ (0x19, 0x2025)
    ∷ (0x18, 0x5678)
    ∷ (0x17, 0x1234)
    ∷ []

abbrev pub identity_messages : List Message
identity_messages = write_messages identity_values

set_up_identity-Sends : (env : Env) → Sends set_up_identity identity_messages env
unfolding set_up_identity identity_register strcmp_eq
set_up_identity-Sends env =
    follow (identity-Sends (str "MANUFACTURE_NAME_MSB") 0x1234 (0x17, 0x1234) env refl) (
      follow (identity-Sends (str "MANUFACTURE_NAME_LSB") 0x5678 (0x18, 0x5678) env refl) (
        follow (identity-Sends (str "MANUFACTURING_DATE") 0x2025 (0x19, 0x2025) env refl) (
          follow (identity-Sends (str "FIRST_USAGE_DATE") 0x2025 (0x1a, 0x2025) env refl) (
            follow (identity-Sends (str "SERIAL_NUMBER_MSB") 0xabcd (0x1b, 0xabcd) env refl) (
              follow (identity-Sends (str "SERIAL_NUMBER_LSB") 0xef01 (0x1c, 0xef01) env refl) (
                follow (identity-Sends (str "DEVICE_NAME_MSB") 0x1357 (0x1d, 0x1357) env refl)
                  (identity-Sends (str "DEVICE_NAME_LSB") 0x2468 (0x1e, 0x2468) env refl)))))))

module _ (atof : CString → Float) where
  threshold-Sends :
      (c : CString) (a b : Option CString) (env : Env)
      → Sends (send_bms_numerical_command atof c a b) [] env
  threshold-Sends c a b env = record {
    run = λ s z.
        Ends_weaken (send_bms_numerical_command atof c a b env s) _ _
          (λ _ t p. record { traffic = p.traffic; flag = p.flag ∙ z })
          (send_bms_numerical_command-Sent atof c a b env s);
  }

  set_up_thresholds-Sends : (env : Env) → Sends (set_up_thresholds atof) [] env
  unfolding set_up_thresholds
  set_up_thresholds-Sends env =
      follow (threshold-Sends (str "CSA_GAIN_FACTOR") (some (str "default")) none env) (
        follow (threshold-Sends (str "VCELL_OV_TH") (some (str "max")) (some (str "max")) env) (
          follow (threshold-Sends (str "VCELL_UV_TH") (some (str "min")) (some (str "max")) env) (
            follow
              (threshold-Sends (str "VCELL_SEVERE_DELTA_THRS") (some (str "max")) (some (str "min"))
                env)
              (follow
                (threshold-Sends (str "VCELL_BAL_UV_DELTA_TH") (some (str "min")) (some (str "max"))
                  env)
                (follow (threshold-Sends (str "VB_OV_TH") (some (str "max")) (some (str "max")) env)
                  (follow
                    (threshold-Sends (str "VB_UV_TH") (some (str "min")) (some (str "max")) env)
                    (follow (threshold-Sends (str "VB_SUM_MAX_DIFF_TH") (some (str "max")) none env)
                      (follow
                        (threshold-Sends (str "VNTC_OT_TH") (some (str "max")) (some (str "max"))
                          env)
                        (follow
                          (threshold-Sends (str "VNTC_UT_TH") (some (str "min")) (some (str "max"))
                            env)
                          (follow
                            (threshold-Sends (str "VNTC_SEVERE_OT_DELTA_TH") (some (str "max")) none
                              env)
                            (follow
                              (threshold-Sends (str "OVC_THRESHOLDS") (some (str "max"))
                                (some (str "max")) env)
                              (follow
                                (threshold-Sends (str "PERSISTENT_OVC_THRESHOLDS")
                                  (some (str "max")) none env)
                                (threshold-Sends (str "SC_THRESHOLD") (some (str "max"))
                                  (some (str "max")) env)))))))))))))

  -- From a state with the conversion off, the start-up sequence sends the defaults of the eight
  -- configuration registers and then the eight identity words, each once, and nothing else: none of the
  -- fourteen thresholds reaches the chip.
  pub set_up_bms-Sent :
      (env : Env) (s : State)
      → s.bms_conversion_active ≡ 0
      → Ends (set_up_bms atof env s) λ _ t. Sent (identity_messages ++ config_messages) 0 s t
  unfolding set_up_bms
  set_up_bms-Sent env s z =
      (follow (set_up_config-Sends env)
          (follow (set_up_identity-Sends env) (set_up_thresholds-Sends env))).run
        s z
