-- ===== src/Bms/SendConfig.antt =====
-- How a configuration value of Bms_SetupCommands is sent: its warning, the write and its report.
use quad_bot_code_actuation.Prelude.{
  ℕ, refl, ap, ◌∙◌, Bool, true, false, [], ◌∷◌, ◌++◌, CString, str,
}
use quad_bot_code_actuation.Prelude.Int.{pos}
use quad_bot_code_actuation.Board.{
  State, Env, M, Ends, Ends-bind, Ends_weaken, call, say, print, text, hex, delay, wire1, when,
  ◌>>◌, ◌◂◌,
}
use quad_bot_code_actuation.Board.Traffic.{Message, messages}
use quad_bot_code_actuation.Bms.Setup.{ConfigEntry, print_bits, write_stopped, send_config}
use quad_bot_code_actuation.Bms.Traffic.{
  Sent, write_message, stop_messages, after_stop, write_stopped-Sent, print_bits-Sent,
}

-- The warning that a value is capped.
abbrev warning : CString → CString → ConfigEntry → M (Unit {0})
warning command value_str e = do
  call (print (text (str "Warning: Value ")))
  call (print (text value_str))
  call (print (text (str " exceeds max allowed for ")))
  call (print (text command))
  call (print (text (str ". Capping to 0b")))
  print_bits 16 e.max_data
  say []

abbrev ending : CString → ℕ → M (Unit {0})
ending command value = do
  call (print (text (str "Config Command sent: ")))
  call (print (text command))
  call (print (text (str " with data 0x")))
  call (print (hex (pos value)))
  call (print (text (str " (binary: ")))
  print_bits 16 value
  say (str ")")
  call (delay 10)

warning-Sent :
    (command value_str : CString) (e : ConfigEntry) (capped : Bool) (env : Env) (s : State)
    → Ends
        (when capped (warning command value_str e) env s)
        λ _ t. Sent [] s.bms_conversion_active s t
unfolding messages
warning-Sent command value_str e false env s = record { traffic = refl; flag = refl }
warning-Sent command value_str e true env s =
    Ends-bind (print_bits 16 e.max_data) (λ _. say []) _ _ env
      (record s {
        calls =
            s.calls
            ◂ print (text (str "Warning: Value "))
            ◂ print (text value_str)
            ◂ print (text (str " exceeds max allowed for "))
            ◂ print (text command)
            ◂ print (text (str ". Capping to 0b"));
      })
      (print_bits-Sent 16 e.max_data env _) λ _ t p. record { traffic = p.traffic; flag = p.flag }

ending-Sent :
    (command : CString) (value : ℕ) (env : Env) (s : State)
    → Ends (ending command value env s) λ _ t. Sent [] s.bms_conversion_active s t
unfolding messages
ending-Sent command value env s =
    Ends-bind (print_bits 16 value) (λ _. say (str ")") >> call (delay 10)) _ _ env
      (record s {
        calls =
            s.calls
            ◂ print (text (str "Config Command sent: "))
            ◂ print (text command)
            ◂ print (text (str " with data 0x"))
            ◂ print (hex (pos value))
            ◂ print (text (str " (binary: "));
      })
      (print_bits-Sent 16 value env _) λ _ t p. record { traffic = p.traffic; flag = p.flag }

-- A guarded write between two pieces that only print.
around :
    (m : Message) (s t u v : State)
    → Sent [] s.bms_conversion_active s t
    → Sent (m ∷ stop_messages t.bms_conversion_active) (after_stop t.bms_conversion_active) t u
    → Sent [] u.bms_conversion_active u v
    → Sent (m ∷ stop_messages s.bms_conversion_active) (after_stop s.bms_conversion_active) s v
around m s t u v p q r = record {
  traffic =
      r.traffic
      ∙ q.traffic
      ∙ ap (λ a. m ∷ (stop_messages a ++ messages wire1 t.calls)) p.flag
      ∙ ap (λ x. m ∷ (stop_messages s.bms_conversion_active ++ x)) p.traffic;
  flag = r.flag ∙ q.flag ∙ ap after_stop p.flag;
}

pub send_config-Sent :
    (command value_str : CString) (e : ConfigEntry) (value : ℕ) (capped : Bool) (env : Env)
    (s : State)
    → Ends (send_config command value_str e value capped env s) λ _ t.
      Sent
        (write_message e.register_address value ∷ stop_messages s.bms_conversion_active)
        (after_stop s.bms_conversion_active)
        s
        t
unfolding send_config
send_config-Sent command value_str e value capped env s =
    Ends-bind (when capped (warning command value_str e))
      (λ _. write_stopped e.register_address value >> ending command value) _ _ env s
      (warning-Sent command value_str e capped env s)
      λ _ t p.
        Ends-bind (write_stopped e.register_address value) (λ _. ending command value) _ _ env t
          (write_stopped-Sent e.register_address value env t)
          λ _ u q.
            Ends_weaken (ending command value env u) _ _
              (λ _ v r. around (write_message e.register_address value) s t u v p q r)
              (ending-Sent command value env u)
