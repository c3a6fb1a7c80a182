-- ===== src/Bms/Traffic.antt =====
-- The messages that the commands of the BMS put on the second I2C bus.
use quad_bot_code_actuation.Prelude.{
  ℕ, zero, suc, ◌≡◌, refl, ap, ◌∙◌, List, [], ◌∷◌, ◌++◌, CString, str, strcmp_eq, sym, arith, ◌==◌,
  bit_and, shr, if◌then◌else◌, Bool-cases, inl, inr,
}
use mathlib.Core.List.{append_assoc}
use quad_bot_code_actuation.Board.{
  State, Env, wire1, Ends, Ends-bind, Ends_weaken, M, when, print, dec, ◌◂◌,
}
use quad_bot_code_actuation.Prelude.Int.{pos}
use quad_bot_code_actuation.Board.Traffic.{Message, message, messages, pending}
use quad_bot_code_actuation.Bms.Core.{
  bms_address, write_bms_data, set_bms_conversion_state, conversion_register, conversion_on_value,
}
use quad_bot_code_actuation.Bms.Setup.{print_bits, write_stopped, send_register, report}

-- A 16-bit write: the register, the high byte and the low byte.
abbrev pub write_message : ℕ → ℕ → Message
write_message reg v = message bms_address (reg ∷ bit_and (shr v 8) 0xff ∷ bit_and v 0xff ∷ [])

-- The messages `sent`, the newest first, are all that went out, and the conversion flag is `active`.
pub record Sent (sent : List Message) (active : ℕ) (s t : State) : Type 0 where
  pub traffic : messages wire1 t.calls ≡ sent ++ messages wire1 s.calls
  pub flag : t.bms_conversion_active ≡ active

-- What stopping the conversion sends, by the flag before it.
abbrev pub stop_messages : ℕ → List Message
stop_messages active = if active == 1 then write_message conversion_register 0 ∷ [] else []

abbrev pub after_stop : ℕ → ℕ
after_stop active = if active == 1 then 0 else active

pub write_bms_data-Sent :
    (reg v : ℕ) (env : Env) (s : State)
    → Ends
        (write_bms_data bms_address reg v env s)
        λ _ t. Sent (write_message reg v ∷ []) s.bms_conversion_active s t
unfolding write_bms_data messages pending
write_bms_data-Sent reg v env s = ground arith

-- One piece of traffic after another.
pub Sent-then :
    (xs ys : List Message) (x y : ℕ) (s t u : State)
    → Sent xs x s t
    → Sent ys y t u
    → Sent (ys ++ xs) y s u
Sent-then xs ys x y s t u p q = record {
  traffic = q.traffic ∙ ap (◌++◌ ys) p.traffic ∙ sym (append_assoc ys xs (messages wire1 s.calls));
  flag = q.flag;
}

pub conversion_off-Sent :
    (env : Env) (s : State)
    → Ends
        (set_bms_conversion_state (str "CONVERSION_OFF") env s)
        λ _ t. Sent (write_message conversion_register 0 ∷ []) 0 s t
unfolding set_bms_conversion_state strcmp_eq messages pending
conversion_off-Sent env s = ground arith

pub conversion_on-Sent :
    (env : Env) (s : State)
    → Ends
        (set_bms_conversion_state (str "CONVERSION_ON") env s)
        λ _ t. Sent (write_message conversion_register conversion_on_value ∷ []) 1 s t
unfolding set_bms_conversion_state strcmp_eq messages pending
conversion_on-Sent env s = ground arith

-- `if (bmsConversionActive == 1) setBMSConversionState("CONVERSION_OFF");`
abbrev stop : State → M (Unit {0})
stop s = when (s.bms_conversion_active == 1) (set_bms_conversion_state (str "CONVERSION_OFF"))

stop-Sent :
    (env : Env) (s : State)
    → Ends
        (stop s env s)
        λ _ t. Sent (stop_messages s.bms_conversion_active) (after_stop s.bms_conversion_active) s t
stop-Sent env s = elim (Bool-cases (s.bms_conversion_active == 1)) [
  | inl e ↦ rw e (conversion_off-Sent env s)
  | inr e ↦ rw e (record { traffic = refl; flag = refl })
]

pub write_stopped-Sent :
    (reg v : ℕ) (env : Env) (s : State)
    → Ends (write_stopped reg v env s) λ _ t.
      Sent
        (write_message reg v ∷ stop_messages s.bms_conversion_active)
        (after_stop s.bms_conversion_active)
        s
        t
unfolding write_stopped
write_stopped-Sent reg v env s =
    Ends-bind (stop s) (λ _. write_bms_data bms_address reg v) _ _ env s (stop-Sent env s)
      λ _ t p.
        Ends_weaken (write_bms_data bms_address reg v env t) _ _
          (λ _ u q.
            let r = Sent-then _ _ _ _ s t u p q in
            record { traffic = r.traffic; flag = r.flag ∙ p.flag })
          (write_bms_data-Sent reg v env t)

pub print_bits-Sent :
    (n v : ℕ) (env : Env) (s : State)
    → Ends (print_bits n v env s) λ _ t. Sent [] s.bms_conversion_active s t
unfolding print_bits messages
print_bits-Sent zero v env s = record { traffic = refl; flag = refl }
print_bits-Sent (suc n) v env s =
    let t = record s { calls = s.calls ◂ print (dec (pos (bit_and (shr v n) 1))) } in
    Ends_weaken (print_bits n v env t) _ _ (λ _ u r. record { traffic = r.traffic; flag = r.flag })
      (print_bits-Sent n v env t)

pub send_register-Sent :
    (label command : CString) (reg v : ℕ) (env : Env) (s : State)
    → Ends (send_register label command reg v env s) λ _ t.
      Sent
        (write_message reg v ∷ stop_messages s.bms_conversion_active)
        (after_stop s.bms_conversion_active)
        s
        t
unfolding send_register messages
send_register-Sent label command reg v env s =
    Ends-bind (write_stopped reg v) (λ _. report label command v) _ _ env s
      (write_stopped-Sent reg v env s) λ _ t p. record { traffic = p.traffic; flag = p.flag }
