-- ===== src/Bms/Guard.antt =====
-- No register of the L9961 is written while its conversions run, whatever commands are given.
use quad_bot_code_actuation.Prelude.{
  ℕ, zero, suc, ◌≡◌, ◌≢◌, refl, sym, ap, ◌∙◌, Bool, true, false, not, ◌&&◌, Option, none, some,
  List, [], ◌∷◌, ◌++◌, CString, str, strcmp_eq, ◌==◌, if◌then◌else◌, Bool-cases, inl, inr, arith,
}
use quad_bot_code_actuation.Board.{State, Env, M, Ends, Ends-bind, Ends_weaken, wire1, ◌>>◌, done}
use quad_bot_code_actuation.Board.Traffic.{Message, messages, register16}
use quad_bot_code_actuation.Bms.Core.{
  bms_address, set_bms_conversion_state, conversion_register, conversion_on_value,
}
use quad_bot_code_actuation.Bms.Setup.{
  config_entry, nvm_command, identity_register, real_time_command, send_bms_config_command,
  rw_bms_nvm, send_bms_identity_command, send_bms_real_time_command,
}
use quad_bot_code_actuation.Float.{Float}
use quad_bot_code_actuation.Bms.Numerical.{send_bms_numerical_command}
use quad_bot_code_actuation.Bms.Thresholds.{send_bms_numerical_command-Sent}
use quad_bot_code_actuation.Bms.Traffic.{
  Sent, write_message, conversion_off-Sent, conversion_on-Sent,
}
use quad_bot_code_actuation.Bms.Commands.{
  Guarded, guarded_messages, guarded_flag, config_write, identity_write,
  send_bms_config_command-Guarded, rw_bms_nvm-Guarded, send_bms_real_time_command-Guarded,
  send_bms_identity_command-Guarded,
}

-- The commands that set the chip up.
pub data Command : Type 0 where
  config : CString → CString → Command
  nvm real_time conversion : CString → Command
  identity : CString → ℕ → Command
  numerical : CString → Option CString → Option CString → Command

unfoldable pub perform : (CString → Float) → Command → M (Unit {0})
perform atof (config c v) = send_bms_config_command c v
perform atof (nvm c) = rw_bms_nvm c
perform atof (real_time c) = send_bms_real_time_command c
perform atof (conversion c) = set_bms_conversion_state c
perform atof (identity c v) = send_bms_identity_command c v
perform atof (numerical c a b) = send_bms_numerical_command atof c a b

unfoldable pub perform_all : (CString → Float) → List Command → M (Unit {0})
unfolding perform
perform_all atof [] = done
perform_all atof (c ∷ cs) = perform atof c >> perform_all atof cs

-- Whether the conversion register was last set to something other than zero.
abbrev pub is_running : Option ℕ → Bool
is_running none = false
is_running (some zero) = false
is_running (some (suc n)) = true

unfoldable pub converting : List Message → Bool
unfolding register16
converting ms = is_running (register16 bms_address conversion_register ms)

-- A 16-bit write to the chip, but not to the conversion register.
abbrev pub sets_up : Message → Bool
sets_up m = elim m.bytes [
  | reg ∷ hi ∷ lo ∷ [] ↦ (m.to == bms_address) && not (reg == conversion_register)
  | _ ↦ false
]

-- Every write of set-up came while no conversion ran.
unfoldable pub guarded : List Message → Bool
unfolding converting
guarded [] = true
guarded (m ∷ ms) = let before = guarded ms in if sets_up m && converting ms then false else before

-- `bmsConversionActive` says what the chip was last told, and no write disturbed a conversion.
pub record IsGuarded (s : State) : Type 0 where
  pub mirror : (s.bms_conversion_active == 1) ≡ converting (messages wire1 s.calls)
  pub safe : guarded (messages wire1 s.calls) ≡ true

-- The write does not go to the conversion register.
abbrev Elsewhere : Option (ℕ × ℕ) → Type 0
Elsewhere none = Unit
Elsewhere (some w) = w.0 ≢ conversion_register

guarded_safe :
    (active : ℕ) (w : Option (ℕ × ℕ)) (ms : List Message)
    → (active == 1) ≡ converting ms
    → guarded ms ≡ true
    → Elsewhere w
    → guarded (guarded_messages active w ++ ms) ≡ true
unfolding guarded
guarded_safe active none ms h k n = k
guarded_safe active (some w) ms h k n = ground arith

guarded_mirror :
    (active : ℕ) (w : Option (ℕ × ℕ)) (ms : List Message)
    → (active == 1) ≡ converting ms
    → Elsewhere w
    → (guarded_flag active w == 1) ≡ converting (guarded_messages active w ++ ms)
unfolding converting
guarded_mirror active none ms h n = h
guarded_mirror active (some w) ms h n = ground arith

config_write-Elsewhere : (c v : CString) → Elsewhere (config_write c v)
unfolding config_entry
config_write-Elsewhere c v = ground arith

nvm_command-Elsewhere : (c : CString) → Elsewhere (nvm_command c)
unfolding nvm_command
nvm_command-Elsewhere c = ground arith

real_time_command-Elsewhere : (c : CString) → Elsewhere (real_time_command c)
unfolding real_time_command
real_time_command-Elsewhere c = ground arith

identity_write-Elsewhere : (c : CString) (v : ℕ) → Elsewhere (identity_write c v)
unfolding identity_register
identity_write-Elsewhere c v = ground arith

kept : (w : Option (ℕ × ℕ)) (s t : State) → Elsewhere w → IsGuarded s → Guarded w s t → IsGuarded t
kept w s t n g p = record {
  mirror =
      ap (λ a. a == 1) p.flag
      ∙ guarded_mirror s.bms_conversion_active w (messages wire1 s.calls) g.mirror n
      ∙ ap converting (sym p.traffic);
  safe =
      ap guarded p.traffic
      ∙ guarded_safe s.bms_conversion_active w (messages wire1 s.calls) g.mirror g.safe n;
}

switched :
    (v active : ℕ) (s t : State)
    → IsGuarded s
    → Sent (write_message conversion_register v ∷ []) active s t
    → (active == 1) ≡ converting (write_message conversion_register v ∷ [])
    → IsGuarded t
unfolding converting guarded
switched v active s t g p e = record {
  mirror = ap (λ a. a == 1) p.flag ∙ e ∙ ap converting (sym p.traffic);
  safe = ap guarded p.traffic ∙ g.safe;
}

conversion-IsGuarded :
    (c : CString) (env : Env) (s : State)
    → IsGuarded s
    → Ends (set_bms_conversion_state c env s) λ _ t. IsGuarded t
unfolding set_bms_conversion_state strcmp_eq messages converting conversion_on_value
conversion-IsGuarded c env s g = elim (Bool-cases (strcmp_eq c (str "CONVERSION_OFF"))) [
  | inl e ↦ rw e (
      Ends_weaken (set_bms_conversion_state (str "CONVERSION_OFF") env s) _ _
        (λ _ t p. switched 0 0 s t g p refl) (conversion_off-Sent env s))
  | inr e ↦ elim (Bool-cases (strcmp_eq c (str "CONVERSION_ON"))) [
    | inl q ↦
        rw (e, q)
          (Ends_weaken (set_bms_conversion_state (str "CONVERSION_ON") env s) _ _
            (λ _ t p. switched conversion_on_value 1 s t g p refl) (conversion_on-Sent env s))
    | inr q ↦ rw (e, q) (record { mirror = g.mirror; safe = g.safe })
  ]
]

perform-IsGuarded :
    (atof : CString → Float) (c : Command) (env : Env) (s : State)
    → IsGuarded s
    → Ends (perform atof c env s) λ _ t. IsGuarded t
unfolding perform
perform-IsGuarded atof (config c v) env s g =
    Ends_weaken (send_bms_config_command c v env s) _ _
      (λ _ t. kept _ s t (config_write-Elsewhere c v) g) (send_bms_config_command-Guarded c v env s)
perform-IsGuarded atof (nvm c) env s g =
    Ends_weaken (rw_bms_nvm c env s) _ _ (λ _ t. kept _ s t (nvm_command-Elsewhere c) g)
      (rw_bms_nvm-Guarded c env s)
perform-IsGuarded atof (real_time c) env s g =
    Ends_weaken (send_bms_real_time_command c env s) _ _
      (λ _ t. kept _ s t (real_time_command-Elsewhere c) g)
      (send_bms_real_time_command-Guarded c env s)
perform-IsGuarded atof (conversion c) env s g = conversion-IsGuarded c env s g
perform-IsGuarded atof (identity c v) env s g =
    Ends_weaken (send_bms_identity_command c v env s) _ _
      (λ _ t. kept _ s t (identity_write-Elsewhere c v) g)
      (send_bms_identity_command-Guarded c v env s)
perform-IsGuarded atof (numerical c a b) env s g =
    Ends_weaken (send_bms_numerical_command atof c a b env s) _ _
      (λ _ t p. kept none s t tt g (record { traffic = p.traffic; flag = p.flag }))
      (send_bms_numerical_command-Sent atof c a b env s)

-- Any sequence of set-up commands, with any text and values, returns, keeps the flag true to what
-- the chip was last told, and never writes another register of the chip while conversions run.
pub perform_all-IsGuarded :
    (atof : CString → Float) (cs : List Command) (env : Env) (s : State)
    → IsGuarded s
    → Ends (perform_all atof cs env s) λ _ t. IsGuarded t
unfolding perform_all
perform_all-IsGuarded atof [] env s g = g
perform_all-IsGuarded atof (c ∷ cs) env s g =
    Ends-bind (perform atof c) (λ _. perform_all atof cs) _ _ env s
      (perform-IsGuarded atof c env s g) λ _ t. perform_all-IsGuarded atof cs env t
