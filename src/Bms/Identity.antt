-- ===== src/Bms/Identity.antt =====
-- The identity of the L9961, written and read back.
use quad_bot_code_actuation.Prelude.{
  ℕ, ◌+◌, ◌*◌, ◌<◌, ◌≡◌, ◌≢◌, subst, ap, ◌∙◌, some, CString, str, strcmp_eq, arith,
}
use quad_bot_code_actuation.Board.{
  State, Env, History, M, Ends, Ends-bind, Ends_weaken, wire1, ◌>>◌,
}
use quad_bot_code_actuation.Board.Traffic.{messages, register16}
use quad_bot_code_actuation.Bms.Core.{bms_address}
use quad_bot_code_actuation.Bms.Read.{read_manufacturer_name, read_serial_number, read_device_name}
use quad_bot_code_actuation.Bms.Setup.{identity_register, send_bms_identity_command}
use quad_bot_code_actuation.Bms.Commands.{
  Guarded, identity_write, send_bms_identity_command-Guarded,
}
use quad_bot_code_actuation.Bms.Chip.{Chip, chip_of, put, Guarded-put}
use quad_bot_code_actuation.Bms.Registers.{answered, listened}
use quad_bot_code_actuation.Bms.Counters.{PairRead, read_identity}

-- The words of 32 bits.
pub data Word : Type 0 where
  manufacturer_name serial_number device_name : Word

abbrev pub msb_command : Word → CString
msb_command manufacturer_name = str "MANUFACTURE_NAME_MSB"
msb_command serial_number = str "SERIAL_NUMBER_MSB"
msb_command device_name = str "DEVICE_NAME_MSB"

abbrev pub lsb_command : Word → CString
lsb_command manufacturer_name = str "MANUFACTURE_NAME_LSB"
lsb_command serial_number = str "SERIAL_NUMBER_LSB"
lsb_command device_name = str "DEVICE_NAME_LSB"

abbrev pub read_back : Word → M ℕ
read_back manufacturer_name = read_manufacturer_name
read_back serial_number = read_serial_number
read_back device_name = read_device_name

abbrev pub msb_register : Word → ℕ
msb_register manufacturer_name = 0x17
msb_register serial_number = 0x1b
msb_register device_name = 0x1d

abbrev pub lsb_register : Word → ℕ
lsb_register manufacturer_name = 0x18
lsb_register serial_number = 0x1c
lsb_register device_name = 0x1e

-- The chip answers a reading of the register with the 16 bits that it was last set to.
pub record IsStoring (reg : ℕ) (env : Env) : Type 0 where
  pub answers :
      (past : History) (v : ℕ)
      → v < 65536
      → register16 bms_address reg (messages wire1 past) ≡ some v
      → answered env (listened bms_address reg past) ≡ v

read_back-PairRead :
    (w : Word) (env : Env) (s : State)
    → Ends (read_back w env s) λ v t. PairRead env (msb_register w) (lsb_register w) v s t
read_back-PairRead manufacturer_name env s = (read_identity env s).0
read_back-PairRead serial_number env s = (read_identity env s).1
read_back-PairRead device_name env s = (read_identity env s).2

msb_write : (w : Word) (v : ℕ) → v ≢ 0 → identity_write (msb_command w) v ≡ some (msb_register w, v)
unfolding identity_register strcmp_eq
msb_write manufacturer_name v h = ground arith
msb_write serial_number v h = ground arith
msb_write device_name v h = ground arith

lsb_write : (w : Word) (v : ℕ) → v ≢ 0 → identity_write (lsb_command w) v ≡ some (lsb_register w, v)
unfolding identity_register strcmp_eq
lsb_write manufacturer_name v h = ground arith
lsb_write serial_number v h = ground arith
lsb_write device_name v h = ground arith

put_same : (w : ℕ × ℕ) (x : Chip) → w.1 < 65536 → (put (some w) x).registers w.0 ≡ some w.1
put_same w x h = ground arith

put_other :
    (w : ℕ × ℕ) (q : ℕ) (x : Chip) → w.0 ≢ q → 2 ≢ q → (put (some w) x).registers q ≡ x.registers q
put_other w q x h k = ground arith

-- The two halves of a word, one above the other, away from the conversion register.
halves_apart : (w : Word) → (lsb_register w ≢ msb_register w) × (2 ≢ msb_register w)
halves_apart manufacturer_name = (λ e. omega arith, λ e. omega arith)
halves_apart serial_number = (λ e. omega arith, λ e. omega arith)
halves_apart device_name = (λ e. omega arith, λ e. omega arith)

sent :
    (c : CString) (v : ℕ) (w : ℕ × ℕ) (env : Env) (s : State)
    → identity_write c v ≡ some w
    → Ends (send_bms_identity_command c v env s) λ _ t. chip_of t ≡ put (some w) (chip_of s)
sent c v w env s e =
    Ends_weaken (send_bms_identity_command c v env s) _ _
      (λ _ t p. Guarded-put (some w) s t (subst (λ x. Guarded x s t) e p))
      (send_bms_identity_command-Guarded c v env s)

-- Both halves are in their registers.
pub record IsStored (w : Word) (msb lsb : ℕ) (t : State) : Type 0 where
  pub high : register16 bms_address (msb_register w) (messages wire1 t.calls) ≡ some msb
  pub low : register16 bms_address (lsb_register w) (messages wire1 t.calls) ≡ some lsb

module _ (w : Word) (msb lsb : ℕ) (hm : msb ≢ 0) (hl : lsb ≢ 0) (bm : msb < 65536)
    (bl : lsb < 65536) (env : Env) where
  stored :
      (s t u : State)
      → chip_of t ≡ put (some (msb_register w, msb)) (chip_of s)
      → chip_of u ≡ put (some (lsb_register w, lsb)) (chip_of t)
      → IsStored w msb lsb u
  stored s t u p q = record {
    high =
        ap (λ x. x.registers (msb_register w)) q
        ∙ put_other (lsb_register w, lsb) (msb_register w) (chip_of t) (halves_apart w).0
            (halves_apart w).1
        ∙ ap (λ x. x.registers (msb_register w)) p
        ∙ put_same (msb_register w, msb) (chip_of s) bm;
    low = ap (λ x. x.registers (lsb_register w)) q ∙ put_same (lsb_register w, lsb) (chip_of t) bl;
  }

  both-IsStored :
      (s : State)
      → Ends
          ((send_bms_identity_command (msb_command w) msb
              >> send_bms_identity_command (lsb_command w) lsb)
            env s)
          λ _ u. IsStored w msb lsb u
  both-IsStored s =
      Ends-bind (send_bms_identity_command (msb_command w) msb)
        (λ _. send_bms_identity_command (lsb_command w) lsb) _ _ env s
        (sent _ msb (msb_register w, msb) env s (msb_write w msb hm))
        λ _ t p.
          Ends_weaken (send_bms_identity_command (lsb_command w) lsb env t) _ _
            (λ _ u q. stored s t u p q)
            (sent _ lsb (lsb_register w, lsb) env t (lsb_write w lsb hl))

  module _ (high : IsStoring (msb_register w) env) (low : IsStoring (lsb_register w) env) where
    pub read-IsStored :
        (s : State) → IsStored w msb lsb s → Ends (read_back w env s) λ v _. v ≡ msb * 65536 + lsb
    unfolding register16
    read-IsStored s g =
        Ends_weaken (read_back w env s) _ _
          (λ v t r.
            let first : r.msb ≡ msb = r.first.value ∙ high.answers s.calls msb bm g.high in
            let second : r.lsb ≡ lsb =
              r.second.value
              ∙ low.answers r.between.calls lsb bl
                  (ap (register16 bms_address (lsb_register w)) r.first.asked ∙ g.low) in
            r.value ∙ ap (λ n. n * 65536 + r.lsb) first ∙ ap (λ n. msb * 65536 + n) second)
          (read_back-PairRead w env s)

    -- The manufacturer, the serial number and the device name are read back as they were written: when
    -- the two identity commands of a word have sent its halves, neither of them 0, and the chip answers
    -- the readings of the two registers with what they were last set to, the reading returns the word of
    -- 32 bits.
    pub identity-read_back :
        (s : State)
        → Ends
            ((send_bms_identity_command (msb_command w) msb
                >> send_bms_identity_command (lsb_command w) lsb
                >> read_back w)
              env s)
            λ v _. v ≡ msb * 65536 + lsb
    identity-read_back s =
        Ends-bind
          (send_bms_identity_command (msb_command w) msb
            >> send_bms_identity_command (lsb_command w) lsb)
          (λ _. read_back w) _ _ env s (both-IsStored s) λ _ t g. read-IsStored t g
