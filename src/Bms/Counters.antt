-- ===== src/Bms/Counters.antt =====
-- The coulomb counter and the 32-bit identity words.
use quad_bot_code_actuation.Prelude.{
  ℕ, ◌+◌, ◌*◌, ◌/◌, ◌%◌, ◌^◌, ◌<◌, ◌≡◌, refl, ap, ◌∙◌, arith, u32, shl, bit_and, bit_or,
  bit_and_low, bit_or_pack, leb, if◌then◌else◌,
}
use quad_bot_code_actuation.Prelude.{◌∷◌}
use quad_bot_code_actuation.Float.{Float, add, mul, div, roundf, literal, binary32}
use quad_bot_code_actuation.Board.Traffic.{messages}
use quad_bot_code_actuation.Bms.Traffic.{write_message, write_bms_data-Sent}
use quad_bot_code_actuation.Board.{
  wire1, State, Env, M, Ends, Ends-bind, Ends_both, pure, ◌>>=◌, ◌>>◌, get, modify,
}
use quad_bot_code_actuation.Bms.Core.{bms_address, read_bms_data, write_bms_data}
use quad_bot_code_actuation.Bms.Read.{
  CoulombCountResult, accumulator, charge, add_charge, signed, read_coulomb_counter, read_pair,
  read_manufacturer_name, read_serial_number, read_device_name,
}
use quad_bot_code_actuation.Bms.Registers.{ReadBack, read_bms_data-ReadBack}
use quad_bot_code_actuation.Bms.Measurements.{accumulator-signed}

answered_bound :
    (v : ℕ) (a hi lo : ℕ) → v ≡ (if leb 2 a then hi % 256 * 256 + lo % 256 else 0) → v < 65536
answered_bound v a hi lo e = ground (arith, e)

ReadBack-bound :
    (env : Env) (chip reg v : ℕ) (s t : State) → ReadBack env chip reg v s t → v < 65536
ReadBack-bound env chip reg v s t r = answered_bound v _ _ _ r.value

-- The two registers of a 32-bit word were read one after the other, the high one first.
pub record PairRead (env : Env) (high low v : ℕ) (s t : State) : Type 0 where
  pub between : State
  pub msb : ℕ
  pub lsb : ℕ
  pub first : ReadBack env bms_address high msb s between
  pub second : ReadBack env bms_address low lsb between t
  pub value : v ≡ msb * 65536 + lsb

join : (msb lsb : ℕ) → msb < 65536 → lsb < 65536 → bit_or (u32 (shl msb 16)) lsb ≡ msb * 65536 + lsb
join msb lsb h k =
    let e : u32 (shl msb 16) ≡ msb * 2 ^ 16 = omega arith in rw e (bit_or_pack 16 msb lsb k)

pair-read :
    (high low : ℕ) (env : Env) (s : State)
    → Ends (read_pair high low env s) λ v t. PairRead env high low v s t
pair-read high low env s =
    Ends-bind (read_bms_data bms_address high)
      (λ msb. read_bms_data bms_address low >>= λ lsb. pure (bit_or (u32 (shl msb 16)) lsb)) _ _ env
      s (read_bms_data-ReadBack bms_address high env s)
      λ msb t r.
        Ends-bind (read_bms_data bms_address low) (λ lsb. pure (bit_or (u32 (shl msb 16)) lsb)) _ _
          env t (read_bms_data-ReadBack bms_address low env t)
          λ lsb u q. record {
            between = t;
            msb = msb;
            lsb = lsb;
            first = r;
            second = q;
            value =
                join msb lsb (ReadBack-bound env bms_address high msb s t r)
                  (ReadBack-bound env bms_address low lsb t u q);
          }

-- The manufacturer, the serial number and the device name are 32-bit words of two registers, read one
-- after the other: 0x17 and 0x18, 0x1B and 0x1C, 0x1D and 0x1E, the high half first.
pub read_identity :
    (env : Env) (s : State)
    → Ends (read_manufacturer_name env s) (λ v t. PairRead env 0x17 0x18 v s t)
      × Ends (read_serial_number env s) (λ v t. PairRead env 0x1b 0x1c v s t)
      × Ends (read_device_name env s) (λ v t. PairRead env 0x1d 0x1e v s t)
unfolding read_manufacturer_name read_serial_number read_device_name
read_identity env s =
    (pair-read 0x17 0x18 env s, pair-read 0x1b 0x1c env s, pair-read 0x1d 0x1e env s)

-- The totals are as they were.
record SameTotals (s t : State) : Type 0 where
  coulombs : t.total_coulombs ≡ s.total_coulombs
  count : t.total_sample_count ≡ s.total_sample_count

read-SameTotals :
    (reg : ℕ) (env : Env) (s : State)
    → Ends (read_bms_data bms_address reg env s) λ _ t. SameTotals s t
unfolding read_bms_data
read-SameTotals reg env s = ground arith

write-SameTotals :
    (reg v : ℕ) (env : Env) (s : State)
    → Ends (write_bms_data bms_address reg v env s) λ _ t. SameTotals s t
unfolding write_bms_data
write-SameTotals reg v env s = ground arith

-- The nearest number of two decimals, by single-precision operations.
abbrev pub two_decimals : Float → Float
two_decimals x =
    div binary32 (roundf (mul binary32 x (literal binary32 100 1))) (literal binary32 100 1)

-- A reading of the counter, from `s` to `t`: the counter is reset by a write; then register 0x2D gives
-- the high 16 bits of the 24-bit accumulator and register 0x2E its low 8 bits and, below them, the
-- number of samples. The charge is added to the running total, which is rounded to two decimals, and
-- the samples to theirs; the result repeats both totals.
pub record Counted (env : Env) (s : State) (r : CoulombCountResult) (t : State) : Type 0 where
  pub before : State
  pub between : State
  pub msb : ℕ
  pub lsb : ℕ
  pub cleared : messages wire1 before.calls ≡ write_message 0x2d 0xffff ∷ messages wire1 s.calls
  pub first : ReadBack env bms_address 0x2d msb before between
  pub second : ReadBack env bms_address 0x2e lsb between t
  pub charged : r.coulombs ≡ charge (signed (2 ^ 24) (msb * 256 + lsb / 256))
  pub samples : r.sample_count ≡ lsb % 256
  pub total : r.total_coulombs ≡ two_decimals (add binary32 s.total_coulombs r.coulombs)
  pub total_count : r.total_sample_count ≡ (s.total_sample_count + r.sample_count) % 2 ^ 32
  pub kept : t.total_coulombs ≡ r.total_coulombs
  pub kept_count : t.total_sample_count ≡ r.total_sample_count

abbrev tally : ℕ → ℕ → M CoulombCountResult
tally msb lsb_and_count = do
  let coulombs = charge (signed (2 ^ 32) (accumulator msb lsb_and_count))
  let count = bit_and lsb_and_count 0xff
  modify λ s. record s { total_coulombs = add_charge s.total_coulombs coulombs }
  modify λ s. record s { total_sample_count = u32 (s.total_sample_count + count) }
  total ← get λ s. s.total_coulombs
  total_count ← get λ s. s.total_sample_count
  pure (record {
    coulombs = coulombs;
    sample_count = count;
    total_coulombs = total;
    total_sample_count = total_count;
  })

module _ (env : Env) (s before between : State) (msb lsb : ℕ)
    (cleared : messages wire1 before.calls ≡ write_message 0x2d 0xffff ∷ messages wire1 s.calls)
    (first : ReadBack env bms_address 0x2d msb before between) where
  tally-Counted :
      (t : State)
      → ReadBack env bms_address 0x2e lsb between t
      → SameTotals s t
      → Ends (tally msb lsb env t) λ r u. Counted env s r u
  unfolding add_charge
  tally-Counted t second p =
      let h = ReadBack-bound env bms_address 0x2d msb before between first in
      let k = ReadBack-bound env bms_address 0x2e lsb between t second in
      record {
        before = before;
        between = between;
        msb = msb;
        lsb = lsb;
        cleared = cleared;
        first = first;
        second = record {
          value = second.value;
          during = second.during;
          asked = second.asked;
          flag = second.flag;
        };
        charged = ap charge (accumulator-signed msb lsb h k);
        samples = bit_and_low 8 lsb;
        total = ap (λ c. add_charge c (charge (signed (2 ^ 32) (accumulator msb lsb)))) p.coulombs;
        total_count = ap (λ c. (c + bit_and lsb 0xff) % 2 ^ 32) p.count;
        kept = refl;
        kept_count = refl;
      }

-- A reading of the coulomb counter resets it by a write of 0xFFFF, then reads register 0x2D and register
-- 0x2E, and is made of the two answers: the charge of the signed 24-bit accumulator and the number of
-- samples. It adds the charge to the running total in single precision, rounded to two decimals, and the
-- samples to their total, which wraps around at 32 bits; it returns both totals, and they are kept.
pub read_coulomb_counter-Counted :
    (env : Env) (s : State) → Ends (read_coulomb_counter env s) λ r t. Counted env s r t
unfolding read_coulomb_counter
read_coulomb_counter-Counted env s =
    Ends-bind (write_bms_data bms_address 0x2d 0xffff)
      (λ _. read_bms_data bms_address 0x2d >>= λ msb. read_bms_data bms_address 0x2e >>= tally msb)
      _ _ env s
      (Ends_both (write_bms_data bms_address 0x2d 0xffff env s) _ _
        (write_bms_data-Sent 0x2d 0xffff env s) (write-SameTotals 0x2d 0xffff env s))
      λ _ t p.
        Ends-bind (read_bms_data bms_address 0x2d)
          (λ msb. read_bms_data bms_address 0x2e >>= tally msb) _ _ env t
          (Ends_both (read_bms_data bms_address 0x2d env t) _ _
            (read_bms_data-ReadBack bms_address 0x2d env t) (read-SameTotals 0x2d env t))
          λ msb u q.
            Ends-bind (read_bms_data bms_address 0x2e) (tally msb) _ _ env u
              (Ends_both (read_bms_data bms_address 0x2e env u) _ _
                (read_bms_data-ReadBack bms_address 0x2e env u) (read-SameTotals 0x2e env u))
              λ lsb v r. tally-Counted env s t u msb lsb p.0.traffic q.0 v r.0 (record {
                coulombs = r.1.coulombs ∙ q.1.coulombs ∙ p.1.coulombs;
                count = r.1.count ∙ q.1.count ∙ p.1.count;
              })
