-- ===== src/Encoder/Offsets.antt =====
-- The offsets of the encoders through resets and readings, and channels that do not exist.
use quad_bot_code_actuation.Prelude.{
  ℕ, zero, suc, ◌+◌, ◌-◌, ◌*◌, ◌%◌, ◌^◌, ◌≤◌, ◌<◌, ◌≡◌, refl, sym, subst, ap, ◌∙◌, false, none,
  some, List, [], ◌∷◌, arith, length, length-set, get_elem?, set,
}
use quad_bot_code_actuation.Float.{Float, num}
use quad_bot_code_actuation.Board.{
  State, Env, Ends, Ends_weaken, fault-bind, ok, fault, out_of_bounds,
}
use quad_bot_code_actuation.Board.Initial.{initial, zeros}
use quad_bot_code_actuation.Board.Pins.{answers, exchanges}
use quad_bot_code_actuation.SpiMux.{activate_mux, deactivate_mux}
use quad_bot_code_actuation.Encoder.{
  read_encoder_position, reset_encoder, read_raw, relative, to_degrees, offset_at, set_offset,
  position_bits,
}
use quad_bot_code_actuation.Encoder.Position.{position, relative_lem, to_degrees_exact}
use quad_bot_code_actuation.Encoder.Operations.{
  AllBelow, HasOffsets, get_elem?-below, read_encoder_position-Reading, rest_of_read, release,
}
use quad_bot_code_actuation.Encoder.Reset.{reboot, reread}
use quad_bot_code_actuation.Encoder.Reboot.{WasReset}

-- The degrees, as steps of 2 ^ -149, of a position against an offset.
abbrev pub degrees_from : ℕ → ℕ → Float
degrees_from o p = num false ((p + 4096 - o) % 4096 * 360 * 2 ^ 137)

pub degrees_from_lem :
    (p o : ℕ) → p < 4096 → o < 4096 → to_degrees (relative p o) ≡ degrees_from o p
degrees_from_lem p o hp ho =
    ap to_degrees (relative_lem p o hp ho) ∙ to_degrees_exact ((p + 4096 - o) % 4096) (omega arith)

-- A reading: two bytes came back, and the degrees are counted from `zero_point` to their position.
pub record CountedFrom (zero_point : ℕ) (env : Env) (s : State) (d : Float) (t : State)
    : Type 0 where
  pub hi : ℕ
  pub lo : ℕ
  pub heard : answers env t.calls ≡ lo ∷ hi ∷ answers env s.calls
  pub degrees : d ≡ degrees_from zero_point (position hi lo)

-- A reading of a channel that exists sends two zero bytes to the encoder of the channel and to no other,
-- and returns exactly 360 / 4096 degrees for each step from the offset of the channel up to the 12-bit
-- position of the two bytes that came back for them, around the circle; it leaves every offset as it was.
-- The offsets are sixteen numbers of 12 bits.
pub read_encoder_position_degrees :
    (channel o : ℕ) (env : Env) (s : State)
    → channel ≤ 15
    → HasOffsets s
    → get_elem? s.offsets channel ≡ some o
    → Ends (read_encoder_position channel env s) λ d t.
      CountedFrom o env s d t
      × (exchanges t.calls ≡ (some channel, 0) ∷ (some channel, 0) ∷ exchanges s.calls)
      × (t.offsets ≡ s.offsets)
read_encoder_position_degrees channel o env s h w e =
    Ends_weaken (read_encoder_position channel env s) _ _
      (λ d t (hi, lo, r). (
        record {
          hi = hi;
          lo = lo;
          heard = r.read.heard;
          degrees =
              r.degrees
              ∙ degrees_from_lem (position hi lo) o (omega arith)
                  (get_elem?-below 4096 s.offsets channel w.range e);
        },
        r.read.sent,
        r.read.kept,
      ))
      (read_encoder_position-Reading channel o env s h e)

AllBelow-set : (n : ℕ) (xs : List ℕ) (i v : ℕ) → AllBelow n xs → v < n → AllBelow n (set xs i v)
AllBelow-set n [] i v h k = tt
AllBelow-set n (x ∷ xs) zero v h k = (k, h.1)
AllBelow-set n (x ∷ xs) (suc i) v h k = (h.0, AllBelow-set n xs i v h.1 k)

AllBelow-zeros : (n : ℕ) → AllBelow 4096 (zeros n)
AllBelow-zeros zero = tt
AllBelow-zeros (suc n) = (omega arith, AllBelow-zeros n)

pub initial-HasOffsets : HasOffsets initial
initial-HasOffsets = record { count = refl; range = AllBelow-zeros 16 }

pub WasReset-HasOffsets :
    (env : Env) (channel hi lo : ℕ) (s t : State)
    → HasOffsets s
    → WasReset env channel hi lo s t
    → HasOffsets t
WasReset-HasOffsets env channel hi lo s t w r = record {
  count = ap length r.stored ∙ length-set s.offsets channel (position hi lo) ∙ w.count;
  range =
      subst (AllBelow 4096) (sym r.stored)
        (AllBelow-set 4096 s.offsets channel (position hi lo) w.range (omega arith));
}

no_offset : (xs : List ℕ) (i : ℕ) → length xs ≤ i → get_elem? xs i ≡ none
no_offset [] i h = refl
no_offset (x ∷ xs) zero h = absurd (omega arith)
no_offset (x ∷ xs) (suc i) h = no_offset xs i (omega arith)

no_offset_at :
    (channel : ℕ) (env : Env) (s : State)
    → get_elem? s.offsets channel ≡ none
    → offset_at channel env s ≡ fault out_of_bounds
unfolding offset_at
no_offset_at channel env s e = rw (e, offset_at)

read_raw_kept :
    (channel : ℕ) (env : Env) (s : State)
    → Ends (read_raw channel env s) λ _ t. t.offsets ≡ s.offsets
unfolding read_raw
read_raw_kept channel env s = ground arith

activate_kept :
    (channel : ℕ) (env : Env) (s : State)
    → Ends (activate_mux channel env s) λ _ t. t.offsets ≡ s.offsets
unfolding activate_mux
activate_kept channel env s = ground arith

no_set_offset :
    (channel v : ℕ) (env : Env) (s : State)
    → get_elem? s.offsets channel ≡ none
    → set_offset channel v env s ≡ fault out_of_bounds
unfolding set_offset
no_set_offset channel v env s e =
    ap
      (λ r. elim r [
        | ok a t ↦ ok tt (record t { offsets = set t.offsets channel v })
        | fault x ↦ fault x
      ])
      (no_offset_at channel env s e)

reboot_faults :
    (channel : ℕ) (env : Env) (s : State)
    → get_elem? s.offsets channel ≡ none
    → reboot channel env s ≡ fault out_of_bounds
unfolding deactivate_mux
reboot_faults channel env s e =
    ap (λ r. elim r [ ok a t ↦ reread channel env t | fault x ↦ fault x ])
      (no_set_offset channel 0 env (record s { calls = _ }) e)

-- A channel above 15 is refused by neither operation: a reading reads past the array of offsets, and
-- a reset writes past it.
pub encoder_out_of_bounds :
    (channel : ℕ) (env : Env) (s : State)
    → 15 < channel
    → HasOffsets s
    → (read_encoder_position channel env s ≡ fault out_of_bounds)
      × (reset_encoder channel env s ≡ fault out_of_bounds)
unfolding read_encoder_position reset_encoder
encoder_out_of_bounds channel env s h w =
    let missing = no_offset s.offsets channel (omega (arith, w.count)) in
    (
      fault-bind (read_raw channel) (rest_of_read channel) _ out_of_bounds env s
          (read_raw_kept channel env s)
          (λ v t k.
            ap
              (λ r. elim r [
                | ok o u ↦ ok (to_degrees (relative (position_bits v) o)) u
                | fault x ↦ fault x
              ])
              (no_offset_at channel env (release t) (ap (λ x. get_elem? x channel) k ∙ missing))),
      fault-bind (activate_mux channel) (λ _. reboot channel) _ out_of_bounds env s
          (activate_kept channel env s)
          (λ _ t k. reboot_faults channel env t (ap (λ x. get_elem? x channel) k ∙ missing)),
    )
