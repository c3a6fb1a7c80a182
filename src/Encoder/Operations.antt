-- ===== src/Encoder/Operations.antt =====
-- The three operations of SPI_NCDR_FCT.cpp against the encoders: which bytes reach which encoder, and
-- what is made of the answers.
use quad_bot_code_actuation.Prelude.{
  ℕ, zero, suc, ◌≤◌, ◌<◌, ◌≡◌, refl, ap, some, none, List, [], ◌∷◌, arith, length, get_elem?, ltb,
  false,
}
use quad_bot_code_actuation.Float.{Float}
use quad_bot_code_actuation.Board.{
  State, Env, M, ok, pure, ◌>>=◌, ◌>>◌, call, delay_microseconds, digital_write, ◌◂◌, Ends,
  Ends-bind, Ends_step,
}
use quad_bot_code_actuation.SpiMux.{deactivate_mux}
use quad_bot_code_actuation.Board.Pins.{selected, exchanges, answers, inhibit, high}
use quad_bot_code_actuation.SpiMux.Selection.{four_bits}
use quad_bot_code_actuation.Encoder.{
  read_encoder_position, read_raw, offset_at, relative, position_bits, to_degrees,
}
use quad_bot_code_actuation.Encoder.Position.{position, position_bits_lem}

-- The array of offsets holds sixteen 12-bit numbers.
abbrev pub AllBelow : ℕ → List ℕ → Type 0
AllBelow n [] = Unit
AllBelow n (x ∷ xs) = (x < n) × AllBelow n xs

pub record HasOffsets (s : State) : Type 0 where
  pub count : length s.offsets ≡ 16
  pub range : AllBelow 4096 s.offsets

pub offset_of : (xs : List ℕ) (i : ℕ) → i < length xs → (v : ℕ) × (get_elem? xs i ≡ some v)
offset_of [] i h = absurd (omega arith)
offset_of (x ∷ xs) zero h = (x, refl)
offset_of (x ∷ xs) (suc i) h = offset_of xs i (omega arith)

pub get_elem?-below :
    (n : ℕ) (xs : List ℕ) (i : ℕ) {v : ℕ} → AllBelow n xs → get_elem? xs i ≡ some v → v < n
get_elem?-below n [] i b e = cc
get_elem?-below n (x ∷ xs) zero b e = ground (arith, b.0)
get_elem?-below n (x ∷ xs) (suc i) b e = get_elem?-below n xs i b.1 e

pub not_above : (c n : ℕ) → c ≤ n → ltb n c ≡ false
not_above c n h = ground arith

-- Two bytes hi and lo came back from the encoder of a channel.
pub record Read (env : Env) (channel hi lo : ℕ) (s t : State) : Type 0 where
  pub heard : answers env t.calls ≡ lo ∷ hi ∷ answers env s.calls
  pub sent : exchanges t.calls ≡ (some channel, 0) ∷ (some channel, 0) ∷ exchanges s.calls
  pub kept : t.offsets ≡ s.offsets
  pub flag : t.bms_conversion_active ≡ s.bms_conversion_active

pub read_raw-Read :
    (channel : ℕ) (env : Env) (s : State)
    → channel ≤ 15
    → Ends
        (read_raw channel env s)
        λ w t. (hi : ℕ) × (lo : ℕ) × Read env channel hi lo s t × (position_bits w ≡ position hi lo)
unfolding read_raw answers exchanges
read_raw-Read channel env s h = rw (not_above channel 15 h) (
  _,
  _,
  record { heard = refl; sent = ground (arith, four_bits channel); kept = refl; flag = refl },
  position_bits_lem _ _,
)

pub offset_at_known :
    (channel o : ℕ) (env : Env) (s : State)
    → get_elem? s.offsets channel ≡ some o
    → offset_at channel env s ≡ ok o s
unfolding offset_at
offset_at_known channel o env s e = rw (e, offset_at)

-- The state after `delayMicroseconds(3); DEACTIVATE_MUX();`, and after `DEACTIVATE_MUX();`.
abbrev deactivated : State → State
deactivated t = record t { calls = t.calls ◂ digital_write inhibit high ◂ delay_microseconds 3 }

abbrev pub release : State → State
release t = deactivated (record t { calls = t.calls ◂ delay_microseconds 3 })

release-Read :
    (env : Env) (channel hi lo : ℕ) (s t : State)
    → Read env channel hi lo s t
    → Read env channel hi lo s (release t)
unfolding answers exchanges
release-Read env channel hi lo s t r = record {
  heard = r.heard;
  sent = r.sent;
  kept = r.kept;
  flag = r.flag;
}

release-selected : (t : State) → selected (release t).calls ≡ none
unfolding selected
release-selected t = refl

-- The end of `readEncoderPosition`, once the bytes are read.
abbrev pub rest_of_read : ℕ → ℕ → M Float
rest_of_read channel w = do
  call (delay_microseconds 3)
  deactivate_mux
  offset ← offset_at channel
  pure (to_degrees (relative (position_bits w) offset))

-- What a reading of a channel leaves: the position of the two answers, relative to the offset `o`.
pub record Reading (env : Env) (channel o hi lo : ℕ) (s : State) (d : Float) (t : State)
    : Type 0 where
  pub read : Read env channel hi lo s t
  pub degrees : d ≡ to_degrees (relative (position hi lo) o)
  pub released : selected t.calls ≡ none

-- A reading of a channel that exists sends two zero bytes to its encoder alone, leaves none selected,
-- and returns the position of the two answers relative to the channel's offset, in degrees.
pub read_encoder_position-Reading :
    (channel o : ℕ) (env : Env) (s : State)
    → channel ≤ 15
    → get_elem? s.offsets channel ≡ some o
    → Ends
        (read_encoder_position channel env s)
        λ d t. (hi : ℕ) × (lo : ℕ) × Reading env channel o hi lo s d t
unfolding read_encoder_position
read_encoder_position-Reading channel o env s h e =
    Ends-bind (read_raw channel) (rest_of_read channel) _ _ env s (read_raw-Read channel env s h)
      λ w t (hi, lo, r, p).
        Ends_step (offset_at channel)
          (λ offset. pure (to_degrees (relative (position_bits w) offset))) _ env (release t)
          (release t) o (offset_at_known channel o env (release t) (rw (r.kept) e))
          (
            hi,
            lo,
            record {
              read = release-Read env channel hi lo s t r;
              degrees = ap (λ x. to_degrees (relative x o)) p;
              released = release-selected t;
            },
          )
