-- ===== src/Encoder/Turns.antt =====
-- `readTurns` of SPI_NCDR_FCT.cpp.
use quad_bot_code_actuation.Prelude.{ℕ, ◌≤◌, ◌≡◌, refl, some, none, arith, ◌∷◌}
use quad_bot_code_actuation.Board.{State, Env, Ends}
use quad_bot_code_actuation.Board.Pins.{selected, exchanges, answers}
use quad_bot_code_actuation.SpiMux.Selection.{four_bits}
use quad_bot_code_actuation.Encoder.{read_turns}
use quad_bot_code_actuation.Encoder.Operations.{not_above}
use quad_bot_code_actuation.Encoder.Position.{position, position_bits_lem}

-- What a reading of the turns of a channel leaves, and its value `v`.
pub record TurnsRead (env : Env) (channel : ℕ) (s : State) (v : ℕ) (t : State) : Type 0 where
  pub first : ℕ
  pub second : ℕ
  pub hi : ℕ
  pub lo : ℕ
  pub heard : answers env t.calls ≡ lo ∷ hi ∷ second ∷ first ∷ answers env s.calls
  pub value : v ≡ position hi lo
  pub sent :
      exchanges t.calls
      ≡ (some channel, 0)
        ∷ (some channel, 0)
        ∷ (some channel, 0xa0)
        ∷ (some channel, 0)
        ∷ exchanges s.calls
  pub released : selected t.calls ≡ none
  pub kept : t.offsets ≡ s.offsets

-- A reading of the turns sends the four bytes 0, 0xA0, 0 and 0 to the encoder of a channel that
-- exists, in this order, and leaves none selected and every offset as it was. It returns the middle 12
-- bits of the third and the fourth answer.
pub read_turns-TurnsRead :
    (channel : ℕ) (env : Env) (s : State)
    → channel ≤ 15
    → Ends (read_turns channel env s) λ v t. TurnsRead env channel s v t
unfolding read_turns exchanges answers selected
read_turns-TurnsRead channel env s h = rw (not_above channel 15 h) (record {
  first = _;
  second = _;
  hi = _;
  lo = _;
  heard = refl;
  value = position_bits_lem _ _;
  sent = ground (arith, four_bits channel);
  released = refl;
  kept = refl;
})
