-- ===== src/SpiMux/Selection.antt =====
-- The multiplexer selects the encoder that is asked for.
use quad_bot_code_actuation.Prelude.{ℕ, ◌≤◌, ◌≡◌, arith, bit_and, bit_and_low, shr, ◌+◌, ◌*◌}

-- Four select pins spell the channel.
pub four_bits :
    (c : ℕ)
    → c ≤ 15
    → bit_and c 1 + 2 * bit_and (shr c 1) 1 + 4 * bit_and (shr c 2) 1 + 8 * bit_and (shr c 3) 1 ≡ c
four_bits c h = omega (
  arith,
  bit_and_low 1 c,
  bit_and_low 1 (shr c 1),
  bit_and_low 1 (shr c 2),
  bit_and_low 1 (shr c 3),
)
