-- ===== src/Board/Pins.antt =====
-- What the pins show to the hardware, read off the calls: output levels, and the encoder that the SPI
-- multiplexer selects. Pin numbers are those of include/PinAssignments.h.
use quad_bot_code_actuation.Prelude.{
  ℕ, ◌+◌, ◌*◌, List, [], ◌∷◌, Option, none, some, ◌==◌, if◌then◌else◌,
}
use quad_bot_code_actuation.Board.Calls.{digital_write, transfer, History}

abbrev pub pre_dsg_en : ℕ
pre_dsg_en = 2

abbrev pub dsg_en : ℕ
dsg_en = 3

abbrev pub chg_en : ℕ
chg_en = 4

abbrev pub strobe : ℕ
strobe = 5

abbrev pub cs_1 : ℕ
cs_1 = 6

abbrev pub cs_2 : ℕ
cs_2 = 7

abbrev pub cs_3 : ℕ
cs_3 = 8

abbrev pub cs_4 : ℕ
cs_4 = 9

abbrev pub inhibit : ℕ
inhibit = 10

abbrev pub nfault : ℕ
nfault = 14

abbrev pub rdy : ℕ
rdy = 15

abbrev pub en_pin : ℕ
en_pin = 20

abbrev pub nreset : ℕ
nreset = 21

abbrev pub servo_reg_enable : ℕ
servo_reg_enable = 22

abbrev pub pack_sns : ℕ
pack_sns = 23

abbrev pub low : ℕ
low = 0

abbrev pub high : ℕ
high = 1

-- The level that a pin was last given; LOW before that.
unfoldable pub level : ℕ → History → ℕ
level pin [] = 0
level pin (digital_write p v ∷ past) = let before = level pin past in if p == pin then v else before
level pin (_ ∷ past) = level pin past

-- The channel number that the four select pins spell.
abbrev pub cs_value : History → ℕ
cs_value h = level cs_1 h + 2 * level cs_2 h + 4 * level cs_3 h + 8 * level cs_4 h

-- The multiplexer follows the select pins while STROBE is high, and keeps what it has while it is low.
unfoldable pub latched : History → ℕ
unfolding level
latched [] = 0
latched (c ∷ past) =
    let before = latched past in
    if level strobe (c ∷ past) == 1 then cs_value (c ∷ past) else before

-- The encoder whose chip select is active; none while INHIBIT is high.
unfoldable pub selected : History → Option ℕ
unfolding latched
selected h = if level inhibit h == 0 then some (latched h) else none

-- The bytes sent over SPI, each with the encoder that it reaches, the newest first.
unfoldable pub exchanges : History → List (Option ℕ × ℕ)
unfolding selected
exchanges [] = []
exchanges (transfer b ∷ past) = (selected past, b) ∷ exchanges past
exchanges (_ ∷ past) = exchanges past

-- What came back for the bytes sent over SPI, the newest first.
unfoldable pub answers : (History → ℕ) → History → List ℕ
answers env [] = []
answers env (transfer b ∷ past) = env (transfer b ∷ past) ∷ answers env past
answers env (_ ∷ past) = answers env past
