-- ===== src/Board/Traffic.antt =====
-- What the devices on the I2C buses receive, read off the calls.
use quad_bot_code_actuation.Prelude.{
  ℕ, ◌+◌, ◌*◌, Bool, true, false, ◌&&◌, List, [], ◌∷◌, ◌++◌, Option, none, some, ◌==◌,
  if◌then◌else◌,
}
use quad_bot_code_actuation.Board.Calls.{
  Bus, wire, wire1, begin_transmission, wire_write, end_transmission, History,
}

pub record Message : Type 0 where
  pub to : ℕ
  pub bytes : List ℕ

abbrev pub message : ℕ → List ℕ → Message
message a bs = record { to = a; bytes = bs }

abbrev pub same_bus : Bus → Bus → Bool
same_bus wire wire = true
same_bus wire1 wire1 = true
same_bus _ _ = false

-- The transmission being assembled.
unfoldable pub pending : Bus → History → Message
pending b [] = message 0 []
pending b (begin_transmission c a ∷ past) =
    let before = pending b past in if same_bus b c then message a [] else before
pending b (wire_write c v ∷ past) =
    let before = pending b past in
    if same_bus b c then message before.to (before.bytes ++ (v ∷ [])) else before
pending b (_ ∷ past) = pending b past

-- The messages put on a bus, the newest first.
unfoldable pub messages : Bus → History → List Message
unfolding pending
messages b [] = []
messages b (end_transmission c stop ∷ past) =
    let before = messages b past in if same_bus b c then pending b past ∷ before else before
messages b (_ ∷ past) = messages b past

abbrev pub i2c_mux_address : ℕ
i2c_mux_address = 0x70

abbrev pub last_or : List ℕ → ℕ → ℕ
last_or [] d = d
last_or (x ∷ xs) d = last_or xs x

-- The control byte of the PCA9548A: the last byte that it was sent, with one bit for each channel.
unfoldable pub control : List Message → ℕ
control [] = 0
control (m ∷ ms) =
    let before = control ms in if m.to == i2c_mux_address then last_or m.bytes before else before

-- What byte register `r` of chip `a`, behind the channels of control byte `ctl`, was last set to.
unfoldable pub register : ℕ → ℕ → ℕ → List Message → Option ℕ
unfolding control
register ctl a r [] = none
register ctl a r (m ∷ ms) =
    let before = register ctl a r ms in
    elim m.bytes [
      | q ∷ v ∷ [] ↦ if (m.to == a) && (q == r) && (control ms == ctl) then some v else before
      | _ ↦ before
    ]

-- What the 16-bit register `r` of chip `a`, sent high byte first, was last set to.
unfoldable pub register16 : ℕ → ℕ → List Message → Option ℕ
register16 a r [] = none
register16 a r (m ∷ ms) =
    let before = register16 a r ms in
    elim m.bytes [
      | q ∷ hi ∷ lo ∷ [] ↦ if (m.to == a) && (q == r) then some (hi * 256 + lo) else before
      | _ ↦ before
    ]
