-- ===== src/Board/Calls.antt =====
-- The calls that the firmware makes of the Arduino core and of the Wire and SPI libraries.
use quad_bot_code_actuation.Prelude.{ℕ, ◌≡◌, Bool, List, ◌∷◌, ◌++◌, CString}
use quad_bot_code_actuation.Prelude.Int.{ℤ}
use quad_bot_code_actuation.Float.{Float}

-- `Wire` and `Wire1`
pub data Bus : Type 0 where
  wire wire1 : Bus

pub data PinMode : Type 0 where
  input output : PinMode

-- What `Serial.print` is given: a text, a number in some base, or a `float` with its decimals.
pub data Item : Type 0 where
  text : CString → Item
  dec hex bin : ℤ → Item
  decimals : Float → ℕ → Item

pub data Call : Type 0 where
  pin_mode : ℕ → PinMode → Call
  digital_write : ℕ → ℕ → Call
  analog_read : ℕ → Call
  delay delay_microseconds : ℕ → Call
  micros : Call
  attach_interrupt : ℕ → Call
  wire_begin : Bus → Call
  begin_transmission : Bus → ℕ → Call
  wire_write : Bus → ℕ → Call
  end_transmission : Bus → Bool → Call  -- whether a stop condition is sent
  request_from : Bus → ℕ → ℕ → Call
  wire_available wire_read : Bus → Call
  spi_begin : Call
  begin_transaction : ℕ → Call  -- the clock; always MSBFIRST and SPI_MODE0
  transfer : ℕ → Call
  end_transaction : Call
  serial_begin : ℕ → Call
  serial_ready serial_available serial_read : Call
  print println : Item → Call

-- The calls made so far, the newest first; `past ◂ c` reads in the order of time.
abbrev pub History : Type 0
History = List Call

infixl 66 ◌◂◌
abbrev pub ◌◂◌ : History → Call → History
past ◂ c = c ∷ past

-- A history that lies in the past of another.
abbrev pub Past : History → History → Type 0
Past past h = (rest : History) × (h ≡ rest ++ past)
