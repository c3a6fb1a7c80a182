-- ===== src/Board/Frames/Parts.antt =====
-- The parts of the firmware: which calls and variables each one uses.
use quad_bot_code_actuation.Prelude.{ℕ, ◌≡◌, refl, ap, ◌∙◌, Bool, true, false, ◌||◌, [], ◌==◌}
use quad_bot_code_actuation.Prelude.Int.{negsuc}
use quad_bot_code_actuation.Float.{num}
use quad_bot_code_actuation.Board.{
  Bus, wire, wire1, Call, digital_write, analog_read, delay, delay_microseconds, micros, wire_begin,
  spi_begin, serial_begin, serial_ready, begin_transmission, wire_write, end_transmission,
  request_from, wire_available, wire_read, begin_transaction, transfer, end_transaction,
  serial_available, serial_read, Run, ok, fault, print, println, History, Past, ◌◂◌, State,
}
use quad_bot_code_actuation.Board.Pins.{
  pre_dsg_en, dsg_en, chg_en, strobe, cs_1, cs_2, cs_3, cs_4, inhibit, en_pin, nreset,
}

pub data Part : Type 0 where
  motors encoders battery signal power console buses : Part

-- The bus that a part has to itself.
abbrev pub owns : Part → Bus → Bool
owns motors wire = true
owns console wire = true
owns battery wire1 = true
owns _ _ = false

-- The output pins of a part.
abbrev pub drives : Part → ℕ → Bool
drives encoders p =
    (p == strobe) || (p == cs_1) || (p == cs_2) || (p == cs_3) || (p == cs_4) || (p == inhibit)
drives power p = (p == pre_dsg_en) || (p == dsg_en) || (p == chg_en)
drives buses p = (p == en_pin) || (p == nreset)
drives _ p = false

abbrev is_encoders : Part → Bool
is_encoders encoders = true
is_encoders _ = false

abbrev is_console : Part → Bool
is_console console = true
is_console _ = false

abbrev is_signal : Part → Bool
is_signal signal = true
is_signal _ = false

abbrev is_buses : Part → Bool
is_buses buses = true
is_buses _ = false

abbrev is_power : Part → Bool
is_power power = true
is_power _ = false

-- The calls that a part makes; delays and prints are free for all.
abbrev pub allowed : Part → Call → Bool
allowed p (digital_write pin v) = drives p pin
allowed p (analog_read pin) = is_power p
allowed p (delay n) = true
allowed p (delay_microseconds n) = true
allowed p micros = is_signal p
allowed p (begin_transmission b a) = owns p b
allowed p (wire_write b v) = owns p b
allowed p (end_transmission b stop) = owns p b
allowed p (request_from b a n) = owns p b
allowed p (wire_available b) = owns p b
allowed p (wire_read b) = owns p b
allowed p (begin_transaction n) = is_encoders p
allowed p (transfer n) = is_encoders p
allowed p end_transaction = is_encoders p
allowed p (wire_begin b) = is_buses p
allowed p spi_begin = is_buses p
allowed p (serial_begin n) = is_buses p
allowed p serial_ready = is_buses p
allowed p serial_available = is_console p
allowed p serial_read = is_console p
allowed p (print i) = true
allowed p (println i) = true
allowed p _ = false

-- The global variables that are not the part's own.
abbrev pub others : Part → State → State
others motors s = record s { calls = []; current_channel = negsuc 0 }
others console s = record s {
  calls = [];
  current_channel = negsuc 0;
  input_buffer = [];
  input_pos = 0;
}
others encoders s = record s { calls = []; mux_channel = 0; offsets = [] }
others battery s = record s {
  calls = [];
  bms_conversion_active = 0;
  total_coulombs = num false 0;
  total_sample_count = 0;
}
others signal s = record s { calls = []; bms_data_ready = false; bms_data_timestamp = 0 }
others power s = record s { calls = [] }
others buses s = record s { calls = [] }

-- The calls and the part's own variables of one state, with the other variables of another.
abbrev pub graft : Part → State → State → State
graft motors s v = record v { calls = s.calls; current_channel = s.current_channel }
graft console s v = record v {
  calls = s.calls;
  current_channel = s.current_channel;
  input_buffer = s.input_buffer;
  input_pos = s.input_pos;
}
graft encoders s v = record v { calls = s.calls; mux_channel = s.mux_channel; offsets = s.offsets }
graft battery s v = record v {
  calls = s.calls;
  bms_conversion_active = s.bms_conversion_active;
  total_coulombs = s.total_coulombs;
  total_sample_count = s.total_sample_count;
}
graft signal s v = record v {
  calls = s.calls;
  bms_data_ready = s.bms_data_ready;
  bms_data_timestamp = s.bms_data_timestamp;
}
graft power s v = record v { calls = s.calls }
graft buses s v = record v { calls = s.calls }

abbrev pub regraft : {A : Type 0} → Part → State → Run A → Run A
regraft p v (ok a t) = ok a (graft p t v)
regraft p v (fault x) = fault x

pub graft-call :
    (p : Part) (s v : State) (h : History)
    → graft p (record s { calls = h }) v ≡ record (graft p s v) { calls = h }
graft-call motors s v h = refl
graft-call console s v h = refl
graft-call encoders s v h = refl
graft-call battery s v h = refl
graft-call signal s v h = refl
graft-call power s v h = refl
graft-call buses s v h = refl

pub graft-calls : (p : Part) (s v : State) → (graft p s v).calls ≡ s.calls
graft-calls motors s v = refl
graft-calls console s v = refl
graft-calls encoders s v = refl
graft-calls battery s v = refl
graft-calls signal s v = refl
graft-calls power s v = refl
graft-calls buses s v = refl

-- Calls of one part, made after a history.
pub data Extends (p : Part) (h : History) : History → Type 0 where
  same : Extends p h h
  more : {c : Call} {k : History} → allowed p c ≡ true → Extends p h k → Extends p h (k ◂ c)

pub Extends_trans : {p : Part} {h k l : History} → Extends p h k → Extends p k l → Extends p h l
Extends_trans e same = e
Extends_trans e (more a f) = more a (Extends_trans e f)

pub Extends-Past :
    (p : Part) (past : History) {h k : History} → Past past h → Extends p h k → Past past k
Extends-Past p past w same = w
Extends-Past p past w (more {c} a e) =
    let (rest, q) = Extends-Past p past w e in (rest ◂ c, ap (λ h. h ◂ c) q)

-- From `s` to `t` only the part's own calls were made and only its own variables written.
pub record Stays (p : Part) (s t : State) : Type 0 where
  pub calls : Extends p s.calls t.calls
  pub kept : others p t ≡ others p s

pub Stays-refl : (p : Part) (s : State) → Stays p s s
Stays-refl p s = record { calls = same; kept = refl }

pub Stays-trans : {p : Part} (s t u : State) → Stays p s t → Stays p t u → Stays p s u
Stays-trans s t u a b = record { calls = Extends_trans a.calls b.calls; kept = b.kept ∙ a.kept }

pub others-calls :
    (p : Part) (s : State) (h : History) → others p (record s { calls = h }) ≡ others p s
others-calls motors s h = refl
others-calls encoders s h = refl
others-calls battery s h = refl
others-calls signal s h = refl
others-calls power s h = refl
others-calls console s h = refl
others-calls buses s h = refl
