-- ===== src/Main/Interrupts/Identity.antt =====
-- The identity of the battery chip, read while the robot is at work.
use quad_bot_code_actuation.Prelude.{ℕ, ◌+◌, ◌*◌, ◌≡◌, true, CString, arith}
use quad_bot_code_actuation.Float.{Float}
use quad_bot_code_actuation.Board.{State, Env, History, Ends}
use quad_bot_code_actuation.Power.Sequence.{IsTenBit}
use quad_bot_code_actuation.Bms.Identity.{
  Word, manufacturer_name, serial_number, device_name, read_back, msb_register, lsb_register,
  IsStoring, IsStored, read-IsStored,
}
use quad_bot_code_actuation.Main.Buses.{opens_within}
use quad_bot_code_actuation.Main.Robot.{Reach, IsServing}
use quad_bot_code_actuation.Main.Interrupts.{Schedule, heard, real}
use quad_bot_code_actuation.Main.Interrupts.Robot.{Reach-IsServingNow}

-- The words that `SetUpBMS` gives the chip.
abbrev pub msb_of : Word → ℕ
msb_of manufacturer_name = 0x1234
msb_of serial_number = 0xabcd
msb_of device_name = 0x1357

abbrev pub lsb_of : Word → ℕ
lsb_of manufacturer_name = 0x5678
lsb_of serial_number = 0xef01
lsb_of device_name = 0x2468

IsServing-IsStored :
    (w : Word) (env : Env) (t : State) → IsServing env t → IsStored w (msb_of w) (lsb_of w) t
IsServing-IsStored manufacturer_name env t g = record { high = g.chip 0x17; low = g.chip 0x18 }
IsServing-IsStored serial_number env t g = record { high = g.chip 0x1b; low = g.chip 0x1c }
IsServing-IsStored device_name env t g = record { high = g.chip 0x1d; low = g.chip 0x1e }

read_IsServing :
    (w : Word) (env : Env) (t : State)
    → IsServing env t
    → IsStoring (msb_register w) env
    → IsStoring (lsb_register w) env
    → Ends (read_back w env t) λ v _. v ≡ msb_of w * 65536 + lsb_of w
read_IsServing manufacturer_name env t g high low =
    read-IsStored manufacturer_name 0x1234 0x5678 (λ e. omega arith) (λ e. omega arith)
      (omega arith) (omega arith) env high low t (IsServing-IsStored manufacturer_name env t g)
read_IsServing serial_number env t g high low =
    read-IsStored serial_number 0xabcd 0xef01 (λ e. omega arith) (λ e. omega arith) (omega arith)
      (omega arith) env high low t (IsServing-IsStored serial_number env t g)
read_IsServing device_name env t g high low =
    read-IsStored device_name 0x1357 0x2468 (λ e. omega arith) (λ e. omega arith) (omega arith)
      (omega arith) env high low t (IsServing-IsStored device_name env t g)

-- In every state that the program reaches between its calls of `loop`, whatever was typed and with the
-- ready signal coming after any call, the battery chip still has the identity that `SetUpBMS` gave it:
-- when it answers the readings of the registers of a word with what they were last set to, the
-- manufacturer is read as 0x12345678, the serial number as 0xABCDEF01 and the device name as 0x13572468.
-- The serial port opens within its tests, as the main program sees it, and the converter has 10 bits.
pub Reach-read_back :
    (sched : Schedule) (atof : CString → Float) (polls : ℕ) (env : Env)
    → ((past : History) → opens_within polls (heard sched env) past ≡ true)
    → IsTenBit env
    → (t : State) → Reach atof polls (heard sched env) t
    → (w : Word) → IsStoring (msb_register w) env
    → IsStoring (lsb_register w) env
    → Ends (read_back w env (real sched env t)) λ v _. v ≡ msb_of w * 65536 + lsb_of w
Reach-read_back sched atof polls env opens ten_bit t r w high low =
    read_IsServing w env (real sched env t)
      (Reach-IsServingNow sched atof polls env opens ten_bit r).serving high low
