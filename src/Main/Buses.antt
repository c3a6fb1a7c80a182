-- ===== src/Main/Buses.antt =====
-- The first steps of `setup` of main.cpp: the pins and the buses.
use quad_bot_code_actuation.Prelude.{
  ℕ, zero, suc, ◌≤◌, ◌≢◌, ◌≡◌, refl, sym, subst, Bool, true, false, ◌==◌, none, List, [], ◌∷◌, map,
  str, arith, Bool-cases, inl, inr, if◌then◌else◌,
}
use quad_bot_code_actuation.Board.{
  State, Env, M, History, ◌◂◌, Ends, Ends-bind, Ends_weaken, serial_ready, serial_begin, wire_begin,
  wire, wire1, spi_begin, digital_write, delay, call, done, ◌>>◌, say,
}
use quad_bot_code_actuation.Board.Frames.{buses, same, more, Stays, Stays-trans}
use quad_bot_code_actuation.Board.Pins.{level, en_pin, nreset, low, high}
use quad_bot_code_actuation.Board.Traffic.{messages, control, register, i2c_mux_address}
use quad_bot_code_actuation.MotorDriver.Registers.{Registers, registers_of}
use quad_bot_code_actuation.MotorDriver.Commands.{Request, init}
use quad_bot_code_actuation.Encoder.Operations.{AllBelow}
use quad_bot_code_actuation.Board.Initial.{initial, zeros}
use quad_bot_code_actuation.Main.Console.{motor_driver_default_address}
use quad_bot_code_actuation.Main.Ready.{IsUp, IsUnread, HasRegisters}
use quad_bot_code_actuation.Main.Port.{reads}
use quad_bot_code_actuation.Main.Setup.{wait_serial, start_buses, set_up_pins}

-- Before the battery part.
pub record IsReady (x : Registers) (s : State) : Type 0 where
  pub up : IsUp [] 0 low s
  pub set : HasRegisters x s
  pub unread : IsUnread s

-- The registers of drivers that were never written.
abbrev pub unset : Registers
unset ctl chip reg = none

-- Every channel of a list is at most `n`.
abbrev pub AllUpTo : ℕ → List ℕ → Type 0
AllUpTo n [] = Unit
AllUpTo n (c ∷ cs) = (c ≤ n) × AllUpTo n cs

-- The initialisation of the drivers on some channels.
abbrev pub inits : List ℕ → List Request
inits = map λ c. record { channel = c; chip = motor_driver_default_address; command = init }

-- The driver's address is not the multiplexer's.
pub other : motor_driver_default_address ≢ i2c_mux_address
other = omega arith

pub pins-IsReady : (env : Env) → Ends (set_up_pins env initial) λ _ t. IsReady unset t
unfolding set_up_pins messages level control registers_of register reads
pins-IsReady env = record {
  up = record {
    offsets = record { count = refl; range = zeros-below 16 };
    buffer = record { size = refl; room = omega arith };
    flag = refl;
    heard = refl;
    precharging = refl;
    discharging = refl;
    charging = refl;
  };
  set = record { sync = record { channel = refl; same = refl }; registers = refl };
  unread = record { empty = refl; unread = refl };
}
  where
    zeros-below : (n : ℕ) → AllBelow 4096 (zeros n)
    zeros-below zero = tt
    zeros-below (suc n) = (omega arith, zeros-below n)

-- Whether the serial port opens within some tests, 10 ms apart.
unfoldable pub opens_within : ℕ → Env → History → Bool
opens_within zero env past = false
opens_within (suc polls) env past =
    let later = opens_within polls env (past ◂ serial_ready ◂ delay 10) in
    if env (past ◂ serial_ready) == 0 then later else true

wait_serial-Stays :
    (polls : ℕ) (env : Env) (s : State)
    → opens_within polls env s.calls ≡ true
    → Ends (wait_serial polls env s) λ _ t. Stays buses s t
unfolding opens_within wait_serial
wait_serial-Stays zero env s h = cc
wait_serial-Stays (suc polls) env s h =
    let t = record s { calls = s.calls ◂ serial_ready } in
    let u = record t { calls = t.calls ◂ delay 10 } in
    let asked : Stays buses s t = record { calls = more refl same; kept = refl } in
    let waited : Stays buses s u = record { calls = more refl (more refl same); kept = refl } in
    elim (Bool-cases (env t.calls == 0)) [
      | inl e ↦
          subst
            (λ c.
              Ends
                ((elim c as (λ x. M (Unit {0})) [
                  | true ↦ call (delay 10) >> wait_serial polls
                  | false ↦ done
                ])
                  env t)
                λ _ v. Stays buses s v)
            (sym e)
            (Ends_weaken (wait_serial polls env u) _ _ (λ _ v k. Stays-trans s u v waited k)
              (wait_serial-Stays polls env u (ground (arith, h))))
      | inr e ↦
          subst
            (λ c.
              Ends
                ((elim c as (λ x. M (Unit {0})) [
                  | true ↦ call (delay 10) >> wait_serial polls
                  | false ↦ done
                ])
                  env t)
                λ _ v. Stays buses s v)
            (sym e) asked
    ]

pub start_buses-Stays :
    (polls : ℕ) (env : Env) (s : State)
    → ((past : History) → opens_within polls env past ≡ true)
    → Ends (start_buses polls env s) λ _ t. Stays buses s t
unfolding start_buses
start_buses-Stays polls env s h =
    let t = record s {
      calls = s.calls ◂ delay 1000 ◂ serial_begin 9600 ◂ wire_begin wire ◂ wire_begin wire1;
    } in
    let begun : Stays buses s t = record { calls = search (more, same); kept = refl } in
    Ends-bind (wait_serial polls)
      (λ _. do
        say (str "\nI2C Initialized")
        call (delay 100)
        call spi_begin
        call (delay 100)
        say (str "\nSPI Initialized")
        call (digital_write en_pin high)
        call (delay 10)
        call (digital_write nreset low)
        call (delay 10)
        call (digital_write nreset high)
        call (delay 10))
      _ _ env t (wait_serial-Stays polls env t (h t.calls))
      λ _ u k.
        Stays-trans s t _ begun
          (Stays-trans t u _ k (record { calls = search (more, same) depth 15; kept = refl }))
