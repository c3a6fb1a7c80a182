-- ===== src/MotorDriver/Misdirected.antt =====
-- What happens on a channel that the multiplexer does not have.
use quad_bot_code_actuation.Prelude.{
  ℕ, ◌-◌, ◌^◌, ◌<◌, ◌≡◌, ◌≢◌, Bool, true, false, lt→ltb, if◌then◌else◌, CString, str, refl, [],
}
use quad_bot_code_actuation.Prelude.Int.{pos}
use quad_bot_code_actuation.Board.{
  State, Env, M, Ends, Ends-bind, Ends_both, ◌>>◌, Past, println, text, History, wire,
  begin_transmission, wire_write, end_transmission, ◌◂◌,
}
use quad_bot_code_actuation.Board.Traffic.{i2c_mux_address, messages}
use quad_bot_code_actuation.I2c.{i2c_wr_register}
use quad_bot_code_actuation.I2cMux.{i2c_select_channel}
use quad_bot_code_actuation.I2cMux.Selection.{IsInSync}
use quad_bot_code_actuation.MotorDriver.{variable_motion_control}
use quad_bot_code_actuation.MotorDriver.Registers.{registers_of, write, Wrote, write-Wrote}

refused-Wrote :
    (channel active : ℕ) (env : Env) (s : State)
    → 7 < channel
    → IsInSync s
    → s.current_channel ≡ pos active
    → Ends (i2c_select_channel i2c_mux_address channel env s) λ _ t. Wrote active (λ x. x) s t
unfolding i2c_select_channel registers_of messages
refused-Wrote channel active env s h i e = rw (lt→ltb 7 channel h) (record {
  sync = record { channel = i.channel; same = i.same };
  selected = e;
  registers = λ _. registers_of s;
})

-- The last write of `variableMotionControl`.
abbrev set_direction : ℕ → Bool → M (Unit {0})
set_direction chip d = if d then i2c_wr_register chip 0x07 0xc4 else i2c_wr_register chip 0x07 0xd1

moved :
    (channel active chip speed : ℕ) (direction : Bool) (env : Env) (s : State)
    → 7 < channel
    → s.current_channel ≡ pos active
    → chip ≢ i2c_mux_address
    → IsInSync s
    → Ends (variable_motion_control channel chip speed direction env s) λ _ t.
      Wrote active
        (λ x.
          write
            (2 ^ active)
            chip
            0x07
            (if direction then 0xc4 else 0xd1)
            (write (2 ^ active) chip 0x05 (255 - speed) x))
        s
        t
unfolding variable_motion_control
moved channel active chip speed direction env s h e n i =
    Ends-bind (i2c_select_channel i2c_mux_address channel)
      (λ _. i2c_wr_register chip 0x05 (255 - speed) >> set_direction chip direction) _ _ env s
      (refused-Wrote channel active env s h i e)
      λ _ t w.
        Ends-bind (i2c_wr_register chip 0x05 (255 - speed)) (λ _. set_direction chip direction) _ _
          env t (write-Wrote active chip n s 0x05 (255 - speed) env _ t w)
          λ _ u v. last direction u v
  where
    last :
        (d : Bool) (u : State)
        → Wrote active (write (2 ^ active) chip 0x05 (255 - speed)) s u
        → Ends (set_direction chip d env u) λ _ t.
          Wrote active
            (λ x.
              write
                (2 ^ active)
                chip
                0x07
                (if d then 0xc4 else 0xd1)
                (write (2 ^ active) chip 0x05 (255 - speed) x))
            s
            t
    last true u v = write-Wrote active chip n s 0x07 0xc4 env _ u v
    last false u v = write-Wrote active chip n s 0x07 0xd1 env _ u v

abbrev pub invalid_channel : CString
invalid_channel = str "\nError: Invalid channel requested! Must be between 0 and 7."

-- The calls of the two writes of a move.
abbrev sent_moves : ℕ → ℕ → ℕ → History
sent_moves chip speed direction =
    []
    ◂ begin_transmission wire chip
    ◂ wire_write wire 0x05
    ◂ wire_write wire (255 - speed)
    ◂ end_transmission wire true
    ◂ begin_transmission wire chip
    ◂ wire_write wire 0x07
    ◂ wire_write wire direction
    ◂ end_transmission wire true

-- The report that the channel does not exist comes first.
reported :
    (channel chip speed : ℕ) (direction : Bool) (env : Env) (s : State)
    → 7 < channel
    → Ends
        (variable_motion_control channel chip speed direction env s)
        λ _ t. Past (s.calls ◂ println (text invalid_channel)) t.calls
unfolding variable_motion_control i2c_select_channel i2c_wr_register
reported channel chip speed true env s h =
    rw (lt→ltb 7 channel h) (sent_moves chip speed 0xc4, refl)
reported channel chip speed false env s h =
    rw (lt→ltb 7 channel h) (sent_moves chip speed 0xd1, refl)

-- A move on a channel above 7, after a channel was selected and with the multiplexer in step, to a chip
-- that is not the multiplexer: it is first reported on the serial port as an invalid channel and then
-- still sent, and it sets the registers of a move on the channel that was selected before.
pub variable_motion_control_misdirected :
    (channel active chip speed : ℕ) (direction : Bool) (env : Env) (s : State)
    → 7 < channel
    → s.current_channel ≡ pos active
    → chip ≢ i2c_mux_address
    → IsInSync s
    → Ends (variable_motion_control channel chip speed direction env s) λ _ t.
      Past (s.calls ◂ println (text invalid_channel)) t.calls
      × Wrote active
          (λ x.
            write
              (2 ^ active)
              chip
              0x07
              (if direction then 0xc4 else 0xd1)
              (write (2 ^ active) chip 0x05 (255 - speed) x))
          s
          t
variable_motion_control_misdirected channel active chip speed direction env s h e n i =
    Ends_both (variable_motion_control channel chip speed direction env s) _ _
      (reported channel chip speed direction env s h)
      (moved channel active chip speed direction env s h e n i)
