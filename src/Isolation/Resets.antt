-- ===== src/Isolation/Resets.antt =====
-- The position of an encoder after a reset, with other operations of the firmware in between.
use quad_bot_code_actuation.Prelude.{
  ℕ, ◌≤◌, ◌≡◌, ap, ◌∙◌, some, List, arith, get_elem?, get_elem?-set_known,
}
use quad_bot_code_actuation.Board.{State, Env, Ends, Ends_weaken}
use quad_bot_code_actuation.Board.Frames.{After, After_weaken}
use quad_bot_code_actuation.Encoder.{read_encoder_position, reset_encoder}
use quad_bot_code_actuation.Encoder.Position.{position}
use quad_bot_code_actuation.Encoder.Operations.{HasOffsets, offset_of}
use quad_bot_code_actuation.Encoder.Reboot.{WasReset}
use quad_bot_code_actuation.Encoder.Reset.{reset_encoder-WasReset}
use quad_bot_code_actuation.Encoder.Offsets.{
  CountedFrom, read_encoder_position_degrees, WasReset-HasOffsets,
}
use quad_bot_code_actuation.Isolation.Steps.{
  Step, run_steps, NoneResets, KeepsOffset, steps-KeepsOffset,
}

reset_known :
    (env : Env) (channel o hi lo : ℕ) (s t : State)
    → get_elem? s.offsets channel ≡ some o
    → WasReset env channel hi lo s t
    → get_elem? t.offsets channel ≡ some (position hi lo)
reset_known env channel o hi lo s t e r =
    ap (λ xs. get_elem? xs channel) r.stored
    ∙ get_elem?-set_known s.offsets channel (position hi lo) e

read-CountedFrom :
    (channel hi lo : ℕ) (env : Env) (s : State)
    → channel ≤ 15
    → HasOffsets s
    → get_elem? s.offsets channel ≡ some (position hi lo)
    → Ends (read_encoder_position channel env s) λ d t. CountedFrom (position hi lo) env s d t
read-CountedFrom channel hi lo env s h w e =
    Ends_weaken (read_encoder_position channel env s) _ _ (λ d t p. p.0)
      (read_encoder_position_degrees channel (position hi lo) env s h w e)

-- A reset of a channel that exists returns and stores the position that it reads. After any operations
-- of the firmware that follow it, motor commands, lines of the serial port, battery and power commands,
-- ready signals and operations on encoders, as long as they return and do not reset this channel: a
-- reading of the channel returns exactly 360 / 4096 degrees for each step from the position that the
-- reset read up to the position that it reads now, around the circle.
pub reset-read_encoder_position :
    (channel : ℕ) (xs : List Step) (env : Env) (s : State)
    → channel ≤ 15
    → HasOffsets s
    → NoneResets channel xs
    → Ends (reset_encoder channel env s) λ _ t.
      (hi : ℕ) × (lo : ℕ) × WasReset env channel hi lo s t
      × After (run_steps xs env t) λ _ u.
        Ends (read_encoder_position channel env u) λ d v. CountedFrom (position hi lo) env u d v
reset-read_encoder_position channel xs env s h w n =
    let (o, e) = offset_of s.offsets channel (omega (arith, w.count)) in
    Ends_weaken (reset_encoder channel env s) _ _
      (λ _ t (hi, lo, r). (
        hi,
        lo,
        r,
        After_weaken (run_steps xs env t) (λ _ u. KeepsOffset channel t u) _
            (λ _ u k.
              read-CountedFrom channel hi lo env u h k.sound
                (k.same ∙ reset_known env channel o hi lo s t e r))
            (steps-KeepsOffset channel xs env t n (WasReset-HasOffsets env channel hi lo s t w r)),
      ))
      (reset_encoder-WasReset channel o env s h e)
