-- ===== src/Encoder/Reset.antt =====
-- `resetEncoder`: the encoder is rebooted, and its position becomes the offset of its channel.
use quad_bot_code_actuation.Prelude.{
  ℕ, ◌≤◌, ◌≡◌, refl, sym, subst, ap, ◌∙◌, some, ◌∷◌, get_elem?, set, get_elem?-set_known, set-set,
}
use quad_bot_code_actuation.Board.{
  State, Env, M, Ends, Ends-bind, Ends_step, ok, fault, ask, call, delay, delay_microseconds,
  begin_transaction, transfer, end_transaction, ◌>>=◌, ◌>>◌,
}
use quad_bot_code_actuation.SpiMux.{activate_mux, deactivate_mux}
use quad_bot_code_actuation.Board.Pins.{selected, exchanges, answers}
use quad_bot_code_actuation.Encoder.{reset_encoder, position_bits, set_offset, read_raw, spi_clock}
use quad_bot_code_actuation.Encoder.Position.{position}
use quad_bot_code_actuation.Encoder.Operations.{Read, read_raw-Read}
use quad_bot_code_actuation.Encoder.Reboot.{
  WasReset, set_offset_known, activated, activate_known, rebooted, cleared, waited,
  waited_exchanges, report, store, reported, report_known, deselected, stored,
}

store_known :
    (channel w o : ℕ) (env : Env) (t : State)
    → get_elem? t.offsets channel ≡ some o
    → store channel w env t
      ≡ ok tt (reported channel (position_bits w) (stored channel (position_bits w) t))
unfolding deactivate_mux
store_known channel w o env t e =
    ap (λ r. elim r [ ok a u ↦ report channel env u | fault x ↦ fault x ])
      (set_offset_known channel (position_bits w) o env (deselected t) e)
    ∙ report_known channel (position_bits w) env (stored channel (position_bits w) t)
        (get_elem?-set_known t.offsets channel (position_bits w) e)

finish :
    (channel w o hi lo : ℕ) (env : Env) (s t : State)
    → channel ≤ 15
    → get_elem? s.offsets channel ≡ some o
    → Read env channel hi lo (waited channel s) t
    → position_bits w ≡ position hi lo
    → WasReset env channel hi lo s
        (reported channel (position_bits w) (stored channel (position_bits w) t))
unfolding answers exchanges selected
finish channel w o hi lo env s t h e r p = record {
  before_first = _;
  before_last = _;
  heard = r.heard;
  sent =
      r.sent ∙ ap (λ x. (some channel, 0) ∷ (some channel, 0) ∷ x) (waited_exchanges channel s h);
  stored =
      ap (λ x. set x channel (position_bits w)) r.kept
      ∙ set-set s.offsets channel 0 (position_bits w)
      ∙ ap (set s.offsets channel) p;
  released = refl;
  flag = r.flag;
}

-- What follows the clearing of the offset, and what follows the activation.
abbrev pub reread : ℕ → M (Unit {0})
reread channel = do call (delay 200); w ← read_raw channel; store channel w

abbrev pub reboot : ℕ → M (Unit {0})
reboot channel = do
  call (delay_microseconds 3)
  call (begin_transaction spi_clock)
  _ ← ask (transfer 0)
  call (delay_microseconds 3)
  _ ← ask (transfer 0x60)
  call (delay_microseconds 3)
  call end_transaction
  deactivate_mux
  set_offset channel 0
  reread channel

reread-WasReset :
    (channel o : ℕ) (env : Env) (s : State)
    → channel ≤ 15
    → get_elem? s.offsets channel ≡ some o
    → Ends
        (reread channel env (cleared channel s))
        λ _ t. (hi : ℕ) × (lo : ℕ) × WasReset env channel hi lo s t
reread-WasReset channel o env s h e =
    Ends-bind (read_raw channel) (store channel) _ _ env (waited channel s)
      (read_raw-Read channel env (waited channel s) h)
      λ w t (hi, lo, r, p).
        subst (λ x. Ends x λ _ t. (hi : ℕ) × (lo : ℕ) × WasReset env channel hi lo s t)
          (sym (
            store_known channel w 0 env t
              (ap (λ x. get_elem? x channel) r.kept ∙ get_elem?-set_known s.offsets channel 0 e)))
          (hi, lo, finish channel w o hi lo env s t h e r p)

-- A reset of a channel that exists sends it the reboot command and then reads it, with no other
-- encoder selected, and stores the position that it reads as the offset of that channel alone.
pub reset_encoder-WasReset :
    (channel o : ℕ) (env : Env) (s : State)
    → channel ≤ 15
    → get_elem? s.offsets channel ≡ some o
    → Ends (reset_encoder channel env s) λ _ t. (hi : ℕ) × (lo : ℕ) × WasReset env channel hi lo s t
unfolding reset_encoder deactivate_mux
reset_encoder-WasReset channel o env s h e =
    Ends_step (activate_mux channel) (λ _. reboot channel) _ env s (activated channel s) tt
      (activate_known channel env s h)
      (Ends_step (set_offset channel 0) (λ _. reread channel) _ env (rebooted channel s)
        (cleared channel s) tt (set_offset_known channel 0 o env (rebooted channel s) e)
        (reread-WasReset channel o env s h e))
