-- ===== src/Isolation/Steps.antt =====
-- Sequences of operations of any part, and the offset of an encoder through them.
use quad_bot_code_actuation.Prelude.{
  ℕ, ◌≤◌, ◌<◌, ◌≡◌, ◌≢◌, refl, sym, subst, ap, ◌∙◌, Bool, true, false, List, [], ◌∷◌, arith, ◌==◌,
  ◌⊎◌, inl, inr, get_elem?, get_elem?-set_ne,
}
use quad_bot_code_actuation.Board.{
  State, Env, M, Run, Fault, ok, fault, Ends, Ends_weaken, done, ◌>>◌, ◌>>=◌,
}
use quad_bot_code_actuation.Board.Frames.{
  Part, motors, encoders, battery, signal, power, console, buses, others, After, After_weaken,
  After_then,
}
use quad_bot_code_actuation.Encoder.{read_encoder_position, read_turns, reset_encoder}
use quad_bot_code_actuation.SpiMux.{activate_mux, deactivate_mux}
use quad_bot_code_actuation.Encoder.Position.{position}
use quad_bot_code_actuation.Encoder.Operations.{
  HasOffsets, offset_of, read_encoder_position-Reading,
}
use quad_bot_code_actuation.Encoder.Reset.{reset_encoder-WasReset}
use quad_bot_code_actuation.Encoder.Offsets.{WasReset-HasOffsets, encoder_out_of_bounds}
use quad_bot_code_actuation.Main.Ready.{HasOffsets-eq}
use quad_bot_code_actuation.Operations.{Operation, position as position_of, turns, reset, perform}
use quad_bot_code_actuation.Isolation.{IsIsolated, perform-IsIsolated}

-- Any operation of the firmware.
pub data Step : Type 0 where
  step : {p : Part} → Operation p → Step

abbrev pub run_step : Step → M (Unit {0})
run_step (step o) = perform o >>= λ _. done

unfoldable pub run_steps : List Step → M (Unit {0})
unfolding perform
run_steps [] = done
run_steps (x ∷ xs) = run_step x >> run_steps xs

abbrev resets_in : (channel : ℕ) {p : Part} → Operation p → Bool
resets_in channel (reset k) = k == channel
resets_in channel _ = false

abbrev pub resets : ℕ → Step → Bool
resets channel (step o) = resets_in channel o

abbrev pub NoneResets : ℕ → List Step → Type 0
NoneResets channel [] = Unit
NoneResets channel (x ∷ xs) = (resets channel x ≡ false) × NoneResets channel xs

-- The offset of the channel stays.
pub record KeepsOffset (channel : ℕ) (s t : State) : Type 0 where
  pub sound : HasOffsets t
  pub same : get_elem? t.offsets channel ≡ get_elem? s.offsets channel

of_Ends : {A : Type 0} (r : Run A) (P : A → State → Type 0) → Ends r P → After r P
of_Ends (ok a t) P h = h
of_Ends (fault x) P h = tt

of_fault : {A : Type 0} (r : Run A) (P : A → State → Type 0) (x : Fault) → r ≡ fault x → After r P
of_fault r P x e = subst (λ q. After q P) (sym e) tt

exists : (k : ℕ) → (k ≤ 15) ⊎ (15 < k)
exists k = ground arith

-- The parts other than the encoders leave the offsets alone.
abbrev keeps_offsets : Part → Bool
keeps_offsets encoders = false
keeps_offsets _ = true

offsets_kept :
    (p : Part) (s t : State)
    → keeps_offsets p ≡ true
    → others p t ≡ others p s
    → t.offsets ≡ s.offsets
offsets_kept motors s t h e = ap (λ u. u.offsets) e
offsets_kept console s t h e = ap (λ u. u.offsets) e
offsets_kept encoders s t h e = cc
offsets_kept battery s t h e = ap (λ u. u.offsets) e
offsets_kept signal s t h e = ap (λ u. u.offsets) e
offsets_kept power s t h e = ap (λ u. u.offsets) e
offsets_kept buses s t h e = ap (λ u. u.offsets) e

same_offsets :
    (channel : ℕ) (s t : State) → HasOffsets s → t.offsets ≡ s.offsets → KeepsOffset channel s t
same_offsets channel s t w e = record {
  sound = HasOffsets-eq s t e w;
  same = ap (λ xs. get_elem? xs channel) e;
}

turns-offsets :
    (k : ℕ) (env : Env) (s : State) → After (read_turns k env s) λ _ t. t.offsets ≡ s.offsets
unfolding read_turns activate_mux deactivate_mux
turns-offsets k env s = ground arith

position-offsets :
    (k : ℕ) (env : Env) (s : State)
    → HasOffsets s
    → After (read_encoder_position k env s) λ _ t. t.offsets ≡ s.offsets
position-offsets k env s w = elim (exists k) [
  | inl h ↦
      let (o, e) = offset_of s.offsets k (omega (arith, w.count)) in
      of_Ends (read_encoder_position k env s) _ (
        Ends_weaken (read_encoder_position k env s) _ _ (λ d t (hi, lo, r). r.read.kept)
          (read_encoder_position-Reading k o env s h e))
  | inr h ↦ of_fault _ _ _ (encoder_out_of_bounds k env s h w).0
]

reset-KeepsOffset :
    (channel k : ℕ) (env : Env) (s : State)
    → k ≢ channel
    → HasOffsets s
    → After (reset_encoder k env s) λ _ t. KeepsOffset channel s t
reset-KeepsOffset channel k env s n w = elim (exists k) [
  | inl h ↦
      let (o, e) = offset_of s.offsets k (omega (arith, w.count)) in
      of_Ends (reset_encoder k env s) _ (
        Ends_weaken (reset_encoder k env s) _ _
          (λ _ t (hi, lo, r). record {
            sound = WasReset-HasOffsets env k hi lo s t w r;
            same =
                ap (λ xs. get_elem? xs channel) r.stored
                ∙ get_elem?-set_ne s.offsets (position hi lo) n;
          })
          (reset_encoder-WasReset k o env s h e))
  | inr h ↦ of_fault _ _ _ (encoder_out_of_bounds k env s h w).1
]

elsewhere-KeepsOffset :
    (p : Part) (channel : ℕ) (o : Operation p) (env : Env) (s : State)
    → keeps_offsets p ≡ true
    → HasOffsets s
    → After (perform o env s) λ _ t. KeepsOffset channel s t
elsewhere-KeepsOffset p channel o env s h w =
    After_weaken (perform o env s) (λ _ t. IsIsolated p s t) _
      (λ _ t i. same_offsets channel s t w (offsets_kept p s t h i.variables))
      (perform-IsIsolated o env s s).0

encoders-KeepsOffset :
    (channel : ℕ) (o : Operation encoders) (env : Env) (s : State)
    → resets_in channel o ≡ false
    → HasOffsets s
    → After (perform o env s) λ _ t. KeepsOffset channel s t
unfolding perform
encoders-KeepsOffset channel (position_of k) env s n w =
    After_weaken (read_encoder_position k env s) _ _ (λ _ t. same_offsets channel s t w)
      (position-offsets k env s w)
encoders-KeepsOffset channel (turns k) env s n w =
    After_weaken (read_turns k env s) _ _ (λ _ t. same_offsets channel s t w)
      (turns-offsets k env s)
encoders-KeepsOffset channel (reset k) env s n w =
    reset-KeepsOffset channel k env s (ground (arith, n)) w

-- A step that does not reset the channel keeps its offset.
perform-KeepsOffset :
    (p : Part) (channel : ℕ) (o : Operation p) (env : Env) (s : State)
    → resets_in channel o ≡ false
    → HasOffsets s
    → After (perform o env s) λ _ t. KeepsOffset channel s t
perform-KeepsOffset encoders channel o env s n w = encoders-KeepsOffset channel o env s n w
perform-KeepsOffset motors channel o env s n w = elsewhere-KeepsOffset motors channel o env s refl w
perform-KeepsOffset battery channel o env s n w =
    elsewhere-KeepsOffset battery channel o env s refl w
perform-KeepsOffset signal channel o env s n w = elsewhere-KeepsOffset signal channel o env s refl w
perform-KeepsOffset power channel o env s n w = elsewhere-KeepsOffset power channel o env s refl w
perform-KeepsOffset console channel o env s n w =
    elsewhere-KeepsOffset console channel o env s refl w
perform-KeepsOffset buses channel o env s n w = elsewhere-KeepsOffset buses channel o env s refl w

step-KeepsOffset :
    (channel : ℕ) (x : Step) (env : Env) (s : State)
    → resets channel x ≡ false
    → HasOffsets s
    → After (run_step x env s) λ _ t. KeepsOffset channel s t
step-KeepsOffset channel (step {p} o) env s n w =
    After_then (perform o env s) (λ _ t. ok tt t) (λ _ t. KeepsOffset channel s t) _
      (perform-KeepsOffset p channel o env s n w) λ _ t k. k

pub steps-KeepsOffset :
    (channel : ℕ) (xs : List Step) (env : Env) (s : State)
    → NoneResets channel xs
    → HasOffsets s
    → After (run_steps xs env s) λ _ t. KeepsOffset channel s t
unfolding run_steps
steps-KeepsOffset channel [] env s n w = record { sound = w; same = refl }
steps-KeepsOffset channel (x ∷ xs) env s n w =
    After_then (run_step x env s) (λ _ t. run_steps xs env t) (λ _ t. KeepsOffset channel s t) _
      (step-KeepsOffset channel x env s n.0 w)
      λ _ t k.
        After_weaken (run_steps xs env t) _ _
          (λ _ u q. record { sound = q.sound; same = q.same ∙ k.same })
          (steps-KeepsOffset channel xs env t n.1 k.sound)
