-- ===== src/MotorDriver/Order.antt =====
-- Requests to different motor drivers in any order.
use mathlib.Core.Path.{fun_ext}
use mathlib.Core.Quot
use mathlib.Core.Quot.{Quot}
use quad_bot_code_actuation.Prelude.{
  ℕ, ◌^◌, ◌≡◌, refl, sym, ap, ◌∙◌, Bool, false, ◌&&◌, List, [], ◌∷◌, ◌==◌, if◌then◌else◌,
  Bool-cases, inl, inr, arith,
}
use quad_bot_code_actuation.Board.{State, Env, Ends, Ends_weaken}
use quad_bot_code_actuation.I2cMux.Selection.{IsInSync}
use quad_bot_code_actuation.MotorDriver.Registers.{Registers, registers_of, write}
use quad_bot_code_actuation.MotorDriver.Commands.{
  Command, init, stop, regulate, variable_move, default_move, set_speeds, Request, AllValid, effect,
  effect_of, effects, perform_all, perform_all-effects,
}

-- The request goes to this chip, with this control byte in the multiplexer.
abbrev pub is_for : ℕ → ℕ → Request → Bool
is_for ctl chip r = (2 ^ r.channel == ctl) && (r.chip == chip)

-- The requests to one chip, in their order.
abbrev pub lane : ℕ → ℕ → List Request → List Request
lane ctl chip [] = []
lane ctl chip (r ∷ rs) = let rest = lane ctl chip rs in if is_for ctl chip r then r ∷ rest else rest

-- Each chip gets the same requests in the same order.
abbrev pub SameLanes : List Request → List Request → Type 0
SameLanes rs ss = (ctl chip : ℕ) → lane ctl chip rs ≡ lane ctl chip ss

effect_elsewhere :
    (c : Command) (k a ctl chip q : ℕ) (x : Registers)
    → ((k == ctl) && (a == chip)) ≡ false
    → effect c (write k a) x ctl chip q ≡ x ctl chip q
effect_elsewhere init k a ctl chip q x h = ground arith
effect_elsewhere stop k a ctl chip q x h = ground arith
effect_elsewhere (regulate b) k a ctl chip q x h = ground arith
effect_elsewhere (variable_move speed d) k a ctl chip q x h = ground arith
effect_elsewhere (default_move level d) k a ctl chip q x h = ground arith
effect_elsewhere (set_speeds one two) k a ctl chip q x h = ground arith

effect_local :
    (c : Command) (k a ctl chip q : ℕ) (x y : Registers)
    → x ctl chip q ≡ y ctl chip q
    → effect c (write k a) x ctl chip q ≡ effect c (write k a) y ctl chip q
effect_local init k a ctl chip q x y h = ground arith
effect_local stop k a ctl chip q x y h = ground arith
effect_local (regulate b) k a ctl chip q x y h = ground arith
effect_local (variable_move speed d) k a ctl chip q x y h = ground arith
effect_local (default_move level d) k a ctl chip q x y h = ground arith
effect_local (set_speeds one two) k a ctl chip q x y h = ground arith

-- A chip has the registers that its own requests give it.
effects-lane :
    (rs : List Request) (ctl chip q : ℕ) (x y : Registers)
    → x ctl chip q ≡ y ctl chip q
    → effects rs x ctl chip q ≡ effects (lane ctl chip rs) y ctl chip q
effects-lane [] ctl chip q x y h = h
effects-lane (r ∷ rs) ctl chip q x y h = elim (Bool-cases (is_for ctl chip r)) [
  | inl e ↦ rw e (
      effects-lane rs ctl chip q (effect_of r x) (effect_of r y)
        (effect_local r.command (2 ^ r.channel) r.chip ctl chip q x y h))
  | inr e ↦ rw e (
      effects-lane rs ctl chip q (effect_of r x) y
        (effect_elsewhere r.command (2 ^ r.channel) r.chip ctl chip q x e ∙ h))
]

pub effects-SameLanes :
    (rs ss : List Request) → SameLanes rs ss → (x : Registers) → effects rs x ≡ effects ss x
effects-SameLanes rs ss same x = fun_ext λ ctl. fun_ext λ chip. fun_ext λ q.
    effects-lane rs ctl chip q x x refl
    ∙ ap (λ ts. effects ts x ctl chip q) (same ctl chip)
    ∙ sym (effects-lane ss ctl chip q x x refl)

-- Requests, the order between different chips forgotten, and what they do to the registers.
abbrev pub Batch : Type 0
Batch = Quot SameLanes

pub Registers_set : IsSet Registers
Registers_set = hlevel

unfoldable pub carry : Registers → Batch → Registers
carry x = Quot.lift Registers_set (λ rs. effects rs x) λ rs ss h. effects-SameLanes rs ss h x

perform_all-carry :
    (rs : List Request) (env : Env) (s : State)
    → AllValid rs
    → IsInSync s
    → Ends (perform_all rs env s) λ _ t. registers_of t ≡ carry (registers_of s) (Quot.mk rs)
unfolding carry
perform_all-carry rs env s v i =
    Ends_weaken (perform_all rs env s) _ _ (λ _ t p. p.1) (perform_all-effects rs env s v i)

-- Two sequences of valid requests that send each chip the same requests in the same order, however the
-- chips take turns in them and whatever the devices answer, both return and leave all motor drivers with
-- the same registers.
pub perform_all-SameLanes :
    (rs ss : List Request) (e f : Env) (s : State)
    → SameLanes rs ss
    → AllValid rs
    → AllValid ss
    → IsInSync s
    → Ends
        (perform_all rs e s)
        λ _ t. Ends (perform_all ss f s) λ _ u. registers_of t ≡ registers_of u
perform_all-SameLanes rs ss e f s same v w i =
    Ends_weaken (perform_all rs e s) _ _
      (λ _ t p.
        Ends_weaken (perform_all ss f s) _ _
          (λ _ u q. p ∙ ap (carry (registers_of s)) (Quot.sound same) ∙ sym q)
          (perform_all-carry ss f s w i))
      (perform_all-carry rs e s v i)
