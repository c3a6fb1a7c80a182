-- ===== src/Main/Interrupts/Blind.antt =====
-- The main program neither reads nor writes the variables of the ready signal.
use quad_bot_code_actuation.Prelude.{◌≡◌, refl, sym, ap, ◌∙◌, Bool, true, false, if◌then◌else◌}
use quad_bot_code_actuation.Board.{
  Call, micros, State, Env, M, Run, ok, fault, Fault, pure, fail, call, ask, ◌>>=◌,
}
use quad_bot_code_actuation.Board.Frames.{
  Part, motors, encoders, battery, signal, power, console, buses, allowed, others, graft, regraft,
  Stays, After, Keeps,
}

-- A state with the signal's variables of another.
abbrev pub noted : State → State → State
noted s v = record s {
  bms_data_ready = v.bms_data_ready;
  bms_data_timestamp = v.bms_data_timestamp;
}

abbrev pub renoted : {A : Type 0} → State → Run A → Run A
renoted v (ok a t) = ok a (noted t v)
renoted v (fault x) = fault x

pub record IsBlind {A : Type 0} (m : M A) : Type 0 where
  pub runs : (env : Env) (s v : State) → m env (noted s v) ≡ renoted v (m env s)

blind_then :
    {A B : Type 0} (r : Run A) (k : A → M B) (env : Env) (v : State)
    → ((a : A) (t : State) → k a env (noted t v) ≡ renoted v (k a env t))
    → (elim (renoted v r) as (λ x. Run B) [ ok a t ↦ k a env t | fault x ↦ fault x ])
      ≡ renoted v (elim r as (λ x. Run B) [ ok a t ↦ k a env t | fault x ↦ fault x ])
blind_then (ok a t) k env v h = h a t
blind_then (fault x) k env v h = refl

infixr 1 ◌▸◌
pub ◌▸◌ :
    {A B : Type 0} {m : M A} {k : A → M B}
    → IsBlind m
    → ((a : A) → IsBlind (k a))
    → IsBlind (m >>= k)
◌▸◌ {B = B} {m = m} {k = k} h next = record {
  runs = λ env s v.
      ap (λ r. elim r as (λ x. Run B) [ ok a t ↦ k a env t | fault x ↦ fault x ]) (h.runs env s v)
      ∙ blind_then (m env s) k env v λ a t. (next a).runs env t v;
}

pub IsBlind-pure : {A : Type 0} (a : A) → IsBlind (pure a)
IsBlind-pure a = record { runs = λ env s v. refl }

pub IsBlind-fail : {A : Type 0} (x : Fault) → IsBlind {A = A} (fail x)
IsBlind-fail x = record { runs = λ env s v. refl }

pub IsBlind-call : (c : Call) → IsBlind (call c)
IsBlind-call c = record { runs = λ env s v. refl }

pub IsBlind-ask : (c : Call) → IsBlind (ask c)
IsBlind-ask c = record { runs = λ env s v. refl }

pub IsBlind-if :
    {A : Type 0} {m k : M A} (b : Bool) → IsBlind m → IsBlind k → IsBlind (if b then m else k)
IsBlind-if true h k = h
IsBlind-if false h k = k

pub IsBlind-elim :
    {A : Type 0} (m k : M A) (b : Bool)
    → IsBlind m
    → IsBlind k
    → IsBlind (elim b as (λ x. M A) [ true ↦ m | false ↦ k ])
IsBlind-elim m k true h g = h
IsBlind-elim m k false h g = g

-- A part that leaves the signal's variables alone does not read them.
graft-noted :
    (p : Part) (s t v : State)
    → allowed p micros ≡ false
    → others p t ≡ others p s
    → graft p t (noted s v) ≡ noted t v
graft-noted motors s t v h e = ap (λ u. graft motors t (noted u v)) (sym e)
graft-noted console s t v h e = ap (λ u. graft console t (noted u v)) (sym e)
graft-noted encoders s t v h e = ap (λ u. graft encoders t (noted u v)) (sym e)
graft-noted battery s t v h e = ap (λ u. graft battery t (noted u v)) (sym e)
graft-noted signal s t v h e = cc
graft-noted power s t v h e = ap (λ u. graft power t (noted u v)) (sym e)
graft-noted buses s t v h e = ap (λ u. graft buses t (noted u v)) (sym e)

graft_self : (p : Part) (s v : State) → allowed p micros ≡ false → graft p s (noted s v) ≡ noted s v
graft_self p s v h = graft-noted p s s v h refl

pub Keeps-IsBlind :
    {A : Type 0} {m : M A} (p : Part) → allowed p micros ≡ false → Keeps p m → IsBlind m
Keeps-IsBlind {m = m} p h k = record {
  runs = λ env s v.
      ap (m env) (sym (graft_self p s v h))
      ∙ k.local env s (noted s v)
      ∙ kept s v (m env s) (k.run env s);
}
  where
    kept :
        {A : Type 0} (s v : State) (r : Run A)
        → (After r λ _ t. Stays p s t)
        → regraft p (noted s v) r ≡ renoted v r
    kept s v (ok a t) w = ap (ok a) (graft-noted p s t v h w.kept)
    kept s v (fault x) w = refl
