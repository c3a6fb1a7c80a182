-- ===== src/Board/Frames/Rules.antt =====
-- Code that keeps to its part, with a rule for each form that it is written in.
use quad_bot_code_actuation.Prelude.{
  subst, sym, ap, ◌∙◌, refl, ◌≡◌, Bool, true, false, Option, none, some, if◌then◌else◌,
}
use quad_bot_code_actuation.Board.{
  Call, ◌◂◌, State, Env, Run, Ends, ok, fault, Fault, M, pure, fail, when, require, call, ask,
  ◌>>=◌,
}
use quad_bot_code_actuation.Board.Frames.Parts.{
  Part, allowed, graft, regraft, graft-call, graft-calls, same, more, Stays, Stays-refl,
  Stays-trans, others-calls,
}

-- What holds of a run that returns; a run that faults has no state afterwards.
abbrev pub After : {A : Type 0} → Run A → (A → State → Type 0) → Type 0
After (ok a t) P = P a t
After (fault x) P = Unit

pub After_then :
    {A B : Type 0} (r : Run A) (k : A → State → Run B) (P : A → State → Type 0)
    (Q : B → State → Type 0)
    → After r P
    → ((a : A) (t : State) → P a t → After (k a t) Q)
    → After (elim r [ ok a t ↦ k a t | fault x ↦ fault x ]) Q
After_then (ok a t) k P Q h next = next a t h
After_then (fault x) k P Q h next = tt

pub After_weaken :
    {A : Type 0} (r : Run A) (P Q : A → State → Type 0)
    → ((a : A) (t : State) → P a t → Q a t)
    → After r P
    → After r Q
After_weaken (ok a t) P Q f h = f a t h
After_weaken (fault x) P Q f h = tt

pub of_After :
    {A : Type 0} (r : Run A) (P : A → State → Type 0) (a : A) (t : State)
    → After r P
    → r ≡ ok a t
    → P a t
of_After r P a t h e = subst (λ x. After x P) e h

-- A run that returns, with what holds of it then.
pub Ends_after :
    {A : Type 0} (r : Run A) (P Q : A → State → Type 0)
    → Ends r P
    → After r Q
    → Ends r (λ a t. P a t × Q a t)
Ends_after (ok a t) P Q h k = (h, k)
Ends_after (fault x) P Q h k = h

-- Whenever the code returns, it has kept to its part; and what it returns and does is the same
-- whatever the variables of the other parts are.
pub record Keeps (p : Part) {A : Type 0} (m : M A) : Type 0 where
  pub run : (env : Env) (s : State) → After (m env s) λ _ t. Stays p s t
  pub local : (env : Env) (s v : State) → m env (graft p s v) ≡ regraft p v (m env s)

-- The code that follows is run on the grafted states too.
local_then :
    {A B : Type 0} (p : Part) (r : Run A) (k : A → M B) (env : Env) (v : State)
    → ((a : A) (t : State) → k a env (graft p t v) ≡ regraft p v (k a env t))
    → (elim (regraft p v r) as (λ x. Run B) [ ok a t ↦ k a env t | fault x ↦ fault x ])
      ≡ regraft p v (elim r as (λ x. Run B) [ ok a t ↦ k a env t | fault x ↦ fault x ])
local_then p (ok a t) k env v h = h a t
local_then p (fault x) k env v h = refl

module _ {p : Part} where
  infixr 1 ◌⨾◌
  pub ◌⨾◌ :
      {A B : Type 0} {m : M A} {k : A → M B}
      → Keeps p m
      → ((a : A) → Keeps p (k a))
      → Keeps p (m >>= k)
  ◌⨾◌ {B = B} {m = m} {k = k} h next = record {
    run = λ env s.
        After_then (m env s) (λ a t. k a env t) (λ _ t. Stays p s t) (λ _ u. Stays p s u)
          (h.run env s)
          λ a t x.
            After_weaken (k a env t) (λ _ u. Stays p t u) (λ _ u. Stays p s u)
              (λ _ u y. Stays-trans s t u x y) ((next a).run env t);
    local = λ env s v.
        ap (λ r. elim r as (λ x. Run B) [ ok a t ↦ k a env t | fault x ↦ fault x ])
          (h.local env s v)
        ∙ local_then p (m env s) k env v λ a t. (next a).local env t v;
  }

  pub Keeps-pure : {A : Type 0} (a : A) → Keeps p (pure a)
  Keeps-pure a = record { run = λ env s. Stays-refl p s; local = λ env s v. refl }

  pub Keeps-fail : {A : Type 0} (x : Fault) → Keeps p {A = A} (fail x)
  Keeps-fail x = record { run = λ env s. tt; local = λ env s v. refl }

  pub Keeps-call : (c : Call) → allowed p c ≡ true → Keeps p (call c)
  Keeps-call c h = record {
    run = λ env s. record { calls = more h same; kept = others-calls p s (s.calls ◂ c) };
    local = λ env s v.
        ap (λ h. ok tt (record (graft p s v) { calls = h ◂ c })) (graft-calls p s v)
        ∙ ap (ok tt) (sym (graft-call p s v (s.calls ◂ c)));
  }

  pub Keeps-ask : (c : Call) → allowed p c ≡ true → Keeps p (ask c)
  Keeps-ask c h = record {
    run = λ env s. record { calls = more h same; kept = others-calls p s (s.calls ◂ c) };
    local = λ env s v.
        ap (λ h. ok (env (h ◂ c)) (record (graft p s v) { calls = h ◂ c })) (graft-calls p s v)
        ∙ ap (ok (env (s.calls ◂ c))) (sym (graft-call p s v (s.calls ◂ c)));
  }

  pub Keeps-if :
      {A : Type 0} {m k : M A} (b : Bool) → Keeps p m → Keeps p k → Keeps p (if b then m else k)
  Keeps-if true h k = h
  Keeps-if false h k = k

  pub Keeps-elim :
      {A : Type 0} (m k : M A) (b : Bool)
      → Keeps p m
      → Keeps p k
      → Keeps p (elim b as (λ x. M A) [ true ↦ m | false ↦ k ])
  Keeps-elim m k true h g = h
  Keeps-elim m k false h g = g

  pub Keeps-when : {m : M (Unit {0})} (b : Bool) → Keeps p m → Keeps p (when b m)
  Keeps-when true h = record { run = λ env s. h.run env s; local = λ env s v. h.local env s v }
  Keeps-when false h = record { run = λ env s. Stays-refl p s; local = λ env s v. refl }

  pub Keeps-require : (b : Bool) → Keeps p (require b)
  Keeps-require true = record { run = λ env s. Stays-refl p s; local = λ env s v. refl }
  Keeps-require false = record { run = λ env s. tt; local = λ env s v. refl }

  pub Keeps-option :
      {A B : Type 0} (m : M B) (f : A → M B) (o : Option A)
      → Keeps p m
      → ((a : A) → Keeps p (f a))
      → Keeps p (λ env s. elim o as (λ x. Run B) [ none ↦ m env s | some a ↦ f a env s ])
  Keeps-option m f none h k = record {
    run = λ env s. h.run env s;
    local = λ env s v. h.local env s v;
  }
  Keeps-option m f (some a) h k = record {
    run = λ env s. (k a).run env s;
    local = λ env s v. (k a).local env s v;
  }
