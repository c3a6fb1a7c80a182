-- ===== src/I2c/Waiting.antt =====
-- The busy wait of I2C_FCT.cpp: it ends as soon as data is there, and never when none comes.
use quad_bot_code_actuation.Prelude.{
  ℕ, zero, suc, ◌≡◌, refl, sym, subst, ap, ◌∙◌, Bool, true, false, ◌==◌, if◌then◌else◌, Bool-cases,
  inl, inr, arith,
}
use quad_bot_code_actuation.Board.{
  State, Env, History, Bus, wire_available, ◌◂◌, Ends, Ends_weaken, fault, hangs, M, done,
}
use quad_bot_code_actuation.I2c.{wait_available}

-- Whether one of the next polls finds data.
unfoldable pub ready_within : ℕ → Env → Bus → History → Bool
ready_within zero env b past = false
ready_within (suc polls) env b past =
    let later = ready_within polls env b (past ◂ wire_available b) in
    if env (past ◂ wire_available b) == 0 then later else true

-- The history after some polls.
abbrev pub polled : ℕ → Bus → History → History
polled zero b past = past
polled (suc k) b past = polled k b (past ◂ wire_available b)

-- When one of the polls finds data, the wait ends, having done nothing but poll.
pub wait_available_ready :
    (polls : ℕ) (b : Bus) (env : Env) (s : State)
    → ready_within polls env b s.calls ≡ true
    → Ends
        (wait_available polls b env s)
        λ _ t. (k : ℕ) × (t ≡ record s { calls = polled k b s.calls })
unfolding ready_within wait_available
wait_available_ready zero b env s h = cc
wait_available_ready (suc polls) b env s h =
    let t = record s { calls = s.calls ◂ wire_available b } in
    elim (Bool-cases (env t.calls == 0)) [
      | inl e ↦
          subst
            (λ c.
              Ends
                ((elim c as (λ x. M (Unit {0})) [ true ↦ wait_available polls b | false ↦ done ])
                  env t)
                λ _ u. (k : ℕ) × (u ≡ record s { calls = polled k b s.calls }))
            (sym e)
            (Ends_weaken (wait_available polls b env t) _ _ (λ _ u (k, q). (suc k, q))
              (wait_available_ready polls b env t (ground (arith, h))))
      | inr e ↦
          subst
            (λ c.
              Ends
                ((elim c as (λ x. M (Unit {0})) [ true ↦ wait_available polls b | false ↦ done ])
                  env t)
                λ _ u. (k : ℕ) × (u ≡ record s { calls = polled k b s.calls }))
            (sym e) (1, refl)
    ]

-- When no poll ever finds data, the wait outlasts every number of polls.
pub wait_available_silent :
    (polls : ℕ) (b : Bus) (env : Env) (s : State)
    → ((past : History) → env (past ◂ wire_available b) ≡ 0)
    → wait_available polls b env s ≡ fault hangs
unfolding wait_available
wait_available_silent zero b env s h = refl
wait_available_silent (suc polls) b env s h =
    let t = record s { calls = s.calls ◂ wire_available b } in
    ap
      (λ n.
        (elim (n == 0) as (λ x. M (Unit {0})) [ true ↦ wait_available polls b | false ↦ done ]) env
          t)
      (h s.calls)
    ∙ wait_available_silent polls b env t h
